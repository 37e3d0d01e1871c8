-- ===== src/Syscall/Dispatch.antt =====
-- The bounds of fetchaddr of lab system calls/kernel/syscall.c.
use lab_utilities.Base.{ℕ, ◌+◌, ◌^◌, ◌≤◌, ◌<◌, ◌≡◌, true, ◌||◌, arith, ltb, leb}
use lab_utilities.Riscv.{u64, maxva}
use lab_utilities.Machine.{ok}
use lab_utilities.Vm.Map.{failed}
use lab_utilities.Proc.{World}
use lab_utilities.Syscall.{fetchaddr}

-- fetchaddr refuses every address whose eight bytes are not all below the process's size, and reads
-- and writes nothing then. A sum that wraps is no way round.
pub fetchaddr-refuses :
    (i addr ip : ℕ) (w : World)
    → addr < 2 ^ 64
    → (w.procs i).sz ≤ maxva
    → (w.procs i).sz < addr + 8
    → fetchaddr i addr ip w ≡ ok failed w
unfolding fetchaddr
fetchaddr-refuses i addr ip w small size out =
    let refused : (leb (w.procs i).sz addr || ltb (w.procs i).sz (u64 (addr + 8))) ≡ true =
      ground arith in
    rw refused
