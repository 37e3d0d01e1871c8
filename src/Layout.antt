-- ===== src/Layout.antt =====
-- The constants of memlayout.h, param.h and the linker script, which the repository leaves to the
-- surrounding kernel: every function that uses one takes the whole record as an argument.
use lab_utilities.Base.{ℕ, List, ◌+◌, ◌%◌, ◌^◌, ◌<◌, ◌≡◌}
use lab_utilities.Riscv.{pgsize}

pub record Layout : Type 0 where
  pub end : ℕ  -- first address after the kernel
  pub phystop : ℕ  -- PHYSTOP
  pub etext : ℕ  -- end of the kernel's code
  pub trampoline_text : ℕ  -- physical address of trampoline.S
  pub uart0 : ℕ
  pub virtio0 : ℕ
  pub plic : ℕ
  pub kernbase : ℕ
  pub trampoline : ℕ  -- TRAMPOLINE, TRAPFRAME, USYSCALL: user virtual addresses
  pub trapframe : ℕ
  pub usyscall : ℕ
  pub kstack : ℕ → ℕ  -- KSTACK
  pub nproc : ℕ  -- NPROC
  pub nofile : ℕ  -- NOFILE
  pub usyscall_pid : ℕ  -- offset of `pid` in struct usyscall
  pub proc_addr : ℕ → ℕ  -- &proc[i], which serves as a sleep channel
  pub xstate_addr : ℕ → ℕ  -- &proc[i].xstate
  pub ticks_addr : ℕ  -- &ticks
  pub bitmask_addr : ℕ  -- &bitmask in pgaccss
  pub sysinfo_addr : ℕ  -- &st in sysinf
  pub sysinfo_freemem : ℕ  -- offsets of the fields of struct sysinfo, and its size
  pub sysinfo_nproc : ℕ
  pub sysinfo_size : ℕ
  pub initcode_addr : ℕ  -- initcode
  pub forkret : ℕ  -- address of forkret
  pub usertrap : ℕ  -- address of usertrap
  pub uservec : ℕ  -- addresses in trampoline.S
  pub userret : ℕ
  pub kernelvec : ℕ
  pub uart0_irq : ℕ
  pub virtio0_irq : ℕ
  pub strlen : (ℕ → ℕ) → ℕ → ℕ  -- strlen, of a memory and an address
  -- What code elsewhere returns: safestrcpy (destination, source, size), namei("/"), filedup, idup.
  pub safestrcpy : List ℕ → List ℕ → ℕ → List ℕ
  pub root_inode : ℕ
  pub filedup : ℕ → ℕ
  pub idup : ℕ → ℕ

-- What the allocator relies on: page 0 is not handed out, physical memory ends at a page and below
-- 2 ^ 56, so that a page-table entry can hold its addresses, and a count of the bytes after the kernel
-- is an `int`. In xv6 memory ends at 0x88000000 and the kernel starts at 0x80000000.
pub record IsLayout (l : Layout) : Type 0 where
  pub above_null : 0 < l.end
  pub whole_pages : l.phystop % pgsize ≡ 0
  pub small : l.phystop < 2 ^ 56
  pub counted : l.phystop < l.end + 2 ^ 31
