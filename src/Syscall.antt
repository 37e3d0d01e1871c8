-- ===== src/Syscall.antt =====
-- lab system calls/kernel/syscall.c and sysproc.c: arguments of system calls, the dispatcher with its
-- tracing, and the handlers that concern processes. The handlers of sysfile.c are elsewhere, so the
-- table `syscalls` is an argument of the dispatcher.
pub mod Handlers
pub mod Dispatch
use lab_utilities.Base.{
  ℕ, zero, suc, ◌+◌, ◌-◌, ◌*◌, ◌/◌, ◌%◌, ◌^◌, Bool, true, false, not, ◌&&◌, ◌||◌, bit_and, List, [],
  ◌∷◌, ◌++◌, Option, none, some, leb, ltb, ◌==◌, if◌then◌else◌,
}
use lab_utilities.Riscv.{u64}
use lab_utilities.Layout.{Layout}
use lab_utilities.Machine.{Machine, Cmd, ok, pure, fail, ◌>>=◌, ◌>>◌, when, read64, write64}
use lab_utilities.Vm.Map.{Status, done, failed}
use lab_utilities.Vm.Copy.{copyin, copyinstr}
use lab_utilities.Printf.{Arg, int, str, printf}
use lab_utilities.Proc.{Proc, World, on_machine, get_proc}

-- fetchaddr(addr, ip): both tests are needed, since `addr + 8` may wrap.
unfoldable pub fetchaddr : ℕ → ℕ → ℕ → Cmd World Status
fetchaddr i addr ip = do
  p ← get_proc i
  if leb p.sz addr || ltb p.sz (u64 (addr + 8))
      then pure failed
      else on_machine (copyin p.pagetable ip addr 8)

-- fetchstr(addr, buf, max): the length, or none for -1.
unfoldable pub fetchstr : Layout → ℕ → ℕ → ℕ → ℕ → Cmd World (Option ℕ)
fetchstr l i addr buf max = do
  p ← get_proc i
  r ← on_machine (copyinstr p.pagetable buf addr max)
  elim r [ failed ↦ pure none | done ↦ (λ w. ok (some (l.strlen w.machine.mem buf)) w) ]

-- The registers a0 to a5 and a7 in a trapframe.
abbrev pub tf_arg : ℕ → ℕ
tf_arg n = 112 + 8 * n

abbrev pub tf_a7 : ℕ
tf_a7 = 168

unfoldable pub argraw : ℕ → ℕ → Cmd World ℕ
argraw i n = do
  p ← get_proc i
  if leb n 5 then on_machine (read64 (p.trapframe + tf_arg n)) else fail "argraw"

-- an int argument, in its 32-bit pattern
unfoldable pub argint : ℕ → ℕ → Cmd World ℕ
argint i n = do v ← argraw i n; pure (v % 2 ^ 32)

unfoldable pub argaddr : ℕ → ℕ → Cmd World ℕ
argaddr i n = argraw i n

unfoldable pub argstr : Layout → ℕ → ℕ → ℕ → ℕ → Cmd World (Option ℕ)
argstr l i n buf max = do addr ← argaddr i n; fetchstr l i addr buf max

-- the texts of the two printfs
abbrev traced_format : List ℕ
traced_format =
    b'%' ∷ b'd' ∷ b':' ∷ b' ' ∷ b's' ∷ b'y' ∷ b's' ∷ b'c' ∷ b'a' ∷ b'l' ∷ b'l' ∷ b' ' ∷ b'%' ∷ b's'
    ∷ b' ' ∷ b'-' ∷ b'>' ∷ b' ' ∷ b'%' ∷ b'd' ∷ 10 ∷ []

abbrev unknown_format : List ℕ
unknown_format =
    b'%' ∷ b'd' ∷ b' ' ∷ b'%' ∷ b's' ∷ b':' ∷ b' ' ∷ b'u' ∷ b'n' ∷ b'k' ∷ b'n' ∷ b'o' ∷ b'w' ∷ b'n'
    ∷ b' ' ∷ b's' ∷ b'y' ∷ b's' ∷ b' ' ∷ b'c' ∷ b'a' ∷ b'l' ∷ b'l' ∷ b' ' ∷ b'%' ∷ b'd' ∷ 10 ∷ []

-- NELEM(syscalls): the entries 1 to 23
abbrev pub table_size : ℕ
table_size = 24

-- The parameters of the dispatcher: the table of handlers, the table of names (`hashtable`, from
-- 0 on), the length of a process name as text, and pr.locking.
pub record Table : Type 0 where
  pub handler : ℕ → Option (Cmd World ℕ)
  pub name : ℕ → List ℕ
  pub proc_name : List ℕ → List ℕ
  pub locking : Bool

-- The call of a handler and the line for a traced call.
unfoldable pub call_handler : Table → ℕ → ℕ → Cmd World ℕ → Cmd World (Unit {0})
call_handler t i num handler = do
  p ← get_proc i
  result ← handler
  on_machine (write64 (p.trapframe + tf_arg 0) result)
  q ← get_proc i
  a0 ← on_machine (read64 (p.trapframe + tf_arg 0))
  on_machine (
      when (not (bit_and q.mask (2 ^ num) == 0)) (
        printf t.locking traced_format
          (int q.pid ∷ str (some (t.name (num - 1))) ∷ int (a0 % 2 ^ 32) ∷ [])))

unfoldable pub unknown_call : Table → ℕ → ℕ → Cmd World (Unit {0})
unknown_call t i num = do
  p ← get_proc i
  on_machine
      (printf t.locking unknown_format (int p.pid ∷ str (some (t.proc_name p.name)) ∷ int num ∷ []))
  on_machine (write64 (p.trapframe + tf_arg 0) (2 ^ 64 - 1))

-- `num > 0 && num < NELEM(syscalls) && syscalls[num]`, with `num` an int in its 32-bit pattern
unfoldable pub lookup_handler : Table → ℕ → Option (Cmd World ℕ)
lookup_handler t num = if ltb 0 num && ltb num table_size then t.handler num else none

-- The two branches on the entry of the table.
unfoldable pub dispatch : Table → ℕ → ℕ → Option (Cmd World ℕ) → Cmd World (Unit {0})
dispatch t i num (some handler) = call_handler t i num handler
dispatch t i num none = unknown_call t i num

unfoldable pub syscall : Table → ℕ → Cmd World (Unit {0})
syscall t i = do
  p ← get_proc i
  a7 ← on_machine (read64 (p.trapframe + tf_a7))
  let num = a7 % 2 ^ 32
  dispatch t i num (lookup_handler t num)

-- The dispatcher of lab traps: no call is traced.
unfoldable pub untraced_call : ℕ → Cmd World ℕ → Cmd World (Unit {0})
untraced_call i handler = do
  p ← get_proc i
  result ← handler
  on_machine (write64 (p.trapframe + tf_arg 0) result)

unfoldable pub dispatch_untraced : Table → ℕ → ℕ → Option (Cmd World ℕ) → Cmd World (Unit {0})
dispatch_untraced t i num (some handler) = untraced_call i handler
dispatch_untraced t i num none = unknown_call t i num

unfoldable pub syscall_untraced : Table → ℕ → Cmd World (Unit {0})
syscall_untraced t i = do
  p ← get_proc i
  a7 ← on_machine (read64 (p.trapframe + tf_a7))
  let num = a7 % 2 ^ 32
  dispatch_untraced t i num (lookup_handler t num)
