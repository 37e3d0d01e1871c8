-- ===== src/Syscall/Handlers.antt =====
-- lab system calls/kernel/sysproc.c: the handlers of process i. A result of -1 is the uint64 of all
-- ones. sys_sleep and sys_wait run up to the next switch to another process.
use lab_utilities.Base.{
  ℕ, ◌+◌, ◌-◌, ◌%◌, ◌^◌, not, Option, none, some, leb, ltb, ◌==◌, if◌then◌else◌,
}
use lab_utilities.Riscv.{sign_extend}
use lab_utilities.Layout.{Layout}
use lab_utilities.Machine.{tickslock, Cmd, ok, pure, ◌>>=◌, ◌>>◌}
use lab_utilities.Vm.Map.{Status, done, failed}
use lab_utilities.Proc.{World, acquire, release, get_proc}
use lab_utilities.Proc.Sched.{sleep, kill, killed}
use lab_utilities.Proc.Alloc.SystemCalls.{system_calls}
use lab_utilities.Proc.Life.{growproc, fork, exit, Wait, wait}
use lab_utilities.Proc.Access.{trace, sysinf}
use lab_utilities.Syscall.{argint, argaddr}

abbrev pub minus_one : ℕ
minus_one = 2 ^ 64 - 1

-- an int result, as the uint64 that the handler returns
abbrev pub status_value : Status → ℕ
status_value done = 0
status_value failed = minus_one

abbrev pub pid_value : Option ℕ → ℕ
pid_value none = minus_one
pid_value (some pid) = sign_extend pid

unfoldable pub sys_sysinfo : Layout → ℕ → Cmd World ℕ
sys_sysinfo l i = do st ← argaddr i 0; r ← sysinf l i st; pure (status_value r)

unfoldable pub sys_trace : ℕ → Cmd World ℕ
sys_trace i = do mask ← argint i 0; trace i mask; pure 0

-- exit does not return: the result is the saved intena at the switch.
unfoldable pub sys_exit : Layout → ℕ → Cmd World ℕ
sys_exit l i = do n ← argint i 0; exit l i n

unfoldable pub sys_getpid : ℕ → Cmd World ℕ
sys_getpid i = do p ← get_proc i; pure (sign_extend p.pid)

unfoldable pub sys_fork : Layout → ℕ → Cmd World ℕ
sys_fork l i = do r ← fork system_calls l i; pure (pid_value r)

unfoldable pub sys_wait : Layout → ℕ → Cmd World Wait
sys_wait l i = do p ← argaddr i 0; wait system_calls l i p

unfoldable pub sys_sbrk : Layout → ℕ → Cmd World ℕ
sys_sbrk l i = do
  n ← argint i 0
  p ← get_proc i
  r ← growproc l i n
  pure (elim r [ done ↦ p.sz | failed ↦ minus_one ])

-- How a part of sys_sleep ends.
pub data Sleep : Type 0 where
  woke : ℕ → Sleep
  sleeps : ℕ → Sleep

-- One round of its loop; `ticks - ticks0 < n` compares uints.
unfoldable pub sys_sleep_round : Layout → ℕ → ℕ → ℕ → Cmd World Sleep
sys_sleep_round l i ticks0 n = do
  ticks ← (λ w. ok w.clock w)
  if not (ltb ((ticks + 2 ^ 32 - ticks0) % 2 ^ 32) n)
      then (do release tickslock; pure (woke 0))
      else (do
        dead ← killed i
        if not (dead == 0)
            then (do release tickslock; pure (woke minus_one))
            else (do intena ← sleep i l.ticks_addr tickslock; pure (sleeps intena)))

-- A negative argument counts as 0.
unfoldable pub sys_sleep : Layout → ℕ → Cmd World Sleep
sys_sleep l i = do
  arg ← argint i 0
  acquire tickslock
  ticks0 ← (λ w. ok w.clock w)
  sys_sleep_round l i ticks0 (if leb (2 ^ 31) arg then 0 else arg)

unfoldable pub sys_kill : Layout → ℕ → Cmd World ℕ
sys_kill l i = do pid ← argint i 0; r ← kill l pid; pure (status_value r)

unfoldable pub sys_uptime : Cmd World ℕ
sys_uptime = do acquire tickslock; xticks ← (λ w. ok w.clock w); release tickslock; pure xticks
