-- ===== src/Proc/Sched.antt =====
-- kernel/proc.c: scheduler, sched, yield, forkret, sleep, wakeup, kill, setkilled and killed.
--
-- A process leaves the CPU in `sched` and comes back later, when other processes have run. So yield
-- and sleep are two commands each: up to the switch, and from it on.
pub mod Wakeup
pub mod Kill
pub mod Switch
use lab_utilities.Base.{
  ℕ, zero, suc, ◌+◌, Bool, true, false, not, ◌&&◌, Option, none, some, ◌==◌, if◌then◌else◌,
}
use lab_utilities.Layout.{Layout}
use lab_utilities.Machine.{Lock, proc_lock, intr_on, fsinit, Cmd, ok, pure, fail, ◌>>=◌, ◌>>◌, when}
use lab_utilities.Vm.Map.{Status, done, failed}
use lab_utilities.Proc.{
  ProcState, sleeping, runnable, running, Proc, World, note, acquire, release, get_proc, modify,
  is_state, same_proc,
}

abbrev set_current : Option ℕ → Cmd World (Unit {0})
set_current c w = ok tt (record w { current = c })

-- sched of process `i`, up to swtch; the result is the saved intena.
unfoldable pub sched : ℕ → Cmd World ℕ
sched i w =
    if not w.cpu.holding
    then fail "sched p->lock" w
    else if not (w.cpu.noff == 1)
    then fail "sched locks" w
    else if is_state (w.procs i).state running
    then fail "sched running" w
    else if w.cpu.intr
    then fail "sched interruptible" w
    else ok w.cpu.intena w

-- sched from swtch on.
unfoldable pub sched_resume : ℕ → Cmd World (Unit {0})
sched_resume intena w = ok tt (record w { cpu = record w.cpu { intena = intena } })

unfoldable pub yield : ℕ → Cmd World ℕ
yield i = do acquire (proc_lock i); modify i (λ p. record p { state = runnable }); sched i

unfoldable pub yield_resume : ℕ → ℕ → Cmd World (Unit {0})
yield_resume i intena = do sched_resume intena; release (proc_lock i)

-- sleep(chan, lk) of process `i`
unfoldable pub sleep : ℕ → ℕ → Lock → Cmd World ℕ
sleep i chan lk = do
  acquire (proc_lock i)
  release lk
  modify i (λ p. record p { chan = chan; state = sleeping })
  sched i

unfoldable pub sleep_resume : ℕ → Lock → ℕ → Cmd World (Unit {0})
sleep_resume i lk intena = do
  sched_resume intena
  modify i (λ p. record p { chan = 0 })
  release (proc_lock i)
  acquire lk

-- The first switch to a new process. What usertrapret does next is in Trap.
unfoldable pub forkret : ℕ → Cmd World (Unit {0})
forkret i = do
  release (proc_lock i)
  first ← (λ w. ok w.first w)
  when first (note fsinit >> (λ w. ok tt (record w { first = false })))

unfoldable pub wakeup_loop : ℕ → ℕ → ℕ → Cmd World (Unit {0})
wakeup_loop chan zero i = pure tt
wakeup_loop chan (suc n) i = do
  me ← (λ w. ok w.current w)
  when (not (same_proc (some i) me)) (do
    acquire (proc_lock i)
    p ← get_proc i
    when (is_state p.state sleeping && (p.chan == chan))
        (modify i (λ q. record q { state = runnable }))
    release (proc_lock i))
  wakeup_loop chan n (i + 1)

unfoldable pub wakeup : Layout → ℕ → Cmd World (Unit {0})
unfolding wakeup_loop
wakeup l chan = wakeup_loop chan l.nproc 0

-- `p->killed = 1`, and a sleeper is woken.
abbrev pub kill_proc : Proc → Proc
kill_proc p = record p {
  killed = 1;
  state = if is_state p.state sleeping then runnable else p.state;
}

unfoldable pub kill_loop : ℕ → ℕ → ℕ → Cmd World Status
kill_loop pid zero i = pure failed
kill_loop pid (suc n) i = do
  acquire (proc_lock i)
  p ← get_proc i
  if p.pid == pid
      then (do modify i kill_proc; release (proc_lock i); pure done)
      else (do release (proc_lock i); kill_loop pid n (i + 1))

unfoldable pub kill : Layout → ℕ → Cmd World Status
unfolding kill_loop
kill l pid = kill_loop pid l.nproc 0

unfoldable pub setkilled : ℕ → Cmd World (Unit {0})
setkilled i = do
  acquire (proc_lock i)
  modify i (λ p. record p { killed = 1 })
  release (proc_lock i)

unfoldable pub killed : ℕ → Cmd World ℕ
killed i = do acquire (proc_lock i); p ← get_proc i; release (proc_lock i); pure p.killed

-- One pass over the table in scheduler. `turn i` is what happens from the switch to process `i`
-- until it switches back.
unfoldable pub scheduler_loop : (ℕ → Cmd World (Unit {0})) → ℕ → ℕ → Cmd World (Unit {0})
scheduler_loop turn zero i = pure tt
scheduler_loop turn (suc n) i = do
  acquire (proc_lock i)
  p ← get_proc i
  when (is_state p.state runnable) (do
    modify i (λ q. record q { state = running })
    set_current (some i)
    turn i
    set_current none)
  release (proc_lock i)
  scheduler_loop turn n (i + 1)

-- One round of `for(;;)`.
unfoldable pub scheduler_round : Layout → (ℕ → Cmd World (Unit {0})) → Cmd World (Unit {0})
unfolding scheduler_loop
scheduler_round l turn = do note intr_on; scheduler_loop turn l.nproc 0
