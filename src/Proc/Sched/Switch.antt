-- ===== src/Proc/Sched/Switch.antt =====
-- The switch between processes in lab page tables/kernel/proc.c: scheduler and sched.
use lab_utilities.Base.{ℕ, ◌≡◌, ◌≢◌, ◌↔◌, false, true, ◌∷◌, none, some, arith}
use lab_utilities.Layout.{Layout}
use lab_utilities.Machine.{Outcome, ok, acquired, proc_lock}
use lab_utilities.Proc.{Proc, runnable, running, World}
use lab_utilities.Proc.Sched.{sched}
use lab_utilities.Proc.Pids.{Post}

-- No process has the CPU.
pub record IsIdle (w : World) : Type 0 where
  pub none_running : (j : ℕ) → (w.procs j).state ≢ running
  pub no_current : w.current ≡ none

-- The scheduler switches to process `i` in world `w`: it was RUNNABLE while no process had the CPU, and
-- now it is RUNNING, the only one, the current process, and its lock is held.
pub record IsTurn (i : ℕ) (w : World) : Type 0 where
  pub before : World
  pub idle : IsIdle before
  pub ready : (before.procs i).state ≡ runnable
  pub state : (w.procs i).state ≡ running
  pub alone : (j : ℕ) → (w.procs j).state ≡ running → j ≡ i
  pub others : (j : ℕ) → j ≢ i → w.procs j ≡ before.procs j
  pub current : w.current ≡ some i
  pub locked : w.machine.trace ≡ acquired (proc_lock i) ∷ before.machine.trace

-- The same outcome, and an idle world if it returns.
abbrev pub SameIdle : (o p : Outcome World (Unit {0})) → Type 0
SameIdle o p = (o ≡ p) × Post (λ r v. IsIdle v) o

-- sched comes to the switch exactly if p->lock is the one lock held, interrupts are off, and the
-- process no longer counts as running; otherwise it panics.
pub sched_iff :
    (i : ℕ) (w : World)
    → (sched i w ≡ ok w.cpu.intena w) ↔ (
        (w.cpu.holding ≡ true)
        × (w.cpu.noff ≡ 1)
        × ((w.procs i).state ≢ running)
        × (w.cpu.intr ≡ false))
unfolding sched
sched_iff i w = ground arith
