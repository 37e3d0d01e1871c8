-- ===== src/Proc.antt =====
-- The process table of kernel/proc.c and proc.h. The three labs share most of that file; what they
-- add to `struct proc` stands in one record here, and each lab's operations touch its own fields:
-- `usysro` (lab page tables), `mask` (lab system calls), `ticks` to `hfl` (lab traps).
--
-- A process is named by its place in `proc[NPROC]`; a pointer that may be null is an `Option`.
pub mod Alloc
pub mod Sched
pub mod Life
pub mod Access
pub mod Count
pub mod Pids
use lab_utilities.Base.{ℕ, Bool, true, false, List, ◌∷◌, Option, none, some, ◌==◌, if◌then◌else◌}
use lab_utilities.Layout.{Layout}
use lab_utilities.Machine.{
  Machine, Lock, Event, acquired, released, Outcome, ok, panic, out_of_fuel, Cmd,
}

pub data ProcState : Type 0 where
  unused used sleeping runnable running zombie : ProcState

-- struct context: ra and sp, and the callee-saved s0 to s11
pub record Context : Type 0 where
  pub ra : ℕ
  pub sp : ℕ
  pub saved : List ℕ

pub record Proc : Type 0 where
  pub state : ProcState
  pub chan : ℕ
  pub killed : ℕ
  pub xstate : ℕ
  pub pid : ℕ
  pub parent : Option ℕ
  pub kstack : ℕ
  pub sz : ℕ
  pub pagetable : ℕ
  pub trapframe : ℕ
  pub context : Context
  pub ofile : List ℕ
  pub cwd : ℕ
  pub name : List ℕ
  pub usysro : ℕ
  pub mask : ℕ
  pub ticks : ℕ
  pub ainterv : ℕ
  pub handler : ℕ
  pub trapframesv : ℕ
  pub hfl : ℕ

-- What sched asks of the spin-lock code, which is not in the repository: the answers of
-- holding(&p->lock), mycpu()->noff, intr_get() and mycpu()->intena at the call of sched.
pub record Cpu : Type 0 where
  pub holding : Bool
  pub noff : ℕ
  pub intr : Bool
  pub intena : ℕ

pub record World : Type 0 where
  pub machine : Machine
  pub procs : ℕ → Proc
  pub nextpid : ℕ
  pub initproc : Option ℕ
  pub current : Option ℕ  -- c->proc, of the one CPU whose steps are followed
  pub cpu : Cpu
  pub first : Bool  -- `first` of forkret
  pub clock : ℕ  -- `ticks` of trap.c

-- A command on the machine, run inside the world.
abbrev pub lift_outcome : {A : Type 0} → World → Outcome Machine A → Outcome World A
lift_outcome w (ok a m) = ok a (record w { machine = m })
lift_outcome w (panic why) = panic why
lift_outcome w out_of_fuel = out_of_fuel

abbrev pub on_machine : {A : Type 0} → Cmd Machine A → Cmd World A
on_machine m w = lift_outcome w (m w.machine)

abbrev pub note : Event → Cmd World (Unit {0})
note e w = ok tt (record w { machine = record w.machine { trace = e ∷ w.machine.trace } })

abbrev pub acquire : Lock → Cmd World (Unit {0})
acquire k = note (acquired k)

abbrev pub release : Lock → Cmd World (Unit {0})
release k = note (released k)

abbrev pub get_proc : ℕ → Cmd World Proc
get_proc i w = ok (w.procs i) w

-- one entry of the table changed
unfoldable pub update : (ℕ → Proc) → ℕ → (Proc → Proc) → ℕ → Proc
update procs i f j = if i == j then f (procs j) else procs j

abbrev pub modify : ℕ → (Proc → Proc) → Cmd World (Unit {0})
modify i f w = ok tt (record w { procs = update w.procs i f })

-- a pointer to a process, as a channel
unfoldable pub proc_ptr : Layout → Option ℕ → ℕ
proc_ptr l none = 0
proc_ptr l (some i) = l.proc_addr i

abbrev pub is_state : ProcState → ProcState → Bool
is_state unused unused = true
is_state used used = true
is_state sleeping sleeping = true
is_state runnable runnable = true
is_state running running = true
is_state zombie zombie = true
is_state _ _ = false

abbrev pub same_proc : Option ℕ → Option ℕ → Bool
same_proc none none = true
same_proc (some i) (some j) = i == j
same_proc _ _ = false
