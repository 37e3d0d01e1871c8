-- ===== src/Proc/Life/Leaving.antt =====
-- The worlds through which exit of kernel/proc.c passes, and the entries of the table in them.
use lab_utilities.Base.{
  ℕ, ◌≡◌, ◌≢◌, refl, ap, ◌∙◌, Bool, true, false, ◌&&◌, List, [], ◌∷◌, Option, none, some, ◌==◌,
  if◌then◌else◌, arith, Bool-cases, inl, inr, ==_refl, ==_ne,
}
use lab_utilities.Layout.{Layout}
use lab_utilities.Machine.{
  ok, Event, wait_lock, proc_lock, acquired, released, iput, begin_op, end_op,
}
use lab_utilities.Proc.{
  sleeping, runnable, zombie, Proc, World, update, is_state, same_proc, proc_ptr,
}
use lab_utilities.Proc.Sched.{sched, wakeup}
use lab_utilities.Proc.Sched.Wakeup.{woken}
use lab_utilities.Proc.Life.{close_files, reparent, exit}
use lab_utilities.Proc.Life.Reparent.{Woke, table-Woke, adopt}

-- A world with another trace.
abbrev pub traced : World → List Event → World
traced w tr = record w { machine = record w.machine { trace = tr } }

pub close_files-runs :
    (fs : List ℕ) (w : World)
    → (gs : List ℕ) × (tr : List Event) × (close_files fs w ≡ ok gs (traced w tr))
unfolding close_files
close_files-runs [] w = ([], w.machine.trace, refl)
close_files-runs (f ∷ fs) w = elim (Bool-cases (f == 0)) [
  | inl e ↦ let (gs, tr, run) = close_files-runs fs w in (0 ∷ gs, tr, rw (e, run))
  | inr e ↦
      let (gs, tr, run) = close_files-runs fs (traced w (Event.fileclose f ∷ w.machine.trace)) in
      (0 ∷ gs, tr, rw (e, run))
]

-- The world at the call of reparent, and at the switch.
abbrev pub entered : ℕ → List ℕ → World → List Event → World
entered i files w tr = record w {
  machine = record w.machine {
    trace = acquired wait_lock ∷ end_op ∷ iput (w.procs i).cwd ∷ begin_op ∷ tr;
  };
  procs = update (update w.procs i (λ q. record q { ofile = files })) i (λ q. record q { cwd = 0 });
}

abbrev pub left : ℕ → ℕ → World → World
left i status v = record v {
  machine = record v.machine {
    trace = released wait_lock ∷ acquired (proc_lock i) ∷ v.machine.trace;
  };
  procs = update v.procs i (λ r. record r { xstate = status; state = zombie });
}

pub exit_steps :
    (l : Layout) (i status : ℕ) (w v2 v3 : World) (files : List ℕ) (tr : List Event)
    → same_proc (some i) w.initproc ≡ false
    → close_files (w.procs i).ofile w ≡ ok files (traced w tr)
    → reparent l i (entered i files w tr) ≡ ok tt v2
    → wakeup l (proc_ptr l (v2.procs i).parent) v2 ≡ ok tt v3
    → exit l i status w ≡ sched i (left i status v3)
unfolding exit
exit_steps l i status w v2 v3 files tr other closed adopted woke = rw (other, closed, adopted, woke)

pub Woke-parent : (chan : ℕ) (p q : Proc) → Woke chan p q → q.parent ≡ p.parent
Woke-parent chan p q (inl e) = ap (λ (x : Proc). x.parent) e
Woke-parent chan p q (inr (a, b, e)) = ap (λ (x : Proc). x.parent) e

same_proc_self :
    (o : Option ℕ) (i : ℕ)
    → o ≡ some i
    → (same_proc o (some i) ≡ true) × (same_proc (some i) o ≡ true)
same_proc_self none i e = cc
same_proc_self (some j) i e = ground arith

pub adopt-parent :
    (init : Option ℕ) (i : ℕ) (p : Proc)
    → same_proc (some i) init ≡ false
    → (adopt init i true p).parent ≢ some i
adopt-parent init i p other e = elim (Bool-cases (same_proc p.parent (some i))) [
  | inl mine ↦ absurd (cc ((same_proc_self init i (rw mine at e)).1, other))
  | inr stranger ↦ absurd (cc ((same_proc_self p.parent i (rw stranger at e)).0, stranger))
]

-- An entry at the switch has the parent that it had after the wakeup.
pub left-parent :
    (i status k : ℕ) (v : World) → ((left i status v).procs k).parent ≡ (v.procs k).parent
unfolding update
left-parent i status k v = elim (Bool-cases (i == k)) [ inl e ↦ rw e | inr e ↦ rw e ]

pub left_self :
    (i status : ℕ) (v : World)
    → (((left i status v).procs i).state ≡ zombie) × (((left i status v).procs i).xstate ≡ status)
unfolding update
left_self i status v = (rw (==_refl i), rw (==_refl i))

pub woken-parent :
    (me : Option ℕ) (chan k : ℕ) (b : Bool) (p q : Proc)
    → q ≡ (if b then woken me chan k p else p)
    → q.parent ≡ p.parent
woken-parent me chan k b p q e = Woke-parent chan p q (table-Woke me chan k b p q e)

-- The parent of a process that is not its own parent stays, and so does the entry of another one.
pub entered-parent :
    (init : Option ℕ) (i p : ℕ) (b : Bool) (files : List ℕ) (w : World) (tr : List Event)
    → (w.procs i).parent ≡ some p
    → i ≢ p
    → (adopt init i b ((entered i files w tr).procs i)).parent ≡ some p
unfolding update
entered-parent init i p b files w tr child ne =
    let stranger : same_proc (some p) (some i) ≡ false = ground arith in
    let keep : (b && false) ≡ false = ground arith in rw (==_refl i, child, stranger, keep)

pub adopt-sleeps :
    (init : Option ℕ) (i k chan : ℕ) (b : Bool) (files : List ℕ) (w : World) (tr : List Event)
    → i ≢ k
    → (w.procs k).state ≡ sleeping
    → (w.procs k).chan ≡ chan
    → ((adopt init i b ((entered i files w tr).procs k)).state ≡ sleeping)
      × ((adopt init i b ((entered i files w tr).procs k)).chan ≡ chan)
unfolding update
adopt-sleeps init i k chan b files w tr ne asleep on =
    elim (Bool-cases (b && same_proc (w.procs k).parent (some i))) [
      | inl e ↦ (rw (==_ne i k ne, e) asleep, rw (==_ne i k ne, e) on)
      | inr e ↦ (rw (==_ne i k ne, e) asleep, rw (==_ne i k ne, e) on)
    ]

pub left-other : (i status k : ℕ) (v : World) → i ≢ k → (left i status v).procs k ≡ v.procs k
unfolding update
left-other i status k v ne = rw (==_ne i k ne)

pub proc_ptr-some : (l : Layout) (p : ℕ) → proc_ptr l (some p) ≡ l.proc_addr p
unfolding proc_ptr
proc_ptr-some l p = refl

-- A wakeup of a channel reaches a process that sleeps on it, or that has been woken before.
pub Woke-woken :
    (earlier chan k : ℕ) (me : Option ℕ) (p q r : Proc)
    → Woke earlier p q
    → p.state ≡ sleeping
    → p.chan ≡ chan
    → same_proc (some k) me ≡ false
    → r ≡ woken me chan k q
    → r.state ≡ runnable
Woke-woken earlier chan k me p q r (inl e) asleep on other f =
    let hit : is_state q.state sleeping && (q.chan == chan) ≡ true =
      rw (e, asleep, on) (==_refl chan) in
    ap (λ (x : Proc). x.state) f ∙ rw (other, hit)
Woke-woken earlier chan k me p q r (inr (a, b, e)) asleep on other f =
    ap (λ (x : Proc). x.state) (f ∙ ap (λ (x : Proc). woken me chan k x) e) ∙ ground arith
