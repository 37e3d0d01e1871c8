-- ===== src/Proc/Life/Exit.antt =====
-- exit of kernel/proc.c.
use lab_utilities.Base.{
  ℕ, ◌<◌, ◌≡◌, ◌≢◌, refl, sym, ap, subst, ◌∙◌, Bool, true, false, List, ◌∷◌, Option, some, ltb,
  if◌then◌else◌, ==_ne, lt→ltb,
}
use lab_utilities.Layout.{Layout}
use lab_utilities.Machine.{ok, Event, wait_lock, proc_lock, acquired, released}
use lab_utilities.Proc.{sleeping, runnable, zombie, Proc, World, same_proc, proc_ptr}
use lab_utilities.Proc.Sched.{sched}
use lab_utilities.Proc.Sched.Wakeup.{wakeup-procs, woken}
use lab_utilities.Proc.Sched.Switch.{sched_iff}
use lab_utilities.Proc.Life.{exit}
use lab_utilities.Proc.Life.Reparent.{Woke, adopt, reparent-Woke}
use lab_utilities.Proc.Life.Leaving.{
  close_files-runs, entered, left, exit_steps, Woke-parent, adopt-parent, left-parent, left_self,
  woken-parent, entered-parent, adopt-sleeps, left-other, proc_ptr-some, Woke-woken,
}

-- What exit leaves behind at the switch to the scheduler.
pub record Exited (l : Layout) (i status : ℕ) (w v : World) : Type 0 where
  pub state : (v.procs i).state ≡ zombie
  pub xstate : (v.procs i).xstate ≡ status
  pub orphans : (k : ℕ) → k < l.nproc → (v.procs k).parent ≢ some i
  pub earlier : List Event
  pub locks : v.machine.trace ≡ released wait_lock ∷ acquired (proc_lock i) ∷ earlier

module _ (l : Layout) (i status : ℕ) (w : World) (other : same_proc (some i) w.initproc ≡ false)
    (holding : w.cpu.holding ≡ true) (one_lock : w.cpu.noff ≡ 1) (masked : w.cpu.intr ≡ false) where
  -- The tables of the processes at the call of reparent, after it and after the wakeup of the parent.
  record Passage : Type 0 where
    files : List ℕ
    earlier : List Event
    adopted : World
    woke : World
    run : exit l i status w ≡ ok w.cpu.intena (left i status woke)
    adopts :
        (k : ℕ)
        → Woke
            (proc_ptr l w.initproc)
            (adopt w.initproc i (ltb k l.nproc) ((entered i files w earlier).procs k))
            (adopted.procs k)
    wakes :
        (k : ℕ)
        → woke.procs k ≡ (
            if ltb k l.nproc
            then woken adopted.current (proc_ptr l (adopted.procs i).parent) k (adopted.procs k)
            else adopted.procs k)
    current : adopted.current ≡ w.current

  exit_path : Passage
  exit_path =
      let (files, tr, closed) = close_files-runs (w.procs i).ofile w in
      let (v2, run2, table2, quiet2) = reparent-Woke l i (entered i files w tr) in
      let (v3, run3, table3, quiet3) = wakeup-procs l (proc_ptr l (v2.procs i).parent) v2 in
      let v : World = left i status v3 in
      let cpu : v3.cpu ≡ w.cpu = quiet3.cpu ∙ quiet2.cpu in
      let switches : sched i v ≡ ok v3.cpu.intena v =
        (sched_iff i v).1 (
          rw cpu holding,
          rw cpu one_lock,
          λ e. cc ((left_self i status v3).0, e),
          rw cpu masked,
        ) in
      record {
        files = files;
        earlier = tr;
        adopted = v2;
        woke = v3;
        run =
            exit_steps l i status w v2 v3 files tr other closed run2 run3
            ∙ switches
            ∙ ap (λ c. ok c.intena v) cpu;
        adopts = table2;
        wakes = table3;
        current = quiet2.current;
      }

  -- exit by a process other than the first one, with its own lock the only one held at the switch,
  -- reaches the switch to the scheduler: the process is then a zombie with its status, no process
  -- has it as parent, and wait_lock has been released after its own lock was taken.
  pub exit-Exited : (v : World) × (exit l i status w ≡ ok w.cpu.intena v) × Exited l i status w v
  exit-Exited =
      let path = exit_path in
      let table : ℕ → Proc = (entered i path.files w path.earlier).procs in
      (
        left i status path.woke,
        path.run,
        record {
          state = (left_self i status path.woke).0;
          xstate = (left_self i status path.woke).1;
          orphans = λ k low e. adopt-parent w.initproc i (table k) other (
              subst (λ (b : Bool). (adopt w.initproc i b (table k)).parent ≡ some i)
                (lt→ltb k l.nproc low)
                (sym (
                    Woke-parent (proc_ptr l w.initproc)
                      (adopt w.initproc i (ltb k l.nproc) (table k)) (path.adopted.procs k)
                      (path.adopts k))
                  ∙ sym (
                      woken-parent path.adopted.current (proc_ptr l (path.adopted.procs i).parent) k
                        (ltb k l.nproc) (path.adopted.procs k) (path.woke.procs k) (path.wakes k))
                  ∙ sym (left-parent i status k path.woke)
                  ∙ e));
          earlier = path.woke.machine.trace;
          locks = refl;
        },
      )

  -- Under the same conditions, if the parent, another process of the table, sleeps on its own address,
  -- as in wait, exit has made it runnable by then.
  pub exit-wakes_parent :
      (p : ℕ)
      → p < l.nproc
      → i ≢ p
      → w.current ≡ some i
      → (w.procs i).parent ≡ some p
      → (w.procs p).state ≡ sleeping
      → (w.procs p).chan ≡ l.proc_addr p
      → (v : World) × (exit l i status w ≡ ok w.cpu.intena v) × ((v.procs p).state ≡ runnable)
  exit-wakes_parent p low ne me child asleep chan =
      let path = exit_path in
      let files : List ℕ = path.files in
      let tr : List Event = path.earlier in
      let v2 : World = path.adopted in
      let v3 : World = path.woke in
      let table : ℕ → Proc = (entered i files w tr).procs in
      let init : Option ℕ = w.initproc in
      let own : (v2.procs i).parent ≡ some p =
        Woke-parent (proc_ptr l init) (adopt init i (ltb i l.nproc) (table i)) (v2.procs i)
          (path.adopts i)
        ∙ entered-parent init i p (ltb i l.nproc) files w tr child ne in
      let here : ℕ = proc_ptr l (v2.procs i).parent in
      let on : here ≡ l.proc_addr p = ap (λ (o : Option ℕ). proc_ptr l o) own ∙ proc_ptr-some l p in
      let (sleeps, waits) =
        adopt-sleeps init i p (l.proc_addr p) (ltb p l.nproc) files w tr ne asleep chan in
      let stranger : same_proc (some p) v2.current ≡ false =
        rw (path.current, me) (==_ne p i (λ e. ne (sym e))) in
      let found : v3.procs p ≡ woken v2.current here p (v2.procs p) =
        path.wakes p
        ∙ ap (λ (b : Bool). if b then woken v2.current here p (v2.procs p) else v2.procs p)
            (lt→ltb p l.nproc low) in
      (
        left i status v3,
        path.run,
        ap (λ (x : Proc). x.state) (left-other i status p v3 ne)
            ∙ Woke-woken (proc_ptr l init) here p v2.current
                (adopt init i (ltb p l.nproc) (table p)) (v2.procs p) (v3.procs p) (path.adopts p)
                sleeps (waits ∙ sym on) stranger found,
      )
