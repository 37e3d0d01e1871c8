-- ===== src/Proc/Pids/Steps.antt =====
-- The process ids in kill, wakeup, sleep, yield and reparent of kernel/proc.c, and in their helpers.
use lab_utilities.Base.{
  ◌∷◌, ℕ, zero, suc, ◌+◌, ◌≡◌, ◌≢◌, refl, sym, ap, subst, ◌∙◌, Bool, not, List, [], Option, ◌==◌,
  ltb, arith, Bool-cases, inl, inr,
}
use lab_utilities.Layout.{Layout}
use lab_utilities.Machine.{Outcome, ok, Lock, proc_lock, acquired, released, filedup, fileclose}
use lab_utilities.Proc.{
  Proc, World, update, unused, sleeping, runnable, running, is_state, proc_ptr,
}
use lab_utilities.Proc.Sched.{sched, sleep, yield, wakeup, kill, kill_loop, kill_proc}
use lab_utilities.Proc.Sched.Wakeup.{wakeup-procs}
use lab_utilities.Proc.Life.{dup_files, close_files, reparent}
use lab_utilities.Proc.Life.Reparent.{Woke, adopt, reparent-Woke, table-Woke}
use lab_utilities.Proc.Life.Leaving.{traced}
use lab_utilities.Proc.Pids.{
  DistinctPids, SamePids, DistinctPids-moves, Post-choose, Post, Post-then, Post-if,
  DistinctPids-keep, DistinctPids-same,
}
use lab_utilities.Proc.Pids.Frees.{HasDistinctPids}

pub sched-keeps :
    (i : ℕ) (w : World) → DistinctPids w.procs w.nextpid → Post HasDistinctPids (sched i w)
unfolding sched
sched-keeps i w d = Post-choose _ (not w.cpu.holding) _ _ tt (
    Post-choose _ (not (w.cpu.noff == 1)) _ _ tt (
      Post-choose _ (is_state (w.procs i).state running) _ _ tt
        (Post-choose _ w.cpu.intr _ _ tt d)))

Woke-pid : (chan : ℕ) (p q : Proc) → Woke chan p q → q.pid ≡ p.pid
Woke-pid chan p q (inl e) = ap (λ (x : Proc). x.pid) e
Woke-pid chan p q (inr (a, b, e)) = ap (λ (x : Proc). x.pid) e

Woke-live : (chan : ℕ) (p q : Proc) → Woke chan p q → q.state ≢ unused → p.state ≢ unused
Woke-live chan p q (inl e) live z = live (ap (λ (x : Proc). x.state) e ∙ z)
Woke-live chan p q (inr (a, b, e)) live z = cc (a, z)

adopt-state : (init : Option ℕ) (i : ℕ) (b : Bool) (p : Proc) → (adopt init i b p).state ≡ p.state
adopt-state init i b p = ground arith

adopt-pid : (init : Option ℕ) (i : ℕ) (b : Bool) (p : Proc) → (adopt init i b p).pid ≡ p.pid
adopt-pid init i b p = ground arith

-- A run that ends in `v`.
Post-run :
    {A : Type 0} (w : World) (o : Outcome World A) (a : A) (v : World)
    → o ≡ ok a v
    → SamePids w a v
    → Post (SamePids w) o
Post-run w o a v run d = subst (λ (x : Outcome _ _). Post (SamePids w) x) (sym run) d

pub wakeup-keeps :
    (l : Layout) (chan : ℕ) (w : World)
    → DistinctPids w.procs w.nextpid
    → Post (SamePids w) (wakeup l chan w)
wakeup-keeps l chan w d =
    let (v, run, table, quiet) = wakeup-procs l chan w in
    let woke =
      λ (j : ℕ). table-Woke w.current chan j (ltb j l.nproc) (w.procs j) (v.procs j) (table j) in
    let same = λ (j : ℕ). Woke-pid chan (w.procs j) (v.procs j) (woke j) in
    Post-run w (wakeup l chan w) tt v run (
      rw quiet.nextpid (
          DistinctPids-same w.procs v.procs w.nextpid same
            (λ j. Woke-live chan (w.procs j) (v.procs j) (woke j)) d),
      same,
    )

pub reparent-keeps :
    (l : Layout) (i : ℕ) (w : World)
    → DistinctPids w.procs w.nextpid
    → Post (SamePids w) (reparent l i w)
reparent-keeps l i w d =
    let (v, run, table, quiet) = reparent-Woke l i w in
    let same = λ (j : ℕ).
      Woke-pid (proc_ptr l w.initproc) (adopt w.initproc i (ltb j l.nproc) (w.procs j)) (v.procs j)
        (table j)
      ∙ adopt-pid w.initproc i (ltb j l.nproc) (w.procs j) in
    Post-run w (reparent l i w) tt v run (
      rw quiet.nextpid (
          DistinctPids-same w.procs v.procs w.nextpid same
            (λ j live z.
              Woke-live (proc_ptr l w.initproc) (adopt w.initproc i (ltb j l.nproc) (w.procs j))
                (v.procs j) (table j) live
                (adopt-state w.initproc i (ltb j l.nproc) (w.procs j) ∙ z))
            d),
      same,
    )

pub close_files-keeps :
    (fs : List ℕ) (w : World)
    → DistinctPids w.procs w.nextpid
    → Post (SamePids w) (close_files fs w)
unfolding close_files
close_files-keeps [] w d = (d, λ j. refl)
close_files-keeps (f ∷ fs) w d = elim (Bool-cases (f == 0)) [
  | inl e ↦
      rw e (Post-then (SamePids w) _ (close_files fs w) _ (close_files-keeps fs w d) (λ r v h. h))
  | inr e ↦
      let u : World = traced w (fileclose f ∷ w.machine.trace) in
      rw e (Post-then (SamePids w) _ (close_files fs u) _ (close_files-keeps fs u d) (λ r v h. h))
]

pub dup_files-keeps :
    (l : Layout) (fs gs : List ℕ) (w : World)
    → DistinctPids w.procs w.nextpid
    → Post (SamePids w) (dup_files l fs gs w)
unfolding dup_files
dup_files-keeps l [] gs w d = (d, λ j. refl)
dup_files-keeps l (f ∷ fs) [] w d = (d, λ j. refl)
dup_files-keeps l (f ∷ fs) (g ∷ gs) w d = elim (Bool-cases (f == 0)) [
  | inl e ↦
      rw e (
        Post-then (SamePids w) _ (dup_files l fs gs w) _ (dup_files-keeps l fs gs w d) (λ r v h. h))
  | inr e ↦
      let u : World = traced w (filedup f ∷ w.machine.trace) in
      rw e (
        Post-then (SamePids w) _ (dup_files l fs gs u) _ (dup_files-keeps l fs gs u d) (λ r v h. h))
]

kill_loop-keeps :
    (pid n i : ℕ) (w : World)
    → DistinctPids w.procs w.nextpid
    → Post HasDistinctPids (kill_loop pid n i w)
unfolding kill_loop
kill_loop-keeps pid zero i w d = d
kill_loop-keeps pid (suc n) i w d =
    let u : World = traced w (acquired (proc_lock i) ∷ w.machine.trace) in
    Post-if _ ((w.procs i).pid == pid) _ _ u
      (DistinctPids-keep w.procs i w.nextpid kill_proc (λ q. refl) (λ q live z. live (rw z refl)) d)
      (kill_loop-keeps pid n (i + 1) (traced w (released (proc_lock i) ∷ u.machine.trace)) d)

pub kill-keeps :
    (l : Layout) (pid : ℕ) (w : World)
    → DistinctPids w.procs w.nextpid
    → Post HasDistinctPids (kill l pid w)
unfolding kill
kill-keeps l pid w d = kill_loop-keeps pid l.nproc 0 w d

pub sleep-keeps :
    (i chan : ℕ) (lk : Lock) (w : World)
    → (w.procs i).pid ≢ 0
    → DistinctPids w.procs w.nextpid
    → Post HasDistinctPids (sleep i chan lk w)
unfolding sleep
sleep-keeps i chan lk w used d =
    let f : Proc → Proc = λ p. record p { chan = chan; state = sleeping } in
    sched-keeps i
      (record w {
        machine = record w.machine {
          trace = released lk ∷ acquired (proc_lock i) ∷ w.machine.trace;
        };
        procs = update w.procs i f;
      })
      (DistinctPids-moves w.procs i w.nextpid f (λ q. refl) used d)

pub yield-keeps :
    (i : ℕ) (w : World)
    → (w.procs i).pid ≢ 0
    → DistinctPids w.procs w.nextpid
    → Post HasDistinctPids (yield i w)
unfolding yield
yield-keeps i w used d =
    let f : Proc → Proc = λ p. record p { state = runnable } in
    sched-keeps i
      (record (traced w (acquired (proc_lock i) ∷ w.machine.trace)) { procs = update w.procs i f })
      (DistinctPids-moves w.procs i w.nextpid f (λ q. refl) used d)
