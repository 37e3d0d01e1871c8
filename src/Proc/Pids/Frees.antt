-- ===== src/Proc/Pids/Frees.antt =====
-- The process ids in freeproc of the three versions of kernel/proc.c.
use lab_utilities.Base.{ℕ, refl, not, ◌==◌}
use lab_utilities.Layout.{Layout}
use lab_utilities.Machine.{Cmd, when}
use lab_utilities.Kalloc.{kfree}
use lab_utilities.Proc.{Proc, World, update}
use lab_utilities.Proc.Alloc.{cleared, give_up}
use lab_utilities.Proc.Alloc.PageTables
use lab_utilities.Proc.Alloc.SystemCalls
use lab_utilities.Proc.Alloc.Traps
use lab_utilities.Proc.Pids.{
  DistinctPids, Made, Post, Post-lift, Post-then, DistinctPids-keep, DistinctPids-free,
}

abbrev pub HasDistinctPids {ℓ} : {A : Type ℓ} → A → World → Type 0
HasDistinctPids a w = DistinctPids w.procs w.nextpid

abbrev no_trapframe : Proc → Proc
no_trapframe q = record q { trapframe = 0 }

pub PageTables-frees :
    (l : Layout) (i : ℕ) (w : World)
    → DistinctPids w.procs w.nextpid
    → Post HasDistinctPids (PageTables.freeproc l i w)
unfolding PageTables.freeproc
PageTables-frees l i w d =
    let p : Proc = w.procs i in
    Post-lift _ w (when (not (p.trapframe == 0)) (kfree l p.trapframe) w.machine) _ (λ a m.
      let w1 : World = record w { machine = m; procs = update w.procs i no_trapframe } in
      Post-lift _ w1 (when (not (p.usysro == 0)) (kfree l p.usysro) m) _ (λ a' m'.
        let w2 : World = record w1 { machine = m' } in
        Post-lift _ w2
          (when (not (p.pagetable == 0)) (PageTables.proc_freepagetable l p.pagetable p.sz) m') _
          (λ a'' m''.
            DistinctPids-free w1.procs i w.nextpid cleared (λ q. refl) (λ q. refl)
              (DistinctPids-keep w.procs i w.nextpid no_trapframe (λ q. refl) (λ q h. h) d))))

pub SystemCalls-frees :
    (l : Layout) (i : ℕ) (w : World)
    → DistinctPids w.procs w.nextpid
    → Post HasDistinctPids (SystemCalls.freeproc l i w)
unfolding SystemCalls.freeproc
SystemCalls-frees l i w d =
    let p : Proc = w.procs i in
    Post-lift _ w (when (not (p.trapframe == 0)) (kfree l p.trapframe) w.machine) _ (λ a m.
      let w1 : World = record w { machine = m; procs = update w.procs i no_trapframe } in
      Post-lift _ w1
        (when (not (p.pagetable == 0)) (SystemCalls.proc_freepagetable l p.pagetable p.sz) m) _
        (λ a' m'.
          DistinctPids-free w1.procs i w.nextpid cleared (λ q. refl) (λ q. refl)
            (DistinctPids-keep w.procs i w.nextpid no_trapframe (λ q. refl) (λ q h. h) d)))

abbrev no_trapframesv : Proc → Proc
no_trapframesv q = record q { trapframesv = 0 }

pub Traps-frees :
    (l : Layout) (i : ℕ) (w : World)
    → DistinctPids w.procs w.nextpid
    → Post HasDistinctPids (Traps.freeproc l i w)
unfolding Traps.freeproc
Traps-frees l i w d =
    let p : Proc = w.procs i in
    Post-lift _ w (when (not (p.trapframe == 0)) (kfree l p.trapframe) w.machine) _ (λ a m.
      let w1 : World = record w { machine = m; procs = update w.procs i no_trapframe } in
      let d1 = DistinctPids-keep w.procs i w.nextpid no_trapframe (λ q. refl) (λ q h. h) d in
      Post-lift _ w1 (when (not (p.trapframesv == 0)) (kfree l p.trapframesv) m) _ (λ a' m'.
        let w2 : World = record w1 { machine = m'; procs = update w1.procs i no_trapframesv } in
        let d2 = DistinctPids-keep w1.procs i w.nextpid no_trapframesv (λ q. refl) (λ q h. h) d1 in
        Post-lift _ w2
          (when (not (p.pagetable == 0)) (SystemCalls.proc_freepagetable l p.pagetable p.sz) m') _
          (λ a'' m''. DistinctPids-free w2.procs i w.nextpid cleared (λ q. refl) (λ q. refl) d2)))

pub give_up-keeps :
    (freeproc : ℕ → Cmd World (Unit {0})) (i : ℕ) (w : World)
    → Post HasDistinctPids (freeproc i w)
    → Post Made (give_up freeproc i w)
give_up-keeps freeproc i w h = Post-then HasDistinctPids _ (freeproc i w) _ h (λ a v d. d)
