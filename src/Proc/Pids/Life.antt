-- ===== src/Proc/Pids/Life.antt =====
-- The process ids in fork, exit and wait of kernel/proc.c.
use lab_utilities.Base.{
  ◌∷◌, ℕ, zero, suc, ◌+◌, ◌^◌, ◌<◌, ◌≡◌, ◌≢◌, refl, sym, ◌∙◌, Bool, true, false, not, Option, some,
  ◌==◌, Bool-cases, inl, inr,
}
use lab_utilities.Layout.{Layout}
use lab_utilities.Memory.{store, store64, move}
use lab_utilities.Machine.{
  Machine, ok, and_then, Cmd, wait_lock, proc_lock, acquired, released, iput, begin_op, end_op,
}
use lab_utilities.Vm.Space.{uvmcopy}
use lab_utilities.Vm.Copy.{copyout}
use lab_utilities.Proc.{Proc, World, update, runnable, zombie, is_state, same_proc, proc_ptr}
use lab_utilities.Proc.Alloc.{Lab}
use lab_utilities.Proc.Sched.{killed, sleep, wakeup}
use lab_utilities.Proc.Life.{
  Scan, returned, scanned, Wait, trapframe_size, tf_a0, dup_files, fork, close_files, exit,
  reparent, wait_scan, wait_round, wait,
}
use lab_utilities.Proc.Life.Leaving.{traced}
use lab_utilities.Proc.Pids.{
  DistinctPids, Made, SamePids, Post-Made, update-pid, DistinctPids-moves, Post-status, Post,
  Post-lift, Post-then, Post-if, DistinctPids-keep,
}
use lab_utilities.Proc.Pids.Frees.{HasDistinctPids}
use lab_utilities.Proc.Pids.Labs.{IsLab}
use lab_utilities.Proc.Pids.Steps.{
  sched-keeps, reparent-keeps, close_files-keeps, dup_files-keeps, wakeup-keeps, sleep-keeps,
}

pub exit-keeps :
    (l : Layout) (i status : ℕ) (w : World)
    → (w.procs i).pid ≢ 0
    → DistinctPids w.procs w.nextpid
    → Post HasDistinctPids (exit l i status w)
unfolding exit
exit-keeps l i status w used d = Post-if _ (same_proc (some i) w.initproc) _ _ w tt (
    Post-then (SamePids w) _ (close_files (w.procs i).ofile w) _
      (close_files-keeps (w.procs i).ofile w d)
      (λ files v (e, ids).
        let f : Proc → Proc = λ q. record q { ofile = files } in
        let g : Proc → Proc = λ q. record q { cwd = 0 } in
        let v1 : World =
          record (traced v
            (acquired wait_lock ∷ end_op ∷ iput (w.procs i).cwd ∷ begin_op ∷ v.machine.trace)) {
              procs = update (update v.procs i f) i g;
            } in
        let e1 =
          DistinctPids-keep (update v.procs i f) i v.nextpid g (λ q. refl) (λ q h. h)
            (DistinctPids-keep v.procs i v.nextpid f (λ q. refl) (λ q h. h) e) in
        let ids1 =
          update-pid (update v.procs i f) i i g (λ q. refl)
          ∙ update-pid v.procs i i f (λ q. refl)
          ∙ ids i in
        Post-then (SamePids v1) _ (reparent l i v1) _ (reparent-keeps l i v1 e1) (λ a u (h, ids2).
          let chan : ℕ = proc_ptr l (u.procs i).parent in
          Post-then (SamePids u) _ (wakeup l chan u) _ (wakeup-keeps l chan u h) (λ b t (k, ids3).
            let z : Proc → Proc = λ r. record r { xstate = status; state = zombie } in
            sched-keeps i
              (record (traced t (released wait_lock ∷ acquired (proc_lock i) ∷ t.machine.trace)) {
                procs = update t.procs i z;
              })
              (DistinctPids-moves t.procs i t.nextpid z (λ q. refl)
                (λ e0. used (sym (ids3 i ∙ ids2 i ∙ ids1) ∙ e0)) k)))))

pub fork-keeps :
    (lab : Lab) (l : Layout) (i : ℕ) (w : World)
    → IsLab l lab
    → DistinctPids w.procs w.nextpid
    → w.nextpid + 1 < 2 ^ 32
    → Post HasDistinctPids (fork lab l i w)
unfolding fork
fork-keeps lab l i w is d h = Post-then Made _ (lab.allocproc l w) _ (is.allocs w d h) (λ made v m0.
    Post-Made _ made _ _ v m0 (λ e. e)
      (λ c e used.
        let p : Proc = v.procs i in
        let np : Proc = v.procs c in
        Post-lift _ v (uvmcopy l p.pagetable np.pagetable p.sz v.machine) _ (λ copied m.
          let u : World = record v { machine = m } in
          Post-status _ copied _ _ u
            (let f : Proc → Proc = λ q. record q { sz = p.sz } in
              let u1 : World = record u {
                machine = record m {
                  mem =
                      store64 (move m.mem np.trapframe p.trapframe trapframe_size)
                        (np.trapframe + tf_a0) 0;
                };
                procs = update (update v.procs c f) c (lab.inherit p);
              } in
              let e1 =
                DistinctPids-keep (update v.procs c f) c v.nextpid (lab.inherit p) (is.inherits p)
                  (λ q live z. live (is.same_state p q ∙ z))
                  (DistinctPids-keep v.procs c v.nextpid f (λ q. refl) (λ q h. h) e) in
              let ids1 =
                update-pid (update v.procs c f) c c (lab.inherit p) (is.inherits p)
                ∙ update-pid v.procs c c f (λ q. refl) in
              Post-then (SamePids u1) _ (dup_files l p.ofile np.ofile u1) _
                (dup_files-keeps l p.ofile np.ofile u1 e1)
                (λ files t (k, ids).
                  let g : Proc → Proc = λ q. record q {
                    ofile = files;
                    cwd = l.idup p.cwd;
                    name = l.safestrcpy q.name p.name 16;
                  } in
                  let child : Proc → Proc = λ q. record q { parent = some i } in
                  let ready : Proc → Proc = λ q. record q { state = runnable } in
                  let ids2 =
                    update-pid (update t.procs c g) c c child (λ q. refl)
                    ∙ update-pid t.procs c c g (λ q. refl) in
                  DistinctPids-moves (update (update t.procs c g) c child) c t.nextpid ready
                    (λ q. refl) (λ z. used (sym (ids2 ∙ ids c ∙ ids1) ∙ z))
                    (DistinctPids-keep (update t.procs c g) c t.nextpid child (λ q. refl) (λ q h. h)
                      (DistinctPids-keep t.procs c t.nextpid g (λ q. refl) (λ q h. h) k))))
            (Post-then HasDistinctPids _ (lab.freeproc l c u) _ (is.frees c u e) (λ a t k. k)))))

-- What a pass over the table keeps: if it found no zombie, process `i` still has its id.
abbrev Scanned : ℕ → World → Scan → World → Type 0
Scanned i w (returned o) v = DistinctPids v.procs v.nextpid
Scanned i w (scanned b) v = DistinctPids v.procs v.nextpid × ((v.procs i).pid ≡ (w.procs i).pid)

wait_scan-keeps :
    (lab : Lab) (l : Layout) (i addr n j : ℕ) (kids : Bool) (w : World)
    → IsLab l lab
    → DistinctPids w.procs w.nextpid
    → Post (Scanned i w) (wait_scan lab l i addr n j kids w)
unfolding wait_scan
wait_scan-keeps lab l i addr zero j kids w is d = (d, refl)
wait_scan-keeps lab l i addr (suc n) j kids w is d =
    let pp : Proc = w.procs j in
    let u : World = traced w (acquired (proc_lock j) ∷ w.machine.trace) in
    Post-if _ (not (same_proc pp.parent (some i))) _ _ w
      (wait_scan-keeps lab l i addr n (j + 1) kids w is d)
      (Post-if _ (not (is_state pp.state zombie)) _ _ u
        (wait_scan-keeps lab l i addr n (j + 1) true
          (traced u (released (proc_lock j) ∷ u.machine.trace)) is d)
        (elim (Bool-cases (addr == 0)) [
          | inl e ↦ rw e (reaped u d)
          | inr e ↦
              let x : ℕ = l.xstate_addr j in
              let m : Machine = record u.machine { mem = store u.machine.mem x 4 pp.xstate } in
              rw e (
                Post-lift _ (record u { machine = m }) (copyout (w.procs i).pagetable addr x 4 m) _
                  (λ copied m'.
                    let v : World = record u { machine = m' } in
                    Post-status _ copied _ _ v (reaped v d) d))
        ]))
  where
    reaped :
        (v : World)
        → DistinctPids v.procs v.nextpid
        → Post (Scanned i w) (
            and_then (lab.freeproc l j v) (λ a t.
              ok
                (returned (some (w.procs j).pid))
                (traced t (released wait_lock ∷ released (proc_lock j) ∷ t.machine.trace))))
    reaped v e = Post-then HasDistinctPids _ (lab.freeproc l j v) _ (is.frees j v e) (λ a t k. k)

Post-scan :
    (i : ℕ) (u : World) (P : Wait → World → Type 0) (r : Scan) (f : Option ℕ → Cmd World Wait)
    (g : Bool → Cmd World Wait) (w : World)
    → Scanned i u r w
    → ((o : Option ℕ) → DistinctPids w.procs w.nextpid → Post P (f o w))
    → ((b : Bool)
        → DistinctPids w.procs w.nextpid
        → (w.procs i).pid ≡ (u.procs i).pid
        → Post P (g b w))
    → Post P ((elim r as (λ x. Cmd World Wait) [ returned o ↦ f o | scanned b ↦ g b ]) w)
Post-scan i u P (returned o) f g w e h k = h o e
Post-scan i u P (scanned b) f g w e h k = k b e.0 e.1

pub wait_round-keeps :
    (lab : Lab) (l : Layout) (i addr : ℕ) (w : World)
    → IsLab l lab
    → (w.procs i).pid ≢ 0
    → DistinctPids w.procs w.nextpid
    → Post HasDistinctPids (wait_round lab l i addr w)
unfolding wait_round killed
wait_round-keeps lab l i addr w is used d =
    Post-then (Scanned i w) _ (wait_scan lab l i addr l.nproc 0 false w) _
      (wait_scan-keeps lab l i addr l.nproc 0 false w is d)
      (λ scan v m.
        Post-scan i w _ scan _ _ v m (λ o e. e)
          (λ kids e same. elim (Bool-cases kids) [
            | inr none_left ↦ rw none_left e
            | inl some_left ↦
                let u : World =
                  traced v (released (proc_lock i) ∷ acquired (proc_lock i) ∷ v.machine.trace) in
                rw some_left (
                  Post-if _ (not ((v.procs i).killed == 0)) _ _ u e (
                    Post-then HasDistinctPids _ (sleep i (l.proc_addr i) wait_lock u) _
                      (sleep-keeps i (l.proc_addr i) wait_lock u (λ z. used (sym same ∙ z)) e)
                      (λ a t k. k)))
          ]))

pub wait-keeps :
    (lab : Lab) (l : Layout) (i addr : ℕ) (w : World)
    → IsLab l lab
    → (w.procs i).pid ≢ 0
    → DistinctPids w.procs w.nextpid
    → Post HasDistinctPids (wait lab l i addr w)
unfolding wait
wait-keeps lab l i addr w is used d =
    wait_round-keeps lab l i addr (traced w (acquired wait_lock ∷ w.machine.trace)) is used d
