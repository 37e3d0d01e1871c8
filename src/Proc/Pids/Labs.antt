-- ===== src/Proc/Pids/Labs.antt =====
-- The process ids in allocproc of the three versions of kernel/proc.c.
use lab_utilities.Base.{
  ◌∷◌, ℕ, zero, suc, ◌+◌, ◌%◌, ◌^◌, ◌<◌, ◌≡◌, ◌≢◌, refl, sym, ◌∙◌, ==_refl, subst, Option, none,
  some, ◌==◌, if◌then◌else◌, arith, Bool-cases, inl, inr,
}
use lab_utilities.Layout.{Layout}
use lab_utilities.Machine.{
  Machine, Outcome, and_then, pure, ◌>>◌, Cmd, released, acquired, proc_lock, pid_lock,
}
use lab_utilities.Memory.{store}
use lab_utilities.Kalloc.{kalloc}
use lab_utilities.Proc.{Proc, World, update, modify, unused, used, is_state, lift_outcome}
use lab_utilities.Proc.Alloc.{Lab, find_unused, allocpid, give_up, start_context}
use lab_utilities.Proc.Alloc.PageTables
use lab_utilities.Proc.Alloc.SystemCalls
use lab_utilities.Proc.Alloc.Traps
use lab_utilities.Proc.Pids.{
  DistinctPids, Made, update-pid, Post, Post-lift, Post-then, Post-if, DistinctPids-keep,
  DistinctPids-next,
}
use lab_utilities.Proc.Pids.Frees.{
  HasDistinctPids, PageTables-frees, SystemCalls-frees, Traps-frees, give_up-keeps,
}

-- What fork and wait rely on in the operations of a lab: they keep the ids distinct, allocproc as
-- long as the next id does not wrap around, and a child takes over no id.
pub record IsLab (l : Layout) (lab : Lab) : Type 0 where
  pub allocs :
      (w : World)
      → DistinctPids w.procs w.nextpid
      → w.nextpid + 1 < 2 ^ 32
      → Post Made (lab.allocproc l w)
  pub frees :
      (i : ℕ) (w : World)
      → DistinctPids w.procs w.nextpid
      → Post HasDistinctPids (lab.freeproc l i w)
  pub inherits : (p q : Proc) → (lab.inherit p q).pid ≡ q.pid
  pub same_state : (p q : Proc) → (lab.inherit p q).state ≡ q.state

find_unused-keeps :
    (n i : ℕ) (w : World)
    → DistinctPids w.procs w.nextpid
    → w.nextpid + 1 < 2 ^ 32
    → Post (λ r v. DistinctPids v.procs v.nextpid × (v.nextpid + 1 < 2 ^ 32)) (find_unused n i w)
unfolding find_unused
find_unused-keeps zero i w d h = (d, h)
find_unused-keeps (suc n) i w d h = elim (Bool-cases (is_state (w.procs i).state unused)) [
  | inl free ↦ rw free (d, h)
  | inr taken ↦ rw taken (
      find_unused-keeps n (i + 1)
        (record w {
          machine = record w.machine {
            trace = released (proc_lock i) ∷ acquired (proc_lock i) ∷ w.machine.trace;
          };
        })
        d h)
]

-- The world after allocpid and the two assignments that follow it.
abbrev numbered : ℕ → World → World
numbered i w = record w {
  machine = record w.machine { trace = released pid_lock ∷ acquired pid_lock ∷ w.machine.trace };
  nextpid = (w.nextpid + 1) % 2 ^ 32;
  procs = update w.procs i (λ p. record p { pid = w.nextpid; state = used });
}

numbered-DistinctPids :
    (i : ℕ) (w : World)
    → DistinctPids w.procs w.nextpid
    → w.nextpid + 1 < 2 ^ 32
    → DistinctPids (numbered i w).procs (numbered i w).nextpid
numbered-DistinctPids i w d h =
    subst (λ (n : ℕ). DistinctPids (numbered i w).procs n) (omega arith)
      (DistinctPids-next w.procs i w.nextpid (λ p. record p { pid = w.nextpid; state = used })
        (λ p. refl) d)

-- The end of every allocproc, from the call of proc_pagetable with outcome `o` on.
last_part :
    (l : Layout) (freeproc : ℕ → Cmd World (Unit {0})) (i : ℕ) (w : World) (o : Outcome Machine ℕ)
    → DistinctPids w.procs w.nextpid
    → (w.procs i).pid ≢ 0
    → ((v : World) → DistinctPids v.procs v.nextpid → Post HasDistinctPids (freeproc i v))
    → Post Made (
        and_then (lift_outcome w o) (λ pagetable. do
          modify i (λ p. record p { pagetable = pagetable })
          if pagetable == 0
              then give_up freeproc i
              else do modify i (start_context l); pure (some i)))
last_part l freeproc i w o d has_id frees = Post-lift _ w o _ (λ pagetable m.
    let f : Proc → Proc = λ p. record p { pagetable = pagetable } in
    let v : World = record w { machine = m; procs = update w.procs i f } in
    let e = DistinctPids-keep w.procs i w.nextpid f (λ q. refl) (λ q h. h) d in
    Post-if _ (pagetable == 0) _ _ v (give_up-keeps freeproc i v (frees v e)) (
      DistinctPids-keep v.procs i w.nextpid (start_context l) (λ q. refl) (λ q h. h) e,
      λ z. has_id (
          sym (
            update-pid v.procs i i (start_context l) (λ q. refl)
            ∙ update-pid w.procs i i f (λ q. refl))
          ∙ z),
    ))

PageTables-allocs :
    (l : Layout) (i : ℕ) (w : World)
    → DistinctPids w.procs w.nextpid
    → w.nextpid + 1 < 2 ^ 32
    → Post Made (PageTables.allocproc_found l i w)
unfolding PageTables.allocproc_found allocpid update
PageTables-allocs l i w d h =
    let w1 : World = numbered i w in
    let d1 = numbered-DistinctPids i w d h in
    Post-lift _ w1 (kalloc w1.machine) _ (λ trapframe m.
      let f : Proc → Proc = λ p. record p { trapframe = trapframe } in
      let w2 : World = record w1 { machine = m; procs = update w1.procs i f } in
      let d2 = DistinctPids-keep w1.procs i w1.nextpid f (λ q. refl) (λ q h. h) d1 in
      Post-if _ (trapframe == 0) _ _ w2
        (give_up-keeps (PageTables.freeproc l) i w2 (PageTables-frees l i w2 d2))
        (Post-lift _ w2 (kalloc m) _ (λ usysro m'.
          let g : Proc → Proc = λ p. record p { usysro = usysro } in
          let w3 : World = record w2 { machine = m'; procs = update w2.procs i g } in
          let d3 = DistinctPids-keep w2.procs i w1.nextpid g (λ q. refl) (λ q h. h) d2 in
          Post-if _ (usysro == 0) _ _ w3
            (give_up-keeps (PageTables.freeproc l) i w3 (PageTables-frees l i w3 d3))
            (let w4 : World = record w3 {
              machine = record m' { mem = store m'.mem (usysro + l.usyscall_pid) 4 w.nextpid };
            } in
              last_part l (PageTables.freeproc l) i w4
                (PageTables.proc_pagetable l trapframe usysro w4.machine) d3
                (rw (==_refl i) (λ z. omega (arith, z, d.positive))) (PageTables-frees l i)))))

SystemCalls-allocs :
    (l : Layout) (i : ℕ) (w : World)
    → DistinctPids w.procs w.nextpid
    → w.nextpid + 1 < 2 ^ 32
    → Post Made (SystemCalls.allocproc_found l i w)
unfolding SystemCalls.allocproc_found allocpid update
SystemCalls-allocs l i w d h =
    let w1 : World = numbered i w in
    let d1 = numbered-DistinctPids i w d h in
    Post-lift _ w1 (kalloc w1.machine) _ (λ trapframe m.
      let f : Proc → Proc = λ p. record p { trapframe = trapframe } in
      let w2 : World = record w1 { machine = m; procs = update w1.procs i f } in
      let d2 = DistinctPids-keep w1.procs i w1.nextpid f (λ q. refl) (λ q h. h) d1 in
      Post-if _ (trapframe == 0) _ _ w2
        (give_up-keeps (SystemCalls.freeproc l) i w2 (SystemCalls-frees l i w2 d2))
        (last_part l (SystemCalls.freeproc l) i w2 (SystemCalls.proc_pagetable l trapframe m) d2
          (rw (==_refl i) (λ z. omega (arith, z, d.positive))) (SystemCalls-frees l i)))

abbrev no_alarm : Proc → Proc
no_alarm p = record p { ticks = 0; ainterv = 0; handler = 0; hfl = 0 }

Traps-allocs :
    (l : Layout) (i : ℕ) (w : World)
    → DistinctPids w.procs w.nextpid
    → w.nextpid + 1 < 2 ^ 32
    → Post Made (Traps.allocproc_found l i w)
unfolding Traps.allocproc_found allocpid update
Traps-allocs l i w d h =
    let w0 : World = numbered i w in
    let w1 : World = record w0 { procs = update w0.procs i no_alarm } in
    let d1 =
      DistinctPids-keep w0.procs i w0.nextpid no_alarm (λ q. refl) (λ q h. h)
        (numbered-DistinctPids i w d h) in
    Post-lift _ w1 (kalloc w1.machine) _ (λ trapframe m.
      let f : Proc → Proc = λ p. record p { trapframe = trapframe } in
      let w2 : World = record w1 { machine = m; procs = update w1.procs i f } in
      let d2 = DistinctPids-keep w1.procs i w1.nextpid f (λ q. refl) (λ q h. h) d1 in
      Post-if _ (trapframe == 0) _ _ w2
        (give_up-keeps (Traps.freeproc l) i w2 (Traps-frees l i w2 d2))
        (Post-lift _ w2 (kalloc m) _ (λ trapframesv m'.
          let g : Proc → Proc = λ p. record p { trapframesv = trapframesv } in
          let w3 : World = record w2 { machine = m'; procs = update w2.procs i g } in
          let d3 = DistinctPids-keep w2.procs i w1.nextpid g (λ q. refl) (λ q h. h) d2 in
          Post-if _ (trapframesv == 0) _ _ w3
            (give_up-keeps (Traps.freeproc l) i w3 (Traps-frees l i w3 d3))
            (last_part l (Traps.freeproc l) i w3 (SystemCalls.proc_pagetable l trapframe m') d3
              (rw (==_refl i) (λ z. omega (arith, z, d.positive))) (Traps-frees l i)))))

found_next :
    (found : ℕ → Cmd World (Option ℕ))
    → ((i : ℕ) (v : World)
        → DistinctPids v.procs v.nextpid
        → v.nextpid + 1 < 2 ^ 32
        → Post Made (found i v))
    → (r : Option ℕ) (v : World) → DistinctPids v.procs v.nextpid × (v.nextpid + 1 < 2 ^ 32)
    → Post Made (elim r as (λ x. Cmd World (Option ℕ)) [ none ↦ pure none | some i ↦ found i ] v)
found_next found step none v (d, h) = d
found_next found step (some i) v (d, h) = step i v d h

-- allocproc, given its part from `found:` on.
from_found :
    (found : ℕ → Cmd World (Option ℕ)) (n : ℕ) (w : World)
    → ((i : ℕ) (v : World)
        → DistinctPids v.procs v.nextpid
        → v.nextpid + 1 < 2 ^ 32
        → Post Made (found i v))
    → DistinctPids w.procs w.nextpid
    → w.nextpid + 1 < 2 ^ 32
    → Post Made (
        and_then
          (find_unused n 0 w)
          (λ r. elim r as (λ x. Cmd World (Option ℕ)) [ none ↦ pure none | some i ↦ found i ]))
from_found found n w step d h =
    Post-then (λ r v. DistinctPids v.procs v.nextpid × (v.nextpid + 1 < 2 ^ 32)) Made
      (find_unused n 0 w)
      (λ r. elim r as (λ x. Cmd World (Option ℕ)) [ none ↦ pure none | some i ↦ found i ])
      (find_unused-keeps n 0 w d h) (found_next found step)

pub PageTables-IsLab : (l : Layout) → IsLab l PageTables.page_tables
unfolding PageTables.allocproc
PageTables-IsLab l = record {
  allocs = λ w d h. from_found (PageTables.allocproc_found l) l.nproc w (PageTables-allocs l) d h;
  frees = PageTables-frees l;
  inherits = λ p q. refl;
  same_state = λ p q. refl;
}

pub SystemCalls-IsLab : (l : Layout) → IsLab l SystemCalls.system_calls
unfolding SystemCalls.allocproc
SystemCalls-IsLab l = record {
  allocs = λ w d h. from_found (SystemCalls.allocproc_found l) l.nproc w (SystemCalls-allocs l) d h;
  frees = SystemCalls-frees l;
  inherits = λ p q. refl;
  same_state = λ p q. refl;
}

pub Traps-IsLab : (l : Layout) → IsLab l Traps.traps
unfolding Traps.allocproc
Traps-IsLab l = record {
  allocs = λ w d h. from_found (Traps.allocproc_found l) l.nproc w (Traps-allocs l) d h;
  frees = Traps-frees l;
  inherits = λ p q. refl;
  same_state = λ p q. refl;
}
