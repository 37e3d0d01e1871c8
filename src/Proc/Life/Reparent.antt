-- ===== src/Proc/Life/Reparent.antt =====
-- reparent of kernel/proc.c.
use lab_utilities.Base.{
  ℕ, zero, suc, ◌+◌, ◌≡◌, ◌⊎◌, refl, sym, ap, subst, ◌∙◌, Bool, true, false, ◌&&◌, ◌||◌, Option,
  some, leb, ltb, ◌==◌, if◌then◌else◌, arith, Bool-cases, inl, inr, ==_ne, ==_iff, ℕ_discrete,
}
use lab_utilities.Layout.{Layout}
use lab_utilities.Machine.{ok}
use lab_utilities.Proc.{sleeping, runnable, Proc, World, update, same_proc, proc_ptr}
use lab_utilities.Proc.Sched.Wakeup.{wakeup-procs, woken, Quiet, Quiet-refl, Quiet-trans}
use lab_utilities.Proc.Life.{reparent_loop, reparent}

-- A process before and after some wakeups of a channel.
abbrev pub Woke : ℕ → Proc → Proc → Type 0
Woke chan p q =
    (q ≡ p) ⊎ ((p.state ≡ sleeping) × (p.chan ≡ chan) × (q ≡ record p { state = runnable }))

pub Woke-trans : (chan : ℕ) (p q r : Proc) → Woke chan p q → Woke chan q r → Woke chan p r
Woke-trans chan p q r (inl e) k = subst (λ (x : Proc). Woke chan x r) e k
Woke-trans chan p q r (inr (a, b, e)) (inl f) = inr (a, b, f ∙ e)
Woke-trans chan p q r (inr (a, b, e)) (inr (a', b', f)) = absurd (cc (ap (λ (x : Proc). x.state) e))

pub woken-Woke : (me : Option ℕ) (chan j : ℕ) (p : Proc) → Woke chan p (woken me chan j p)
woken-Woke me chan j p = ground arith

-- A process whose parent was `i`, handed over to `init`.
abbrev pub adopt : Option ℕ → ℕ → Bool → Proc → Proc
adopt init i b p = if b && same_proc p.parent (some i) then record p { parent = init } else p

adopt-Woke :
    (init : Option ℕ) (i chan : ℕ) (b : Bool) (p q : Proc)
    → Woke chan p q
    → Woke chan (adopt init i b p) (adopt init i b q)
adopt-Woke init i chan b p q (inl e) = inl (ap (λ (x : Proc). adopt init i b x) e)
adopt-Woke init i chan b p q (inr (a, c, e)) =
    elim (Bool-cases (b && same_proc p.parent (some i))) [
      | inl yes_ ↦ inr (rw yes_ a, rw yes_ c, rw (e, yes_))
      | inr no_ ↦ inr (rw no_ a, rw no_ c, rw (e, no_))
    ]

adopt_twice :
    (init : Option ℕ) (i : ℕ) (b c : Bool) (p : Proc)
    → adopt init i b (adopt init i c p) ≡ adopt init i (c || b) p
adopt_twice init i false false p = refl
adopt_twice init i false true p = refl
adopt_twice init i true false p = refl
adopt_twice init i true true p = elim (Bool-cases (same_proc p.parent (some i))) [
  | inl mine ↦ elim (Bool-cases (same_proc init (some i))) [
    | inl again ↦ rw (mine, again)
    | inr other ↦ rw (mine, other)
  ]
  | inr other ↦ rw (other, other)
]

-- A table after a wakeup, entry by entry.
pub table-Woke :
    (me : Option ℕ) (chan k : ℕ) (b : Bool) (p q : Proc)
    → q ≡ (if b then woken me chan k p else p)
    → Woke chan p q
table-Woke me chan k true p q e =
    subst (λ (x : Proc). Woke chan p x) (sym e) (woken-Woke me chan k p)
table-Woke me chan k false p q e = inl e

-- The entry `j` handed over, as a change of each entry.
update-adopt :
    (init : Option ℕ) (i j k : ℕ) (procs : ℕ → Proc)
    → same_proc (procs j).parent (some i) ≡ true
    → update procs j (λ q. record q { parent = init }) k ≡ adopt init i (j == k) (procs k)
unfolding update
update-adopt init i j k procs mine = elim (ℕ_discrete j k) [
  | yes e ↦
      let here = subst (λ (x : ℕ). same_proc (procs x).parent (some i) ≡ true) e mine in
      rw ((==_iff j k).1 e, here)
  | no ne ↦ rw (==_ne j k ne)
]

skip-adopt :
    (init : Option ℕ) (i j k : ℕ) (procs : ℕ → Proc)
    → same_proc (procs j).parent (some i) ≡ false
    → procs k ≡ adopt init i (j == k) (procs k)
skip-adopt init i j k procs other = elim (ℕ_discrete j k) [
  | yes e ↦
      let here = subst (λ (x : ℕ). same_proc (procs x).parent (some i) ≡ false) e other in
      rw ((==_iff j k).1 e, here)
  | no ne ↦ rw (==_ne j k ne)
]

-- One round: the process in place `j`, if it is a child of `i`, and those that the wakeup finds.
reparent-round :
    (l : Layout) (i n j : ℕ) (w : World)
    → (v : World) × (reparent_loop l i (suc n) j w ≡ reparent_loop l i n (j + 1) v)
      × ((k : ℕ)
          → Woke (proc_ptr l w.initproc) (adopt w.initproc i (j == k) (w.procs k)) (v.procs k))
      × Quiet w v
unfolding reparent_loop
reparent-round l i n j w = elim (Bool-cases (same_proc (w.procs j).parent (some i))) [
  | inr other ↦ (w, rw other, λ k. inl (skip-adopt w.initproc i j k w.procs other), Quiet-refl w)
  | inl mine ↦
      let w1 : World = record w {
        procs = update w.procs j (λ q. record q { parent = w.initproc });
      } in
      let (v, run, table, quiet) = wakeup-procs l (proc_ptr l w.initproc) w1 in
      (
        v,
        rw (mine, run),
        λ k.
            subst (λ (p : Proc). Woke (proc_ptr l w.initproc) p (v.procs k))
              (update-adopt w.initproc i j k w.procs mine)
              (table-Woke w.current (proc_ptr l w.initproc) k (ltb k l.nproc) (w1.procs k)
                (v.procs k) (table k)),
        record {
          current = quiet.current;
          mem = quiet.mem;
          freelist = quiet.freelist;
          nextpid = quiet.nextpid;
          initproc = quiet.initproc;
          cpu = quiet.cpu;
          clock = quiet.clock;
        },
      )
]

range_suc :
    (j n k : ℕ)
    → ((j == k) || (leb (j + 1) k && ltb k (j + 1 + n))) ≡ (leb j k && ltb k (j + suc n))
range_suc j n k = ground arith

reparent_loop-nothing : (l : Layout) (i j : ℕ) (w : World) → reparent_loop l i 0 j w ≡ ok tt w
unfolding reparent_loop
reparent_loop-nothing l i j w = refl

reparent_loop-Woke :
    (l : Layout) (i n j : ℕ) (w : World)
    → (v : World) × (reparent_loop l i n j w ≡ ok tt v)
      × ((k : ℕ)
          → Woke
              (proc_ptr l w.initproc)
              (adopt w.initproc i (leb j k && ltb k (j + n)) (w.procs k))
              (v.procs k))
      × Quiet w v
reparent_loop-Woke l i zero j w = (
  w,
  reparent_loop-nothing l i j w,
  λ k. let none_in : (leb j k && ltb k (j + 0)) ≡ false = ground arith in inl (rw none_in),
  Quiet-refl w,
)
reparent_loop-Woke l i (suc n) j w =
    let (u, step, first, quiet) = reparent-round l i n j w in
    let (v, run, later, quiet') = reparent_loop-Woke l i n (j + 1) u in
    (
      v,
      step ∙ run,
      λ k.
          let chan : ℕ = proc_ptr l w.initproc in
          let rest : Bool = leb (j + 1) k && ltb k (j + 1 + n) in
          let moved : Woke chan (adopt w.initproc i rest (adopt w.initproc i (j == k) (w.procs k)))
              (adopt w.initproc i rest (u.procs k)) =
            adopt-Woke w.initproc i chan rest (adopt w.initproc i (j == k) (w.procs k)) (u.procs k)
              (first k) in
          let all : Bool = leb j k && ltb k (j + suc n) in
          let merged : adopt w.initproc i rest (adopt w.initproc i (j == k) (w.procs k))
              ≡ adopt w.initproc i all (w.procs k) =
            adopt_twice w.initproc i rest (j == k) (w.procs k)
            ∙ ap (λ (b : Bool). adopt w.initproc i b (w.procs k)) (range_suc j n k) in
          let before =
            subst (λ (p : Proc). Woke chan p (adopt w.initproc i rest (u.procs k))) merged moved in
          let after =
            subst (λ (o : Option ℕ). Woke (proc_ptr l o) (adopt o i rest (u.procs k)) (v.procs k))
              quiet.initproc (later k) in
          Woke-trans chan (adopt w.initproc i all (w.procs k)) (adopt w.initproc i rest (u.procs k))
            (v.procs k) before after,
      Quiet-trans quiet quiet',
    )

-- reparent(p) always returns. Every process in the table whose parent was `i` has `initproc` as its
-- parent; apart from that, at most processes that slept on initproc's channel have been made
-- runnable. Memory and the rest of the world are as before.
pub reparent-Woke :
    (l : Layout) (i : ℕ) (w : World)
    → (v : World) × (reparent l i w ≡ ok tt v)
      × ((k : ℕ)
          → Woke
              (proc_ptr l w.initproc)
              (adopt w.initproc i (ltb k l.nproc) (w.procs k))
              (v.procs k))
      × Quiet w v
unfolding reparent
reparent-Woke l i w =
    let (v, run, table, quiet) = reparent_loop-Woke l i l.nproc 0 w in
    (
      v,
      run,
      λ k.
          let test : (leb 0 k && ltb k (0 + l.nproc)) ≡ ltb k l.nproc = ground arith in
          subst
            (λ (b : Bool).
              Woke (proc_ptr l w.initproc) (adopt w.initproc i b (w.procs k)) (v.procs k))
            test (table k),
      quiet,
    )
