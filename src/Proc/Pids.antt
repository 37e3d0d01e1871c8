-- ===== src/Proc/Pids.antt =====
-- The process ids in the table of kernel/proc.c: what every operation keeps of them.
pub mod Frees
pub mod Labs
pub mod Steps
pub mod Life
pub mod Reach
use lab_utilities.Base.{
  ℕ, zero, suc, ◌+◌, ◌^◌, ◌<◌, ◌≡◌, ◌≢◌, refl, sym, ap, ◌∙◌, subst, Bool, true, false, Option, none,
  some, ◌==◌, if◌then◌else◌, arith, Bool-cases, inl, inr, ==_refl, ==_ne, ==_iff, ℕ_discrete,
}
use lab_utilities.Machine.{Machine, Outcome, ok, panic, out_of_fuel, and_then, Cmd}
use lab_utilities.Vm.Map.{Status, done, failed}
use lab_utilities.Proc.{Proc, unused, World, update, lift_outcome}

-- Every entry in use has an id, the ids are smaller than the next one, and no two entries have the same.
pub record DistinctPids (procs : ℕ → Proc) (nextpid : ℕ) : Type 0 where
  pub positive : 0 < nextpid
  pub named : (j : ℕ) → (procs j).state ≢ unused → (procs j).pid ≢ 0
  pub below : (j : ℕ) → (procs j).pid ≢ 0 → (procs j).pid < nextpid
  pub distinct : (j k : ℕ) → (procs j).pid ≢ 0 → (procs j).pid ≡ (procs k).pid → j ≡ k

-- What holds of the result and the state if a command returns.
abbrev pub Post {ℓ} : {S A : Type 0} → (A → S → Type ℓ) → Outcome S A → Type ℓ
Post P (ok a s) = P a s
Post P (panic why) = Unit
Post P out_of_fuel = Unit

pub Post-ok :
    {S A : Type 0} (P : A → S → Type 0) (o : Outcome S A) (a : A) (s : S)
    → Post P o
    → o ≡ ok a s
    → P a s
Post-ok P o a s h e = subst (λ (x : Outcome _ _). Post P x) e h

-- A command on the machine changes no process, whatever it does.
pub Post-lift :
    {A B : Type 0} (P : B → World → Type 0) (w : World) (o : Outcome Machine A)
    (k : A → Cmd World B)
    → ((a : A) (m : Machine) → Post P (k a (record w { machine = m })))
    → Post P (and_then (lift_outcome w o) k)
Post-lift P w (ok a m) k h = h a m
Post-lift P w (panic why) k h = tt
Post-lift P w out_of_fuel k h = tt

pub Post-then :
    {A B : Type 0} (Q : A → World → Type 0) (P : B → World → Type 0) (o : Outcome World A)
    (k : A → Cmd World B)
    → Post Q o
    → ((a : A) (v : World) → Q a v → Post P (k a v))
    → Post P (and_then o k)
Post-then Q P (ok a v) k q h = h a v q
Post-then Q P (panic why) k q h = tt
Post-then Q P out_of_fuel k q h = tt

pub Post-if :
    {B : Type 0} (P : B → World → Type 0) (b : Bool) (f g : Cmd World B) (w : World)
    → Post P (f w)
    → Post P (g w)
    → Post P ((if b then f else g) w)
Post-if P true f g w h k = h
Post-if P false f g w h k = k

pub Post-choose :
    {B : Type 0} (P : B → World → Type 0) (b : Bool) (o p : Outcome World B)
    → Post P o
    → Post P p
    → Post P (if b then o else p)
Post-choose P true o p h k = h
Post-choose P false o p h k = k

-- What allocproc makes: distinct ids, and an entry with an id if it found one.
abbrev pub Made : Option ℕ → World → Type 0
Made none v = DistinctPids v.procs v.nextpid
Made (some c) v = DistinctPids v.procs v.nextpid × ((v.procs c).pid ≢ 0)

pub Post-Made :
    {B : Type 0} (P : B → World → Type 0) (r : Option ℕ) (f : Cmd World B) (g : ℕ → Cmd World B)
    (w : World)
    → Made r w
    → (DistinctPids w.procs w.nextpid → Post P (f w))
    → ((c : ℕ) → DistinctPids w.procs w.nextpid → (w.procs c).pid ≢ 0 → Post P (g c w))
    → Post P ((elim r as (λ x. Cmd World B) [ none ↦ f | some a ↦ g a ]) w)
Post-Made P none f g w m h k = h m
Post-Made P (some c) f g w m h k = k c m.0 m.1

-- The same ids as before, still distinct.
abbrev pub SamePids {ℓ} : {A : Type ℓ} → World → A → World → Type 0
SamePids w a v = DistinctPids v.procs v.nextpid × ((j : ℕ) → (v.procs j).pid ≡ (w.procs j).pid)

pub Post-status :
    {B : Type 0} (P : B → World → Type 0) (r : Status) (f g : Cmd World B) (w : World)
    → Post P (f w)
    → Post P (g w)
    → Post P ((elim r as (λ x. Cmd World B) [ done ↦ f | failed ↦ g ]) w)
Post-status P done f g w h k = h
Post-status P failed f g w h k = k

-- A change of an entry that keeps its id.
pub update-pid :
    (procs : ℕ → Proc) (i j : ℕ) (f : Proc → Proc)
    → ((p : Proc) → (f p).pid ≡ p.pid)
    → (update procs i f j).pid ≡ (procs j).pid
unfolding update
update-pid procs i j f keeps = elim (Bool-cases (i == j)) [
  | inl e ↦ rw e (keeps (procs j))
  | inr e ↦ rw e
]

update_here :
    (procs : ℕ → Proc) (i j : ℕ) (f : Proc → Proc) → i ≡ j → update procs i f j ≡ f (procs j)
unfolding update
update_here procs i j f e = rw ((==_iff i j).1 e)

pub update_apart :
    (procs : ℕ → Proc) (i j : ℕ) (f : Proc → Proc) → i ≢ j → update procs i f j ≡ procs j
unfolding update
update_apart procs i j f ne = rw (==_ne i j ne)

-- A table with the same ids.
pub DistinctPids-same :
    (procs qs : ℕ → Proc) (n : ℕ)
    → ((j : ℕ) → (qs j).pid ≡ (procs j).pid)
    → ((j : ℕ) → (qs j).state ≢ unused → (procs j).state ≢ unused)
    → DistinctPids procs n
    → DistinctPids qs n
DistinctPids-same procs qs n same lives d = record {
  positive = d.positive;
  named = λ j used z. d.named j (lives j used) (sym (same j) ∙ z);
  below = λ j used. rw (same j) (d.below j (λ e. used (same j ∙ e)));
  distinct = λ j k used e. d.distinct j k (λ z. used (same j ∙ z)) (sym (same j) ∙ e ∙ same k);
}

pub DistinctPids-keep :
    (procs : ℕ → Proc) (i n : ℕ) (f : Proc → Proc)
    → ((p : Proc) → (f p).pid ≡ p.pid)
    → ((p : Proc) → (f p).state ≢ unused → p.state ≢ unused)
    → DistinctPids procs n
    → DistinctPids (update procs i f) n
unfolding update
DistinctPids-keep procs i n f keeps lives d =
    DistinctPids-same procs (update procs i f) n (λ j. update-pid procs i j f keeps)
      (λ j used. elim (Bool-cases (i == j)) [
        | inl e ↦ lives (procs j) (rw e at used)
        | inr e ↦ rw e at used
      ])
      d

-- An entry in use changes its state.
pub DistinctPids-moves :
    (procs : ℕ → Proc) (i n : ℕ) (f : Proc → Proc)
    → ((p : Proc) → (f p).pid ≡ p.pid)
    → (procs i).pid ≢ 0
    → DistinctPids procs n
    → DistinctPids (update procs i f) n
DistinctPids-moves procs i n f keeps used d =
    let same = λ (j : ℕ). update-pid procs i j f keeps in
    record {
      positive = d.positive;
      named = λ j live z. elim (ℕ_discrete i j) [
        | yes e ↦ used (ap (λ (k : ℕ). (procs k).pid) e ∙ sym (same j) ∙ z)
        | no ne ↦
            d.named j (λ h. live (ap (λ (p : Proc). p.state) (update_apart procs i j f ne) ∙ h))
              (sym (same j) ∙ z)
      ];
      below = λ j used. rw (same j) (d.below j (λ e. used (same j ∙ e)));
      distinct = λ j k used e. d.distinct j k (λ z. used (same j ∙ z)) (sym (same j) ∙ e ∙ same k);
    }

-- An entry is given the next id.
pub DistinctPids-next :
    (procs : ℕ → Proc) (i n : ℕ) (f : Proc → Proc)
    → ((p : Proc) → (f p).pid ≡ n)
    → DistinctPids procs n
    → DistinctPids (update procs i f) (n + 1)
DistinctPids-next procs i n f new d =
    let here : (j : ℕ) → i ≡ j → (update procs i f j).pid ≡ n =
      λ j e. ap (λ (p : Proc). p.pid) (update_here procs i j f e) ∙ new (procs j) in
    let apart : (j : ℕ) → i ≢ j → (update procs i f j).pid ≡ (procs j).pid =
      λ j ne. ap (λ (p : Proc). p.pid) (update_apart procs i j f ne) in
    let taken : (j : ℕ) → (procs j).pid ≢ n =
      λ j e. omega (arith, e, d.below j (λ z. omega (arith, z, e, d.positive))) in
    record {
      positive = omega arith;
      named = λ j live z. elim (ℕ_discrete i j) [
        | yes e ↦ omega (arith, here j e, z, d.positive)
        | no ne ↦
            d.named j (λ h. live (ap (λ (p : Proc). p.state) (update_apart procs i j f ne) ∙ h))
              (sym (apart j ne) ∙ z)
      ];
      below = λ j used. elim (ℕ_discrete i j) [
        | yes e ↦ omega (arith, here j e)
        | no ne ↦ omega (arith, apart j ne, d.below j (λ z. used (apart j ne ∙ z)))
      ];
      distinct = λ j k used e. elim (ℕ_discrete i j) [
        | yes a ↦ elim (ℕ_discrete i k) [
          | yes b ↦ sym a ∙ b
          | no b ↦ absurd (taken k (sym (apart k b) ∙ sym e ∙ here j a))
        ]
        | no a ↦ elim (ℕ_discrete i k) [
          | yes b ↦ absurd (taken j (sym (apart j a) ∙ e ∙ here k b))
          | no b ↦ d.distinct j k (λ z. used (apart j a ∙ z)) (sym (apart j a) ∙ e ∙ apart k b)
        ]
      ];
    }

-- An entry loses its id.
pub DistinctPids-free :
    (procs : ℕ → Proc) (i n : ℕ) (f : Proc → Proc)
    → ((p : Proc) → (f p).pid ≡ 0)
    → ((p : Proc) → (f p).state ≡ unused)
    → DistinctPids procs n
    → DistinctPids (update procs i f) n
DistinctPids-free procs i n f gone rests d =
    let here : (j : ℕ) → i ≡ j → (update procs i f j).pid ≡ 0 =
      λ j e. ap (λ (p : Proc). p.pid) (update_here procs i j f e) ∙ gone (procs j) in
    let apart : (j : ℕ) → (update procs i f j).pid ≢ 0 → (update procs i f j).pid ≡ (procs j).pid =
      λ j used. ap (λ (p : Proc). p.pid) (update_apart procs i j f (λ e. used (here j e))) in
    record {
      positive = d.positive;
      named = λ j live z. elim (ℕ_discrete i j) [
        | yes e ↦ live (ap (λ (p : Proc). p.state) (update_here procs i j f e) ∙ rests (procs j))
        | no ne ↦
            d.named j (λ h. live (ap (λ (p : Proc). p.state) (update_apart procs i j f ne) ∙ h))
              (sym (ap (λ (p : Proc). p.pid) (update_apart procs i j f ne)) ∙ z)
      ];
      below = λ j used. rw (apart j used) (d.below j (λ z. used (apart j used ∙ z)));
      distinct = λ j k used e.
          let same = apart j used in
          let other = apart k (λ z. used (e ∙ z)) in
          d.distinct j k (λ z. used (same ∙ z)) (sym same ∙ e ∙ other);
    }
