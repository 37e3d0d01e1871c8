-- ===== src/Pingpong/Tests.antt =====
-- Tests on the states of lab utilities/pingpong.c, and tests of all counts below a bound.
use lab_utilities.Base.{
  ℕ, zero, suc, ◌<◌, ◌≡◌, refl, ap, ◌∙◌, Bool, true, false, ◌&&◌, List, [], ◌∷◌, ◌==◌, ℕ_discrete,
  arith,
}
use lab_utilities.Pingpong.{Process, child, parent, Item, pid_of, text, Channel, State}

-- Equality tests.
abbrev pub same_numbers : List ℕ → List ℕ → Bool
same_numbers [] [] = true
same_numbers [] (y ∷ ys) = false
same_numbers (x ∷ xs) [] = false
same_numbers (x ∷ xs) (y ∷ ys) = (x == y) && same_numbers xs ys

abbrev pub same_process : Process → Process → Bool
same_process child child = true
same_process child parent = false
same_process parent child = false
same_process parent parent = true

abbrev pub same_item : Item → Item → Bool
same_item (pid_of v) (pid_of w) = same_process v w
same_item (pid_of v) (text t) = false
same_item (text t) (pid_of w) = false
same_item (text t) (text u) = same_numbers t u

abbrev pub same_items : List Item → List Item → Bool
same_items [] [] = true
same_items [] (j ∷ js) = false
same_items (i ∷ is) [] = false
same_items (i ∷ is) (j ∷ js) = same_item i j && same_items is js

abbrev pub same_channel : Channel → Channel → Bool
same_channel c d =
    same_numbers c.bytes d.bytes && (c.readers == d.readers) && (c.writers == d.writers)

abbrev pub same_state : State → State → Bool
same_state s t =
    (s.child_at == t.child_at)
    && (s.parent_at == t.parent_at)
    && same_channel s.first t.first
    && same_channel s.second t.second
    && same_items s.out t.out

pub and_left : (a b : Bool) → (a && b) ≡ true → a ≡ true
and_left a b h = ground arith

pub and_right : (a b : Bool) → (a && b) ≡ true → b ≡ true
and_right a b h = ground arith

same_numbers-eq : (xs ys : List ℕ) → same_numbers xs ys ≡ true → xs ≡ ys
same_numbers-eq [] [] h = refl
same_numbers-eq [] (y ∷ ys) h = absurd (cc h)
same_numbers-eq (x ∷ xs) [] h = absurd (cc h)
same_numbers-eq (x ∷ xs) (y ∷ ys) h = ground (arith, same_numbers-eq xs ys)

pub same_item-eq : (i j : Item) → same_item i j ≡ true → i ≡ j
same_item-eq (pid_of child) (pid_of child) h = refl
same_item-eq (pid_of child) (pid_of parent) h = absurd (cc h)
same_item-eq (pid_of parent) (pid_of child) h = absurd (cc h)
same_item-eq (pid_of parent) (pid_of parent) h = refl
same_item-eq (pid_of v) (text t) h = absurd (cc h)
same_item-eq (text t) (pid_of w) h = absurd (cc h)
same_item-eq (text t) (text u) h = ap text (same_numbers-eq t u h)

same_items-eq : (is js : List Item) → same_items is js ≡ true → is ≡ js
same_items-eq [] [] h = refl
same_items-eq [] (j ∷ js) h = absurd (cc h)
same_items-eq (i ∷ is) [] h = absurd (cc h)
same_items-eq (i ∷ is) (j ∷ js) h = ground (arith, same_items-eq is js, same_item-eq i j)

same_channel-eq : (c d : Channel) → same_channel c d ≡ true → c ≡ d
same_channel-eq c d h = ground (arith, same_numbers-eq c.bytes d.bytes)

pub same_state-eq : (s t : State) → same_state s t ≡ true → s ≡ t
same_state-eq s t h = ground (
  arith,
  same_channel-eq s.first t.first,
  same_channel-eq s.second t.second,
  same_items-eq s.out t.out,
)

-- A test that holds below a bound.
unfoldable pub all_below : ℕ → (ℕ → Bool) → Bool
all_below zero f = true
all_below (suc n) f = f n && all_below n f

pub all_below-holds : (n : ℕ) (f : ℕ → Bool) (k : ℕ) → all_below n f ≡ true → k < n → f k ≡ true
unfolding all_below
all_below-holds zero f k h low = absurd (omega arith)
all_below-holds (suc n) f k h low = elim (ℕ_discrete k n) [
  | yes e ↦ ap f e ∙ and_left (f n) (all_below n f) h
  | no ne ↦ all_below-holds n f k (and_right (f n) (all_below n f) h) (omega arith)
]
