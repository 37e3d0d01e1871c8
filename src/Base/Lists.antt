-- ===== src/Base/Lists.antt =====
-- Lists measured and indexed by native numbers, membership as a Boolean, and the pigeonhole bound.
use Prim.Native.Nat.{ℕ, zero, suc, ◌+◌, ◌≤◌, ◌<◌}
use mathlib.Core.Path.{◌≡◌, refl, ap}
use mathlib.Core.Bool.{Bool, false, ◌||◌}
use mathlib.Core.List.{List, [], ◌∷◌, ◌++◌}
use mathlib.Core.Option.{Option, none, some}
use native.Mathlib.Omega.{arith}
use lab_utilities.Base.Tests.{◌==◌, if◌then◌else◌}

module _ {ℓ} {A : Type ℓ} where
  abbrev pub length : List A → ℕ
  length [] = 0
  length (x ∷ xs) = suc (length xs)

  abbrev pub get_elem? : List A → ℕ → Option A
  get_elem? [] i = none
  get_elem? (x ∷ xs) zero = some x
  get_elem? (x ∷ xs) (suc i) = get_elem? xs i

  -- A write out of bounds changes nothing.
  abbrev pub set : List A → ℕ → A → List A
  set [] i v = []
  set (x ∷ xs) zero v = v ∷ xs
  set (x ∷ xs) (suc i) v = x ∷ set xs i v

  abbrev pub take : ℕ → List A → List A
  take zero xs = []
  take (suc n) [] = []
  take (suc n) (x ∷ xs) = x ∷ take n xs

  abbrev pub replicate : ℕ → A → List A
  replicate zero x = []
  replicate (suc n) x = x ∷ replicate n x

  pub take-append : (xs ys : List A) → take (length xs) (xs ++ ys) ≡ xs
  take-append [] ys = refl
  take-append (x ∷ xs) ys = ap (λ (zs : List A). x ∷ zs) (take-append xs ys)

  pub take_all : (n : ℕ) (xs : List A) → length xs ≤ n → take n xs ≡ xs
  take_all zero [] h = refl
  take_all zero (x ∷ xs) h = absurd (omega arith)
  take_all (suc n) [] h = refl
  take_all (suc n) (x ∷ xs) h = ap (λ (zs : List A). x ∷ zs) (take_all n xs (omega arith))

  pub length-replicate : (n : ℕ) (x : A) → length (replicate n x) ≡ n
  length-replicate zero x = refl
  length-replicate (suc n) x = ap suc (length-replicate n x)

  pub length-append : (xs ys : List A) → length (xs ++ ys) ≡ length xs + length ys
  length-append [] ys = omega arith
  length-append (x ∷ xs) ys = omega (arith, length-append xs ys)

  pub length-set : (xs : List A) (i : ℕ) (v : A) → length (set xs i v) ≡ length xs
  length-set [] i v = refl
  length-set (x ∷ xs) zero v = refl
  length-set (x ∷ xs) (suc i) v = ap suc (length-set xs i v)

abbrev pub All {ℓ κ} : {A : Type ℓ} → (A → Type κ) → List A → Type κ
All P [] = Unit
All P (x ∷ xs) = P x × All P xs

-- Whether a number stands in a list.
abbrev pub has : ℕ → List ℕ → Bool
has a [] = false
has a (x ∷ xs) = (a == x) || has a xs

abbrev pub Distinct : List ℕ → Type 0
Distinct [] = Unit {0}
Distinct (x ∷ xs) = (has x xs ≡ false) × Distinct xs

-- The list without the first occurrence of a number.
abbrev erase : ℕ → List ℕ → List ℕ
erase a [] = []
erase a (x ∷ xs) = if a == x then xs else x ∷ erase a xs

has-erase : (b a : ℕ) (xs : List ℕ) → has b xs ≡ false → has b (erase a xs) ≡ false
has-erase b a [] h = refl
has-erase b a (x ∷ xs) h = ground (arith, has-erase b a xs)

Distinct-erase : (a : ℕ) (xs : List ℕ) → Distinct xs → Distinct (erase a xs)
Distinct-erase a [] d = tt
Distinct-erase a (x ∷ xs) d = ground (arith, has-erase x a xs, Distinct-erase a xs d.1)

length-erase-le : (a : ℕ) (xs : List ℕ) → length xs ≤ suc (length (erase a xs))
length-erase-le a [] = omega arith
length-erase-le a (x ∷ xs) = ground (arith, length-erase-le a xs)

All-lt_of_absent :
    (n : ℕ) (xs : List ℕ) → has n xs ≡ false → All (λ x. x < suc n) xs → All (λ x. x < n) xs
All-lt_of_absent n [] h k = tt
All-lt_of_absent n (x ∷ xs) h k = ground (arith, All-lt_of_absent n xs)

All-lt-erase :
    (n : ℕ) (xs : List ℕ) → Distinct xs → All (λ x. x < suc n) xs → All (λ x. x < n) (erase n xs)
All-lt-erase n [] d h = tt
All-lt-erase n (x ∷ xs) d h = ground (arith, All-lt-erase n xs d.1 h.1, All-lt_of_absent n xs)

-- Distinct numbers below `n` are at most `n` many.
pub length-le_of_Distinct :
    (n : ℕ) (xs : List ℕ) → Distinct xs → All (λ x. x < n) xs → length xs ≤ n
length-le_of_Distinct zero [] d h = omega arith
length-le_of_Distinct zero (x ∷ xs) d h = absurd (omega arith)
length-le_of_Distinct (suc n) xs d h = omega (
  arith,
  length-erase-le n xs,
  length-le_of_Distinct n (erase n xs) (Distinct-erase n xs d) (All-lt-erase n xs d h),
)
