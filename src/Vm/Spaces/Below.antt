-- ===== src/Vm/Spaces/Below.antt =====
-- The tables below a table, for freewalk of vm.c.
use lab_utilities.Base.{
  ℕ, zero, suc, ◌<◌, ◌≤◌, ◌≡◌, ◌⊎◌, inl, inr, refl, sym, ap, subst, Bool-cases, true, false, arith,
  List, [], ◌∷◌, length, ◌==◌, bit_and, bit_or,
}
use lab_utilities.Memory.{Mem}
use lab_utilities.Riscv.{pte_v, pte_r, pte_w, pte_x, flag_set, pte2pa, px}
use lab_utilities.Riscv.Rounding.{px-lt}
use lab_utilities.Vm.Spaces.{table, Roles, entry_in, Under, view}

-- `p` is the path to a table at or below the one at `path`.
abbrev pub Within : List ℕ → List ℕ → Type 0
Within path [] = path ≡ []
Within path (i ∷ p) = (path ≡ i ∷ p) ⊎ Within path p

pub Within-refl : (path : List ℕ) → Within path path
Within-refl [] = refl
Within-refl (i ∷ p) = inl refl

pub Within-length : (path p : List ℕ) → Within path p → length path ≤ length p
Within-length path [] e = omega (arith, ap length e)
Within-length path (i ∷ p) (inl e) = omega (arith, ap length e)
Within-length path (i ∷ p) (inr k) = omega (arith, Within-length path p k)

pub Within-up : (i : ℕ) (path p : List ℕ) → Within (i ∷ path) p → Within path p
Within-up i path [] e = absurd (cc e)
Within-up i path (j ∷ p) (inl e) =
    let same : path ≡ p = cc e in
    inr (subst (λ (q : List ℕ). Within path q) same (Within-refl path))
Within-up i path (j ∷ p) (inr k) = inr (Within-up i path p k)

-- The paths below two entries of a table are different.
pub Within-same : (i j : ℕ) (path p : List ℕ) → Within (i ∷ path) p → Within (j ∷ path) p → i ≡ j
Within-same i j path [] a b = absurd (cc a)
Within-same i j path (k ∷ p) (inl a) (inl b) = cc (a, b)
Within-same i j path (k ∷ p) (inl a) (inr b) =
    absurd (omega (arith, ap length a, Within-length (j ∷ path) p b))
Within-same i j path (k ∷ p) (inr a) (inl b) =
    absurd (omega (arith, ap length b, Within-length (i ∷ path) p a))
Within-same i j path (k ∷ p) (inr a) (inr b) = Within-same i j path p a b

-- No entry below the table is a leaf.
abbrev pub NoLeaf : Mem → ℕ → ℕ → Type 0
NoLeaf m zero x = (i : ℕ) → i < 512 → flag_set pte_v (entry_in m x i) ≡ false
NoLeaf m (suc k) x =
    (i : ℕ)
    → i < 512
    → flag_set pte_v (entry_in m x i) ≡ true
    → ((bit_and (entry_in m x i) (bit_or (bit_or pte_r pte_w) pte_x) == 0) ≡ true)
      × NoLeaf m k (pte2pa (entry_in m x i))

-- `y` is a table at or below the table `x`.
abbrev pub Below : Mem → ℕ → ℕ → ℕ → Type 0
Below m zero x y = y ≡ x
Below m (suc k) x y =
    (y ≡ x)
    ⊎ ((i : ℕ) × (i < 512)
        × (flag_set pte_v (entry_in m x i) ≡ true)
        × Below m k (pte2pa (entry_in m x i)) y)

-- The tables of a part of the address spaces keep their roles and entries.
pub record KeepsOn (S : ℕ → List ℕ → Type 0) (own own' : Roles) (m g : Mem) : Type 0 where
  pub closed : (r i : ℕ) (path : List ℕ) → S r path → S r (i ∷ path)
  pub roles : (x r : ℕ) (path : List ℕ) → S r path → own x ≡ table r path → own' x ≡ table r path
  pub entries :
      (x j r : ℕ) (path : List ℕ)
      → S r path
      → own x ≡ table r path
      → j < 512
      → entry_in g x j ≡ entry_in m x j

module _ (S : ℕ → List ℕ → Type 0) (own own' : Roles) (m g : Mem) (k : KeepsOn S own own' m g) where
  pub Under-KeepsOn :
      (level r : ℕ) (path : List ℕ) (x : ℕ)
      → S r path
      → own x ≡ table r path
      → Under own m level r path x
      → Under own' g level r path x
  Under-KeepsOn zero r path x here role under = tt
  Under-KeepsOn (suc level) r path x here role under = λ j low valid.
      let e = k.entries x j r path here role low in
      let (role', under') = under j low (rw e at valid) in
      let here' = k.closed r j path here in
      subst
        (λ (a : ℕ).
          (own' (pte2pa a) ≡ table r (j ∷ path)) × Under own' g level r (j ∷ path) (pte2pa a))
        (sym e)
        (
          k.roles (pte2pa (entry_in m x j)) r (j ∷ path) here' role',
          Under-KeepsOn level r (j ∷ path) (pte2pa (entry_in m x j)) here' role' under',
        )

  pub NoLeaf-KeepsOn :
      (level r : ℕ) (path : List ℕ) (x : ℕ)
      → S r path
      → own x ≡ table r path
      → Under own m level r path x
      → NoLeaf m level x
      → NoLeaf g level x
  NoLeaf-KeepsOn zero r path x here role under h =
      λ i low. rw (k.entries x i r path here role low) (h i low)
  NoLeaf-KeepsOn (suc level) r path x here role under h = λ j low valid.
      let e = k.entries x j r path here role low in
      let valid' : flag_set pte_v (entry_in m x j) ≡ true = rw e at valid in
      let (role', under') = under j low valid' in
      let (inner, below) = h j low valid' in
      subst
        (λ (a : ℕ).
          ((bit_and a (bit_or (bit_or pte_r pte_w) pte_x) == 0) ≡ true) × NoLeaf g level (pte2pa a))
        (sym e)
        (
          inner,
          NoLeaf-KeepsOn level r (j ∷ path) (pte2pa (entry_in m x j)) (k.closed r j path here) role'
              under' below,
        )

  pub Below-KeepsOn :
      (level r : ℕ) (path : List ℕ) (x y : ℕ)
      → S r path
      → own x ≡ table r path
      → Under own m level r path x
      → Below m level x y
      → Below g level x y
  Below-KeepsOn zero r path x y here role under h = h
  Below-KeepsOn (suc level) r path x y here role under (inl e) = inl e
  Below-KeepsOn (suc level) r path x y here role under (inr (j, low, valid, below)) =
      let e = k.entries x j r path here role low in
      let (role', under') = under j low valid in
      inr (
        j,
        low,
        rw e valid,
        subst (λ (a : ℕ). Below g level (pte2pa a) y) (sym e)
            (Below-KeepsOn level r (j ∷ path) (pte2pa (entry_in m x j)) y (k.closed r j path here)
              role' under' below),
      )

  pub view-KeepsOn :
      (level r : ℕ) (path : List ℕ) (x va : ℕ)
      → S r path
      → own x ≡ table r path
      → Under own m level r path x
      → view g level x va ≡ view m level x va
  unfolding view
  view-KeepsOn zero r path x va here role under =
      k.entries x (px 0 va) r path here role (px-lt 0 va)
  view-KeepsOn (suc level) r path x va here role under =
      let j : ℕ = px (suc level) va in
      let e = k.entries x j r path here role (px-lt (suc level) va) in
      elim (Bool-cases (flag_set pte_v (entry_in m x j))) [
        | inr invalid ↦ rw (e, invalid)
        | inl valid ↦
            let (role', under') = under j (px-lt (suc level) va) valid in
            rw (e, valid)
              (view-KeepsOn level r (j ∷ path) (pte2pa (entry_in m x j)) va (k.closed r j path here)
                role' under')
      ]
