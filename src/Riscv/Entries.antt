-- ===== src/Riscv/Entries.antt =====
-- The fields of a page-table entry of lab page tables/kernel/riscv.h.
use lab_utilities.Base.{ℕ, ◌+◌, ◌*◌, ◌/◌, ◌%◌, ◌^◌, ◌<◌, ◌≡◌, refl, true, false, bit_or, arith, ap}
use lab_utilities.Base.Bits.{bit_or-fields, bit_and-pow, bit_or_low, bit_or-zero, bit_and-mask}
use lab_utilities.Riscv.{pa2pte, pte2pa, pte_v, pte_u, flag_set, pte_flags}

pub pa2pte_lem : (pa : ℕ) → pa < 2 ^ 56 → pa2pte pa ≡ pa / 4096 * 1024
unfolding pa2pte
pa2pte_lem pa h = omega arith

pub pte2pa_lem : (pte : ℕ) → pte < 2 ^ 54 → pte2pa pte ≡ pte / 1024 * 4096
unfolding pte2pa
pte2pa_lem pte h = omega arith

pub pte2pa-aligned : (pte : ℕ) → pte2pa pte % 4096 ≡ 0
unfolding pte2pa
pte2pa-aligned pte = omega arith

-- The lowest digit set.
bit_or-one : (a : ℕ) → bit_or a 1 ≡ a / 2 * 2 + 1
bit_or-one a = omega (arith, bit_or_low a 1, bit_or-zero (a / 2))

-- The entry that mappages writes.
abbrev pub leaf : ℕ → ℕ → ℕ
leaf pa perm = bit_or (bit_or (pa2pte pa) perm) pte_v

module _ (pa perm : ℕ) (h : pa < 2 ^ 56) (small : perm < 1024) where
  pub leaf_lem : leaf pa perm ≡ pa / 4096 * 1024 + (perm / 2 * 2 + 1)
  leaf_lem = omega (
    arith,
    pa2pte_lem pa h,
    ap (λ (t : ℕ). bit_or t perm) (pa2pte_lem pa h),
    bit_or-fields 10 (pa / 4096) perm small,
    bit_or-one (bit_or (pa2pte pa) perm),
  )

  pub leaf-lt : leaf pa perm < 2 ^ 54
  leaf-lt = omega (arith, leaf_lem)

  pub pte2pa-leaf : pte2pa (leaf pa perm) ≡ pa / 4096 * 4096
  pte2pa-leaf = omega (arith, leaf_lem, pte2pa_lem (leaf pa perm) leaf-lt)

  -- V is set, and U exactly when it is asked for.
  pub leaf-valid : flag_set pte_v (leaf pa perm) ≡ true
  leaf-valid = ground (arith, bit_and-pow 0 (leaf pa perm), leaf_lem)

  pub leaf-user : flag_set pte_u (leaf pa perm) ≡ flag_set pte_u perm
  leaf-user = ground (arith, bit_and-pow 4 (leaf pa perm), bit_and-pow 4 perm, leaf_lem)

  pub pte_flags-leaf : pte_flags (leaf pa perm) ≡ perm / 2 * 2 + 1
  unfolding pte_flags
  pte_flags-leaf = omega (arith, leaf_lem, bit_and-mask 10 (leaf pa perm))

-- An entry of zeros is not valid.
pub zero-invalid : flag_set pte_v 0 ≡ false
zero-invalid = refl
