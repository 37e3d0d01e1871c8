-- ===== src/Vm/Walk/Frame.antt =====
-- Page tables and the pages that are not page tables: a write to those leaves every walk as it was.
use lab_utilities.Base.{
  ℕ, zero, suc, ◌%◌, ◌≡◌, ◌≢◌, refl, false, arith, Bool-cases, inl, inr, List, has,
}
use lab_utilities.Memory.{Mem, load64}
use lab_utilities.Memory.Laws.{load-Agree}
use lab_utilities.Riscv.{pte_v, flag_set, pte2pa}
use lab_utilities.Vm.Walk.Descent.{slot, descend}
use lab_utilities.Vm.Walk.Link.{page_of, Clear, slot-page, slot-aligned}

-- The entry's page is one of the tables in use.
pub descend-Clear :
    (level pt va : ℕ) (ps : List ℕ) (m : Mem)
    → Clear m level pt va ps
    → descend m level pt va ≢ 0
    → (has (page_of (descend m level pt va)) ps ≡ false) × (descend m level pt va % 8 ≡ 0)
unfolding descend
descend-Clear zero pt va ps m (pos, al, out) h =
    (rw (slot-page 0 pt va al) out, slot-aligned 0 pt va al)
descend-Clear (suc level) pt va ps m clear h =
    elim (Bool-cases (flag_set pte_v (load64 m (slot (suc level) pt va)))) [
      | inl valid ↦ rw valid (
          descend-Clear level (pte2pa (load64 m (slot (suc level) pt va))) va ps m (clear.1 valid)
            (rw valid at h))
      | inr invalid ↦ absurd (h (rw invalid))
    ]

-- Two memories hold the same bytes outside the pages `ps`.
abbrev pub SameOff : List ℕ → Mem → Mem → Type 0
SameOff ps m g = (x : ℕ) → has (page_of x) ps ≡ false → g x ≡ m x

pub load-SameOff :
    (m g : Mem) (a : ℕ) (ps : List ℕ)
    → SameOff ps m g
    → a % 8 ≡ 0
    → has (page_of a) ps ≡ false
    → load64 g a ≡ load64 m a
load-SameOff m g a ps same al out =
    load-Agree m g 8 a (λ x p q. let e : page_of x ≡ page_of a = omega arith in same x (rw e out))

-- A walk whose tables are outside `ps` meets the same entries after a write to `ps`.
pub descend-SameOff :
    (level pt va : ℕ) (ps : List ℕ) (m g : Mem)
    → SameOff ps m g
    → Clear m level pt va ps
    → (descend g level pt va ≡ descend m level pt va) × Clear g level pt va ps
unfolding descend
descend-SameOff zero pt va ps m g same clear = (refl, clear)
descend-SameOff (suc level) pt va ps m g same clear =
    let still : load64 g (slot (suc level) pt va) ≡ load64 m (slot (suc level) pt va) =
      load-SameOff m g (slot (suc level) pt va) ps same (slot-aligned (suc level) pt va clear.0.1)
        (rw (slot-page (suc level) pt va clear.0.1) clear.0.2) in
    let next : ℕ = pte2pa (load64 m (slot (suc level) pt va)) in
    elim (Bool-cases (flag_set pte_v (load64 m (slot (suc level) pt va)))) [
      | inl valid ↦
          let (same_slot, clear') = descend-SameOff level next va ps m g same (clear.1 valid) in
          (rw (still, valid) same_slot, (clear.0, rw still (λ h. clear')))
      | inr invalid ↦ (rw (still, invalid), (clear.0, rw (still, invalid) (λ h. absurd (cc))))
    ]
