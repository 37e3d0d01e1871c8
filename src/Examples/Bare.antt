-- ===== src/Examples/Bare.antt =====
-- freewalk of the page table of the other examples, after its one leaf has been cleared.
use lab_utilities.Base.{
  ℕ, ◌+◌, ◌*◌, ◌<◌, ◌≤◌, ◌≡◌, inl, inr, refl, sym, ap, subst, ◌∙◌, true, arith, [], ◌∷◌, ◌==◌,
  if◌then◌else◌, ℕ_discrete, bit_and, bit_or,
}
use lab_utilities.Memory.{Mem, load, load64}
use lab_utilities.Memory.Laws.{load-Agree}
use lab_utilities.Riscv.{pte_v, pte_r, pte_w, pte_x, flag_set, pte2pa}
use lab_utilities.Machine.{Machine, ok}
use lab_utilities.Vm.Space.{freewalk}
use lab_utilities.Vm.Spaces.{table, entry_in, Under, Pages}
use lab_utilities.Vm.Spaces.Below.{NoLeaf}
use lab_utilities.Vm.Spaces.Link.{Under-zero}
use lab_utilities.Vm.Spaces.Destroy.{Destroyed, freewalk-Destroyed}
use lab_utilities.Examples.{zeroed}
use lab_utilities.Examples.Owners.{larger, larger-IsLayout, owners, owners-cases, owners-Pages}

abbrev bare_table : Mem
bare_table x =
    if x == 20480
    then 1
    else if x == 20481
    then 24
    else if x == 24576
    then 1
    else if x == 24577
    then 28
    else 0

abbrev bare : Machine
bare = record { mem = bare_table; freelist = 4096; trace = [] }

zero_entry : (a : ℕ) → ((x : ℕ) → a ≤ x → x < a + 8 → bare_table x ≡ 0) → load64 bare_table a ≡ 0
unfolding load
zero_entry a h = load-Agree zeroed bare_table 8 a h ∙ refl

root_valid : (i : ℕ) → i < 512 → flag_set pte_v (entry_in bare_table 20480 i) ≡ true → i ≡ 0
root_valid i low valid = elim (ℕ_discrete i 0) [
  | yes e ↦ e
  | no ne ↦
      absurd (cc (valid, ap (flag_set pte_v) (zero_entry (20480 + 8 * i) (λ x p q. ground arith))))
]

middle_valid : (i : ℕ) → i < 512 → flag_set pte_v (entry_in bare_table 24576 i) ≡ true → i ≡ 0
middle_valid i low valid = elim (ℕ_discrete i 0) [
  | yes e ↦ e
  | no ne ↦
      absurd (cc (valid, ap (flag_set pte_v) (zero_entry (24576 + 8 * i) (λ x p q. ground arith))))
]

bare-Under : Under owners bare_table 2 20480 [] 20480
unfolding load pte2pa
bare-Under i low valid =
    subst
      (λ (j : ℕ).
        (owners (pte2pa (entry_in bare_table 20480 j)) ≡ table 20480 (j ∷ []))
        × Under owners bare_table 1 20480 (j ∷ []) (pte2pa (entry_in bare_table 20480 j)))
      (sym (root_valid i low valid))
      (
        refl,
        λ i' low' valid'.
            subst
              (λ (j : ℕ).
                (owners (pte2pa (entry_in bare_table 24576 j)) ≡ table 20480 (j ∷ 0 ∷ []))
                × Unit {0})
              (sym (middle_valid i' low' valid')) (refl, tt),
      )

bare-NoLeaf : NoLeaf bare_table 2 20480
unfolding load pte2pa
bare-NoLeaf i low valid =
    subst
      (λ (j : ℕ).
        ((bit_and (entry_in bare_table 20480 j) (bit_or (bit_or pte_r pte_w) pte_x) == 0) ≡ true)
        × NoLeaf bare_table 1 (pte2pa (entry_in bare_table 20480 j)))
      (sym (root_valid i low valid))
      (
        refl,
        λ i' low' valid'.
            subst
              (λ (j : ℕ).
                ((bit_and (entry_in bare_table 24576 j) (bit_or (bit_or pte_r pte_w) pte_x) == 0)
                  ≡ true)
                × NoLeaf bare_table 0 (pte2pa (entry_in bare_table 24576 j)))
              (sym (middle_valid i' low' valid'))
              (
                refl,
                λ k below. ap (flag_set pte_v) (zero_entry (28672 + 8 * k) (λ x p q. ground arith)),
              ),
      )

bare-Pages : Pages larger bare owners (4096 ∷ [])
unfolding load
bare-Pages = record {
  chain = (refl, (omega arith, omega arith, omega arith), refl, refl);
  free = owners-Pages.free;
  pages = owners-Pages.pages;
  spaces = λ r h. elim (owners-cases r) [
    | inl e ↦ subst (λ (x : ℕ). Under owners bare_table 2 x [] x) (sym e) bare-Under
    | inr (inl e) ↦ absurd (cc (ap owners e, h))
    | inr (inr (inl e)) ↦ absurd (cc (ap owners e, h))
    | inr (inr (inr (inl e))) ↦ absurd (cc (ap owners e, h))
    | inr (inr (inr (inr (inl e)))) ↦ absurd (cc (ap owners e, h))
    | inr (inr (inr (inr (inr (inl e))))) ↦
        subst (λ (x : ℕ). Under owners bare_table 2 x [] x) (sym e)
          (Under-zero owners bare_table 2 12288 [] 12288
            (λ j low. zero_entry (12288 + 8 * j) (λ x p q. ground arith)))
    | inr (inr (inr (inr (inr (inr e))))) ↦ absurd (cc (e, h))
  ];
}

freewalk-Destroyed_example :
    (t : Machine) × (freewalk larger 20480 bare ≡ ok tt t)
    × Destroyed larger bare owners (4096 ∷ []) 20480 t
freewalk-Destroyed_example =
    freewalk-Destroyed larger-IsLayout 20480 bare owners (4096 ∷ []) bare-Pages refl bare-NoLeaf
