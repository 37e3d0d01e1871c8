-- ===== src/Examples/Owners.antt =====
-- A machine with two processes: one of one page, with the page table of the other examples, and one
-- with an empty space; and enough physical memory for both.
use lab_utilities.Base.{
  ℕ, ◌+◌, ◌*◌, ◌<◌, ◌≤◌, ◌≡◌, ◌≢◌, ◌⊎◌, inl, inr, refl, sym, ap, subst, ◌∙◌, true, false, arith, [],
  ◌∷◌, has, ◌==◌, if◌then◌else◌, ==_ne, ℕ_discrete,
}
use lab_utilities.Memory.{load, load64}
use lab_utilities.Memory.Laws.{load-Agree}
use lab_utilities.Riscv.{px, pte_v, flag_set, pte2pa, pte_flags}
use lab_utilities.Layout.{Layout, IsLayout}
use lab_utilities.Vm.Spaces.{Role, free, table, frame, other, Roles, entry_in, view, Under, Pages}
use lab_utilities.Vm.Spaces.Unmap.{frame-number}
use lab_utilities.Vm.Spaces.Size.{entry_at, Holds}
use lab_utilities.Vm.Spaces.Link.{Under-zero, view-zero}
use lab_utilities.Examples.{sample, zeroed, page_table, one_mapped}

abbrev pub larger : Layout
larger = record sample { phystop = 36864 }

pub larger-IsLayout : IsLayout larger
larger-IsLayout = record {
  above_null = omega arith;
  whole_pages = omega arith;
  small = omega arith;
  counted = omega arith;
}

abbrev pub owners : Roles
owners p =
    if p == 20480
    then table 20480 []
    else if p == 24576
    then table 20480 (0 ∷ [])
    else if p == 28672
    then table 20480 (0 ∷ 0 ∷ [])
    else if p == 8192
    then frame 20480 0
    else if p == 4096
    then free
    else if p == 12288
    then table 12288 []
    else other

abbrev frame_root : Role → ℕ
frame_root free = 0
frame_root (table r path) = 0
frame_root (frame r n) = r
frame_root other = 0

-- A page has one of these places, or no role.
pub owners-cases :
    (p : ℕ)
    → (p ≡ 20480)
      ⊎ ((p ≡ 24576)
          ⊎ ((p ≡ 28672) ⊎ ((p ≡ 8192) ⊎ ((p ≡ 4096) ⊎ ((p ≡ 12288) ⊎ (owners p ≡ other))))))
owners-cases p = elim (ℕ_discrete p 20480) [
  | yes e ↦ inl e
  | no a ↦ elim (ℕ_discrete p 24576) [
    | yes e ↦ inr (inl e)
    | no b ↦ elim (ℕ_discrete p 28672) [
      | yes e ↦ inr (inr (inl e))
      | no c ↦ elim (ℕ_discrete p 8192) [
        | yes e ↦ inr (inr (inr (inl e)))
        | no d ↦ elim (ℕ_discrete p 4096) [
          | yes e ↦ inr (inr (inr (inr (inl e))))
          | no f ↦ elim (ℕ_discrete p 12288) [
            | yes e ↦ inr (inr (inr (inr (inr (inl e)))))
            | no g ↦ inr (
                inr (
                  inr (
                    inr (
                      inr (
                        inr (
                          rw
                            (
                              ==_ne p 20480 a,
                              ==_ne p 24576 b,
                              ==_ne p 28672 c,
                              ==_ne p 8192 d,
                              ==_ne p 4096 f,
                              ==_ne p 12288 g,
                            )
                            refl))))))
          ]
        ]
      ]
    ]
  ]
]

zero_entry : (a : ℕ) → ((x : ℕ) → a ≤ x → x < a + 8 → page_table x ≡ 0) → load64 page_table a ≡ 0
unfolding load
zero_entry a h = load-Agree zeroed page_table 8 a h ∙ refl

one_valid : (i : ℕ) → i < 512 → flag_set pte_v (entry_in page_table 20480 i) ≡ true → i ≡ 0
one_valid i low valid = elim (ℕ_discrete i 0) [
  | yes e ↦ e
  | no ne ↦
      absurd (cc (valid, ap (flag_set pte_v) (zero_entry (20480 + 8 * i) (λ x p q. ground arith))))
]

one_valid_below : (i : ℕ) → i < 512 → flag_set pte_v (entry_in page_table 24576 i) ≡ true → i ≡ 0
one_valid_below i low valid = elim (ℕ_discrete i 0) [
  | yes e ↦ e
  | no ne ↦
      absurd (cc (valid, ap (flag_set pte_v) (zero_entry (24576 + 8 * i) (λ x p q. ground arith))))
]

owners-Under : Under owners page_table 2 20480 [] 20480
unfolding load pte2pa
owners-Under i low valid =
    subst
      (λ (j : ℕ).
        (owners (pte2pa (entry_in page_table 20480 j)) ≡ table 20480 (j ∷ []))
        × Under owners page_table 1 20480 (j ∷ []) (pte2pa (entry_in page_table 20480 j)))
      (sym (one_valid i low valid))
      (
        refl,
        λ i' low' valid'.
            subst
              (λ (j : ℕ).
                (owners (pte2pa (entry_in page_table 24576 j)) ≡ table 20480 (j ∷ 0 ∷ []))
                × Unit {0})
              (sym (one_valid_below i' low' valid')) (refl, tt),
      )

-- A second process has an empty space, with its root at 12288.
empty_zero : (i : ℕ) → i < 512 → entry_in page_table 12288 i ≡ 0
empty_zero i low = zero_entry (12288 + 8 * i) (λ x p q. ground arith)

pub owners-Pages : Pages larger one_mapped owners (4096 ∷ [])
unfolding load
owners-Pages = record {
  chain = (refl, (omega arith, omega arith, omega arith), refl, refl);
  free = λ p h. elim (ℕ_discrete p 4096) [
    | yes e ↦ rw e refl
    | no ne ↦
        let none : has p (4096 ∷ []) ≡ false = rw (==_ne p 4096 ne) refl in absurd (cc (h, none))
  ];
  pages = λ p h. elim (owners-cases p) [
    | inl e ↦ rw e (omega arith, omega arith, omega arith)
    | inr (inl e) ↦ rw e (omega arith, omega arith, omega arith)
    | inr (inr (inl e)) ↦ rw e (omega arith, omega arith, omega arith)
    | inr (inr (inr (inl e))) ↦ rw e (omega arith, omega arith, omega arith)
    | inr (inr (inr (inr (inl e)))) ↦ rw e (omega arith, omega arith, omega arith)
    | inr (inr (inr (inr (inr (inl e))))) ↦ rw e (omega arith, omega arith, omega arith)
    | inr (inr (inr (inr (inr (inr e))))) ↦ absurd (h e)
  ];
  spaces = λ r h. elim (owners-cases r) [
    | inl e ↦ subst (λ (x : ℕ). Under owners page_table 2 x [] x) (sym e) owners-Under
    | inr (inl e) ↦ absurd (cc (ap owners e, h))
    | inr (inr (inl e)) ↦ absurd (cc (ap owners e, h))
    | inr (inr (inr (inl e))) ↦ absurd (cc (ap owners e, h))
    | inr (inr (inr (inr (inl e)))) ↦ absurd (cc (ap owners e, h))
    | inr (inr (inr (inr (inr (inl e))))) ↦
        subst (λ (x : ℕ). Under owners page_table 2 x [] x) (sym e)
          (Under-zero owners page_table 2 12288 [] 12288 empty_zero)
    | inr (inr (inr (inr (inr (inr e))))) ↦ absurd (cc (e, h))
  ];
}

-- The process has one page, and nothing at the next.
pub first_valid : flag_set pte_v (entry_at one_mapped 20480 0) ≡ true
unfolding load px pte2pa view
first_valid = refl

pub first_leaf : pte_flags (entry_at one_mapped 20480 0) ≢ pte_v
unfolding load px pte2pa view pte_flags
first_leaf = omega arith

pub first_page : pte2pa (entry_at one_mapped 20480 0) ≡ 8192
unfolding load px pte2pa view
first_page = refl

pub second_empty : entry_at one_mapped 20480 1 ≡ 0
unfolding load px pte2pa view
second_empty = refl

pub owners-Holds : Holds one_mapped owners 20480 1 2
owners-Holds = record {
  mapped = λ k below.
      let e : k ≡ 0 = omega (arith, below) in rw e (first_valid, first_leaf, ap owners first_page);
  only = λ x k h. elim (owners-cases x) [
    | inl e ↦ absurd (cc (ap owners e, h))
    | inr (inl e) ↦ absurd (cc (ap owners e, h))
    | inr (inr (inl e)) ↦ absurd (cc (ap owners e, h))
    | inr (inr (inr (inl e))) ↦
        let first : 0 ≡ k = frame-number 20480 0 k (sym (ap owners e) ∙ h) in
        (
          omega (arith, first),
          e ∙ sym first_page ∙ ap (λ (j : ℕ). pte2pa (entry_at one_mapped 20480 j)) first,
        )
    | inr (inr (inr (inr (inl e)))) ↦ absurd (cc (ap owners e, h))
    | inr (inr (inr (inr (inr (inl e))))) ↦ absurd (cc (ap owners e, h))
    | inr (inr (inr (inr (inr (inr e))))) ↦ absurd (cc (e, h))
  ];
  empty = λ k above below. let e : k ≡ 1 = omega (arith, above, below) in rw e second_empty;
}

pub empty-Holds : Holds one_mapped owners 12288 0 2
empty-Holds = record {
  mapped = λ k below. absurd (omega (arith, below));
  only = λ x k h. elim (owners-cases x) [
    | inl e ↦ absurd (cc (ap owners e, h))
    | inr (inl e) ↦ absurd (cc (ap owners e, h))
    | inr (inr (inl e)) ↦ absurd (cc (ap owners e, h))
    | inr (inr (inr (inl e))) ↦
        let same : frame 20480 0 ≡ frame 12288 k = sym (ap owners e) ∙ h in
        let roots : 20480 ≡ 12288 = ap frame_root same in absurd (omega (arith, roots))
    | inr (inr (inr (inr (inl e)))) ↦ absurd (cc (ap owners e, h))
    | inr (inr (inr (inr (inr (inl e))))) ↦ absurd (cc (ap owners e, h))
    | inr (inr (inr (inr (inr (inr e))))) ↦ absurd (cc (e, h))
  ];
  empty = λ k above below. view-zero page_table 2 12288 (k * 4096) empty_zero;
}
