-- ===== src/Vm/Map/Unmap.antt =====
-- uvmunmap of lab page tables/kernel/vm.c for one page.
use lab_utilities.Base.{
  ℕ, zero, suc, ◌+◌, ◌*◌, ◌%◌, ◌<◌, ◌≡◌, ◌≢◌, ◌⊎◌, inl, inr, refl, ap, ◌∙◌, true, false, ◌==◌,
  arith, Bool-cases, lt→leb, lt→ltb, le→ltb, List, ◌∷◌, has, ==_ne, ℕ_discrete,
}
use lab_utilities.Memory.{Mem, load64, store64}
use lab_utilities.Memory.Laws.{
  SameOutside, load64-store64_self, load-store_apart, store-SameOutside, load-SameOutside,
}
use lab_utilities.Riscv.{pgsize, u64, maxva, pte_v, flag_set, pte2pa, pte_flags}
use lab_utilities.Layout.{Layout, IsLayout}
use lab_utilities.Machine.{Machine, ok}
use lab_utilities.Kalloc.FreeList.{IsPage, Chain, Chain-frame, kfree-Frees}
use lab_utilities.Vm.Walk.{walkaddr}
use lab_utilities.Vm.Walk.Descent.{slot, descend, translate, walk-descend, walkaddr-translate}
use lab_utilities.Vm.Walk.Link.{page_of, Clear, slot-page, slot-aligned}
use lab_utilities.Vm.Walk.Frame.{descend-Clear}
use lab_utilities.Vm.Map.{uvmunmap, uvmunmap_loop}

-- Every valid entry outside the pages `ps` keeps its value or is cleared.
abbrev pub Shrinks : List ℕ → Mem → Mem → Type 0
Shrinks ps m g =
    (a : ℕ)
    → a % 8 ≡ 0
    → has (page_of a) ps ≡ false
    → flag_set pte_v (load64 m a) ≡ true
    → (load64 g a ≡ load64 m a) ⊎ (load64 g a ≡ 0)

-- Then a way down stays the same or ends early.
descend-Shrinks :
    (level pt va : ℕ) (ps : List ℕ) (m g : Mem)
    → Shrinks ps m g
    → Clear m level pt va ps
    → descend m level pt va ≢ 0
    → (descend g level pt va ≡ descend m level pt va) ⊎ (descend g level pt va ≡ 0)
unfolding descend
descend-Shrinks zero pt va ps m g shrinks clear h = inl refl
descend-Shrinks (suc level) pt va ps m g shrinks clear h =
    elim (Bool-cases (flag_set pte_v (load64 m (slot (suc level) pt va)))) [
      | inl valid ↦
          elim (shrinks (slot (suc level) pt va) (slot-aligned (suc level) pt va clear.0.1)
            (rw (slot-page (suc level) pt va clear.0.1) clear.0.2) valid) [
              | inl still ↦
                  rw (still, valid)
                    (descend-Shrinks level (pte2pa (load64 m (slot (suc level) pt va))) va ps m g
                      shrinks (clear.1 valid) (rw valid at h))
              | inr gone ↦ inr (rw gone)
            ]
      | inr invalid ↦ absurd (h (rw invalid))
    ]

module _ {l : Layout} (is : IsLayout l) (pt va : ℕ) (s : Machine) (ps : List ℕ) (low : va < maxva)
    (page : va % 4096 ≡ 0) (c : Chain l s.mem s.freelist ps)
    (there : descend s.mem 2 pt va ≢ 0) where
  abbrev at : ℕ
  at = descend s.mem 2 pt va

  abbrev entry : ℕ
  entry = load64 s.mem at

  -- A translation whose entry has been cleared is gone.
  translate-gone :
      (g : Mem)
      → (descend g 2 pt va ≡ at) ⊎ (descend g 2 pt va ≡ 0)
      → load64 g at ≡ 0
      → translate g pt va ≡ 0
  unfolding translate
  translate-gone g (inl same) zeroed = rw (lt→leb maxva va low, same, ==_ne at 0 there, zeroed)
  translate-gone g (inr gone) zeroed = rw (lt→leb maxva va low, gone)

  -- Clearing the entry after the page `pa` has been overwritten.
  cleared-Shrinks :
      (pa : ℕ) (m g : Mem)
      → pa % 4096 ≡ 0
      → at % 8 ≡ 0
      → SameOutside pa 4096 m g
      → Shrinks (pa ∷ ps) m (store64 g at 0)
  cleared-Shrinks pa m g aligned al same a al' out valid = elim (ℕ_discrete a at) [
    | yes e ↦ inr (rw e (load64-store64_self g at 0 (omega arith)))
    | no ne ↦
        let off : (page_of a == pa) ≡ false = ground arith in
        inl (
          load-store_apart g a 8 at 8 0 (ground arith)
          ∙ load-SameOutside m g a 8 pa 4096 same (ground arith))
  ]

  -- Unmapping one page whose memory is given back: the page is free afterwards, and `va` no longer
  -- translates.
  uvmunmap_page :
      flag_set pte_v entry ≡ true
      → pte_flags entry ≢ pte_v
      → IsPage l (pte2pa entry)
      → has (pte2pa entry) ps ≡ false
      → Clear s.mem 2 pt va (pte2pa entry ∷ ps)
      → (t : Machine) × (uvmunmap l pt va 1 true s ≡ ok tt t)
        × Chain l t.mem t.freelist (pte2pa entry ∷ ps)
        × (walkaddr pt va t ≡ ok 0 t)
  unfolding uvmunmap uvmunmap_loop
  uvmunmap_page valid leaf_flags pa fresh clear =
      let (t1, run1, f) = kfree-Frees is s (pte2pa entry) ps pa c fresh in
      let t : Machine = record t1 { mem = store64 t1.mem at 0 } in
      let stop : ℕ = u64 (va + 1 * pgsize) in
      let (out, al) = descend-Clear 2 pt va (pte2pa entry ∷ ps) s.mem clear there in
      (
        t,
        rw (
          page,
          lt→ltb va stop (omega arith),
          walk-descend pt va s low,
          ==_ne at 0 there,
          valid,
          ==_ne (pte_flags entry) pte_v leaf_flags,
          run1,
          le→ltb stop stop (omega arith),
        ),
        Chain-frame is t1.mem t.mem (page_of at) t1.freelist (pte2pa entry ∷ ps) (omega arith) out
            (λ x h. store-SameOutside 8 at 0 t1.mem x (omega arith)) f.chain,
        walkaddr-translate pt va t
            ∙ ap (λ (p : ℕ). ok p t)
                (translate-gone t.mem
                  (descend-Shrinks 2 pt va (pte2pa entry ∷ ps) s.mem t.mem
                    (cleared-Shrinks (pte2pa entry) s.mem t1.mem pa.0 al f.same) clear there)
                  (load64-store64_self t1.mem at 0 (omega arith))),
      )
