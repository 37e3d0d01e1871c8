-- ===== src/Vm/Map/Page.antt =====
-- mappages of lab page tables/kernel/vm.c for one page, which is how every caller for user memory uses
-- it.
use lab_utilities.Base.{
  subst, ℕ, zero, suc, ◌+◌, ◌-◌, ◌%◌, ◌^◌, ◌<◌, ◌≡◌, ◌≢◌, ◌⊎◌, inl, inr, refl, ap, ◌∙◌, true, false,
  arith, Bool-cases, lt→leb, List, [], has, ==_ne, ==_refl,
}
use lab_utilities.Memory.{Mem, load64, store64}
use lab_utilities.Memory.Laws.{load64-store64_self, load-store_apart, store-SameOutside}
use lab_utilities.Riscv.{pgsize, u64, maxva, pte_v, pte_u, flag_set, pte2pa}
use lab_utilities.Riscv.Entries.{pte2pa-aligned, leaf, leaf-valid, leaf-user, leaf-lt, pte2pa-leaf}
use lab_utilities.Layout.{Layout, IsLayout}
use lab_utilities.Machine.{ok-state, Machine, ok}
use lab_utilities.Kalloc.FreeList.{Chain, Chain-frame}
use lab_utilities.Vm.Walk.{walkaddr}
use lab_utilities.Vm.Walk.Descent.{slot, descend, translate, walkaddr-translate}
use lab_utilities.Vm.Walk.Link.{page_of, Grows, Clear, IsUnmapped, slot-page, slot-aligned}
use lab_utilities.Vm.Walk.Alloc.{Walked, walk-Walked}
use lab_utilities.Vm.Map.{Status, done, failed, mappages, mappages_loop}

-- Where valid entries keep their values, the way down to an entry that exists stays the same.
descend-Grows :
    (level pt va : ℕ) (ps : List ℕ) (m g : Mem)
    → Grows ps m g
    → Clear m level pt va ps
    → descend m level pt va ≢ 0
    → (descend g level pt va ≡ descend m level pt va)
      × (has (page_of (descend m level pt va)) ps ≡ false)
      × (descend m level pt va % 8 ≡ 0)
unfolding descend
descend-Grows zero pt va ps m g grows (pos, al, out) h =
    (refl, rw (slot-page 0 pt va al) out, slot-aligned 0 pt va al)
descend-Grows (suc level) pt va ps m g grows clear h =
    elim (Bool-cases (flag_set pte_v (load64 m (slot (suc level) pt va)))) [
      | inl valid ↦
          let still : load64 g (slot (suc level) pt va) ≡ load64 m (slot (suc level) pt va) =
            grows (slot (suc level) pt va) (slot-aligned (suc level) pt va clear.0.1)
              (rw (slot-page (suc level) pt va clear.0.1) clear.0.2) valid in
          rw (still, valid)
            (descend-Grows level (pte2pa (load64 m (slot (suc level) pt va))) va ps m g grows
              (clear.1 valid) (rw valid at h))
      | inr invalid ↦ absurd (h (rw invalid))
    ]

-- A translation other than 0 goes through a valid user entry.
pub translate_inv :
    (pt va : ℕ) (m : Mem)
    → translate m pt va ≢ 0
    → (va < maxva)
      × (descend m 2 pt va ≢ 0)
      × (flag_set pte_v (load64 m (descend m 2 pt va)) ≡ true)
      × (flag_set pte_u (load64 m (descend m 2 pt va)) ≡ true)
unfolding translate
translate_inv pt va m h = (ground arith, ground arith, ground arith, ground arith)

-- So a translation that exists stays the same.
pub translate-Grows :
    (pt va : ℕ) (ps : List ℕ) (m g : Mem)
    → Grows ps m g
    → Clear m 2 pt va ps
    → translate m pt va ≢ 0
    → translate g pt va ≡ translate m pt va
unfolding translate
translate-Grows pt va ps m g grows clear h =
    let (_, there, valid, _) = translate_inv pt va m h in
    let (same, out, al) = descend-Grows 2 pt va ps m g grows clear there in
    let entry = grows (descend m 2 pt va) al out valid in rw (same, entry)

-- The same where no valid entry at all has changed.
descend-kept :
    (level pt va : ℕ) (m g : Mem)
    → Grows [] m g
    → pt % 4096 ≡ 0
    → descend m level pt va ≢ 0
    → descend g level pt va ≡ descend m level pt va
unfolding descend
descend-kept zero pt va m g grows al h = refl
descend-kept (suc level) pt va m g grows al h =
    elim (Bool-cases (flag_set pte_v (load64 m (slot (suc level) pt va)))) [
      | inl valid ↦
          let still =
            grows (slot (suc level) pt va) (slot-aligned (suc level) pt va al) refl valid in
          rw (still, valid)
            (descend-kept level (pte2pa (load64 m (slot (suc level) pt va))) va m g grows
              (pte2pa-aligned (load64 m (slot (suc level) pt va))) (rw valid at h))
      | inr invalid ↦ absurd (h (rw invalid))
    ]

-- What a call of mappages leaves behind: fewer free pages, every valid entry kept, and either the
-- page mapped with the permissions asked for, or the result `failed` and no free page left.
pub record Mapped (l : Layout) (s : Machine) (ps : List ℕ) (pt va pa perm : ℕ) (r : Status)
    (t : Machine) : Type 0 where
  pub left : List ℕ
  pub chain : Chain l t.mem t.freelist left
  pub fewer : (a : ℕ) → has a ps ≡ false → has a left ≡ false
  pub grows : Grows ps s.mem t.mem
  pub outcome :
      ((r ≡ failed) × (left ≡ []))
      ⊎ ((r ≡ done)
          × (descend t.mem 2 pt va ≢ 0)
          × (load64 t.mem (descend t.mem 2 pt va) ≡ leaf pa perm))

module _ {l : Layout} (is : IsLayout l) (pt va pa perm : ℕ) (s : Machine) (ps : List ℕ)
    (low : va < maxva) (page : va % 4096 ≡ 0) (fits : pa < 2 ^ 56) (flags : perm < 1024)
    (c : Chain l s.mem s.freelist ps) (clear : Clear s.mem 2 pt va ps)
    (free : IsUnmapped s.mem 2 pt va) where
  store-Grows :
      (m : Mem) (pte v : ℕ)
      → pte % 8 ≡ 0
      → flag_set pte_v (load64 m pte) ≡ false
      → Grows [] m (store64 m pte v)
  store-Grows m pte v al invalid a al' out valid =
      let ne : a ≢ pte = λ e. cc in load-store_apart m a 8 pte 8 v (ground arith)

  one_page : u64 (va + pgsize + 2 ^ 64 - pgsize) ≡ va
  one_page = omega arith

  -- The two outcomes of the walk, followed to the end of mappages.
  Mapped-null :
      (pte : ℕ) (t : Machine) (w : Walked l s ps 2 pt va pte t)
      → w.left ≡ []
      → Mapped l s ps pt va pa perm failed t
  Mapped-null pte t w none_left = record {
    left = w.left;
    chain = w.chain;
    fewer = w.fewer;
    grows = w.grows;
    outcome = inl (refl, none_left);
  }

  Mapped-done :
      (pte : ℕ) (t : Machine) (w : Walked l s ps 2 pt va pte t)
      → descend t.mem 2 pt va ≡ pte
      → 0 < pte
      → pte % 8 ≡ 0
      → has (page_of pte) w.left ≡ false
      → Mapped l s ps pt va pa perm done (record t { mem = store64 t.mem pte (leaf pa perm) })
  Mapped-done pte t w there pos al out =
      let blank = w.blank free pos in
      let g : Mem = store64 t.mem pte (leaf pa perm) in
      let still : descend g 2 pt va ≡ pte =
        descend-kept 2 pt va t.mem g (store-Grows t.mem pte (leaf pa perm) al blank) clear.0.1
          (rw there (omega arith))
        ∙ there in
      record {
        left = w.left;
        chain =
            Chain-frame is t.mem g (page_of pte) t.freelist w.left (omega arith) out
              (λ x h. store-SameOutside 8 pte (leaf pa perm) t.mem x (omega arith)) w.chain;
        fewer = w.fewer;
        grows = λ a al' h v.
            let kept = w.grows a al' h v in
            store-Grows t.mem pte (leaf pa perm) al blank a al' refl (rw kept v) ∙ kept;
        outcome = inr (
          refl,
          rw still (omega arith),
          rw still (
              load64-store64_self t.mem pte (leaf pa perm)
                (omega (arith, leaf-lt pa perm fits flags))),
        );
      }

  pub mappages_page :
      (r : Status) × (t : Machine) × (mappages pt va pgsize pa perm s ≡ ok r t)
      × Mapped l s ps pt va pa perm r t
  unfolding mappages mappages_loop
  mappages_page =
      let (pte, t, run, w) = walk-Walked is pt va s ps low c clear in
      elim w.found [
        | inl (null, none_left) ↦ (failed, t, rw (page, run, null), Mapped-null pte t w none_left)
        | inr (there, pos, al, out) ↦ (
          done,
          record t { mem = store64 t.mem pte (leaf pa perm) },
          rw (page, run, ==_ne pte 0 (omega arith), w.blank free pos, one_page, ==_refl va),
          Mapped-done pte t w there pos al out,
        )
      ]

  -- mappages of one page for the user, seen through walkaddr, returns: either it fails, and the free
  -- list is used up; or it is done, and `va` translates to `pa`. It starts from a table in which `va`
  -- is not mapped and whose tables are not on the free list.
  mappages-walkaddr :
      pa % 4096 ≡ 0
      → flag_set pte_u perm ≡ true
      → (r : Status) × (t : Machine) × (mappages pt va pgsize pa perm s ≡ ok r t)
        × (((r ≡ failed) × (t.freelist ≡ 0)) ⊎ ((r ≡ done) × (walkaddr pt va t ≡ ok pa t)))
  unfolding translate
  mappages-walkaddr al user =
      let (r, t, run, w) = mappages_page in
      (
        r,
        t,
        run,
        elim w.outcome [
          | inl (e, none_left) ↦ inl (e, rw none_left at w.chain)
          | inr (e, there, entry) ↦ inr (
            e,
            walkaddr-translate pt va t
                ∙ ap (λ (p : ℕ). ok p t)
                    (rw
                      (
                        lt→leb maxva va low,
                        ==_ne (descend t.mem 2 pt va) 0 there,
                        entry,
                        leaf-valid pa perm fits flags,
                        leaf-user pa perm fits flags,
                        user,
                      )
                      (pte2pa-leaf pa perm fits flags ∙ omega arith)),
          )
        ],
      )

  -- mappages of one page, whether it succeeds or not, keeps every translation that existed, of the
  -- same address space or of another whose tables are not on the free list.
  mappages-translate :
      (pt' va' : ℕ) (r : Status) (t : Machine)
      → mappages pt va pgsize pa perm s ≡ ok r t
      → Clear s.mem 2 pt' va' ps
      → translate s.mem pt' va' ≢ 0
      → walkaddr pt' va' t ≡ ok (translate s.mem pt' va') t
  mappages-translate pt' va' r t run clear' h =
      let (r', t', run', w) = mappages_page in
      let same : t' ≡ t = ok-state (mappages pt va pgsize pa perm s) r' r t' t run' run in
      walkaddr-translate pt' va' t
      ∙ ap (λ (p : ℕ). ok p t)
          (translate-Grows pt' va' ps s.mem t.mem
            (subst (λ (m : Machine). Grows ps s.mem m.mem) same w.grows) clear' h)
