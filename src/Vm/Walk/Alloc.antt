-- ===== src/Vm/Walk/Alloc.antt =====
-- walk of lab page tables/kernel/vm.c with `alloc`: missing page-table pages are taken from the free
-- list.
use lab_utilities.Base.{
  ℕ, zero, suc, ◌%◌, ◌<◌, ◌≡◌, ◌⊎◌, inl, inr, refl, ◌∙◌, true, false, arith, Bool-cases, lt→leb,
  List, [], ◌∷◌, has,
}
use lab_utilities.Memory.{load64}
use lab_utilities.Riscv.{maxva, pte_v, flag_set, pte2pa}
use lab_utilities.Layout.{Layout, IsLayout}
use lab_utilities.Machine.{Machine, ok, acquired, released, kmem}
use lab_utilities.Kalloc.FreeList.{Chain, kalloc-Allocates, page-ne-zero, kalloc-null}
use lab_utilities.Vm.Walk.{walk_loop, walk}
use lab_utilities.Vm.Walk.Link.{
  page_of, Grows, IsTable, Clear, IsUnmapped, slot-page, slot-aligned, Linked, fresh_table, link,
}
use lab_utilities.Vm.Walk.Descent.{slot, descend}

-- What the rest of the walk leaves: fewer free pages, valid entries kept, and either the entry's
-- address or, when the free list is used up, null.
pub record Walked (l : Layout) (s : Machine) (ps : List ℕ) (level pt va pte : ℕ) (t : Machine)
    : Type 0 where
  pub left : List ℕ
  pub chain : Chain l t.mem t.freelist left
  pub fewer : (a : ℕ) → has a ps ≡ false → has a left ≡ false
  pub grows : Grows ps s.mem t.mem
  pub blank : IsUnmapped s.mem level pt va → 0 < pte → flag_set pte_v (load64 t.mem pte) ≡ false
  pub found :
      ((pte ≡ 0) × (left ≡ []))
      ⊎ ((descend t.mem level pt va ≡ pte)
          × (0 < pte)
          × (pte % 8 ≡ 0)
          × (has (page_of pte) left ≡ false))

module _ {l : Layout} (is : IsLayout l) where
  walk_loop-zero :
      (pt va : ℕ) (s : Machine) (ps : List ℕ)
      → Chain l s.mem s.freelist ps
      → IsTable pt ps
      → Walked l s ps 0 pt va (slot 0 pt va) s
  unfolding descend
  walk_loop-zero pt va s ps c (pos, al, out) = record {
    left = ps;
    chain = c;
    fewer = λ a h. h;
    grows = λ a h k v. refl;
    blank = λ h p. h;
    found = inr (refl, omega arith, slot-aligned 0 pt va al, rw (slot-page 0 pt va al) out);
  }

  -- A walk below an entry that is valid afterwards is a walk from that entry's table.
  Walked-suc :
      (s s' t : Machine) (ps ps' : List ℕ) (level pt va pt' pte : ℕ)
      → (r : Walked l s' ps' level pt' va pte t)
      → ((a : ℕ) → has a ps ≡ false → has a r.left ≡ false)
      → Grows ps s.mem t.mem
      → flag_set pte_v (load64 t.mem (slot (suc level) pt va)) ≡ true
      → pte2pa (load64 t.mem (slot (suc level) pt va)) ≡ pt'
      → (IsUnmapped s.mem (suc level) pt va → IsUnmapped s'.mem level pt' va)
      → Walked l s ps (suc level) pt va pte t
  unfolding descend
  Walked-suc s s' t ps ps' level pt va pt' pte r fewer grows valid target down = record {
    left = r.left;
    chain = r.chain;
    fewer = fewer;
    grows = grows;
    blank = λ h p. r.blank (down h) p;
    found = elim r.found [
      | inl none_left ↦ inl none_left
      | inr (there, pos, al, out) ↦ inr (rw (valid, target) there, pos, al, out)
    ];
  }

  -- The same for the state `s3` in which a fresh page has been linked in.
  Walked-Linked :
      (s s3 t : Machine) (q : ℕ) (ps : List ℕ) (level pt va pte : ℕ)
      → IsTable pt (q ∷ ps)
      → Linked is s.mem q (slot (suc level) pt va) ps s3.freelist s3.mem
      → Walked l s3 ps level q va pte t
      → Walked l s (q ∷ ps) (suc level) pt va pte t
  Walked-Linked s s3 t q ps level pt va pte table k r =
      Walked-suc s s3 t (q ∷ ps) ps level pt va q pte r (λ x h. r.fewer x (ground arith))
        (λ x al out v.
          let kept = k.grows x al out v in r.grows x al (ground arith) (rw kept v) ∙ kept)
        (rw still k.valid) (rw still k.target) (λ _. k.unmapped level va)
    where
      still : load64 t.mem (slot (suc level) pt va) ≡ load64 s3.mem (slot (suc level) pt va)
      still =
          r.grows (slot (suc level) pt va) (slot-aligned (suc level) pt va table.1)
            (rw (slot-page (suc level) pt va table.1) (ground arith)) k.valid

  -- The outcome of a walk with `alloc`.
  abbrev pub Walks : Machine → List ℕ → ℕ → ℕ → ℕ → Type 0
  Walks s ps level pt va =
      (pte : ℕ) × (t : Machine) × (walk_loop level pt va true s ≡ ok pte t)
      × Walked l s ps level pt va pte t

  -- The branch for a missing table, given the walk below it.
  walk_loop-missing :
      (level pt va : ℕ) (s : Machine) (ps : List ℕ)
      → Chain l s.mem s.freelist ps
      → Clear s.mem (suc level) pt va ps
      → flag_set pte_v (load64 s.mem (slot (suc level) pt va)) ≡ false
      → ((q : ℕ) (s' : Machine) (ps' : List ℕ)
          → Chain l s'.mem s'.freelist ps'
          → Clear s'.mem level q va ps'
          → Walks s' ps' level q va)
      → Walks s ps (suc level) pt va
  unfolding walk_loop
  walk_loop-missing level pt va s [] c clear invalid below = (
    0,
    record s { trace = released kmem ∷ acquired kmem ∷ s.trace },
    rw (invalid, kalloc-null is s c),
    record {
      left = [];
      chain = c;
      fewer = λ a h. h;
      grows = λ a h k v. refl;
      blank = λ h p. absurd (omega arith);
      found = inl (refl, refl);
    },
  )
  walk_loop-missing level pt va s (q ∷ ps) c clear invalid below =
      let (t1, run1, a) = kalloc-Allocates is s q ps c in
      let k =
        link is s.mem t1.mem q pt level va ps c.1 c.2 clear.0 invalid a.same t1.freelist a.chain in
      let s3 : Machine = record t1 { mem = fresh_table t1.mem q (slot (suc level) pt va) } in
      let (pte, t, run, r) = below q s3 ps k.chain (k.clear level va) in
      (
        pte,
        t,
        rw (invalid, run1, page-ne-zero is q c.1) run,
        Walked-Linked s s3 t q ps level pt va pte clear.0 k r,
      )

  pub walk_loop-Walked :
      (level pt va : ℕ) (s : Machine) (ps : List ℕ)
      → Chain l s.mem s.freelist ps
      → Clear s.mem level pt va ps
      → Walks s ps level pt va
  unfolding walk_loop
  walk_loop-Walked zero pt va s ps c clear =
      (slot 0 pt va, s, refl, walk_loop-zero pt va s ps c clear)
  walk_loop-Walked (suc level) pt va s ps c clear =
      let slot_value : ℕ = load64 s.mem (slot (suc level) pt va) in
      elim (Bool-cases (flag_set pte_v slot_value)) [
        | inl valid ↦
            let (pte, t, run, r) =
              walk_loop-Walked level (pte2pa slot_value) va s ps c (clear.1 valid) in
            let kept : load64 t.mem (slot (suc level) pt va) ≡ slot_value =
              r.grows (slot (suc level) pt va) (slot-aligned (suc level) pt va clear.0.1)
                (rw (slot-page (suc level) pt va clear.0.1) clear.0.2) valid in
            (
              pte,
              t,
              rw valid run,
              Walked-suc s s t ps ps level pt va (pte2pa slot_value) pte r r.fewer r.grows
                  (rw kept valid) (rw kept) (λ h. h valid),
            )
        | inr invalid ↦
            walk_loop-missing level pt va s ps c clear invalid (λ q. walk_loop-Walked level q va)
      ]

  -- walk with `alloc` at an address in range.
  pub walk-Walked :
      (pt va : ℕ) (s : Machine) (ps : List ℕ)
      → va < maxva
      → Chain l s.mem s.freelist ps
      → Clear s.mem 2 pt va ps
      → (pte : ℕ) × (t : Machine) × (walk pt va true s ≡ ok pte t) × Walked l s ps 2 pt va pte t
  unfolding walk
  walk-Walked pt va s ps h c clear = rw (lt→leb maxva va h) (walk_loop-Walked 2 pt va s ps c clear)
