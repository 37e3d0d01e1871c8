-- ===== src/Vm/Spaces/NewTable.antt =====
-- A page of the free list linked in as a page table, among all address spaces.
use lab_utilities.Base.{
  ℕ, suc, ◌+◌, ◌*◌, ◌%◌, ◌<◌, ◌≡◌, ◌≢◌, ◌⊎◌, inl, inr, refl, sym, ap, subst, ◌∙◌, Bool, true, false,
  arith, List, [], ◌∷◌, length, has, ◌==◌, ◌||◌, ==_ne, ==_refl, ℕ_discrete, bit_or,
}
use lab_utilities.Memory.{Mem, fill}
use lab_utilities.Memory.Laws.{fill-SameOutside, store-SameOutside, load-fill_zero}
use lab_utilities.Riscv.{pgsize, px, pte_v, flag_set, pa2pte, pte2pa}
use lab_utilities.Riscv.Rounding.{px-lt}
use lab_utilities.Layout.{Layout, IsLayout}
use lab_utilities.Machine.{Machine}
use lab_utilities.Kalloc.FreeList.{IsPage, Allocates}
use lab_utilities.Vm.Walk.Descent.{slot}
use lab_utilities.Vm.Walk.Link.{page_of, fresh_table, link, Linked}
use lab_utilities.Vm.Spaces.{free, table, Roles, set_role, entry_in, Pages}
use lab_utilities.Vm.Spaces.Same.{entry-SameOutside, entry-store_other}
use lab_utilities.Vm.Spaces.Link.{Links, Under-link, view-link}
use lab_utilities.Vm.Spaces.Grow.{Grown, holds_data, not_listed, table-IsPage, table-ne-free}

or_true : (b : Bool) → (b || true) ≡ true
or_true b = ground arith

not_root : (rr i r : ℕ) (pp : List ℕ) → table rr (i ∷ pp) ≢ table r []
not_root rr i r pp e = cc e

module _ {l : Layout} (is : IsLayout l) (s t1 : Machine) (own : Roles) (q : ℕ) (ps : List ℕ)
    (p : Pages l s own (q ∷ ps)) (a : Allocates is s q ps t1) (tt' rr level va : ℕ) (pp : List ℕ)
    (role : own tt' ≡ table rr pp) (depth : length pp + suc level ≡ 2)
    (invalid : flag_set pte_v (entry_in s.mem tt' (px (suc level) va)) ≡ false) where
  abbrev i : ℕ
  i = px (suc level) va

  abbrev g : Mem
  g = fresh_table t1.mem q (slot (suc level) tt' va)

  parent-IsPage : IsPage l tt'
  parent-IsPage = table-IsPage l s own (q ∷ ps) tt' rr pp p role

  fresh_free : own q ≡ free
  fresh_free = p.free q (ground arith)

  tables-ne : (x r : ℕ) (path : List ℕ) → own x ≡ table r path → x ≢ q
  tables-ne x r path e z = cc (ap own z, e, fresh_free)

  Linked-page : Linked is s.mem q (slot (suc level) tt' va) ps t1.freelist g
  Linked-page =
      link is s.mem t1.mem q tt' level va ps (p.chain.1) (p.chain.2)
        (
          omega (arith, parent-IsPage, is.above_null),
          parent-IsPage.0,
          not_listed l s own (q ∷ ps) tt' p (table-ne-free (own tt') rr pp role),
        )
        invalid a.same t1.freelist a.chain

  kept-entry :
      (x j : ℕ)
      → x % 4096 ≡ 0
      → x ≢ q
      → j < 512
      → (x ≢ tt') ⊎ (j ≢ i)
      → entry_in g x j ≡ entry_in s.mem x j
  kept-entry x j al ne low apart =
      entry-store_other (fill t1.mem q 0 pgsize) tt' i x j (bit_or (pa2pte q) pte_v) parent-IsPage.0
        al (px-lt (suc level) va) low apart
      ∙ entry-SameOutside t1.mem (fill t1.mem q 0 pgsize) q x j (fill-SameOutside t1.mem q 0 4096)
          (p.chain.1).0 al ne low
      ∙ entry-SameOutside s.mem t1.mem q x j a.same (p.chain.1).0 al ne low

  zeroed_entry : (j : ℕ) → j < 512 → entry_in g q j ≡ 0
  zeroed_entry j low =
      entry-store_other (fill t1.mem q 0 pgsize) tt' i q j (bit_or (pa2pte q) pte_v) parent-IsPage.0
        (p.chain.1).0 (px-lt (suc level) va) low (inl (λ e. tables-ne tt' rr pp role (sym e)))
      ∙ load-fill_zero 8 (q + 8 * j) q 4096 t1.mem (omega arith) (omega arith)

  links : Links own s.mem g q tt' i rr pp
  links = record {
    unused = fresh_free;
    parent = role;
    upper = omega arith;
    index = px-lt (suc level) va;
    invalid = invalid;
    valid = Linked-page.valid;
    target = Linked-page.target;
    zeroed = zeroed_entry;
    kept = λ x j r path e low apart.
        kept-entry x j (table-IsPage l s own (q ∷ ps) x r path p e).0 (tables-ne x r path e) low
          apart;
  }

  abbrev pub own' : Roles
  own' = set_role own q (table rr (i ∷ pp))

  abbrev pub t3 : Machine
  t3 = record t1 { mem = g }

  role_apart : (x : ℕ) → q ≢ x → own' x ≡ own x
  role_apart x ne = rw (==_ne q x ne)

  role_kept : (x : ℕ) → own x ≢ free → own' x ≡ own x
  role_kept x h = role_apart x (λ e. h (ap own (sym e) ∙ fresh_free))

  linked-Pages : Pages l t3 own' ps
  linked-Pages = record {
    chain = Linked-page.chain;
    free = λ x h.
        let ne : q ≢ x = λ e. cc (ap (λ (y : ℕ). has y ps) e, h, p.chain.2) in
        role_apart x ne ∙ p.free x (rw (h, or_true (x == q)));
    pages = λ x h. elim (ℕ_discrete q x) [
      | yes e ↦ subst (λ (y : ℕ). IsPage l y) e (p.chain.1)
      | no ne ↦ p.pages x (λ e. h (role_apart x ne ∙ e))
    ];
    spaces = λ r e. elim (ℕ_discrete q r) [
      | yes here ↦ absurd (not_root rr i r pp (sym (rw (==_refl q)) ∙ ap own' here ∙ e))
      | no ne ↦
          let e' : own r ≡ table r [] = sym (role_apart r ne) ∙ e in
          Under-link own s.mem g q tt' i rr pp links 2 r [] r e' refl (p.spaces r e')
    ];
  }

  pub Grown-link : Grown l s own t3 own' ps
  Grown-link = record {
    pages = linked-Pages;
    roles = role_kept;
    kept = λ x h. elim (ℕ_discrete q x) [
      | yes here ↦
          let e : own' x ≡ table rr (i ∷ pp) = ap own' (sym here) ∙ rw (==_refl q) in
          absurd (cc (h, ap holds_data e))
      | no away ↦ sym (role_apart x away)
    ];
    entries = λ x j r path e low v.
        kept-entry x j (table-IsPage l s own (q ∷ ps) x r path p e).0 (tables-ne x r path e) low
          (elim (ℕ_discrete x tt') [
            | yes here ↦ inr (λ same. cc (v, here, same, invalid))
            | no away ↦ inl away
          ]);
    same = λ r va' e. view-link own s.mem g q tt' i rr pp links 2 r [] r va' e refl (p.spaces r e);
    bytes = λ x h.
        let ne : page_of x ≢ q = λ e. cc (h, ap holds_data (ap own e ∙ fresh_free)) in
        let ne' : page_of x ≢ tt' = λ e. cc (h, ap holds_data (ap own e ∙ role)) in
        store-SameOutside 8 (tt' + 8 * i) (bit_or (pa2pte q) pte_v) (fill t1.mem q 0 pgsize) x
          (omega (arith, px-lt (suc level) va, parent-IsPage.0, ne'))
        ∙ fill-SameOutside t1.mem q 0 4096 x (omega (arith, ne, p.chain.1))
        ∙ a.same x (omega (arith, ne, p.chain.1));
  }

  pub own'-fresh : own' q ≡ table rr (i ∷ pp)
  own'-fresh = rw (==_refl q)

  pub linked_here : (flag_set pte_v (entry_in g tt' i) ≡ true) × (pte2pa (entry_in g tt' i) ≡ q)
  linked_here = (links.valid, links.target)

  pub linked-zero : (j : ℕ) → j < 512 → entry_in g q j ≡ 0
  linked-zero = zeroed_entry
