-- ===== src/Vm/Spaces/Take.antt =====
-- A page of the free list that becomes memory, among all address spaces.
use lab_utilities.Base.{
  ℕ, ◌≡◌, ◌≢◌, sym, ap, subst, ◌∙◌, true, arith, List, [], ◌∷◌, has, ==_ne, ==_refl, ℕ_discrete,
}
use lab_utilities.Memory.Laws.{SameOutside}
use lab_utilities.Layout.{Layout, IsLayout}
use lab_utilities.Machine.{Machine}
use lab_utilities.Kalloc.FreeList.{IsPage, Chain}
use lab_utilities.Vm.Walk.Link.{page_of}
use lab_utilities.Vm.Spaces.{free, table, frame, Roles, set_role, space, Pages}
use lab_utilities.Vm.Spaces.Same.{Keeps, Under-Keeps, view-Keeps, entry-SameOutside}
use lab_utilities.Vm.Spaces.Grow.{table-IsPage, holds_data}

module _ {l : Layout} (is : IsLayout l) (s t : Machine) (own : Roles) (q : ℕ) (ps : List ℕ)
    (r n : ℕ) (p : Pages l s own (q ∷ ps)) (chain : Chain l t.mem t.freelist ps)
    (same : SameOutside q 4096 s.mem t.mem) where
  abbrev pub own' : Roles
  own' = set_role own q (frame r n)

  was_free : own q ≡ free
  was_free = p.free q (ground arith)

  role_kept : (x : ℕ) → q ≢ x → own' x ≡ own x
  role_kept x ne = rw (==_ne q x ne)

  pub taken-role : own' q ≡ frame r n
  taken-role = rw (==_refl q)

  -- A page in use keeps its role.
  pub used-kept : (x : ℕ) → own x ≢ free → own' x ≡ own x
  used-kept x h = role_kept x (λ e. h (ap own (sym e) ∙ was_free))

  keeps : Keeps own own' s.mem t.mem
  keeps = record {
    roles = λ x r' path e. used-kept x (λ z. cc (e, z)) ∙ e;
    entries = λ x j r' path e low.
        entry-SameOutside s.mem t.mem q x j same (p.chain.1).0
          (table-IsPage l s own (q ∷ ps) x r' path p e).0 (λ z. cc (ap own z, e, was_free)) low;
  }

  pub Pages-taken : Pages l t own' ps
  Pages-taken = record {
    chain = chain;
    free = λ x h.
        let ne : q ≢ x = λ e. cc (ap (λ (y : ℕ). has y ps) e, h, p.chain.2) in
        role_kept x ne ∙ p.free x (ground arith);
    pages = λ x h. elim (ℕ_discrete q x) [
      | yes e ↦ subst (λ (y : ℕ). IsPage l y) e (p.chain.1)
      | no ne ↦ p.pages x (λ e. h (role_kept x ne ∙ e))
    ];
    spaces = λ r' e. elim (ℕ_discrete q r') [
      | yes here ↦ absurd (cc (ap own' here, taken-role, e))
      | no ne ↦
          let e' : own r' ≡ table r' [] = sym (role_kept r' ne) ∙ e in
          Under-Keeps own own' s.mem t.mem keeps 2 r' [] r' e' (p.spaces r' e')
    ];
  }

  pub space-taken : (r' va : ℕ) → own r' ≡ table r' [] → space t.mem r' va ≡ space s.mem r' va
  space-taken r' va root =
      view-Keeps own own' s.mem t.mem keeps 2 r' [] r' va root (p.spaces r' root)

  pub bytes-taken : (x : ℕ) → holds_data (own (page_of x)) ≡ true → t.mem x ≡ s.mem x
  bytes-taken x h =
      let ne : page_of x ≢ q = λ e. cc (h, ap holds_data (ap own e ∙ was_free)) in
      same x (omega (arith, ne, p.chain.1))
