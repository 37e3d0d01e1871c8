-- ===== src/Vm/Spaces/Release.antt =====
-- kfree of kalloc.c for a page of a process, among all address spaces.
use lab_utilities.Base.{
  ℕ, ◌≡◌, ◌≢◌, sym, ap, subst, ◌∙◌, arith, List, [], ◌∷◌, ==_ne, ==_refl, ℕ_discrete,
}
use lab_utilities.Layout.{Layout, IsLayout}
use lab_utilities.Machine.{Machine}
use lab_utilities.Kalloc.FreeList.{IsPage, Frees}
use lab_utilities.Vm.Spaces.{free, table, frame, Roles, set_role, bottom, space, Pages}
use lab_utilities.Vm.Spaces.Same.{Keeps, Under-Keeps, view-Keeps, bottom-Keeps, entry-SameOutside}
use lab_utilities.Vm.Spaces.Grow.{table-IsPage}

module _ {l : Layout} (is : IsLayout l) (s t : Machine) (own : Roles) (ps : List ℕ) (pa r n : ℕ)
    (p : Pages l s own ps) (role : own pa ≡ frame r n) (f : Frees is s pa ps t) where
  abbrev pub own' : Roles
  own' = set_role own pa free

  role_kept : (x : ℕ) → pa ≢ x → own' x ≡ own x
  role_kept x ne = rw (==_ne pa x ne)

  released_role : own' pa ≡ free
  released_role = rw (==_refl pa)

  keeps : Keeps own own' s.mem t.mem
  keeps = record {
    roles = λ x r' path e. role_kept x (λ z. cc (ap own z, e, role)) ∙ e;
    entries = λ x j r' path e low.
        entry-SameOutside s.mem t.mem pa x j f.same (p.pages pa (λ z. cc (z, role))).0
          (table-IsPage l s own ps x r' path p e).0 (λ z. cc (ap own z, e, role)) low;
  }

  pub Pages-released : Pages l t own' (pa ∷ ps)
  Pages-released = record {
    chain = f.chain;
    free = λ x h. elim (ℕ_discrete pa x) [
      | yes here ↦ ap own' (sym here) ∙ released_role
      | no away ↦ role_kept x away ∙ p.free x (ground arith)
    ];
    pages = λ x h. elim (ℕ_discrete pa x) [
      | yes here ↦ subst (λ (y : ℕ). IsPage l y) here (p.pages pa (λ z. cc (z, role)))
      | no away ↦ p.pages x (λ e. h (role_kept x away ∙ e))
    ];
    spaces = λ r' e. elim (ℕ_discrete pa r') [
      | yes here ↦ absurd (cc (ap own' here, released_role, e))
      | no away ↦
          let e' : own r' ≡ table r' [] = sym (role_kept r' away) ∙ e in
          Under-Keeps own own' s.mem t.mem keeps 2 r' [] r' e' (p.spaces r' e')
    ];
  }

  pub space-released : (r' va : ℕ) → own r' ≡ table r' [] → space t.mem r' va ≡ space s.mem r' va
  space-released r' va root =
      view-Keeps own own' s.mem t.mem keeps 2 r' [] r' va root (p.spaces r' root)

  pub bottom-released :
      (r' va : ℕ) → own r' ≡ table r' [] → bottom t.mem 2 r' va ≡ bottom s.mem 2 r' va
  bottom-released r' va root =
      bottom-Keeps own own' s.mem t.mem keeps 2 r' [] r' va root (p.spaces r' root)
