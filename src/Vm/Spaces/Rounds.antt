-- ===== src/Vm/Spaces/Rounds.antt =====
-- A round of the loop of freewalk of vm.c: the tables below one entry are freed, and the entry is cleared.
use lab_utilities.Base.{
  ℕ, suc, ◌+◌, ◌*◌, ◌<◌, ◌≤◌, ◌≡◌, ◌≢◌, inl, inr, refl, sym, ap, subst, ◌∙◌, true, arith, List, ◌∷◌,
  length, has, bit_and, bit_or, ◌==◌, ℕ_discrete,
}
use lab_utilities.Memory.Laws.{store-SameOutside}
use lab_utilities.Riscv.{pte_v, pte_r, pte_w, pte_x, flag_set, pte2pa}
use lab_utilities.Kalloc.FreeList.{IsPage}
use lab_utilities.Layout.{Layout, IsLayout}
use lab_utilities.Machine.{Machine}
use lab_utilities.Vm.Walk.Link.{page_of}
use lab_utilities.Vm.Spaces.{free, table, Roles, entry_in, Under}
use lab_utilities.Vm.Spaces.Same.{entry-store_other}
use lab_utilities.Vm.Spaces.Below.{
  Within, Within-length, Within-same, NoLeaf, Below, KeepsOn, Under-KeepsOn, NoLeaf-KeepsOn,
  Below-KeepsOn,
}
use lab_utilities.Vm.Spaces.Clearing.{
  Rest, Clears, entry-bytes, table-path, x-IsPage, entry_cleared,
}

abbrev pub child : Machine → ℕ → ℕ → ℕ
child s x j = pte2pa (entry_in s.mem x j)

-- The paths, and the tables, below the entries of `x` from `i` on.
abbrev pub PathFrom : List ℕ → ℕ → List ℕ → Type 0
PathFrom path i p = (j : ℕ) × (i ≤ j) × Within (j ∷ path) p

abbrev pub TableFrom : Machine → ℕ → ℕ → ℕ → ℕ → Type 0
TableFrom s k x i y =
    (j : ℕ) × (i ≤ j)
    × (j < 512)
    × (flag_set pte_v (entry_in s.mem x j) ≡ true)
    × Below s.mem k (child s x j) y

-- The tables below the entries from `i` on have been freed; or all tables at and below `x`.
abbrev pub ClearsFrom :
    (l : Layout) → Machine → Roles → List ℕ → ℕ → List ℕ → ℕ → ℕ → ℕ → Machine → Type 0
ClearsFrom l s own ps r path k x i t =
    Clears l s own ps r (PathFrom path i) (λ a. a ≢ x) (TableFrom s k x i) t

abbrev pub ClearsAll :
    (l : Layout) → Machine → Roles → List ℕ → ℕ → List ℕ → ℕ → ℕ → Machine → Type 0
ClearsAll l s own ps r path level x t =
    Clears l s own ps r (Within path) (λ a. Unit {0}) (Below s.mem level x) t

-- The entries of `x` from `i` on lead to tables, and to no leaf.
pub record Ready (s : Machine) (own : Roles) (r : ℕ) (path : List ℕ) (k x i : ℕ) : Type 0 where
  pub under :
      (j : ℕ)
      → i ≤ j
      → j < 512
      → flag_set pte_v (entry_in s.mem x j) ≡ true
      → (own (child s x j) ≡ table r (j ∷ path)) × Under own s.mem k r (j ∷ path) (child s x j)
  pub inner :
      (j : ℕ)
      → i ≤ j
      → j < 512
      → flag_set pte_v (entry_in s.mem x j) ≡ true
      → ((bit_and (entry_in s.mem x j) (bit_or (bit_or pte_r pte_w) pte_x) == 0) ≡ true)
        × NoLeaf s.mem k (child s x j)

module _ {l : Layout} (is : IsLayout l) (s t1 : Machine) (own : Roles) (ps : List ℕ) (r x : ℕ)
    (path : List ℕ) (k i : ℕ) (p : Rest l s own ps r) (role : own x ≡ table r path) (low : i < 512)
    (valid : flag_set pte_v (entry_in s.mem x i) ≡ true) (ready : Ready s own r path k x i)
    (c : ClearsAll l s own ps r (i ∷ path) k (child s x i) t1) where
  -- A table that is not below the entry keeps its role.
  kept : (y : ℕ) (q : List ℕ) → own y ≡ table r q → ¬ Within (i ∷ path) q → c.after y ≡ own y
  kept y q e out = elim (c.roles y) [
    | inl same ↦ same
    | inr (_, (q', e', within)) ↦
        absurd (out (subst (Within (i ∷ path)) (table-path r r q' q (sym e' ∙ e)) within))
  ]

  pub role_kept : c.after x ≡ table r path
  role_kept = kept x path role (λ h. omega (arith, Within-length (i ∷ path) path h)) ∙ role

  abbrev pub t2 : Machine
  t2 = entry_cleared is t1 c.after c.left r x path c.rest role_kept i low

  x-page : IsPage l x
  x-page = x-IsPage is s own ps r x path p role

  -- The bytes of a page in use other than `x`.
  bytes_kept : (a : ℕ) → c.after (page_of a) ≢ free → page_of a ≢ x → t2.mem a ≡ s.mem a
  bytes_kept a used ne =
      store-SameOutside 8 (x + 8 * i) 0 t1.mem a (omega (arith, low, x-page, ne))
      ∙ c.bytes a used tt

  -- The other entries of `x`.
  entry_kept : (j : ℕ) → j < 512 → j ≢ i → entry_in t2.mem x j ≡ entry_in s.mem x j
  entry_kept j jlow ne =
      entry-store_other t1.mem x i x j 0 x-page.0 x-page.0 low jlow (inr ne)
      ∙ entry-bytes s.mem t1.mem x j x-page.0 jlow
          (λ a e. c.bytes a (λ z. cc (ap c.after (sym e) ∙ z, role_kept)) tt)

  -- The tables below another entry.
  siblings :
      (j : ℕ) → j ≢ i → KeepsOn (λ r' q. (r' ≡ r) × Within (j ∷ path) q) own c.after s.mem t2.mem
  siblings j ne = record {
    closed = λ r' m q (e, h). (e, inr h);
    roles = λ y r' q (e, h) e'.
        kept y q (e' ∙ ap (λ (z : ℕ). table z q) e) (λ h'. ne (Within-same j i path q h h')) ∙ e';
    entries = λ y m r' q (e, h) e' mlow.
        let still =
          kept y q (e' ∙ ap (λ (z : ℕ). table z q) e) (λ h'. ne (Within-same j i path q h h'))
          ∙ e' in
        let away : y ≢ x = λ z.
          let same : q ≡ path = table-path r' r q path (sym e' ∙ ap own z ∙ role) in
          omega (arith, Within-length (j ∷ path) q h, ap length same) in
        entry-bytes s.mem t2.mem y m (p.pages y (λ z. cc (z, e'))).0 mlow (λ a here.
          bytes_kept a (λ z. cc (ap c.after (sym here) ∙ z, still)) (λ z. away (sym here ∙ z)));
  }

  -- The part of the spaces below another entry.
  abbrev Part : ℕ → ℕ → List ℕ → Type 0
  Part j r' q = (r' ≡ r) × Within (j ∷ path) q

  pub Ready-next : Ready t2 c.after r path k x (suc i)
  Ready-next = record {
    under = λ j from jlow h.
        let ne : j ≢ i = omega (arith, from) in
        let e = entry_kept j jlow ne in
        let valid' : flag_set pte_v (entry_in s.mem x j) ≡ true = rw e at h in
        let (role', under') = ready.under j (omega (arith, from)) jlow valid' in
        let here : Part j r (j ∷ path) = (refl, inl refl) in
        let keeps = siblings j ne in
        subst
          (λ (a : ℕ).
            (c.after (pte2pa a) ≡ table r (j ∷ path))
            × Under c.after t2.mem k r (j ∷ path) (pte2pa a))
          (sym e)
          (
            keeps.roles (child s x j) r (j ∷ path) here role',
            Under-KeepsOn (Part j) own c.after s.mem t2.mem keeps k r (j ∷ path) (child s x j) here
                role' under',
          );
    inner = λ j from jlow h.
        let ne : j ≢ i = omega (arith, from) in
        let e = entry_kept j jlow ne in
        let valid' : flag_set pte_v (entry_in s.mem x j) ≡ true = rw e at h in
        let (role', under') = ready.under j (omega (arith, from)) jlow valid' in
        let (upper, no_leaf) = ready.inner j (omega (arith, from)) jlow valid' in
        subst
          (λ (a : ℕ).
            ((bit_and a (bit_or (bit_or pte_r pte_w) pte_x) == 0) ≡ true)
            × NoLeaf t2.mem k (pte2pa a))
          (sym e)
          (
            upper,
            NoLeaf-KeepsOn (Part j) own c.after s.mem t2.mem (siblings j ne) k r (j ∷ path)
                (child s x j) (refl, inl refl) role' under' no_leaf,
          );
  }

  module _ (t : Machine) (w : ClearsFrom l t2 c.after c.left r path k x (suc i) t) where
    -- What is free stays free.
    stays_free : (y : ℕ) → c.after y ≡ free → w.after y ≡ free
    stays_free y e = elim (w.roles y) [ inl same ↦ same ∙ e | inr (gone, _) ↦ gone ]

    freed_from : (y : ℕ) → TableFrom s k x i y → has y w.left ≡ true
    freed_from y (j, from, jlow, h, below) = elim (ℕ_discrete j i) [
      | yes here ↦
          w.more y (c.freed y (subst (λ (m : ℕ). Below s.mem k (child s x m) y) here below))
      | no ne ↦
          let e = entry_kept j jlow ne in
          let (role', under') = ready.under j from jlow h in
          w.freed y (
            j,
            omega (arith, from, ne),
            jlow,
            rw e h,
            subst (λ (a : ℕ). Below t2.mem k (pte2pa a) y) (sym e)
                (Below-KeepsOn (Part j) own c.after s.mem t2.mem (siblings j ne) k r (j ∷ path)
                  (child s x j) y (refl, inl refl) role' under' below),
          )
    ]

    pub ClearsFrom-next : ClearsFrom l s own ps r path k x i t
    ClearsFrom-next = record {
      after = w.after;
      left = w.left;
      rest = w.rest;
      roles = λ y. elim (w.roles y) [
        | inl same ↦ elim (c.roles y) [
          | inl same' ↦ inl (same ∙ same')
          | inr (gone, (q, e, within)) ↦ inr (same ∙ gone, (q, e, (i, omega arith, within)))
        ]
        | inr (gone, (q, e, (j, from, within))) ↦ elim (c.roles y) [
          | inl same' ↦ inr (gone, (q, sym same' ∙ e, (j, omega (arith, from), within)))
          | inr (gone', _) ↦ absurd (cc (gone', e))
        ]
      ];
      bytes =
          λ a used ne. w.bytes a used ne ∙ bytes_kept a (λ z. used (stays_free (page_of a) z)) ne;
      more = λ y h. w.more y (c.more y h);
      freed = freed_from;
    }
