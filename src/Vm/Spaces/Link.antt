-- ===== src/Vm/Spaces/Link.antt =====
-- A fresh page linked in as a page table: no address space changes.
use lab_utilities.Base.{
  ℕ, zero, suc, ◌+◌, ◌<◌, ◌≡◌, ◌≢◌, ◌⊎◌, inl, inr, sym, ap, subst, ◌∙◌, true, false, arith,
  Bool-cases, List, ◌∷◌, length, ==_ne, ==_refl, ℕ_discrete,
}
use lab_utilities.Memory.{Mem}
use lab_utilities.Riscv.{px, pte_v, flag_set, pte2pa}
use lab_utilities.Riscv.Rounding.{px-lt}
use lab_utilities.Vm.Spaces.{free, table, Roles, set_role, entry_in, view, Under, role_depth}

-- A page whose entries are all 0 has no table below it.
pub view-zero :
    (g : Mem) (k q va : ℕ) → ((j : ℕ) → j < 512 → entry_in g q j ≡ 0) → view g k q va ≡ 0
unfolding view
view-zero g zero q va zeroed = zeroed (px 0 va) (px-lt 0 va)
view-zero g (suc k) q va zeroed = rw (zeroed (px (suc k) va) (px-lt (suc k) va))

pub Under-zero :
    (own : Roles) (g : Mem) (k r : ℕ) (path : List ℕ) (q : ℕ)
    → ((j : ℕ) → j < 512 → entry_in g q j ≡ 0)
    → Under own g k r path q
Under-zero own g zero r path q zeroed = tt
Under-zero own g (suc k) r path q zeroed =
    λ i low valid. absurd (cc (valid, ap (flag_set pte_v) (zeroed i low)))

-- The page `q`, free before, is the table at entry `i` of the table `t` afterwards.
pub record Links (own : Roles) (m g : Mem) (q t i rr : ℕ) (pp : List ℕ) : Type 0 where
  pub unused : own q ≡ free
  pub parent : own t ≡ table rr pp
  pub upper : length pp < 2
  pub index : i < 512
  pub invalid : flag_set pte_v (entry_in m t i) ≡ false
  pub valid : flag_set pte_v (entry_in g t i) ≡ true
  pub target : pte2pa (entry_in g t i) ≡ q
  pub zeroed : (j : ℕ) → j < 512 → entry_in g q j ≡ 0
  pub kept :
      (x j r : ℕ) (path : List ℕ)
      → own x ≡ table r path
      → j < 512
      → (x ≢ t) ⊎ (j ≢ i)
      → entry_in g x j ≡ entry_in m x j

module _ (own : Roles) (m g : Mem) (q t i rr : ℕ) (pp : List ℕ)
    (k : Links own m g q t i rr pp) where
  abbrev own' : Roles
  own' = set_role own q (table rr (i ∷ pp))

  -- A table keeps its role.
  table-kept : (x r : ℕ) (path : List ℕ) → own x ≡ table r path → own' x ≡ table r path
  table-kept x r path e = let ne : q ≢ x = λ z. cc (ap own z, k.unused, e) in rw (==_ne q x ne) e

  same_place : (r : ℕ) (path : List ℕ) → own t ≡ table r path → table rr pp ≡ table r path
  same_place r path e = sym k.parent ∙ e

  fresh_role : own' q ≡ table rr (i ∷ pp)
  fresh_role = rw (==_refl q)

  -- An entry of a table, as it stands after the link.
  entry-cases :
      (x j r : ℕ) (path : List ℕ)
      → own x ≡ table r path
      → j < 512
      → ((x ≡ t) × (j ≡ i)) ⊎ (entry_in g x j ≡ entry_in m x j)
  entry-cases x j r path role low = elim (ℕ_discrete x t) [
    | yes here ↦ elim (ℕ_discrete j i) [
      | yes same ↦ inl (here, same)
      | no apart ↦ inr (k.kept x j r path role low (inr apart))
    ]
    | no away ↦ inr (k.kept x j r path role low (inl away))
  ]

  place :
      (x j r : ℕ) (path : List ℕ)
      → own x ≡ table r path
      → x ≡ t
      → j ≡ i
      → own' q ≡ table r (j ∷ path)
  place x j r path role here same =
      let e : table rr pp ≡ table r path = sym k.parent ∙ ap own (sym here) ∙ role in
      fresh_role ∙ cc (e, same)

  pub Under-link :
      (level r : ℕ) (path : List ℕ) (x : ℕ)
      → own x ≡ table r path
      → length path + level ≡ 2
      → Under own m level r path x
      → Under own' g level r path x
  Under-link zero r path x role depth under = tt
  Under-link (suc level) r path x role depth under = λ j low valid.
      elim (entry-cases x j r path role low) [
        | inl (here, same) ↦
            let e : pte2pa (entry_in g x j) ≡ q = rw (here, same) k.target in
            subst (λ (a : ℕ). (own' a ≡ table r (j ∷ path)) × Under own' g level r (j ∷ path) a)
              (sym e)
              (place x j r path role here same, Under-zero own' g level r (j ∷ path) q k.zeroed)
        | inr e ↦
            let (role', under') = under j low (rw e at valid) in
            subst
              (λ (a : ℕ).
                (own' (pte2pa a) ≡ table r (j ∷ path)) × Under own' g level r (j ∷ path) (pte2pa a))
              (sym e)
              (
                table-kept (pte2pa (entry_in m x j)) r (j ∷ path) role',
                Under-link level r (j ∷ path) (pte2pa (entry_in m x j)) role' (omega arith) under',
              )
      ]

  pub view-link :
      (level r : ℕ) (path : List ℕ) (x va : ℕ)
      → own x ≡ table r path
      → length path + level ≡ 2
      → Under own m level r path x
      → view g level x va ≡ view m level x va
  unfolding view
  view-link zero r path x va role depth under = k.kept x (px 0 va) r path role (px-lt 0 va) (
      inl (λ e.
        let same : table rr pp ≡ table r path = sym k.parent ∙ ap own (sym e) ∙ role in
        let long : length pp ≡ length path = ap role_depth same in omega (arith, k.upper)))
  view-link (suc level) r path x va role depth under =
      let j : ℕ = px (suc level) va in
      elim (entry-cases x j r path role (px-lt (suc level) va)) [
        | inl (here, same) ↦
            let gone : flag_set pte_v (entry_in m x j) ≡ false = rw (here, same) k.invalid in
            let there : flag_set pte_v (entry_in g x j) ≡ true = rw (here, same) k.valid in
            let e : pte2pa (entry_in g x j) ≡ q = rw (here, same) k.target in
            rw (gone, there, e) (view-zero g level q va k.zeroed)
        | inr e ↦ elim (Bool-cases (flag_set pte_v (entry_in m x j))) [
          | inr invalid ↦ rw (e, invalid)
          | inl valid ↦
              let (role', under') = under j (px-lt (suc level) va) valid in
              rw (e, valid)
                (view-link level r (j ∷ path) (pte2pa (entry_in m x j)) va role' (omega arith)
                  under')
        ]
      ]
