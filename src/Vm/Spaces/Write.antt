-- ===== src/Vm/Spaces/Write.antt =====
-- A write to an entry of a level-0 table: the address space changes at one page.
use lab_utilities.Base.{
  ℕ, zero, suc, ◌+◌, ◌<◌, ◌≡◌, ◌≢◌, ◌⊎◌, inl, inr, sym, ap, subst, ◌∙◌, Bool, false, ◌&&◌, arith,
  Bool-cases, List, ◌∷◌, length, ◌==◌, if◌then◌else◌, ==_ne, ==_refl, ℕ_discrete,
}
use lab_utilities.Memory.{Mem}
use lab_utilities.Riscv.{px, pte_v, flag_set, pte2pa}
use lab_utilities.Riscv.Rounding.{px-lt}
use lab_utilities.Vm.Spaces.{table, Roles, entry_in, view, bottom, Under, role_depth}

and_false : (b : Bool) → (b && false) ≡ false
and_false b = ground arith

-- The entry `i` of the level-0 table `t` is `v` afterwards.
pub record Writes (own : Roles) (m g : Mem) (t i v rr : ℕ) (pp : List ℕ) : Type 0 where
  pub role : own t ≡ table rr pp
  pub lowest : length pp ≡ 2
  pub not_null : t ≢ 0
  pub written : entry_in g t i ≡ v
  pub kept :
      (x j r : ℕ) (path : List ℕ)
      → own x ≡ table r path
      → j < 512
      → (x ≢ t) ⊎ (j ≢ i)
      → entry_in g x j ≡ entry_in m x j

module _ (own : Roles) (m g : Mem) (t i v rr : ℕ) (pp : List ℕ)
    (k : Writes own m g t i v rr pp) where
  -- A table of a higher level is another one.
  upper-apart :
      (level r : ℕ) (path : List ℕ) (x : ℕ)
      → own x ≡ table r path
      → length path + suc level ≡ 2
      → x ≢ t
  upper-apart level r path x role depth e =
      let long : length pp ≡ length path = ap role_depth (sym k.role ∙ ap own (sym e) ∙ role) in
      omega (arith, long, k.lowest, depth)

  pub Under-write :
      (level r : ℕ) (path : List ℕ) (x : ℕ)
      → own x ≡ table r path
      → length path + level ≡ 2
      → Under own m level r path x
      → Under own g level r path x
  Under-write zero r path x role depth under = tt
  Under-write (suc level) r path x role depth under = λ j low valid.
      let e = k.kept x j r path role low (inl (upper-apart level r path x role depth)) in
      let (role', under') = under j low (rw e at valid) in
      subst
        (λ (a : ℕ).
          (own (pte2pa a) ≡ table r (j ∷ path)) × Under own g level r (j ∷ path) (pte2pa a))
        (sym e)
        (role', Under-write level r (j ∷ path) (pte2pa (entry_in m x j)) role' (omega arith) under')

  pub view-write :
      (level r : ℕ) (path : List ℕ) (x va : ℕ)
      → own x ≡ table r path
      → length path + level ≡ 2
      → Under own m level r path x
      → view g level x va
        ≡ (if (bottom m level x va == t) && (px 0 va == i) then v else view m level x va)
  unfolding view bottom
  view-write zero r path x va role depth under = elim (ℕ_discrete x t) [
    | yes here ↦ elim (ℕ_discrete (px 0 va) i) [
      | yes same ↦ rw (here, same, ==_refl t, ==_refl i) k.written
      | no apart ↦
          rw (==_ne (px 0 va) i apart, and_false (x == t))
            (k.kept x (px 0 va) r path role (px-lt 0 va) (inr apart))
    ]
    | no away ↦ rw (==_ne x t away) (k.kept x (px 0 va) r path role (px-lt 0 va) (inl away))
  ]
  view-write (suc level) r path x va role depth under =
      let j : ℕ = px (suc level) va in
      let e =
        k.kept x j r path role (px-lt (suc level) va)
          (inl (upper-apart level r path x role depth)) in
      elim (Bool-cases (flag_set pte_v (entry_in m x j))) [
        | inr invalid ↦ rw (e, invalid, ==_ne 0 t (λ z. k.not_null (sym z)))
        | inl valid ↦
            let (role', under') = under j (px-lt (suc level) va) valid in
            rw (e, valid)
              (view-write level r (j ∷ path) (pte2pa (entry_in m x j)) va role' (omega arith)
                under')
      ]
