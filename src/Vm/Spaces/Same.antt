-- ===== src/Vm/Spaces/Same.antt =====
-- Changes of memory that leave every entry of every page table alone.
use lab_utilities.Base.{
  ℕ, zero, suc, ◌+◌, ◌*◌, ◌%◌, ◌<◌, ◌≡◌, ◌≢◌, ◌⊎◌, inl, inr, refl, sym, subst, arith, Bool-cases,
  List, ◌∷◌,
}
use lab_utilities.Memory.{Mem, store64}
use lab_utilities.Memory.Laws.{SameOutside, load-SameOutside, load-store_apart}
use lab_utilities.Riscv.{px, pte_v, flag_set, pte2pa}
use lab_utilities.Riscv.Rounding.{px-lt}
use lab_utilities.Vm.Spaces.{table, Roles, entry_in, view, bottom, route, Under}

-- An entry in a page other than the one written.
pub entry-SameOutside :
    (m g : Mem) (q x j : ℕ)
    → SameOutside q 4096 m g
    → q % 4096 ≡ 0
    → x % 4096 ≡ 0
    → x ≢ q
    → j < 512
    → entry_in g x j ≡ entry_in m x j
entry-SameOutside m g q x j same qal xal ne low =
    load-SameOutside m g (x + 8 * j) 8 q 4096 same (omega (arith, ne))

-- An entry other than the one written.
pub entry-store_other :
    (m : Mem) (t i x j v : ℕ)
    → t % 4096 ≡ 0
    → x % 4096 ≡ 0
    → i < 512
    → j < 512
    → (x ≢ t) ⊎ (j ≢ i)
    → entry_in (store64 m (t + 8 * i) v) x j ≡ entry_in m x j
entry-store_other m t i x j v tal xal ilow jlow ne =
    load-store_apart m (x + 8 * j) 8 (t + 8 * i) 8 v (omega (arith, ne))

-- Every table keeps its role and its entries.
pub record Keeps (own own' : Roles) (m g : Mem) : Type 0 where
  pub roles : (x r : ℕ) (path : List ℕ) → own x ≡ table r path → own' x ≡ table r path
  pub entries :
      (x j r : ℕ) (path : List ℕ) → own x ≡ table r path → j < 512 → entry_in g x j ≡ entry_in m x j

module _ (own own' : Roles) (m g : Mem) (k : Keeps own own' m g) where
  pub Under-Keeps :
      (level r : ℕ) (path : List ℕ) (x : ℕ)
      → own x ≡ table r path
      → Under own m level r path x
      → Under own' g level r path x
  Under-Keeps zero r path x role under = tt
  Under-Keeps (suc level) r path x role under = λ j low valid.
      let e = k.entries x j r path role low in
      let (role', under') = under j low (rw e at valid) in
      subst
        (λ (a : ℕ).
          (own' (pte2pa a) ≡ table r (j ∷ path)) × Under own' g level r (j ∷ path) (pte2pa a))
        (sym e)
        (
          k.roles (pte2pa (entry_in m x j)) r (j ∷ path) role',
          Under-Keeps level r (j ∷ path) (pte2pa (entry_in m x j)) role' under',
        )

  pub view-Keeps :
      (level r : ℕ) (path : List ℕ) (x va : ℕ)
      → own x ≡ table r path
      → Under own m level r path x
      → view g level x va ≡ view m level x va
  unfolding view
  view-Keeps zero r path x va role under = k.entries x (px 0 va) r path role (px-lt 0 va)
  view-Keeps (suc level) r path x va role under =
      let j : ℕ = px (suc level) va in
      let e = k.entries x j r path role (px-lt (suc level) va) in
      elim (Bool-cases (flag_set pte_v (entry_in m x j))) [
        | inr invalid ↦ rw (e, invalid)
        | inl valid ↦
            let (role', under') = under j (px-lt (suc level) va) valid in
            rw (e, valid) (view-Keeps level r (j ∷ path) (pte2pa (entry_in m x j)) va role' under')
      ]

  pub bottom-Keeps :
      (level r : ℕ) (path : List ℕ) (x va : ℕ)
      → own x ≡ table r path
      → Under own m level r path x
      → bottom g level x va ≡ bottom m level x va
  unfolding bottom
  bottom-Keeps zero r path x va role under = refl
  bottom-Keeps (suc level) r path x va role under =
      let j : ℕ = px (suc level) va in
      let e = k.entries x j r path role (px-lt (suc level) va) in
      elim (Bool-cases (flag_set pte_v (entry_in m x j))) [
        | inr invalid ↦ rw (e, invalid)
        | inl valid ↦
            let (role', under') = under j (px-lt (suc level) va) valid in
            rw (e, valid)
              (bottom-Keeps level r (j ∷ path) (pte2pa (entry_in m x j)) va role' under')
      ]

-- The level-0 table that a way down reaches has the role that belongs to the way.
pub bottom-role :
    (own : Roles) (m : Mem) (level r : ℕ) (path : List ℕ) (x va : ℕ)
    → own x ≡ table r path
    → Under own m level r path x
    → bottom m level x va ≢ 0
    → own (bottom m level x va) ≡ table r (route level va path)
unfolding bottom
bottom-role own m zero r path x va role under h = role
bottom-role own m (suc level) r path x va role under h =
    let j : ℕ = px (suc level) va in
    elim (Bool-cases (flag_set pte_v (entry_in m x j))) [
      | inr invalid ↦ absurd (h (rw invalid))
      | inl valid ↦
          let (role', under') = under j (px-lt (suc level) va) valid in
          rw valid (
            bottom-role own m level r (j ∷ path) (pte2pa (entry_in m x j)) va role' under'
              (rw valid at h))
    ]
