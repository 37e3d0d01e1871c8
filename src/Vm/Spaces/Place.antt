-- ===== src/Vm/Spaces/Place.antt =====
-- Where the entry for a virtual address stands: the indices of an address determine its page.
use lab_utilities.Base.{
  ℕ, zero, suc, ◌+◌, ◌*◌, ◌/◌, ◌<◌, ◌≡◌, ◌≢◌, ◌⊎◌, inl, inr, refl, sym, ap, ◌∙◌, Bool, true, false,
  ◌&&◌, arith, Bool-cases, List, [], ◌∷◌, ◌==◌, ==_ne, ==_refl, ℕ_discrete,
}
use lab_utilities.Memory.{Mem}
use lab_utilities.Riscv.{px, maxva, pte_v, flag_set, pte2pa}
use lab_utilities.Riscv.Rounding.{px-lt, px_lem}
use lab_utilities.Vm.Walk.Descent.{slot, descend}
use lab_utilities.Vm.Spaces.{table, Roles, entry_in, view, bottom, route, Under}
use lab_utilities.Vm.Spaces.Same.{bottom-role}

-- the page of physical memory or of an address space that an address is in
abbrev pub number : ℕ → ℕ
number va = va / 4096

number-px : (va : ℕ) → va < maxva → number va ≡ px 0 va + 512 * (px 1 va + 512 * px 2 va)
number-px va h = omega (arith, h, px_lem 0 va, px_lem 1 va, px_lem 2 va)

px-number : (level va vb : ℕ) → level < 3 → number va ≡ number vb → px level va ≡ px level vb
px-number zero va vb h e = omega (arith, px_lem 0 va, px_lem 0 vb)
px-number (suc zero) va vb h e = omega (arith, px_lem 1 va, px_lem 1 vb)
px-number (suc (suc zero)) va vb h e = omega (arith, px_lem 2 va, px_lem 2 vb)
px-number (suc (suc (suc level))) va vb h e = absurd (omega (arith, h))

pub bottom-number :
    (m : Mem) (level t va vb : ℕ)
    → level < 3
    → number va ≡ number vb
    → bottom m level t va ≡ bottom m level t vb
unfolding bottom
bottom-number m zero t va vb h e = refl
bottom-number m (suc level) t va vb h e =
    let same = px-number (suc level) va vb h e in
    rw (
      same,
      bottom-number m level (pte2pa (entry_in m t (px (suc level) vb))) va vb (omega arith) e,
    )

pub view-number :
    (m : Mem) (level t va vb : ℕ)
    → level < 3
    → number va ≡ number vb
    → view m level t va ≡ view m level t vb
unfolding view
view-number m zero t va vb h e = rw (px-number 0 va vb h e)
view-number m (suc level) t va vb h e =
    let same = px-number (suc level) va vb h e in
    rw (same, view-number m level (pte2pa (entry_in m t (px (suc level) vb))) va vb (omega arith) e)

-- The entry that a way down leads to.
pub view-bottom :
    (m : Mem) (level t va : ℕ)
    → bottom m level t va ≢ 0
    → view m level t va ≡ entry_in m (bottom m level t va) (px 0 va)
unfolding view bottom
view-bottom m zero t va h = refl
view-bottom m (suc level) t va h =
    elim (Bool-cases (flag_set pte_v (entry_in m t (px (suc level) va)))) [
      | inr invalid ↦ absurd (h (rw invalid))
      | inl valid ↦
          rw valid
            (view-bottom m level (pte2pa (entry_in m t (px (suc level) va))) va (rw valid at h))
    ]

route-number :
    (va vb r r' : ℕ)
    → va < maxva
    → vb < maxva
    → table r (route 2 va []) ≡ table r' (route 2 vb [])
    → px 0 va ≡ px 0 vb
    → (r ≡ r') × (number va ≡ number vb)
route-number va vb r r' low low' e e0 =
    let e1 : px 1 va ≡ px 1 vb = cc e in
    let e2 : px 2 va ≡ px 2 vb = cc e in
    (cc e, number-px va low ∙ rw (e0, e1, e2) (sym (number-px vb low')))

and_false : (b : Bool) → (b && false) ≡ false
and_false b = ground arith

both_ne : (a b c d : ℕ) → ¬ ((a ≡ b) × (c ≡ d)) → ((a == b) && (c == d)) ≡ false
both_ne a b c d h = elim (ℕ_discrete a b) [
  | yes e ↦ rw (==_ne c d (λ e'. h (e, e')), and_false (a == b))
  | no ne ↦ rw (==_ne a b ne)
]

both-cases : (a b c d : ℕ) → ((a ≡ b) × (c ≡ d)) ⊎ (¬ ((a ≡ b) × (c ≡ d)))
both-cases a b c d = elim (ℕ_discrete a b) [
  | yes e ↦ elim (ℕ_discrete c d) [ yes e' ↦ inl (e, e') | no ne ↦ inr (λ both. ne both.1) ]
  | no ne ↦ inr (λ both. ne both.0)
]

-- Two addresses of two spaces have the same entry only if spaces and pages are the same.
pub same_place :
    (own : Roles) (m : Mem) (r va r' vb : ℕ)
    → va < maxva
    → vb < maxva
    → own r ≡ table r []
    → own r' ≡ table r' []
    → Under own m 2 r [] r
    → Under own m 2 r' [] r'
    → bottom m 2 r va ≢ 0
    → ((bottom m 2 r' vb == bottom m 2 r va) && (px 0 vb == px 0 va))
      ≡ ((r' == r) && (number vb == number va))
same_place own m r va r' vb low low' root root' under under' h =
    elim (both-cases r' r (number vb) (number va)) [
      | inl (e, page) ↦ rw (
        e,
        bottom-number m 2 r vb va (omega arith) page,
        px-number 0 vb va (omega arith) page,
        ==_refl (bottom m 2 r va),
        ==_refl (px 0 va),
        ==_refl r,
        page,
        ==_refl (number va),
      )
      | inr apart ↦
          both_ne (bottom m 2 r' vb) (bottom m 2 r va) (px 0 vb) (px 0 va) (λ (e, e0). apart (
            route-number vb va r' r low' low
              (sym (bottom-role own m 2 r' [] r' vb root' under' (λ z. h (sym e ∙ z)))
                ∙ ap own e
                ∙ bottom-role own m 2 r [] r va root under h)
              e0))
          ∙ sym (both_ne r' r (number vb) (number va) apart)
    ]

-- A valid entry is found: every table on the way is there.
pub view-there :
    (own : Roles) (m : Mem) (level r : ℕ) (path : List ℕ) (x va : ℕ)
    → ((y r' : ℕ) (path' : List ℕ) → own y ≡ table r' path' → y ≢ 0)
    → own x ≡ table r path
    → Under own m level r path x
    → flag_set pte_v (view m level x va) ≡ true
    → (bottom m level x va ≢ 0) × (descend m level x va ≡ slot 0 (bottom m level x va) va)
unfolding view bottom descend
view-there own m zero r path x va pos role under h = (pos x r path role, refl)
view-there own m (suc level) r path x va pos role under h =
    elim (Bool-cases (flag_set pte_v (entry_in m x (px (suc level) va)))) [
      | inr invalid ↦ absurd (cc (rw invalid at h))
      | inl valid ↦
          let (role', under') = under (px (suc level) va) (px-lt (suc level) va) valid in
          rw valid (
            view-there own m level r (px (suc level) va ∷ path)
              (pte2pa (entry_in m x (px (suc level) va))) va pos role' under' (rw valid at h))
    ]
