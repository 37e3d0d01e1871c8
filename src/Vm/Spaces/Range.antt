-- ===== src/Vm/Spaces/Range.antt =====
-- Spaces as functions: a row of pages mapped or unmapped in one of them.
use lab_utilities.Base.{
  ℕ, suc, ◌+◌, ◌-◌, ◌*◌, ◌<◌, ◌≤◌, ◌≡◌, ◌≢◌, ◌⊎◌, inl, inr, refl, Bool, true, false, ◌&&◌, arith,
  Bool-cases, ◌==◌, leb, ltb, le→leb, lt→ltb, if◌then◌else◌, ==_ne, ==_refl, ℕ_discrete,
}
use lab_utilities.Riscv.Entries.{leaf}
use lab_utilities.Vm.Spaces.Place.{number}

-- The spaces by their roots, each a function from virtual addresses to entries.
abbrev pub Spaces : Type 0
Spaces = ℕ → ℕ → ℕ

-- `vb` is in one of the `n` pages from `va` on.
unfoldable pub covers : ℕ → ℕ → ℕ → Bool
covers va n vb = leb (number va) (number vb) && ltb (number vb) (number va + n)

-- In the space `pt`, `n` pages from `va` on lead to the memory from `pa` on.
unfoldable pub map_pages : ℕ → ℕ → ℕ → ℕ → ℕ → Spaces → Spaces
map_pages pt va n pa perm spaces r vb =
    if (r == pt) && covers va n vb
    then leaf (pa + (number vb - number va) * 4096) perm
    else spaces r vb

-- In the space `pt`, `n` pages from `va` on lead nowhere.
unfoldable pub unmap_pages : ℕ → ℕ → ℕ → Spaces → Spaces
unmap_pages pt va n spaces r vb = if (r == pt) && covers va n vb then 0 else spaces r vb

-- One entry, at a page.
abbrev pub set_page : ℕ → ℕ → ℕ → Spaces → Spaces
set_page pt va v spaces r vb = if (r == pt) && (number vb == number va) then v else spaces r vb

covers-zero : (va vb : ℕ) → covers va 0 vb ≡ false
unfolding covers
covers-zero va vb = ground arith

pub covers_self : (va n : ℕ) → covers va (suc n) va ≡ true
unfolding covers
covers_self va n = ground arith

pub covers-suc :
    (va n vb : ℕ)
    → covers va (suc n) vb ≡ (if number vb == number va then true else covers (va + 4096) n vb)
unfolding covers
covers-suc va n vb =
    let e : number (va + 4096) ≡ suc (number va) = omega arith in rw e (ground arith)

pub covers-next : (va n vb : ℕ) → covers (va + 4096) n vb ≡ true → number va < number vb
unfolding covers
covers-next va n vb h = ground arith

pub covers-more : (va n vb : ℕ) → covers (va + 4096) n vb ≡ true → covers va (suc n) vb ≡ true
unfolding covers
covers-more va n vb h = ground arith

pub map_pages-zero :
    (pt va pa perm : ℕ) (spaces : Spaces) (r vb : ℕ)
    → map_pages pt va 0 pa perm spaces r vb ≡ spaces r vb
unfolding map_pages
map_pages-zero pt va pa perm spaces r vb = rw (covers-zero va vb) (ground arith)

pub unmap_pages-zero :
    (pt va : ℕ) (spaces : Spaces) (r vb : ℕ) → unmap_pages pt va 0 spaces r vb ≡ spaces r vb
unfolding unmap_pages
unmap_pages-zero pt va spaces r vb = rw (covers-zero va vb) (ground arith)

pub map_pages-suc :
    (pt va n pa perm : ℕ) (spaces : Spaces) (r vb : ℕ)
    → map_pages pt (va + 4096) n (pa + 4096) perm (set_page pt va (leaf pa perm) spaces) r vb
      ≡ map_pages pt va (suc n) pa perm spaces r vb
unfolding map_pages
map_pages-suc pt va n pa perm spaces r vb = elim (Bool-cases (covers (va + 4096) n vb)) [
  | inl more ↦
      let after = covers-next va n vb more in
      let ne : number vb ≢ number va = λ e. omega (arith, e, after) in
      let same : pa + 4096 + (number vb - number (va + 4096)) * 4096
          ≡ pa + (number vb - number va) * 4096 =
        omega (arith, after) in
      rw (covers-suc va n vb, ==_ne (number vb) (number va) ne, more, same) (ground arith)
  | inr none ↦ elim (ℕ_discrete (number vb) (number va)) [
    | yes e ↦
        let same : pa + (number vb - number va) * 4096 ≡ pa = omega (arith, e) in
        rw (covers-suc va n vb, none, same, e, ==_refl (number va)) (ground arith)
    | no ne ↦ rw (covers-suc va n vb, ==_ne (number vb) (number va) ne, none) (ground arith)
  ]
]

pub unmap_pages-suc :
    (pt va n : ℕ) (spaces : Spaces) (r vb : ℕ)
    → unmap_pages pt (va + 4096) n (set_page pt va 0 spaces) r vb
      ≡ unmap_pages pt va (suc n) spaces r vb
unfolding unmap_pages
unmap_pages-suc pt va n spaces r vb = rw (covers-suc va n vb) (ground arith)

pub map_pages-at :
    (pt va n pa perm : ℕ) (spaces spaces' : Spaces) (r vb : ℕ)
    → spaces r vb ≡ spaces' r vb
    → map_pages pt va n pa perm spaces r vb ≡ map_pages pt va n pa perm spaces' r vb
unfolding map_pages
map_pages-at pt va n pa perm spaces spaces' r vb e = rw e

pub unmap_pages-at :
    (pt va n : ℕ) (spaces spaces' : Spaces) (r vb : ℕ)
    → spaces r vb ≡ spaces' r vb
    → unmap_pages pt va n spaces r vb ≡ unmap_pages pt va n spaces' r vb
unfolding unmap_pages
unmap_pages-at pt va n spaces spaces' r vb e = rw e

-- A page at or after the last one is not among the pages mapped.
pub map_pages-apart :
    (pt va n pa perm : ℕ) (spaces : Spaces) (r vb : ℕ)
    → (r ≢ pt) ⊎ ((number vb < number va) ⊎ (number va + n ≤ number vb))
    → map_pages pt va n pa perm spaces r vb ≡ spaces r vb
unfolding map_pages covers
map_pages-apart pt va n pa perm spaces r vb h = ground arith

pub unmap_pages-apart :
    (pt va n : ℕ) (spaces : Spaces) (r vb : ℕ)
    → (r ≢ pt) ⊎ ((number vb < number va) ⊎ (number va + n ≤ number vb))
    → unmap_pages pt va n spaces r vb ≡ spaces r vb
unfolding unmap_pages covers
unmap_pages-apart pt va n spaces r vb h = ground arith

pub unmap_pages-inside :
    (pt va n : ℕ) (spaces : Spaces) (vb : ℕ)
    → number va ≤ number vb
    → number vb < number va + n
    → unmap_pages pt va n spaces pt vb ≡ 0
unfolding unmap_pages covers
unmap_pages-inside pt va n spaces vb from below = rw (==_refl pt) (ground arith)

pub covers-range :
    (va n vb : ℕ) → covers va n vb ≡ true → (number va ≤ number vb) × (number vb < number va + n)
unfolding covers
covers-range va n vb h = (ground arith, ground arith)

pub map_pages-here :
    (pt va pa perm : ℕ) (spaces : Spaces) → map_pages pt va 1 pa perm spaces pt va ≡ leaf pa perm
unfolding map_pages covers
map_pages-here pt va pa perm spaces =
    let none : pa + (number va - number va) * 4096 ≡ pa = omega arith in
    rw
      (
        ==_refl pt,
        le→leb (number va) (number va) (omega arith),
        lt→ltb (number va) (number va + 1) (omega arith),
        none,
      )
      refl
