-- ===== src/Vm/Spaces/Extend.antt =====
-- A space that has more pages, zeroed, and a row of them taken back.
use lab_utilities.Base.{
  ℕ, ◌+◌, ◌%◌, ◌<◌, ◌≤◌, ◌≡◌, ◌≢◌, ◌⊎◌, inl, inr, refl, sym, ◌∙◌, true, arith, List, [], ℕ_discrete,
}
use lab_utilities.Riscv.{maxva, pte2pa}
use lab_utilities.Riscv.Entries.{leaf}
use lab_utilities.Layout.{Layout}
use lab_utilities.Machine.{Machine}
use lab_utilities.Vm.Walk.Link.{page_of}
use lab_utilities.Vm.Spaces.{table, frame, Roles, space, Pages}
use lab_utilities.Vm.Spaces.Grow.{holds_data}
use lab_utilities.Vm.Spaces.Place.{number}
use lab_utilities.Vm.Spaces.Size.{le_or_lt, entry_at-number, entry_at, Holds, Shrunk}

-- From `s` to `t` the space `pt`, which held `n0` pages, has come to hold `n`: each new one leads to a page
-- of zeros with the permissions asked for, and all other memory and all other entries are as before.
pub record Grew (l : Layout) (s : Machine) (own : Roles) (pt : ℕ) (perm : ℕ → ℕ) (byte : ℕ → ℕ → ℕ)
    (n0 n top : ℕ) (t : Machine) : Type 0 where
  pub after : Roles
  pub left : List ℕ
  pub pages : Pages l t after left
  pub tables : (x r : ℕ) (path : List ℕ) → own x ≡ table r path → after x ≡ table r path
  pub roles : (x : ℕ) → holds_data (own x) ≡ true → after x ≡ own x
  pub bytes : (x : ℕ) → holds_data (own (page_of x)) ≡ true → t.mem x ≡ s.mem x
  pub spaces :
      (r vb : ℕ)
      → own r ≡ table r []
      → vb < maxva
      → (r ≢ pt) ⊎ ((number vb < n0) ⊎ (n ≤ number vb))
      → space t.mem r vb ≡ space s.mem r vb
  pub holds : Holds t after pt n top
  pub fresh :
      (k : ℕ)
      → n0 ≤ k
      → k < n
      → (entry_at t pt k ≡ leaf (pte2pa (entry_at t pt k)) (perm k))
        × ((x : ℕ) → page_of x ≡ pte2pa (entry_at t pt k) → t.mem x ≡ byte k (x % 4096))

pub Grew-refl :
    (l : Layout) (s : Machine) (own : Roles) (ps : List ℕ) (pt : ℕ) (perm : ℕ → ℕ)
    (byte : ℕ → ℕ → ℕ) (n top : ℕ)
    → Pages l s own ps
    → Holds s own pt n top
    → (g : Grew l s own pt perm byte n n top s) × (g.left ≡ ps)
Grew-refl l s own ps pt perm byte n top p h = (
  record {
    after = own;
    left = ps;
    pages = p;
    tables = λ x r path e. e;
    roles = λ x used. refl;
    bytes = λ x used. refl;
    spaces = λ r vb e below apart. refl;
    holds = h;
    fresh = λ k from below. absurd (omega (arith, from, below));
  },
  refl,
)

-- Growing and then giving back all that was gained restores every space and all memory in use.
pub Grew-Shrunk :
    (l : Layout) (s t u : Machine) (own : Roles) (pt : ℕ) (perm : ℕ → ℕ) (byte : ℕ → ℕ → ℕ)
    (n0 n d top : ℕ)
    → Holds s own pt n0 top
    → n0 + d ≡ n
    → n ≤ top
    → (g : Grew l s own pt perm byte n0 n top t) → Shrunk l t g.after pt n0 d top u
    → Grew l s own pt perm byte n0 n0 top u
Grew-Shrunk l s t u own pt perm byte n0 n d top h whole low g k =
    let mine : (x : ℕ) → holds_data (own x) ≡ true → (j : ℕ) → n0 ≤ j → g.after x ≢ frame pt j =
      λ x used j from e. omega (arith, from, (h.only x j (sym (g.roles x used) ∙ e)).0) in
    record {
      after = k.after;
      left = k.left;
      pages = k.pages;
      tables = λ x r path e. k.tables x r path (g.tables x r path e);
      roles = λ x used. let e = g.roles x used in k.roles x (rw e used) (mine x used) ∙ e;
      bytes = λ x used.
          let e = g.roles (page_of x) used in
          k.bytes x (rw e used) (mine (page_of x) used) ∙ g.bytes x used;
      spaces = λ r vb e below apart. elim (ℕ_discrete r pt) [
        | no ne ↦ k.spaces r vb (g.tables r r [] e) below (inl ne) ∙ g.spaces r vb e below (inl ne)
        | yes here ↦ elim (le_or_lt n (number vb)) [
          | inl high ↦
              k.spaces r vb (g.tables r r [] e) below (inr (inr (omega (arith, whole, high))))
              ∙ g.spaces r vb e below (inr (inr high))
          | inr lower ↦ elim (le_or_lt n0 (number vb)) [
            | inr low' ↦
                k.spaces r vb (g.tables r r [] e) below (inr (inl low'))
                ∙ g.spaces r vb e below (inr (inl low'))
            | inl from ↦ rw here (
                entry_at-number u pt vb
                ∙ k.holds.empty (number vb) from (omega (arith, low, lower))
                ∙ sym (
                    entry_at-number s pt vb ∙ h.empty (number vb) from (omega (arith, low, lower))))
          ]
        ]
      ];
      holds = k.holds;
      fresh = λ j from below. absurd (omega (arith, from, below));
    }
