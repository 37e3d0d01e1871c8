-- ===== src/Vm/Spaces/Size.antt =====
-- The memory of a process: an address space that holds its first pages.
use lab_utilities.Base.{
  ℕ, ◌+◌, ◌-◌, ◌*◌, ◌<◌, ◌≤◌, ◌≡◌, ◌≢◌, ◌⊎◌, inl, inr, refl, sym, ap, ◌∙◌, leb, true, false, arith,
  Bool-cases, List, [], has,
}
use lab_utilities.Riscv.{maxva, pte_v, flag_set, pte2pa, pte_flags}
use lab_utilities.Layout.{Layout, IsLayout}
use lab_utilities.Machine.{Machine, ok}
use lab_utilities.Vm.Map.{uvmunmap}
use lab_utilities.Vm.Walk.Link.{page_of}
use lab_utilities.Vm.Spaces.{free, table, frame, Roles, space, Pages}
use lab_utilities.Vm.Spaces.Grow.{holds_data, not_listed, data-ne-free}
use lab_utilities.Vm.Spaces.Place.{number, view-number}
use lab_utilities.Vm.Spaces.Range.{unmap_pages-apart, unmap_pages-inside, covers-range}
use lab_utilities.Vm.Spaces.Gone.{Leaves, Unmaps, has-give_back, has-give_back_apart}
use lab_utilities.Vm.Spaces.Unmap.{frame-number, uvmunmap-Unmaps}

-- The entry for the page `k` of the space `pt`.
abbrev pub entry_at : Machine → ℕ → ℕ → ℕ
entry_at s pt k = space s.mem pt (k * 4096)

-- The first `n` pages of the space `pt` are leaves that lead to memory of its own, which serves nothing
-- else, and no page from there up to the page `top` has an entry.
pub record Holds (s : Machine) (own : Roles) (pt n top : ℕ) : Type 0 where
  pub mapped :
      (k : ℕ)
      → k < n
      → (flag_set pte_v (entry_at s pt k) ≡ true)
        × (pte_flags (entry_at s pt k) ≢ pte_v)
        × (own (pte2pa (entry_at s pt k)) ≡ frame pt k)
  pub only : (x k : ℕ) → own x ≡ frame pt k → (k < n) × (x ≡ pte2pa (entry_at s pt k))
  pub empty : (k : ℕ) → n ≤ k → k < top → entry_at s pt k ≡ 0

-- What remains after the pages from `n` to `n + d` have been given back.
pub record Shrunk (l : Layout) (s : Machine) (own : Roles) (pt n d top : ℕ) (t : Machine)
    : Type 0 where
  pub after : Roles
  pub left : List ℕ
  pub pages : Pages l t after left
  pub tables : (x r : ℕ) (path : List ℕ) → own x ≡ table r path → after x ≡ table r path
  pub roles :
      (x : ℕ) → holds_data (own x) ≡ true → ((k : ℕ) → n ≤ k → own x ≢ frame pt k) → after x ≡ own x
  pub bytes :
      (x : ℕ)
      → holds_data (own (page_of x)) ≡ true
      → ((k : ℕ) → n ≤ k → own (page_of x) ≢ frame pt k)
      → t.mem x ≡ s.mem x
  pub spaces :
      (r vb : ℕ)
      → own r ≡ table r []
      → vb < maxva
      → (r ≢ pt) ⊎ ((number vb < n) ⊎ (n + d ≤ number vb))
      → space t.mem r vb ≡ space s.mem r vb
  pub holds : Holds t after pt n top

pub entry_at-number : (s : Machine) (pt vb : ℕ) → space s.mem pt vb ≡ entry_at s pt (number vb)
entry_at-number s pt vb = view-number s.mem 2 pt vb (number vb * 4096) (omega arith) (omega arith)

pub le_or_lt : (a b : ℕ) → (a ≤ b) ⊎ (b < a)
le_or_lt a b = elim (Bool-cases (leb a b)) [
  | inl e ↦ inl (ground arith)
  | inr e ↦ inr (ground arith)
]

module _ {l : Layout} (is : IsLayout l) (pt n d top : ℕ) (s : Machine) (own : Roles) (ps : List ℕ)
    (fits : top * 4096 ≤ maxva) (low : n + d ≤ top) (p : Pages l s own ps)
    (root : own pt ≡ table pt []) (h : Holds s own pt (n + d) top) where
  holds-Leaves : Leaves s own pt (n * 4096) d true
  holds-Leaves vb below inside =
      let k = h.mapped (number vb) (omega (arith, covers-range (n * 4096) d vb inside)) in
      let e = entry_at-number s pt vb in (rw e k.0, rw e k.1, λ _. rw e k.2)

  module _ (t : Machine) (u : Unmaps l s own ps pt (n * 4096) d true t) where
    -- A page that does not serve as one of those given back is not on the list.
    stays : (x : ℕ) → own x ≢ free → ((k : ℕ) → n ≤ k → own x ≢ frame pt k) → has x u.left ≡ false
    stays x used apart = rw u.given (
        has-give_back_apart (space s.mem pt) (n * 4096) d x ps (not_listed l s own ps x p used)
          (λ k below z.
            let same : n * 4096 + k * 4096 ≡ (n + k) * 4096 = omega arith in
            apart (n + k) (omega arith)
              (ap own z ∙ rw same ((h.mapped (n + k) (omega (arith, below))).2))))

    goes : (k : ℕ) → n ≤ k → k < n + d → has (pte2pa (entry_at s pt k)) u.left ≡ true
    goes k from below =
        let same : n * 4096 + (k - n) * 4096 ≡ k * 4096 = omega (arith, from) in
        let there =
          has-give_back (space s.mem pt) (n * 4096) d (k - n) ps (omega (arith, from, below)) in
        rw u.given (rw same at there)

    kept_entry : (k : ℕ) → k < top → (k < n) ⊎ (n + d ≤ k) → entry_at t pt k ≡ entry_at s pt k
    kept_entry k below apart =
        u.spaces pt (k * 4096) root (omega (arith, fits, below))
        ∙ unmap_pages-apart pt (n * 4096) d (space s.mem) pt (k * 4096)
            (inr (elim apart [ inl b ↦ inl (omega arith) | inr b ↦ inr (omega (arith, b)) ]))

    Holds-after : Holds t u.after pt n top
    Holds-after = record {
      mapped = λ k below.
          let (valid, leaf_flags, memory) = h.mapped k (omega (arith, below)) in
          let e = kept_entry k (omega (arith, low, below)) (inl below) in
          (
            rw e valid,
            rw e leaf_flags,
            rw e (
                u.roles (pte2pa (entry_at s pt k)) (
                  stays (pte2pa (entry_at s pt k)) (λ z. cc (z, memory))
                    (λ j from z.
                      absurd (omega (arith, below, from, frame-number pt k j (sym memory ∙ z)))))
                ∙ memory),
          );
      only = λ x k e.
          let gone : has x u.left ≡ false = elim (Bool-cases (has x u.left)) [
            | inl there ↦ absurd (cc (u.pages.free x there, e))
            | inr gone ↦ gone
          ] in
          let (below, place) = h.only x k (sym (u.roles x gone) ∙ e) in
          elim (le_or_lt n k) [
            | inl from ↦ absurd (cc (goes k from below, ap (λ (y : ℕ). has y u.left) place, gone))
            | inr lower ↦ (lower, rw (kept_entry k (omega (arith, low, lower)) (inl lower)) place)
          ];
      empty = λ k from below. elim (le_or_lt (n + d) k) [
        | inl high ↦ kept_entry k below (inr high) ∙ h.empty k high below
        | inr lower ↦
            u.spaces pt (k * 4096) root (omega (arith, fits, below))
            ∙ unmap_pages-inside pt (n * 4096) d (space s.mem) (k * 4096) (omega (arith, from))
                (omega (arith, lower))
      ];
    }

    Shrunk-Unmaps : Shrunk l s own pt n d top t
    Shrunk-Unmaps = record {
      after = u.after;
      left = u.left;
      pages = u.pages;
      tables = λ x r path e. u.roles x (stays x (λ z. cc (z, e)) (λ k from z. cc (z, e))) ∙ e;
      roles = λ x used apart. u.roles x (stays x (data-ne-free (own x) used) apart);
      bytes = λ x used apart.
          u.bytes x (stays (page_of x) (data-ne-free (own (page_of x)) used) apart) used;
      spaces = λ r vb e below apart.
          u.spaces r vb e below
          ∙ unmap_pages-apart pt (n * 4096) d (space s.mem) r vb (elim apart [
            | inl other_space ↦ inl other_space
            | inr (inl b) ↦ inr (inl (omega (arith, b)))
            | inr (inr b) ↦ inr (inr (omega (arith, b)))
          ]);
      holds = Holds-after;
    }

  -- uvmunmap of the last `d` pages.
  pub uvmunmap-Shrunk :
      (t : Machine) × (uvmunmap l pt (n * 4096) d true s ≡ ok tt t) × Shrunk l s own pt n d top t
  uvmunmap-Shrunk =
      let (t, run, u) =
        uvmunmap-Unmaps is pt true d (n * 4096) s own ps (omega arith) (omega arith) p root
          holds-Leaves in
      (t, run, Shrunk-Unmaps t u)

-- Nothing to give back.
pub Shrunk-none :
    (l : Layout) (s : Machine) (own : Roles) (ps : List ℕ) (pt n top : ℕ)
    → Pages l s own ps
    → Holds s own pt n top
    → Shrunk l s own pt n 0 top s
Shrunk-none l s own ps pt n top p h = record {
  after = own;
  left = ps;
  pages = p;
  tables = λ x r path e. e;
  roles = λ x used apart. refl;
  bytes = λ x used apart. refl;
  spaces = λ r vb e below apart. refl;
  holds = h;
}
