-- ===== src/Vm/Spaces/OnePage.antt =====
-- A page taken from the free list and mapped: the space has one page more.
use lab_utilities.Base.{
  ℕ, suc, ◌*◌, ◌%◌, ◌^◌, ◌<◌, ◌≤◌, ◌≡◌, ◌≢◌, ◌⊎◌, inl, inr, refl, sym, ap, subst, ◌∙◌, true, arith,
  List, [], ◌∷◌, ==_ne, ℕ_discrete,
}
use lab_utilities.Riscv.{maxva, pte2pa}
use lab_utilities.Riscv.Entries.{leaf, leaf-valid, pte2pa-leaf, pte_flags-leaf}
use lab_utilities.Layout.{Layout, IsLayout}
use lab_utilities.Machine.{Machine}
use lab_utilities.Kalloc.FreeList.{IsPage, Chain}
use lab_utilities.Memory.Laws.{SameOutside}
use lab_utilities.Vm.Walk.Link.{page_of}
use lab_utilities.Vm.Map.{done}
use lab_utilities.Vm.Spaces.{free, table, frame, Roles, set_role, space, Pages}
use lab_utilities.Vm.Spaces.Grow.{holds_data, data-ne-free}
use lab_utilities.Vm.Spaces.Place.{number}
use lab_utilities.Vm.Spaces.Rows.{Maps}
use lab_utilities.Vm.Spaces.Range.{map_pages, map_pages-apart, map_pages-here}
use lab_utilities.Vm.Spaces.Size.{le_or_lt, entry_at, Holds}
use lab_utilities.Vm.Spaces.Unmap.{frame-number}
use lab_utilities.Vm.Spaces.Take.{Pages-taken, taken-role, used-kept, space-taken, bytes-taken}
use lab_utilities.Vm.Spaces.Extend.{Grew}

-- The roles of the pages after the page `q` has become the page `n` of the space.
abbrev taken_roles : Roles → ℕ → ℕ → ℕ → Roles
taken_roles own q pt n = set_role own q (frame pt n)

module _ {l : Layout} (is : IsLayout l) (s t t2 : Machine) (own : Roles) (pt : ℕ) (perm : ℕ → ℕ)
    (byte : ℕ → ℕ → ℕ) (n0 n top q : ℕ) (ps : List ℕ) (flags : perm n < 1024)
    (leaf_flags : 2 ≤ perm n) (from : n0 ≤ n) (low : n < top) (fits : top * 4096 ≤ maxva)
    (root : own pt ≡ table pt []) (h : Holds s own pt n0 top)
    (g : Grew l s own pt perm byte n0 n top t) (list : g.left ≡ q ∷ ps)
    (chain : Chain l t2.mem t2.freelist ps) (same : SameOutside q 4096 t.mem t2.mem)
    (filled : (x : ℕ) → page_of x ≡ q → t2.mem x ≡ byte n (x % 4096)) where
  before : Pages l t g.after (q ∷ ps)
  before = subst (λ (xs : List ℕ). Pages l t g.after xs) list g.pages

  abbrev pub own2 : Roles
  own2 = taken_roles g.after q pt n

  pub Pages-page : Pages l t2 own2 ps
  Pages-page = Pages-taken is t t2 g.after q ps pt n before chain same

  pub page-role : own2 q ≡ frame pt n
  page-role = taken-role is t t2 g.after q ps pt n before chain same

  pub used : (x : ℕ) → g.after x ≢ free → own2 x ≡ g.after x
  used = used-kept is t t2 g.after q ps pt n before chain same

  tables_page : (x r : ℕ) (path : List ℕ) → own x ≡ table r path → own2 x ≡ table r path
  tables_page x r path e = let e' = g.tables x r path e in used x (λ z. cc (z, e')) ∙ e'

  pub root_page : own2 pt ≡ table pt []
  root_page = tables_page pt pt [] root

  pub space_page : (r vb : ℕ) → g.after r ≡ table r [] → space t2.mem r vb ≡ space t.mem r vb
  space_page = space-taken is t t2 g.after q ps pt n before chain same

  pub bytes_page : (x : ℕ) → holds_data (g.after (page_of x)) ≡ true → t2.mem x ≡ t.mem x
  bytes_page = bytes-taken is t t2 g.after q ps pt n before chain same

  q-IsPage : IsPage l q
  q-IsPage = before.chain.1

  small : q < 2 ^ 56
  small = omega (arith, q-IsPage, is.small)

  -- The page is mapped.
  module _ (u : Machine) (m : Maps l t2 own2 pt (n * 4096) 1 q (perm n) ps done u)
      (all : m.count ≡ 1) where
    row :
        (r vb : ℕ)
        → own r ≡ table r []
        → vb < maxva
        → space u.mem r vb ≡ map_pages pt (n * 4096) 1 q (perm n) (space t2.mem) r vb
    row r vb e below =
        subst
          (λ (c : ℕ). space u.mem r vb ≡ map_pages pt (n * 4096) c q (perm n) (space t2.mem) r vb)
          all (m.spaces r vb (tables_page r r [] e) below)

    entry_new : entry_at u pt n ≡ leaf q (perm n)
    entry_new =
        row pt (n * 4096) root (omega arith)
        ∙ map_pages-here pt (n * 4096) q (perm n) (space t2.mem)

    space_old :
        (r vb : ℕ)
        → own r ≡ table r []
        → vb < maxva
        → (r ≢ pt) ⊎ ((number vb < n) ⊎ (n < number vb))
        → space u.mem r vb ≡ space t.mem r vb
    space_old r vb e below apart =
        row r vb e below
        ∙ map_pages-apart pt (n * 4096) 1 q (perm n) (space t2.mem) r vb (elim apart [
          | inl other_space ↦ inl other_space
          | inr (inl b) ↦ inr (inl (omega (arith, b)))
          | inr (inr b) ↦ inr (inr (omega (arith, b)))
        ])
        ∙ space_page r vb (g.tables r r [] e)

    entry_old : (k : ℕ) → k < top → k ≢ n → entry_at u pt k ≡ entry_at t pt k
    entry_old k below ne = space_old pt (k * 4096) root (omega (arith, fits, below)) (
        inr (elim (le_or_lt k n) [
          | inl b ↦ inl (omega (arith, b, ne))
          | inr b ↦ inr (omega (arith, b))
        ]))

    role_old : (x : ℕ) → holds_data (g.after x) ≡ true → m.after x ≡ g.after x
    role_old x d =
        let e = used x (data-ne-free (g.after x) d) in
        m.roles x (λ z. data-ne-free (g.after x) d (sym e ∙ z)) ∙ e

    role_new : m.after q ≡ frame pt n
    role_new = m.roles q (λ z. cc (z, page-role)) ∙ page-role

    target : pte2pa (entry_at u pt n) ≡ q
    target = ap pte2pa entry_new ∙ pte2pa-leaf q (perm n) small flags ∙ omega (arith, q-IsPage)

    Holds-page : Holds u m.after pt (suc n) top
    Holds-page = record {
      mapped = λ k below. elim (ℕ_discrete k n) [
        | yes e ↦ rw e (
          rw entry_new (leaf-valid q (perm n) small flags),
          rw entry_new (omega (arith, pte_flags-leaf q (perm n) small flags)),
          rw target role_new,
        )
        | no ne ↦
            let (valid, flags', memory) = g.holds.mapped k (omega (arith, below, ne)) in
            let e = entry_old k (omega (arith, below)) ne in
            (
              rw e valid,
              rw e flags',
              rw e (role_old (pte2pa (entry_at t pt k)) (ap holds_data memory) ∙ memory),
            )
      ];
      only = λ x k e.
          let e2 : own2 x ≡ frame pt k = m.kept x (ap holds_data e) ∙ e in
          elim (ℕ_discrete q x) [
            | yes here ↦
                let same_number = frame-number pt n k (sym page-role ∙ ap own2 here ∙ e2) in
                (
                  omega (arith, same_number),
                  sym here ∙ sym target ∙ ap (λ (j : ℕ). pte2pa (entry_at u pt j)) same_number,
                )
            | no away ↦
                let (below, place) = g.holds.only x k (sym (rw (==_ne q x away)) ∙ e2) in
                (
                  omega (arith, below),
                  rw (entry_old k (omega (arith, low, below)) (omega (arith, below))) place,
                )
          ];
      empty = λ k above below.
          entry_old k below (omega (arith, above)) ∙ g.holds.empty k (omega (arith, above)) below;
    }

    bytes_old : (x : ℕ) → holds_data (g.after (page_of x)) ≡ true → u.mem x ≡ t.mem x
    bytes_old x d =
        let e = used (page_of x) (data-ne-free (g.after (page_of x)) d) in
        m.bytes x (ap holds_data e ∙ d) ∙ bytes_page x d

    filled_new : (x : ℕ) → page_of x ≡ q → u.mem x ≡ byte n (x % 4096)
    filled_new x e = m.bytes x (ap holds_data (ap own2 e ∙ page-role)) ∙ filled x e

    pub Grew-page : (g' : Grew l s own pt perm byte n0 (suc n) top u) × (g'.left ≡ m.left)
    Grew-page = (
      record {
        after = m.after;
        left = m.left;
        pages = m.pages;
        tables = λ x r path e. let e2 = tables_page x r path e in m.roles x (λ z. cc (z, e2)) ∙ e2;
        roles = λ x d. let e = g.roles x d in role_old x (rw e d) ∙ e;
        bytes = λ x d. let e = g.roles (page_of x) d in bytes_old x (rw e d) ∙ g.bytes x d;
        spaces = λ r vb e below apart.
            space_old r vb e below (elim apart [
              | inl other_space ↦ inl other_space
              | inr (inl b) ↦ inr (inl (omega (arith, from, b)))
              | inr (inr b) ↦ inr (inr (omega (arith, b)))
            ])
            ∙ g.spaces r vb e below (elim apart [
              | inl other_space ↦ inl other_space
              | inr (inl b) ↦ inr (inl b)
              | inr (inr b) ↦ inr (inr (omega (arith, b)))
            ]);
        holds = Holds-page;
        fresh = λ k above below. elim (ℕ_discrete k n) [
          | yes e ↦ rw e (rw target entry_new, λ x here. filled_new x (here ∙ target))
          | no ne ↦
              let (entry, zeroed) = g.fresh k above (omega (arith, below, ne)) in
              let (_, _, memory) = g.holds.mapped k (omega (arith, below, ne)) in
              let e = entry_old k (omega (arith, below, low)) ne in
              (
                rw e entry,
                λ x here.
                    let here' : page_of x ≡ pte2pa (entry_at t pt k) = rw e at here in
                    bytes_old x (ap holds_data (ap g.after here' ∙ memory)) ∙ zeroed x here',
              )
        ];
      },
      refl,
    )
