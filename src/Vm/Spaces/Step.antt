-- ===== src/Vm/Spaces/Step.antt =====
-- One page more for a space: taken from the free list, filled, and mapped or given back. uvmalloc and
-- uvmcopy of vm.c share these steps.
use lab_utilities.Base.{
  ℕ, suc, ◌+◌, length, ◌*◌, ◌%◌, ◌<◌, ◌≤◌, ◌≡◌, ◌⊎◌, inl, inr, refl, ap, subst, ◌∙◌, arith, List,
  [], ◌∷◌, ==_ne,
}
use lab_utilities.Memory.{Mem}
use lab_utilities.Memory.Laws.{SameOutside}
use lab_utilities.Riscv.{maxva, pte_v, flag_set}
use lab_utilities.Layout.{Layout, IsLayout}
use lab_utilities.Machine.{Machine, ok, acquired, released, kmem}
use lab_utilities.Kalloc.{kalloc, kfree}
use lab_utilities.Kalloc.FreeList.{Allocates, IsPage, Chain, Chain-frame, kalloc-null, kfree-Frees}
use lab_utilities.Vm.Walk.Link.{page_of}
use lab_utilities.Vm.Map.{Status, done, failed, mappages}
use lab_utilities.Vm.Spaces.{table, frame, Roles, space, Pages}
use lab_utilities.Vm.Spaces.Grow.{not_listed}
use lab_utilities.Vm.Spaces.Place.{number}
use lab_utilities.Vm.Spaces.Range.{covers-range}
use lab_utilities.Vm.Spaces.Rows.{Maps}
use lab_utilities.Vm.Spaces.Map.{mappages-Maps}
use lab_utilities.Vm.Spaces.Size.{entry_at, entry_at-number, Holds}
use lab_utilities.Vm.Spaces.Extend.{Grew}
use lab_utilities.Vm.Spaces.OnePage.{
  Grew-page, own2, Pages-page, page-role, root_page, used, space_page, bytes_page,
}
use lab_utilities.Vm.Spaces.Restore.{Quiet, Grew-Quiet, Quiet-released}

-- The list is used up, or it has a first page.
pub list-cases : (xs : List ℕ) → (xs ≡ []) ⊎ ((q : ℕ) × (ps : List ℕ) × (xs ≡ q ∷ ps))
list-cases [] = inl refl
list-cases (q ∷ ps) = inr (q, ps, refl)

module _ {l : Layout} (is : IsLayout l) (pt : ℕ) (perm : ℕ → ℕ) (byte : ℕ → ℕ → ℕ) (n0 top : ℕ)
    (s : Machine) (own : Roles) (fits : top * 4096 ≤ maxva) (root : own pt ≡ table pt [])
    (h : Holds s own pt n0 top) (n : ℕ) (t : Machine) (from : n0 ≤ n) (room : n < top)
    (g : Grew l s own pt perm byte n0 n top t) where
  -- No page is left: only the lock has been used.
  pub Grew-null :
      g.left ≡ [] → (t1 : Machine) × (kalloc t ≡ ok 0 t1) × Grew l s own pt perm byte n0 n top t1
  Grew-null none =
      let t1 : Machine = record t { trace = released kmem ∷ acquired kmem ∷ t.trace } in
      let quiet : Quiet l t g.after t1 = record {
        after = g.after;
        left = g.left;
        pages = record {
          chain = g.pages.chain;
          free = g.pages.free;
          pages = g.pages.pages;
          spaces = g.pages.spaces;
        };
        tables = λ x r path e. e;
        roles = λ x d. refl;
        kept = λ x d. refl;
        bytes = λ x d. refl;
        spaces = λ r vb e below. refl;
      } in
      (
        t1,
        kalloc-null is t (subst (λ (xs : List ℕ). Chain l t.mem t.freelist xs) none g.pages.chain),
        Grew-Quiet l s t t1 own pt perm byte n0 n top fits (omega arith) root g quiet,
      )

  module _ (flags : perm n < 1024) (leaf_flags : 2 ≤ perm n) (q : ℕ) (ps : List ℕ) (t1 : Machine)
      (list : g.left ≡ q ∷ ps) (run : kalloc t ≡ ok q t1) (a : Allocates is t q ps t1) (m2 : Mem)
      (touched : SameOutside q 4096 t1.mem m2)
      (filled : (x : ℕ) → page_of x ≡ q → m2 x ≡ byte n (x % 4096)) where
    abbrev t2 : Machine
    t2 = record t1 { mem = m2 }

    before : Pages l t g.after (q ∷ ps)
    before = subst (λ (xs : List ℕ). Pages l t g.after xs) list g.pages

    pub page : IsPage l q
    page = before.chain.1

    chain : Chain l t2.mem t2.freelist ps
    chain = Chain-frame is t1.mem t2.mem q t1.freelist ps page.0 before.chain.2 touched a.chain

    same : SameOutside q 4096 t.mem t2.mem
    same x away = touched x away ∙ a.same x away

    abbrev own_page : Roles
    own_page =
        own2 is s t t2 own pt perm byte n0 n top q ps flags leaf_flags from room fits root h g list
          chain same filled

    -- The page is mapped, with at most two pages taken for tables, or no page is left for them, and it
    -- is freed and everything is as before.
    abbrev pub Steps : Type 0
    Steps =
        (u : Machine) × (((mappages pt (n * 4096) (1 * 4096) q (perm n) t2 ≡ ok done u)
            × ((g' : Grew l s own pt perm byte n0 (suc n) top u) × (length ps
                  ≤ length g'.left + 2)))
          ⊎ ((mappages pt (n * 4096) (1 * 4096) q (perm n) t2 ≡ ok failed u)
              × (length ps ≤ 2)
              × ((v : Machine) × (kfree l q u ≡ ok tt v) × Grew l s own pt perm byte n0 n top v)))

    mapped-Steps :
        (result : Status) (u : Machine)
        → mappages pt (n * 4096) (1 * 4096) q (perm n) t2 ≡ ok result u
        → Maps l t2 own_page pt (n * 4096) 1 q (perm n) ps result u
        → Steps
    mapped-Steps done u mapped m =
        let all : m.count ≡ 1 = elim m.outcome [
          | inl (_, all) ↦ all
          | inr (e, _, _) ↦ absurd (cc e)
        ] in
        let (g', left) =
          Grew-page is s t t2 own pt perm byte n0 n top q ps flags leaf_flags from room fits root h
            g list chain same filled u m all in
        (u, inl (mapped, (g', omega (arith, m.supply, ap length left))))
    mapped-Steps failed u mapped m =
        let (none, used_up) : (m.count ≡ 0) × (m.left ≡ []) = elim m.outcome [
          | inl (e, _) ↦ absurd (cc e)
          | inr (_, few, used_up) ↦ (omega (arith, few), used_up)
        ] in
        let role =
          page-role is s t t2 own pt perm byte n0 n top q ps flags leaf_flags from room fits root h
            g list chain same filled in
        let role' : m.after q ≡ frame pt n = m.roles q (λ z. cc (z, role)) ∙ role in
        let (v, freed, f) =
          kfree-Frees is u q m.left page m.pages.chain
            (not_listed l u m.after m.left q m.pages (λ z. cc (z, role'))) in
        let quiet : Quiet l t g.after v =
          Quiet-released is t u v g.after own_page pt n (perm n) (n * 4096) q
            (before.free q (ground arith)) role
            (used is s t t2 own pt perm byte n0 n top q ps flags leaf_flags from room fits root h g
              list chain same filled)
            (λ x ne. rw (==_ne q x ne)) t2 ps
            (λ r vb e.
              space_page is s t t2 own pt perm byte n0 n top q ps flags leaf_flags from room fits
                root h g list chain same filled r vb e)
            (bytes_page is s t t2 own pt perm byte n0 n top q ps flags leaf_flags from room fits
              root h g list chain same filled)
            m none f in
        (
          u,
          inr (
            mapped,
            omega (arith, m.supply, ap length used_up),
            (
              v,
              freed,
              Grew-Quiet l s t v own pt perm byte n0 n top fits (omega arith) root g quiet,
            ),
          ),
        )

    pub page-Steps : Steps
    page-Steps =
        let (result, u, mapped, m) =
          mappages-Maps is pt (perm n) flags 1 (n * 4096) q t2 own_page ps (omega arith)
            (omega arith) (omega arith) (omega (arith, page, is.small))
            (Pages-page is s t t2 own pt perm byte n0 n top q ps flags leaf_flags from room fits
              root h g list chain same filled)
            (root_page is s t t2 own pt perm byte n0 n top q ps flags leaf_flags from room fits root
              h g list chain same filled)
            (λ vb below inside.
              let here : number vb ≡ n = omega (arith, covers-range (n * 4096) 1 vb inside) in
              let e : space t2.mem pt vb ≡ 0 =
                space_page is s t t2 own pt perm byte n0 n top q ps flags leaf_flags from room fits
                  root h g list chain same filled pt vb (g.tables pt pt [] root)
                ∙ entry_at-number t pt vb
                ∙ ap (entry_at t pt) here
                ∙ g.holds.empty n (omega arith) room in
              ap (flag_set pte_v) e) in
        mapped-Steps result u mapped m
