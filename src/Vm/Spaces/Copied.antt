-- ===== src/Vm/Spaces/Copied.antt =====
-- uvmcopy of vm.c: the memory of a process copied for its child.
use lab_utilities.Base.{
  length, ℕ, zero, suc, ◌+◌, ◌*◌, ◌/◌, ◌%◌, ◌<◌, ◌≤◌, ◌≡◌, ◌≢◌, ◌⊎◌, inl, inr, sym, ap, subst, ◌∙◌,
  true, arith, List, [], ◌∷◌, ==_ne,
}
use lab_utilities.Memory.{move}
use lab_utilities.Memory.Laws.{move-SameOutside, move-inside}
use lab_utilities.Riscv.{pgsize, u64, maxva, pte_v, flag_set, pte2pa, pte_flags}
use lab_utilities.Base.Bits.{bit_and-pow}
use lab_utilities.Riscv.Rounding.{pte_flags_lem}
use lab_utilities.Riscv.Entries.{pte2pa-aligned}
use lab_utilities.Vm.Walk.Descent.{slot, walk-descend}
use lab_utilities.Layout.{Layout, IsLayout}
use lab_utilities.Machine.{Machine, Outcome, ok}
use lab_utilities.Kalloc.FreeList.{Allocates, IsPage, kalloc-Allocates, page-ne-zero}
use lab_utilities.Vm.Walk.Link.{page_of}
use lab_utilities.Vm.Map.{Status, done, failed, uvmunmap}
use lab_utilities.Vm.Space.{uvmcopy, uvmcopy_loop}
use lab_utilities.Vm.Spaces.{free, table, frame, Roles, bottom, Pages}
use lab_utilities.Vm.Spaces.Grow.{table-ne-zero, holds_data}
use lab_utilities.Vm.Spaces.Place.{view-there, view-bottom}
use lab_utilities.Vm.Spaces.Size.{entry_at, Holds, uvmunmap-Shrunk}
use lab_utilities.Vm.Spaces.Dealloc.{pages_of}
use lab_utilities.Vm.Spaces.Extend.{Grew, Grew-refl, Grew-Shrunk}
use lab_utilities.Vm.Spaces.Step.{list-cases, Grew-null, page-Steps}
use lab_utilities.Vm.Spaces.CopyRounds.{Finds, loop_done, loop_null, loop_failed, loop_more}

-- the flags of a page of the old space, and its bytes
abbrev pub flags_in : Machine → ℕ → ℕ → ℕ
flags_in s old k = pte_flags (entry_at s old k)

abbrev pub byte_in : Machine → ℕ → ℕ → ℕ → ℕ
byte_in s old k o = s.mem (pte2pa (entry_at s old k) + o)

-- The flags of a leaf are more than V.
leaf_flags-le : (e : ℕ) → flag_set pte_v e ≡ true → pte_flags e ≢ pte_v → 2 ≤ pte_flags e
leaf_flags-le e valid leaf_flags = ground (arith, bit_and-pow 0 e, pte_flags_lem e)

module _ {l : Layout} (is : IsLayout l) (old new sz top : ℕ) (s : Machine) (own : Roles)
    (ps : List ℕ) (fits : top * 4096 ≤ maxva) (low : sz ≤ top * 4096) (apart : old ≢ new)
    (p : Pages l s own ps) (root : own old ≡ table old []) (root_new : own new ≡ table new [])
    (h : Holds s own old (pages_of sz) top) (h_new : Holds s own new 0 top) where
  undo :
      (n : ℕ) (t : Machine)
      → n ≤ top
      → Grew l s own new (flags_in s old) (byte_in s old) 0 n top t
      → (u : Machine) × (uvmunmap l new 0 (n * 4096 / pgsize) true t ≡ ok tt u)
        × Grew l s own new (flags_in s old) (byte_in s old) 0 0 top u
  undo n t below g =
      let count : n * 4096 / pgsize ≡ n = omega arith in
      let whole : 0 + n ≡ n = omega arith in
      let (u, run, k) =
        uvmunmap-Shrunk is new 0 n top t g.after g.left fits (omega (arith, below)) g.pages
          (g.tables new new [] root_new) (rw whole g.holds) in
      (
        u,
        ap (λ (m : ℕ). uvmunmap l new 0 m true t) count ∙ run,
        Grew-Shrunk l s t u own new (flags_in s old) (byte_in s old) 0 n n top h_new whole below g
            k,
      )

  abbrev pub Ends : Outcome Machine Status → Type 0
  Ends run =
      (t : Machine) × (((run ≡ ok done t)
          × Grew l s own new (flags_in s old) (byte_in s old) 0 (pages_of sz) top t)
        ⊎ ((run ≡ ok failed t)
            × Grew l s own new (flags_in s old) (byte_in s old) 0 0 top t
            × (length ps ≤ 3 * pages_of sz)))

  module _ (fuel n : ℕ) (t : Machine) (less : n * 4096 < sz)
      (g : Grew l s own new (flags_in s old) (byte_in s old) 0 n top t)
      (supply : length ps ≤ length g.left + 3 * n) where
    room : n < top
    room = omega (arith, less, low)

    abbrev entry : ℕ
    entry = entry_at s old n

    mapped_old :
        (flag_set pte_v entry ≡ true)
        × (pte_flags entry ≢ pte_v)
        × (own (pte2pa entry) ≡ frame old n)
    mapped_old = h.mapped n (omega (arith, less))

    -- The entry of the old space is as it was.
    found : (slot' : ℕ) × Finds l old new sz t (n * 4096) slot' entry
    found =
        let root' = g.tables old old [] root in
        let same : entry_at t old n ≡ entry =
          g.spaces old (n * 4096) root (omega (arith, room, fits)) (inl apart) in
        let (there, way) =
          view-there g.after t.mem 2 old [] old (n * 4096)
            (λ y r' path' e. table-ne-zero is t g.after g.left y r' path' g.pages e) root'
            (g.pages.spaces old root') (rw same mapped_old.0) in
        let f : ℕ = bottom t.mem 2 old (n * 4096) in
        (
          slot 0 f (n * 4096),
          (
            walk-descend old (n * 4096) t (omega (arith, room, fits)) ∙ ap (λ (x : ℕ). ok x t) way,
            ==_ne (slot 0 f (n * 4096)) 0 (omega (arith, there)),
            sym (view-bottom t.mem 2 old (n * 4096) there) ∙ same,
            mapped_old.0,
          ),
        )

    Ends-null : g.left ≡ [] → Ends (uvmcopy_loop l (suc fuel) old new (n * 4096) sz t)
    Ends-null none =
        let (slot', finds) = found in
        let (t1, run, g1) =
          Grew-null is new (flags_in s old) (byte_in s old) 0 top s own fits root_new h_new n t
            (omega arith) room g none in
        let (u, undone, g') = undo n t1 (omega (arith, room)) g1 in
        (
          u,
          inr (
            loop_null l old new sz fuel (n * 4096) slot' entry t t1 u less finds run undone,
            g',
            omega (arith, supply, ap length none, less),
          ),
        )

    -- The copy of the page.
    copied :
        (q : ℕ) (qs : List ℕ) (t1 : Machine)
        → IsPage l q
        → g.after q ≡ free
        → Allocates is t q qs t1
        → (x : ℕ) → page_of x ≡ q
        → move t1.mem q (pte2pa entry) 4096 x ≡ byte_in s old n (x % 4096)
    copied q qs t1 page unused a x here =
        let pa : ℕ = pte2pa entry in
        let o : ℕ = x % 4096 in
        let place : x ≡ q + o = omega (arith, here, page) in
        let inside : o < 4096 = omega arith in
        let al = pte2pa-aligned entry in
        let source : page_of (pa + o) ≡ pa = omega (arith, al, inside) in
        let held : holds_data (own (page_of (pa + o))) ≡ true =
          ap holds_data (ap own source ∙ mapped_old.2) in
        let used : g.after pa ≡ frame old n =
          g.roles pa (ap holds_data mapped_old.2) ∙ mapped_old.2 in
        let other_page : pa ≢ q = λ e. cc (ap g.after e, unused, used) in
        ap (move t1.mem q pa 4096) place
        ∙ move-inside t1.mem q pa 4096 o inside
        ∙ a.same (pa + o) (omega (arith, other_page, al, page, inside))
        ∙ g.bytes (pa + o) held

    Ends-page :
        (q : ℕ) (qs : List ℕ)
        → g.left ≡ q ∷ qs
        → ((u : Machine) (g' : Grew l s own new (flags_in s old) (byte_in s old) 0 (suc n) top u)
            → length ps ≤ length g'.left + 3 * suc n
            → Ends (uvmcopy_loop l fuel old new (suc n * 4096) sz u))
        → Ends (uvmcopy_loop l (suc fuel) old new (n * 4096) sz t)
    Ends-page q qs list rest =
        let pages : Pages l t g.after (q ∷ qs) =
          subst (λ (xs : List ℕ). Pages l t g.after xs) list g.pages in
        let page = pages.chain.1 in
        let (slot', finds) = found in
        let (t1, run, a) = kalloc-Allocates is t q qs pages.chain in
        let flags : flags_in s old n < 1024 = omega (arith, pte_flags_lem entry) in
        let (u, steps) =
          page-Steps is new (flags_in s old) (byte_in s old) 0 top s own fits root_new h_new n t
            (omega arith) room g flags (leaf_flags-le entry mapped_old.0 mapped_old.1) q qs t1 list
            run a (move t1.mem q (pte2pa entry) 4096)
            (move-SameOutside t1.mem q (pte2pa entry) 4096)
            (copied q qs t1 page (pages.free q (ground arith)) a) in
        elim steps [
          | inl (mapped, (g', taken)) ↦
              let next : u64 (n * 4096 + pgsize) ≡ suc n * 4096 = omega (arith, room, fits) in
              subst Ends
                (sym (
                  loop_more l old new sz fuel (n * 4096) (suc n * 4096) slot' entry q t t1 u less
                    finds run (page-ne-zero is q page) mapped next))
                (rest u g' (omega (arith, supply, taken, ap length list)))
          | inr (mapped, few, (v, freed, g1)) ↦
              let (w, undone, g') = undo n v (omega (arith, room)) g1 in
              (
                w,
                inr (
                  loop_failed l old new sz fuel (n * 4096) slot' entry q t t1 u v w less finds run
                      (page-ne-zero is q page) mapped freed undone,
                  g',
                  omega (arith, supply, few, ap length list, less),
                ),
              )
        ]

  uvmcopy_loop-Ends :
      (fuel c n : ℕ) (t : Machine)
      → c < fuel
      → n + c ≡ pages_of sz
      → (g : Grew l s own new (flags_in s old) (byte_in s old) 0 n top t)
      → length ps ≤ length g.left + 3 * n
      → Ends (uvmcopy_loop l fuel old new (n * 4096) sz t)
  uvmcopy_loop-Ends zero c n t enough total g supply = absurd (omega (arith, enough))
  uvmcopy_loop-Ends (suc fuel) zero n t enough total g supply =
      let all : n ≡ pages_of sz = omega (arith, total) in
      (
        t,
        inl (
          loop_done l old new sz fuel (n * 4096) t (omega (arith, all)),
          subst (λ (j : ℕ). Grew l s own new (flags_in s old) (byte_in s old) 0 j top t) all g,
        ),
      )
  uvmcopy_loop-Ends (suc fuel) (suc c) n t enough total g supply =
      let less : n * 4096 < sz = omega (arith, total) in
      elim (list-cases g.left) [
        | inl none ↦ Ends-null fuel n t less g supply none
        | inr (q, qs, list) ↦ Ends-page fuel n t less g supply q qs list (λ u g' supply'.
            uvmcopy_loop-Ends fuel c (suc n) u (omega (arith, enough)) (omega (arith, total)) g'
              supply')
      ]

  -- uvmcopy of `sz` bytes from a space that holds them to an empty one returns. Either it is done, and
  -- the new space holds as many bytes: every page leads to memory of its own, with the bytes and the
  -- flags that the page has in the old space, which keeps its memory and its entries, as every other
  -- space does. Or it fails, every entry of every space and all memory in use is as before, and there
  -- were at most three free pages for each page to copy.
  pub uvmcopy-Grew :
      (t : Machine) × (((uvmcopy l old new sz s ≡ ok done t)
          × Grew l s own new (flags_in s old) (byte_in s old) 0 (pages_of sz) top t)
        ⊎ ((uvmcopy l old new sz s ≡ ok failed t)
            × Grew l s own new (flags_in s old) (byte_in s old) 0 0 top t
            × (length ps ≤ 3 * pages_of sz)))
  unfolding uvmcopy
  uvmcopy-Grew =
      let (g, all_left) = Grew-refl l s own ps new (flags_in s old) (byte_in s old) 0 top p h_new in
      uvmcopy_loop-Ends (sz / pgsize + 2) (pages_of sz) 0 s (omega arith) (omega arith) g
        (omega (arith, ap length all_left))
