-- ===== src/Vm/Spaces/Alloc.antt =====
-- uvmalloc of vm.c: the memory of a process made larger, or left as it was.
use lab_utilities.Base.{
  ℕ, zero, suc, ◌+◌, ◌-◌, ◌*◌, ◌/◌, ◌<◌, ◌≤◌, ◌≡◌, ◌⊎◌, inl, inr, sym, subst, false, arith, List,
  [], ◌∷◌, length, ap, ◌==◌, min, bit_or, lt→ltb, le→ltb,
}
use lab_utilities.Memory.{fill}
use lab_utilities.Memory.Laws.{fill-SameOutside, fill-inside}
use lab_utilities.Riscv.{pgsize, u64, maxva, pte_r, pte_u}
use lab_utilities.Layout.{Layout, IsLayout}
use lab_utilities.Machine.{Machine, Outcome, ok}
use lab_utilities.Kalloc.{kalloc, kfree}
use lab_utilities.Kalloc.FreeList.{Chain, kalloc-Allocates, page-ne-zero}
use lab_utilities.Vm.Map.{done, failed, mappages}
use lab_utilities.Vm.Space.{uvmalloc, uvmalloc_loop, uvmdealloc}
use lab_utilities.Vm.Spaces.{table, Roles, Pages}
use lab_utilities.Vm.Spaces.Size.{Holds, Shrunk}
use lab_utilities.Vm.Spaces.Dealloc.{pages_of, round_up_pages, uvmdealloc-Shrunk}
use lab_utilities.Vm.Spaces.Extend.{Grew, Grew-refl, Grew-Shrunk}
use lab_utilities.Vm.Spaces.Step.{list-cases, Grew-null, page-Steps}

-- the permissions of the pages that uvmalloc maps
abbrev pub perm_of : ℕ → ℕ
perm_of xperm = bit_or (bit_or pte_r pte_u) xperm

abbrev pub perms : ℕ → ℕ → ℕ
perms xperm k = perm_of xperm

-- a page of zeros
abbrev pub zeros : ℕ → ℕ → ℕ
zeros k x = 0

module _ (l : Layout) (pt old newsz xperm : ℕ) where
  loop_done :
      (fuel a : ℕ) (t : Machine)
      → newsz ≤ a
      → uvmalloc_loop l (suc fuel) pt a old newsz xperm t ≡ ok newsz t
  unfolding uvmalloc_loop
  loop_done fuel a t h = rw (le→ltb a newsz h)

  loop_null :
      (fuel a x : ℕ) (t t1 v : Machine)
      → a < newsz
      → kalloc t ≡ ok 0 t1
      → uvmdealloc l pt a old t1 ≡ ok x v
      → uvmalloc_loop l (suc fuel) pt a old newsz xperm t ≡ ok 0 v
  unfolding uvmalloc_loop
  loop_null fuel a x t t1 v h run undo = rw (lt→ltb a newsz h, run, undo)

  loop_failed :
      (fuel a q x : ℕ) (t t1 u v w : Machine)
      → a < newsz
      → kalloc t ≡ ok q t1
      → (q == 0) ≡ false
      → mappages pt a pgsize q (perm_of xperm) (record t1 { mem = fill t1.mem q 0 pgsize })
        ≡ ok failed u
      → kfree l q u ≡ ok tt v
      → uvmdealloc l pt a old v ≡ ok x w
      → uvmalloc_loop l (suc fuel) pt a old newsz xperm t ≡ ok 0 w
  unfolding uvmalloc_loop
  loop_failed fuel a q x t t1 u v w h run ne mapped freed undo =
      rw (lt→ltb a newsz h, run, ne, mapped, freed, undo)

  loop_more :
      (fuel a a' q : ℕ) (t t1 u : Machine)
      → a < newsz
      → kalloc t ≡ ok q t1
      → (q == 0) ≡ false
      → mappages pt a pgsize q (perm_of xperm) (record t1 { mem = fill t1.mem q 0 pgsize })
        ≡ ok done u
      → u64 (a + pgsize) ≡ a'
      → uvmalloc_loop l (suc fuel) pt a old newsz xperm t
        ≡ uvmalloc_loop l fuel pt a' old newsz xperm u
  unfolding uvmalloc_loop
  loop_more fuel a a' q t t1 u h run ne mapped next = rw (lt→ltb a newsz h, run, ne, mapped, next)

module _ {l : Layout} (is : IsLayout l) (pt n0 newsz xperm top : ℕ) (s : Machine) (own : Roles)
    (flags : perm_of xperm < 1024) (leaf_flags : 2 ≤ perm_of xperm) (fits : top * 4096 ≤ maxva)
    (low : newsz ≤ top * 4096) (start : n0 ≤ top) (root : own pt ≡ table pt [])
    (h : Holds s own pt n0 top) (all : List ℕ) where
  -- All that was gained given back.
  undo :
      (n : ℕ) (t : Machine)
      → n0 ≤ n
      → n ≤ top
      → Grew l s own pt (perms xperm) zeros n0 n top t
      → (x : ℕ) × (u : Machine) × (uvmdealloc l pt (n * 4096) (n0 * 4096) t ≡ ok x u)
        × Grew l s own pt (perms xperm) zeros n0 n0 top u
  undo n t from below g =
      let all : pages_of (n * 4096) ≡ n = omega arith in
      let (u, run, k) =
        uvmdealloc-Shrunk is pt (n * 4096) (n0 * 4096) top t g.after g.left fits
          (omega (arith, below)) g.pages (g.tables pt pt [] root) (rw all g.holds) in
      let whole : n0 + (n - n0) ≡ n = omega (arith, from) in
      let first : pages_of (min (n * 4096) (n0 * 4096)) ≡ n0 = omega (arith, from) in
      (
        min (n * 4096) (n0 * 4096),
        u,
        run,
        Grew-Shrunk l s t u own pt (perms xperm) zeros n0 n (pages_of (n * 4096) - n0) top h
            (omega (arith, from)) below g
            (subst (λ (j : ℕ). Shrunk l t g.after pt j (pages_of (n * 4096) - j) top u) first k),
      )

  -- Where uvmalloc ends, from a state in which the pages before `a` are there: `all` are the pages that
  -- were free at the start.
  abbrev Ends : Outcome Machine ℕ → Type 0
  Ends run =
      (t : Machine) × (((run ≡ ok newsz t)
          × Grew l s own pt (perms xperm) zeros n0 (pages_of newsz) top t)
        ⊎ ((run ≡ ok 0 t)
            × Grew l s own pt (perms xperm) zeros n0 n0 top t
            × (length all ≤ 3 * (pages_of newsz - n0))))

  -- No page is left.
  Ends-null :
      (fuel n : ℕ) (t : Machine)
      → n0 ≤ n
      → n * 4096 < newsz
      → (g : Grew l s own pt (perms xperm) zeros n0 n top t) → g.left ≡ []
      → length all ≤ length g.left + 3 * (n - n0)
      → Ends (uvmalloc_loop l (suc fuel) pt (n * 4096) (n0 * 4096) newsz xperm t)
  Ends-null fuel n t from less g none supply =
      let room : n < top = omega (arith, less, low) in
      let (t1, run, g1) =
        Grew-null is pt (perms xperm) zeros n0 top s own fits root h n t from room g none in
      let (x, u, undone, g') = undo n t1 from (omega (arith, room)) g1 in
      (
        u,
        inr (
          loop_null l pt (n0 * 4096) newsz xperm fuel (n * 4096) x t t1 u less run undone,
          g',
          omega (arith, supply, ap length none, less, from),
        ),
      )

  -- A page is taken, and mapped or given back.
  Ends-page :
      (fuel n q : ℕ) (ps : List ℕ) (t : Machine)
      → n0 ≤ n
      → n * 4096 < newsz
      → (g : Grew l s own pt (perms xperm) zeros n0 n top t) → g.left ≡ q ∷ ps
      → length all ≤ length g.left + 3 * (n - n0)
      → ((u : Machine) (g' : Grew l s own pt (perms xperm) zeros n0 (suc n) top u)
          → length all ≤ length g'.left + 3 * (suc n - n0)
          → Ends (uvmalloc_loop l fuel pt (suc n * 4096) (n0 * 4096) newsz xperm u))
      → Ends (uvmalloc_loop l (suc fuel) pt (n * 4096) (n0 * 4096) newsz xperm t)
  Ends-page fuel n q ps t from less g list supply rest =
      let room : n < top = omega (arith, less, low) in
      let chain = subst (λ (xs : List ℕ). Chain l t.mem t.freelist xs) list g.pages.chain in
      let page = chain.1 in
      let (t1, run, a) = kalloc-Allocates is t q ps chain in
      let (u, steps) =
        page-Steps is pt (perms xperm) zeros n0 top s own fits root h n t from room g flags
          leaf_flags q ps t1 list run a (fill t1.mem q 0 4096) (fill-SameOutside t1.mem q 0 4096)
          (λ x here. fill-inside t1.mem q 0 4096 x (omega (arith, here)) (omega (arith, here))) in
      elim steps [
        | inl (mapped, (g', taken)) ↦
            let next : u64 (n * 4096 + pgsize) ≡ suc n * 4096 = omega (arith, room, fits) in
            subst Ends
              (sym (
                loop_more l pt (n0 * 4096) newsz xperm fuel (n * 4096) (suc n * 4096) q t t1 u less
                  run (page-ne-zero is q page) mapped next))
              (rest u g' (omega (arith, supply, taken, ap length list, from)))
        | inr (mapped, few, (v, freed, g1)) ↦
            let (x, w, undone, g') = undo n v from (omega (arith, room)) g1 in
            (
              w,
              inr (
                loop_failed l pt (n0 * 4096) newsz xperm fuel (n * 4096) q x t t1 u v w less run
                    (page-ne-zero is q page) mapped freed undone,
                g',
                omega (arith, supply, few, ap length list, from, less),
              ),
            )
      ]

  uvmalloc_loop-Ends :
      (fuel c n : ℕ) (t : Machine)
      → c < fuel
      → n0 ≤ n
      → n + c ≡ pages_of newsz
      → (g : Grew l s own pt (perms xperm) zeros n0 n top t)
      → length all ≤ length g.left + 3 * (n - n0)
      → Ends (uvmalloc_loop l fuel pt (n * 4096) (n0 * 4096) newsz xperm t)
  uvmalloc_loop-Ends zero c n t enough from total g supply = absurd (omega (arith, enough))
  uvmalloc_loop-Ends (suc fuel) zero n t enough from total g supply =
      let last : n ≡ pages_of newsz = omega (arith, total) in
      (
        t,
        inl (
          loop_done l pt (n0 * 4096) newsz xperm fuel (n * 4096) t (omega (arith, last)),
          subst (λ (j : ℕ). Grew l s own pt (perms xperm) zeros n0 j top t) last g,
        ),
      )
  uvmalloc_loop-Ends (suc fuel) (suc c) n t enough from total g supply =
      let less : n * 4096 < newsz = omega (arith, total) in
      elim (list-cases g.left) [
        | inl none ↦ Ends-null fuel n t from less g none supply
        | inr (q, ps, list) ↦ Ends-page fuel n q ps t from less g list supply (λ u g' supply'.
            uvmalloc_loop-Ends fuel c (suc n) u (omega (arith, enough)) (omega (arith, from))
              (omega (arith, total)) g' supply')
      ]

module _ {l : Layout} (is : IsLayout l) (pt oldsz newsz xperm top : ℕ) (s : Machine) (own : Roles)
    (ps : List ℕ) (flags : perm_of xperm < 1024) (leaf_flags : 2 ≤ perm_of xperm)
    (fits : top * 4096 ≤ maxva) (low : newsz ≤ top * 4096) (more : oldsz ≤ newsz)
    (p : Pages l s own ps) (root : own pt ≡ table pt [])
    (h : Holds s own pt (pages_of oldsz) top) where
  -- uvmalloc from `oldsz` up to `newsz`, of a space that holds `oldsz` bytes, returns. Either it returns
  -- `newsz`, and the space holds as many bytes: the new pages lead to memory of their own, filled with
  -- zeros, with the permissions asked for, and every other entry of every space and all other memory
  -- is as before. Or it returns 0, every entry of every space and all memory in use is as before, and
  -- there were at most three free pages for each new one: itself, and the tables on the way to it.
  pub uvmalloc-Grew :
      (t : Machine) × (((uvmalloc l pt oldsz newsz xperm s ≡ ok newsz t)
          × Grew l s own pt (perms xperm) zeros (pages_of oldsz) (pages_of newsz) top t)
        ⊎ ((uvmalloc l pt oldsz newsz xperm s ≡ ok 0 t)
            × Grew l s own pt (perms xperm) zeros (pages_of oldsz) (pages_of oldsz) top t
            × (length ps ≤ 3 * (pages_of newsz - pages_of oldsz))))
  unfolding uvmalloc
  uvmalloc-Grew =
      let (g, all_left) = Grew-refl l s own ps pt (perms xperm) zeros (pages_of oldsz) top p h in
      rw (le→ltb newsz oldsz more, round_up_pages oldsz (omega (arith, low, fits, more)))
        (uvmalloc_loop-Ends is pt (pages_of oldsz) newsz xperm top s own flags leaf_flags fits low
          (omega (arith, low, more)) root h ps (newsz / pgsize + 2)
          (pages_of newsz - pages_of oldsz) (pages_of oldsz) s (omega arith) (omega arith)
          (omega (arith, more)) g (omega (arith, ap length all_left)))
