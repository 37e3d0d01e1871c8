-- ===== src/Vm/Spaces/Unmap.antt =====
-- uvmunmap of vm.c among all address spaces, for any number of pages.
use lab_utilities.Base.{
  ℕ, zero, suc, ◌+◌, ◌*◌, ◌%◌, ◌<◌, ◌≤◌, ◌≡◌, ◌≢◌, inl, inr, refl, sym, ap, subst, ◌∙◌, Bool, true,
  false, ◌&&◌, arith, Bool-cases, List, [], ◌==◌, if◌then◌else◌, ==_ne, ==_refl, ltb, lt→ltb,
  le→ltb,
}
use lab_utilities.Memory.{load64, store64}
use lab_utilities.Riscv.{pgsize, u64, maxva, pte_v, flag_set, pte2pa, pte_flags}
use lab_utilities.Layout.{Layout, IsLayout}
use lab_utilities.Machine.{Machine, ok, when}
use lab_utilities.Kalloc.{kfree}
use lab_utilities.Kalloc.FreeList.{kfree-Frees}
use lab_utilities.Vm.Map.{uvmunmap, uvmunmap_loop}
use lab_utilities.Vm.Walk.{walk}
use lab_utilities.Vm.Walk.Descent.{slot, walk-descend}
use lab_utilities.Vm.Walk.Link.{page_of}
use lab_utilities.Vm.Spaces.{free, table, frame, Roles, set_role, bottom, space, Pages}
use lab_utilities.Vm.Spaces.Grow.{not_listed, table-ne-zero}
use lab_utilities.Vm.Spaces.Place.{number, view-there, view-bottom}
use lab_utilities.Vm.Spaces.Leaf.{Pages-written, space-written, bytes-written}
use lab_utilities.Vm.Spaces.Range.{
  covers_self, covers-next, covers-more, set_page, unmap_pages-suc, unmap_pages-at,
}
use lab_utilities.Vm.Spaces.Gone.{
  Between-freed, give, give_back, give_back-at, has-give, has-give_apart, Between, Between-kept,
  Leaves, Unmaps, Unmaps-none, OneGone,
}

pub frame-number : (r a b : ℕ) → frame r a ≡ frame r b → a ≡ b
frame-number r a b e = cc e

module _ {l : Layout} (is : IsLayout l) (pt : ℕ) (do_free : Bool) where
  -- The entry of a page cleared.
  OneGone-Between :
      (va : ℕ) (s t : Machine) (own own' : Roles) (ps : List ℕ)
      → va < maxva
      → own pt ≡ table pt []
      → bottom s.mem 2 pt va ≢ 0
      → Between l s own t own' (give do_free (pte2pa (space s.mem pt va)) ps)
      → OneGone l s own ps pt va do_free
          (record t { mem = store64 t.mem (slot 0 (bottom s.mem 2 pt va) va) 0 })
  OneGone-Between va s t own own' ps low root there b =
      let pos : bottom t.mem 2 pt va ≢ 0 = rw (b.bottoms pt va root) there in
      let root' = b.roots pt root in
      let left : List ℕ = give do_free (pte2pa (space s.mem pt va)) ps in
      subst
        (λ (f : ℕ).
          OneGone l s own ps pt va do_free (record t { mem = store64 t.mem (slot 0 f va) 0 }))
        (b.bottoms pt va root)
        (record {
          after = own';
          pages = Pages-written is t own' left pt va 0 b.pages root' low pos (omega arith);
          roles = b.roles;
          roots = b.roots;
          bytes = λ x h d.
              let e = b.roles (page_of x) h in
              bytes-written is t own' left pt va 0 b.pages root' low pos (omega arith) x (rw e d)
              ∙ b.bytes x h;
          spaces = λ r vb e below.
              space-written is t own' left pt va 0 b.pages root' low pos (omega arith) r vb
                (b.roots r e) below
              ∙ ap (λ (x : ℕ). if (r == pt) && (number vb == number va) then 0 else x)
                  (b.same r vb e);
        })

  Unmaps-more :
      (va n : ℕ) (s u t : Machine) (own : Roles) (ps : List ℕ)
      → va + suc n * 4096 ≤ maxva
      → own pt ≡ table pt []
      → (k : OneGone l s own ps pt va do_free u)
      → Unmaps l u k.after (give do_free (pte2pa (space s.mem pt va)) ps) pt (va + 4096) n do_free t
      → Unmaps l s own ps pt va (suc n) do_free t
  unfolding give_back
  Unmaps-more va n s u t own ps low root k w = record {
    after = w.after;
    left = w.left;
    given =
        w.given
        ∙ give_back-at do_free (space u.mem pt) (space s.mem pt) (va + 4096) n
            (give do_free (pte2pa (space s.mem pt va)) ps) (omega arith)
            (λ vb below inside.
              let ne : number vb ≢ number va = λ e. omega (arith, e, covers-next va n vb inside) in
              k.spaces pt vb root below ∙ rw (==_refl pt, ==_ne (number vb) (number va) ne));
    pages = w.pages;
    more = λ x h. has-give do_free (pte2pa (space s.mem pt va)) x ps (w.more x h);
    roles = λ x h. w.roles x h ∙ k.roles x (w.more x h);
    bytes = λ x h d.
        let e = k.roles (page_of x) (w.more (page_of x) h) in
        w.bytes x h (rw e d) ∙ k.bytes x (w.more (page_of x) h) d;
    spaces = λ r vb root' below.
        w.spaces r vb (k.roots r root') below
        ∙ unmap_pages-at pt (va + 4096) n (space u.mem) (set_page pt va 0 (space s.mem)) r vb
            (k.spaces r vb root' below)
        ∙ unmap_pages-suc pt va n (space s.mem) r vb;
  }

  Leaves-next :
      (va n : ℕ) (s u : Machine) (own : Roles) (ps : List ℕ)
      → Pages l s own ps
      → own pt ≡ table pt []
      → va < maxva
      → Leaves s own pt va (suc n) do_free
      → (k : OneGone l s own ps pt va do_free u) → Leaves u k.after pt (va + 4096) n do_free
  Leaves-next va n s u own ps p root low leaves k = λ vb below inside.
      let (valid, leaf_flags, memory) = leaves vb below (covers-more va n vb inside) in
      let ne : number vb ≢ number va = λ e. omega (arith, e, covers-next va n vb inside) in
      let same : space u.mem pt vb ≡ space s.mem pt vb =
        k.spaces pt vb root below ∙ rw (==_refl pt, ==_ne (number vb) (number va) ne) in
      (
        rw same valid,
        rw same leaf_flags,
        λ e.
            let mine = leaves va low (covers_self va n) in
            let apart : do_free ≡ true → pte2pa (space s.mem pt vb) ≢ pte2pa (space s.mem pt va) =
              λ e' z. ne (
                frame-number pt (number vb) (number va) (sym (memory e') ∙ ap own z ∙ mine.2 e')) in
            rw same (
              k.roles (pte2pa (space s.mem pt vb)) (
                has-give_apart do_free (pte2pa (space s.mem pt va)) (pte2pa (space s.mem pt vb)) ps
                  apart
                  (not_listed l s own ps (pte2pa (space s.mem pt vb)) p (λ z. cc (z, memory e))))
              ∙ memory e),
      )

  -- The memory of a page given back, or not.
  freed_first :
      (va : ℕ) (s : Machine) (own : Roles) (ps : List ℕ)
      → Pages l s own ps
      → (do_free ≡ true → own (pte2pa (space s.mem pt va)) ≡ frame pt (number va))
      → (t : Machine) × (own' : Roles) × (when do_free (kfree l (pte2pa (space s.mem pt va))) s
          ≡ ok tt t)
        × Between l s own t own' (give do_free (pte2pa (space s.mem pt va)) ps)
  freed_first va s own ps p memory = elim (Bool-cases do_free) [
    | inr keep ↦ rw keep (s, own, refl, Between-kept l s own ps p)
    | inl give_it ↦
        let pa : ℕ = pte2pa (space s.mem pt va) in
        let role = memory give_it in
        let (t, run, f) =
          kfree-Frees is s pa ps (p.pages pa (λ z. cc (z, role))) p.chain
            (not_listed l s own ps pa p (λ z. cc (z, role))) in
        rw give_it
          (t, set_role own pa free, run, Between-freed is s t own ps pa pt (number va) p role f)
  ]

  loop_page :
      (n va va' stop f : ℕ) (s t : Machine)
      → ltb va stop ≡ true
      → walk pt va false s ≡ ok (slot 0 f va) s
      → slot 0 f va ≢ 0
      → flag_set pte_v (load64 s.mem (slot 0 f va)) ≡ true
      → pte_flags (load64 s.mem (slot 0 f va)) ≢ pte_v
      → when do_free (kfree l (pte2pa (load64 s.mem (slot 0 f va)))) s ≡ ok tt t
      → u64 (va + pgsize) ≡ va'
      → uvmunmap_loop l (suc n) pt va stop do_free s
        ≡ uvmunmap_loop l n pt va' stop do_free (record t { mem = store64 t.mem (slot 0 f va) 0 })
  unfolding uvmunmap_loop
  loop_page n va va' stop f s t before found ne valid leaf_flags freed next = rw (
    before,
    found,
    ==_ne (slot 0 f va) 0 ne,
    valid,
    ==_ne (pte_flags (load64 s.mem (slot 0 f va))) pte_v leaf_flags,
    freed,
    next,
  )

  loop_end : (n stop : ℕ) (s : Machine) → uvmunmap_loop l (suc n) pt stop stop do_free s ≡ ok tt s
  unfolding uvmunmap_loop
  loop_end n stop s = rw (le→ltb stop stop (omega arith))

  uvmunmap_loop-Unmaps :
      (n va stop : ℕ) (s : Machine) (own : Roles) (ps : List ℕ)
      → stop ≡ va + n * 4096
      → va % 4096 ≡ 0
      → stop ≤ maxva
      → Pages l s own ps
      → own pt ≡ table pt []
      → Leaves s own pt va n do_free
      → (t : Machine) × (uvmunmap_loop l (n + 1) pt va stop do_free s ≡ ok tt t)
        × Unmaps l s own ps pt va n do_free t
  uvmunmap_loop-Unmaps zero va stop s own ps end al low p root leaves =
      let here : va ≡ stop = omega arith in
      (s, rw here (loop_end 0 stop s), Unmaps-none l s own ps pt va do_free p)
  uvmunmap_loop-Unmaps (suc n) va stop s own ps end al low p root leaves =
      let below : va < maxva = omega arith in
      let (valid, leaf_flags, memory) = leaves va below (covers_self va n) in
      let f : ℕ = bottom s.mem 2 pt va in
      let (there, found) =
        view-there own s.mem 2 pt [] pt va
          (λ y r' path' e. table-ne-zero is s own ps y r' path' p e) root (p.spaces pt root)
          valid in
      let entry : load64 s.mem (slot 0 f va) ≡ space s.mem pt va =
        sym (view-bottom s.mem 2 pt va there) in
      let (t1, own1, freed, b) = freed_first va s own ps p memory in
      let u : Machine = record t1 { mem = store64 t1.mem (slot 0 f va) 0 } in
      let k = OneGone-Between va s t1 own own1 ps below root there b in
      let (t, rest, w) =
        uvmunmap_loop-Unmaps n (va + 4096) stop u k.after
          (give do_free (pte2pa (space s.mem pt va)) ps) (omega arith) (omega arith) low k.pages
          (k.roots pt root) (Leaves-next va n s u own ps p root below leaves k) in
      let rounds : suc n + 1 ≡ suc (n + 1) = omega arith in
      (
        t,
        ap (λ (m : ℕ). uvmunmap_loop l m pt va stop do_free s) rounds
            ∙ loop_page (n + 1) va (va + 4096) stop f s t1 (lt→ltb va stop (omega arith))
                (walk-descend pt va s below ∙ ap (λ (x : ℕ). ok x s) found) (omega (arith, there))
                (rw entry valid) (rw entry leaf_flags) (rw entry freed) (omega arith)
            ∙ rest,
        Unmaps-more va n s u t own ps (omega arith) root k w,
      )

  -- uvmunmap of `n` pages of the space `pt`, each of them mapped by a leaf entry, returns, and leaves a
  -- state in which the kernel's pages still serve one purpose each. Seen as functions from addresses
  -- to entries, the space `pt` has no entry for these pages and is otherwise as before; every other
  -- space is as before. With `do_free`, where the entries lead to memory of that space, the free list
  -- is what it was with these pages of memory in front; without, it is the same.
  pub uvmunmap-Unmaps :
      (n va : ℕ) (s : Machine) (own : Roles) (ps : List ℕ)
      → va % 4096 ≡ 0
      → va + n * 4096 ≤ maxva
      → Pages l s own ps
      → own pt ≡ table pt []
      → Leaves s own pt va n do_free
      → (t : Machine) × (uvmunmap l pt va n do_free s ≡ ok tt t)
        × Unmaps l s own ps pt va n do_free t
  unfolding uvmunmap
  uvmunmap-Unmaps n va s own ps al low p root leaves =
      let stop : u64 (va + n * pgsize) ≡ va + n * 4096 = omega arith in
      rw (al, stop) (uvmunmap_loop-Unmaps n va (va + n * 4096) s own ps refl al low p root leaves)
