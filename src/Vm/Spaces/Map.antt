-- ===== src/Vm/Spaces/Map.antt =====
-- mappages of vm.c among all address spaces, for any number of pages.
use lab_utilities.Base.{
  ℕ, zero, suc, ◌+◌, ◌-◌, ◌*◌, ◌/◌, ◌%◌, ◌^◌, ◌<◌, ◌≤◌, ◌≡◌, ◌≢◌, inl, inr, refl, sym, ap, ◌∙◌,
  true, false, ◌&&◌, arith, List, [], ◌==◌, if◌then◌else◌, ==_ne, ==_refl,
}
use lab_utilities.Memory.{load64, store64}
use lab_utilities.Riscv.{pgsize, u64, maxva, pte_v, flag_set}
use lab_utilities.Riscv.Entries.{leaf, leaf-lt}
use lab_utilities.Layout.{Layout, IsLayout}
use lab_utilities.Machine.{Machine, pure, Outcome, ok}
use lab_utilities.Vm.Map.{Status, done, failed, mappages, mappages_loop}
use lab_utilities.Vm.Walk.{walk}
use lab_utilities.Vm.Walk.Descent.{slot}
use lab_utilities.Vm.Walk.Link.{page_of}
use lab_utilities.Vm.Spaces.{table, Roles, bottom, route, space, Pages}
use lab_utilities.Vm.Spaces.Grow.{table-ne-zero, table-ne-free, data-ne-free}
use lab_utilities.Vm.Spaces.Walk.{Reached, walk-grows}
use lab_utilities.Vm.Spaces.Place.{number, view-bottom}
use lab_utilities.Vm.Spaces.Leaf.{Pages-written, space-written, bytes-written}
use lab_utilities.Vm.Spaces.Range.{covers_self, covers, covers-next, covers-suc}
use lab_utilities.Vm.Spaces.Rows.{Maps, OnePage, Maps-null, Maps-one, Maps-more}

module _ {l : Layout} (is : IsLayout l) (pt perm : ℕ) (flags : perm < 1024) where
  -- What the loop does at one page whose entry is not valid.
  mapped_page :
      (va pa pte : ℕ) (s t : Machine) (own : Roles) (ps : List ℕ)
      → va < maxva
      → pa < 2 ^ 56
      → own pt ≡ table pt []
      → (w : Reached l s own 2 pt va pt [] ps pte t)
      → w.after (bottom t.mem 2 pt va) ≡ table pt (route 2 va [])
      → OnePage l s own pt va pa perm ps
          (record t { mem = store64 t.mem (slot 0 (bottom t.mem 2 pt va) va) (leaf pa perm) })
  mapped_page va pa pte s t own ps low fits root w here =
      let root' = w.grown.roles pt (table-ne-free (own pt) pt [] root) ∙ root in
      let pos =
        table-ne-zero is t w.after w.left (bottom t.mem 2 pt va) pt (route 2 va []) w.grown.pages
          here in
      let small : leaf pa perm < 2 ^ 64 = omega (arith, leaf-lt pa perm fits flags) in
      record {
        after = w.after;
        left = w.left;
        pages =
            Pages-written is t w.after w.left pt va (leaf pa perm) w.grown.pages root' low pos
              small;
        roles = w.grown.roles;
        kept = w.grown.kept;
        supply = w.supply;
        bytes = λ x h.
            let e = w.grown.roles (page_of x) (data-ne-free (own (page_of x)) h) in
            bytes-written is t w.after w.left pt va (leaf pa perm) w.grown.pages root' low pos small
              x (rw e h)
            ∙ w.grown.bytes x h;
        spaces = λ r vb e low'.
            let e' = w.grown.roles r (table-ne-free (own r) r [] e) ∙ e in
            space-written is t w.after w.left pt va (leaf pa perm) w.grown.pages root' low pos small
              r vb e' low'
            ∙ ap (λ (x : ℕ). if (r == pt) && (number vb == number va) then leaf pa perm else x)
                (w.grown.same r vb e);
      }

  -- The pages from `va` on are not mapped.
  abbrev pub Unmapped : Machine → ℕ → ℕ → Type 0
  Unmapped s va n =
      (vb : ℕ) → vb < maxva → covers va n vb ≡ true → flag_set pte_v (space s.mem pt vb) ≡ false

  Unmapped-next :
      (va n pa : ℕ) (s u : Machine) (own : Roles) (ps : List ℕ)
      → own pt ≡ table pt []
      → OnePage l s own pt va pa perm ps u
      → Unmapped s va (suc n)
      → Unmapped u (va + 4096) n
  Unmapped-next va n pa s u own ps root k unmapped vb low inside =
      let ne : number vb ≢ number va = λ e. omega (arith, e, covers-next va n vb inside) in
      rw (k.spaces pt vb root low, ==_refl pt, ==_ne (number vb) (number va) ne)
        (unmapped vb low (rw (covers-suc va n vb, ==_ne (number vb) (number va) ne) inside))

  abbrev pub MapsTo :
      (run : Machine → Outcome Machine Status) → Machine → Roles → List ℕ → ℕ → ℕ → ℕ → Type 0
  MapsTo run s own ps va n pa =
      (result : Status) × (t : Machine) × (run s ≡ ok result t)
      × Maps l s own pt va n pa perm ps result t

  loop_null :
      (n va last pa : ℕ) (s t : Machine)
      → walk pt va true s ≡ ok 0 t
      → mappages_loop (suc n) pt va last pa perm s ≡ ok failed t
  unfolding mappages_loop
  loop_null n va last pa s t run = rw run

  loop_page :
      (n va last pa slot : ℕ) (s t : Machine)
      → walk pt va true s ≡ ok slot t
      → slot ≢ 0
      → flag_set pte_v (load64 t.mem slot) ≡ false
      → mappages_loop (suc n) pt va last pa perm s
        ≡ (if va == last
              then pure done
              else mappages_loop n pt (u64 (va + pgsize)) last (u64 (pa + pgsize)) perm)
            (record t { mem = store64 t.mem slot (leaf pa perm) })
  unfolding mappages_loop
  loop_page n va last pa slot s t run ne invalid = rw (run, ==_ne slot 0 ne, invalid)

  loop_next :
      (n va va' last pa pa' slot : ℕ) (s t t' : Machine) (result : Status)
      → walk pt va true s ≡ ok slot t
      → slot ≢ 0
      → flag_set pte_v (load64 t.mem slot) ≡ false
      → va ≢ last
      → u64 (va + pgsize) ≡ va'
      → u64 (pa + pgsize) ≡ pa'
      → mappages_loop n pt va' last pa' perm (record t { mem = store64 t.mem slot (leaf pa perm) })
        ≡ ok result t'
      → mappages_loop (suc n) pt va last pa perm s ≡ ok result t'
  loop_next n va va' last pa pa' slot s t t' result run ne invalid more next next' rest =
      loop_page n va last pa slot s t run ne invalid ∙ rw (==_ne va last more, next, next') rest

  -- The first page of the loop: the free list is used up, or the page is mapped and the rest goes on.
  loop_start :
      (n va last pa : ℕ) (s : Machine) (own : Roles) (ps : List ℕ)
      → va < maxva
      → pa < 2 ^ 56
      → Pages l s own ps
      → own pt ≡ table pt []
      → flag_set pte_v (space s.mem pt va) ≡ false
      → ((slot : ℕ) (t : Machine)
          → walk pt va true s ≡ ok slot t
          → slot ≢ 0
          → flag_set pte_v (load64 t.mem slot) ≡ false
          → OnePage l s own pt va pa perm ps (record t { mem = store64 t.mem slot (leaf pa perm) })
          → MapsTo (mappages_loop (suc n) pt va last pa perm) s own ps va (suc n) pa)
      → MapsTo (mappages_loop (suc n) pt va last pa perm) s own ps va (suc n) pa
  loop_start n va last pa s own ps low fits p root invalid rest =
      let (pte, t, run, w) = walk-grows is pt va s own ps low p root in
      elim w.found [
        | inl (null, none_left) ↦ (
          failed,
          t,
          loop_null n va last pa s t (rw null at run),
          Maps-null l s t own pt va (suc n) pa perm pte ps w (omega arith) none_left,
        )
        | inr (place, here) ↦
            let f : ℕ = bottom t.mem 2 pt va in
            let pos = table-ne-zero is t w.after w.left f pt (route 2 va []) w.grown.pages here in
            let entry : load64 t.mem (slot 0 f va) ≡ space s.mem pt va =
              sym (view-bottom t.mem 2 pt va pos) ∙ w.grown.same pt va root in
            rest (slot 0 f va) t (rw place at run) (omega (arith, pos)) (rw entry invalid)
              (mapped_page va pa pte s t own ps low fits root w here)
      ]

  mappages_loop-Maps :
      (n va last pa : ℕ) (s : Machine) (own : Roles) (ps : List ℕ)
      → last ≡ va + n * 4096
      → va % 4096 ≡ 0
      → last < maxva
      → pa + suc n * 4096 ≤ 2 ^ 56
      → Pages l s own ps
      → own pt ≡ table pt []
      → Unmapped s va (suc n)
      → MapsTo (mappages_loop (suc n) pt va last pa perm) s own ps va (suc n) pa
  mappages_loop-Maps zero va last pa s own ps end al low fits p root unmapped =
      let one : va ≡ last = omega arith in
      loop_start 0 va last pa s own ps (omega arith) (omega arith) p root
        (unmapped va (omega arith) (covers_self va 0))
        (λ slot t run ne invalid k. (
          done,
          record t { mem = store64 t.mem slot (leaf pa perm) },
          loop_page 0 va last pa slot s t run ne invalid ∙ rw (one, ==_refl last),
          Maps-one l s (record t { mem = store64 t.mem slot (leaf pa perm) }) own pt va pa perm ps
              k,
        ))
  mappages_loop-Maps (suc n) va last pa s own ps end al low fits p root unmapped =
      loop_start (suc n) va last pa s own ps (omega arith) (omega arith) p root
        (unmapped va (omega arith) (covers_self va (suc n)))
        (λ slot t run ne invalid k.
          let u : Machine = record t { mem = store64 t.mem slot (leaf pa perm) } in
          let (result, t', rest, w) =
            mappages_loop-Maps n (va + 4096) last (pa + 4096) u k.after k.left (omega arith)
              (omega arith) low (omega arith) k.pages
              (k.roles pt (table-ne-free (own pt) pt [] root) ∙ root)
              (Unmapped-next va (suc n) pa s u own ps root k unmapped) in
          (
            result,
            t',
            loop_next (suc n) va (va + 4096) last pa (pa + 4096) slot s t t' result run ne invalid
                (omega arith) (omega arith) (omega arith) rest,
            Maps-more l s u t' own pt va (suc n) pa perm ps result k w,
          ))

  -- mappages of `n` pages of the space `pt`, where none of them is mapped, returns, and leaves a state
  -- in which the kernel's pages still serve one purpose each. Seen as functions from addresses to
  -- entries, the space `pt` has the pages mapped to the memory from `pa` on with the permissions
  -- asked for, and is otherwise as before; every other space is as before. It is done when all of
  -- them are mapped; otherwise it fails, the free list is used up, and only the first ones are mapped.
  -- It takes at most two pages from the free list for each page that it is to map.
  pub mappages-Maps :
      (n va pa : ℕ) (s : Machine) (own : Roles) (ps : List ℕ)
      → 0 < n
      → va % 4096 ≡ 0
      → va + n * 4096 ≤ maxva
      → pa + n * 4096 ≤ 2 ^ 56
      → Pages l s own ps
      → own pt ≡ table pt []
      → Unmapped s va n
      → MapsTo (mappages pt va (n * 4096) pa perm) s own ps va n pa
  unfolding mappages
  mappages-Maps zero va pa s own ps pos al low fits p root unmapped = elim pos [ ]
  mappages-Maps (suc k) va pa s own ps pos al low fits p root unmapped =
      let whole : (suc k * 4096) % 4096 ≡ 0 = omega arith in
      let some_pages : suc k * 4096 ≢ 0 = omega arith in
      let rounds : suc k * 4096 / 4096 ≡ suc k = omega arith in
      let last : u64 (va + suc k * 4096 + 2 ^ 64 - pgsize) ≡ va + k * 4096 = omega arith in
      rw (al, whole, ==_ne (suc k * 4096) 0 some_pages, rounds, last)
        (mappages_loop-Maps k va (va + k * 4096) pa s own ps refl al (omega arith) fits p root
          unmapped)
