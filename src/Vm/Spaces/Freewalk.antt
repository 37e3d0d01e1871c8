-- ===== src/Vm/Spaces/Freewalk.antt =====
-- freewalk of vm.c: every page table of a space goes back to the free list.
use lab_utilities.Base.{
  ℕ, zero, suc, ◌+◌, ◌*◌, ◌<◌, ◌≤◌, ◌≡◌, ◌≢◌, ◌⊎◌, inl, inr, refl, sym, ap, subst, ◌∙◌, Bool-cases,
  true, false, arith, List, ◌∷◌, bit_and, bit_or, ◌==◌, ==_refl, ℕ_discrete,
}
use lab_utilities.Riscv.{pte_v, pte_r, pte_w, pte_x, flag_set}
use lab_utilities.Memory.{store64}
use lab_utilities.Layout.{Layout, IsLayout}
use lab_utilities.Machine.{Machine, Cmd, ok}
use lab_utilities.Kalloc.{kfree}
use lab_utilities.Kalloc.FreeList.{kfree-Frees}
use lab_utilities.Vm.Space.{freewalk_loop, freewalk_depth}
use lab_utilities.Vm.Walk.Link.{page_of}
use lab_utilities.Vm.Spaces.{free, table, Roles, set_role, entry_in, Under}
use lab_utilities.Vm.Spaces.Below.{Within, Within-refl, Within-length, Within-up, NoLeaf, Below}
use lab_utilities.Vm.Spaces.Clearing.{
  Rest, Clears, x-IsPage, x-unlisted, Rest-entry, entry_cleared, Rest-freed, kept_role, freed_role,
  table-path,
}
use lab_utilities.Vm.Spaces.Rounds.{
  PathFrom, TableFrom, child, ClearsFrom, ClearsAll, Ready, Ready-next, ClearsFrom-next, role_kept,
}

-- Nothing is below entries that are all invalid.
loop_invalid :
    (f : ℕ → Cmd Machine (Unit {0})) (n i x : ℕ) (s : Machine)
    → ((j : ℕ) → i ≤ j → j < i + n → flag_set pte_v (entry_in s.mem x j) ≡ false)
    → freewalk_loop f n i x s ≡ ok tt s
unfolding freewalk_loop
loop_invalid f zero i x s h = refl
loop_invalid f (suc n) i x s h = rw (h i (omega arith) (omega arith)) (
    loop_invalid f n (i + 1) x s (λ j from below. h j (omega (arith, from)) (omega (arith, below))))

loop_skips :
    (f : ℕ → Cmd Machine (Unit {0})) (n i x : ℕ) (s : Machine)
    → flag_set pte_v (entry_in s.mem x i) ≡ false
    → freewalk_loop f (suc n) i x s ≡ freewalk_loop f n (i + 1) x s
unfolding freewalk_loop
loop_skips f n i x s h = rw h

loop_frees :
    (f : ℕ → Cmd Machine (Unit {0})) (n i x : ℕ) (s t : Machine)
    → flag_set pte_v (entry_in s.mem x i) ≡ true
    → (bit_and (entry_in s.mem x i) (bit_or (bit_or pte_r pte_w) pte_x) == 0) ≡ true
    → f (child s x i) s ≡ ok tt t
    → freewalk_loop f (suc n) i x s
      ≡ freewalk_loop f n (i + 1) x (record t { mem = store64 t.mem (x + 8 * i) 0 })
unfolding freewalk_loop
loop_frees f n i x s t h inner run = rw (h, inner, run)

module _ {l : Layout} (is : IsLayout l) (r : ℕ) where
  -- A call at a table of a level.
  abbrev pub Calls : ℕ → Type 0
  Calls level =
      (x : ℕ) (path : List ℕ) (s : Machine) (own : Roles) (ps : List ℕ)
      → Rest l s own ps r
      → own x ≡ table r path
      → Under own s.mem level r path x
      → NoLeaf s.mem level x
      → (t : Machine) × (freewalk_depth l (suc level) x s ≡ ok tt t)
        × ClearsAll l s own ps r path level x t

  -- Nothing is below an entry that is invalid.
  ClearsFrom-skip :
      (k i x : ℕ) (path : List ℕ) (s : Machine) (own : Roles) (ps : List ℕ) (t : Machine)
      → flag_set pte_v (entry_in s.mem x i) ≡ false
      → ClearsFrom l s own ps r path k x (suc i) t
      → ClearsFrom l s own ps r path k x i t
  ClearsFrom-skip k i x path s own ps t invalid w = record {
    after = w.after;
    left = w.left;
    rest = w.rest;
    roles = λ y. elim (w.roles y) [
      | inl same ↦ inl same
      | inr (e, (q, e', (j, from, here))) ↦ inr (e, (q, e', (j, omega (arith, from), here)))
    ];
    bytes = w.bytes;
    more = w.more;
    freed = λ y (j, from, jlow, h, below).
        let ne : j ≢ i = λ e. cc (invalid, h, e) in
        w.freed y (j, omega (arith, from, ne), jlow, h, below);
  }

  loop-ClearsFrom :
      (k : ℕ)
      → Calls k
      → (n i x : ℕ) (path : List ℕ) (s : Machine) (own : Roles) (ps : List ℕ) → i + n ≡ 512
      → Rest l s own ps r
      → own x ≡ table r path
      → Ready s own r path k x i
      → (t : Machine) × (freewalk_loop (freewalk_depth l (suc k)) n i x s ≡ ok tt t)
        × ClearsFrom l s own ps r path k x i t
  unfolding freewalk_loop
  loop-ClearsFrom k call zero i x path s own ps whole p role ready = (
    s,
    refl,
    record {
      after = own;
      left = ps;
      rest = p;
      roles = λ y. inl refl;
      bytes = λ a used ne. refl;
      more = λ y h. h;
      freed = λ y (j, from, jlow, _, _). absurd (omega (arith, from, jlow, whole));
    },
  )
  loop-ClearsFrom k call (suc n) i x path s own ps whole p role ready =
      let low : i < 512 = omega (arith, whole) in
      let next : i + 1 ≡ suc i = omega arith in
      let whole' : suc i + n ≡ 512 = omega (arith, whole) in
      elim (Bool-cases (flag_set pte_v (entry_in s.mem x i))) [
        | inr invalid ↦
            let (t, run, w) =
              loop-ClearsFrom k call n (suc i) x path s own ps whole' p role (record {
                under = λ j from jlow h. ready.under j (omega (arith, from)) jlow h;
                inner = λ j from jlow h. ready.inner j (omega (arith, from)) jlow h;
              }) in
            (
              t,
              loop_skips (freewalk_depth l (suc k)) n i x s invalid
                  ∙ ap (λ (m : ℕ). freewalk_loop (freewalk_depth l (suc k)) n m x s) next
                  ∙ run,
              ClearsFrom-skip k i x path s own ps t invalid w,
            )
        | inl valid ↦
            let (role', under') = ready.under i (omega arith) low valid in
            let (inner, no_leaf) = ready.inner i (omega arith) low valid in
            let (t1, run1, c) = call (child s x i) (i ∷ path) s own ps p role' under' no_leaf in
            let role1 = role_kept is s t1 own ps r x path k i p role low valid ready c in
            let t2 : Machine = entry_cleared is t1 c.after c.left r x path c.rest role1 i low in
            let (t, run, w) =
              loop-ClearsFrom k call n (suc i) x path t2 c.after c.left whole'
                (Rest-entry is t1 c.after c.left r x path c.rest role1 i low) role1
                (Ready-next is s t1 own ps r x path k i p role low valid ready c) in
            (
              t,
              loop_frees (freewalk_depth l (suc k)) n i x s t1 valid inner run1
                  ∙ ap (λ (m : ℕ). freewalk_loop (freewalk_depth l (suc k)) n m x t2) next
                  ∙ run,
              ClearsFrom-next is s t1 own ps r x path k i p role low valid ready c t w,
            )
      ]

  -- After the loop the table itself is freed.
  kfree-ClearsAll :
      (level x : ℕ) (path : List ℕ) (s t : Machine) (own : Roles) (ps : List ℕ)
      (part : List ℕ → Type 0) (gone : ℕ → Type 0)
      → own x ≡ table r path
      → ((q : List ℕ) → part q → Within path q)
      → ¬ part path
      → ((y : ℕ) → Below s.mem level x y → (y ≡ x) ⊎ gone y)
      → (w : Clears l s own ps r part (λ a. a ≢ x) gone t)
      → (u : Machine) × (kfree l x t ≡ ok tt u) × ClearsAll l s own ps r path level x u
  kfree-ClearsAll level x path s t own ps part gone role inside outside below w =
      let role' : w.after x ≡ table r path = elim (w.roles x) [
        | inl same ↦ same ∙ role
        | inr (_, (q, e, here)) ↦
            absurd (outside (subst part (table-path r r q path (sym e ∙ role)) here))
      ] in
      let page = x-IsPage is t w.after w.left r x path w.rest role' in
      let (u, run, f) =
        kfree-Frees is t x w.left page w.rest.chain
          (x-unlisted is t w.after w.left r x path w.rest role') in
      let keep = kept_role is t w.after w.left r x path w.rest role' u f in
      let gone_role = freed_role is t w.after w.left r x path w.rest role' u f in
      (
        u,
        run,
        record {
          after = set_role w.after x free;
          left = x ∷ w.left;
          rest = Rest-freed is t w.after w.left r x path w.rest role' u f;
          roles = λ y. elim (ℕ_discrete x y) [
            | yes here ↦ inr (
              ap (set_role w.after x free) (sym here) ∙ gone_role,
              (path, ap own (sym here) ∙ role, Within-refl path),
            )
            | no away ↦ elim (w.roles y) [
              | inl same ↦ inl (keep y away ∙ same)
              | inr (e, (q, e', here)) ↦ inr (keep y away ∙ e, (q, e', inside q here))
            ]
          ];
          bytes = λ a used _.
              let ne : x ≢ page_of a =
                λ z. used (ap (set_role w.after x free) (sym z) ∙ gone_role) in
              f.same a (omega (arith, ne, page))
              ∙ w.bytes a (λ z. used (keep (page_of a) ne ∙ z)) (λ z. ne (sym z));
          more = λ y h. let there = w.more y h in ground arith;
          freed = λ y h. elim (below y h) [
            | inl e ↦ rw (e, ==_refl x) refl
            | inr g ↦ let there = w.freed y g in ground arith
          ];
        },
      )

  -- A call at a table of any level.
  pub freewalk_depth-ClearsAll : (level : ℕ) → Calls level
  unfolding freewalk_depth
  freewalk_depth-ClearsAll zero x path s own ps p role under no_leaf =
      let w : Clears l s own ps r (λ q. 1 ≤ 0) (λ a. a ≢ x) (λ y. 1 ≤ 0) s = record {
        after = own;
        left = ps;
        rest = p;
        roles = λ y. inl refl;
        bytes = λ a used ne. refl;
        more = λ y h. h;
        freed = λ y h. absurd (omega (arith, h));
      } in
      let (u, run, all) =
        kfree-ClearsAll 0 x path s s own ps (λ q. 1 ≤ 0) (λ y. 1 ≤ 0) role
          (λ q h. absurd (omega (arith, h))) (λ h. omega (arith, h)) (λ y e. inl e) w in
      (
        u,
        rw (loop_invalid (freewalk_depth l 0) 512 0 x s (λ j from below. no_leaf j below)) run,
        all,
      )
  freewalk_depth-ClearsAll (suc k) x path s own ps p role under no_leaf =
      let (t, run, w) =
        loop-ClearsFrom k (freewalk_depth-ClearsAll k) 512 0 x path s own ps refl p role (record {
          under = λ j from jlow h. under j jlow h;
          inner = λ j from jlow h. no_leaf j jlow h;
        }) in
      let (u, run', all) =
        kfree-ClearsAll (suc k) x path s t own ps (PathFrom path 0) (TableFrom s k x 0) role
          (λ q (j, _, h). Within-up j path q h)
          (λ (j, _, h). omega (arith, Within-length (j ∷ path) path h))
          (λ y h. elim h [
            | inl e ↦ inl e
            | inr (j, low, valid, below) ↦ inr (j, omega arith, low, valid, below)
          ])
          w in
      (u, rw run run', all)
