-- ===== src/Vm/Spaces/Walk.antt =====
-- walk of vm.c among all address spaces: it takes page tables from the free list and changes no space.
use lab_utilities.Base.{
  ℕ, zero, suc, ◌+◌, ◌<◌, ◌≤◌, ◌≡◌, ◌⊎◌, inl, inr, refl, ◌∙◌, true, false, arith, Bool-cases,
  lt→leb, List, [], ◌∷◌, length,
}
use lab_utilities.Riscv.{maxva, px, pte_v, flag_set, pte2pa}
use lab_utilities.Riscv.Rounding.{px-lt}
use lab_utilities.Layout.{Layout, IsLayout}
use lab_utilities.Machine.{Machine, ok, acquired, released, kmem}
use lab_utilities.Kalloc.FreeList.{kalloc-Allocates, page-ne-zero, kalloc-null}
use lab_utilities.Vm.Walk.{walk_loop, walk}
use lab_utilities.Vm.Walk.Descent.{slot}
use lab_utilities.Vm.Spaces.{table, Roles, entry_in, bottom, route, Under, Pages}
use lab_utilities.Vm.Spaces.Link.{Under-zero}
use lab_utilities.Vm.Spaces.Grow.{Grown, Grown-refl, Grown-trans}
use lab_utilities.Vm.Spaces.NewTable.{Grown-link, own', own'-fresh, t3, linked_here, linked-zero}

-- What a walk leaves: the entry's address in the level-0 table of the space, or null when the free
-- list is used up.
pub record Reached (l : Layout) (s : Machine) (own : Roles) (level x va r : ℕ) (path : List ℕ)
    (ps : List ℕ) (pte : ℕ) (t : Machine) : Type 0 where
  pub after : Roles
  pub left : List ℕ
  pub grown : Grown l s own t after left
  pub supply : length ps ≤ length left + level
  pub found :
      ((pte ≡ 0) × (left ≡ []))
      ⊎ ((pte ≡ slot 0 (bottom t.mem level x va) va)
          × (after (bottom t.mem level x va) ≡ table r (route level va path)))

abbrev pub Reaches : Layout → Machine → Roles → ℕ → ℕ → ℕ → ℕ → List ℕ → List ℕ → Type 0
Reaches l s own level x va r path ps =
    (pte : ℕ) × (t : Machine) × (walk_loop level x va true s ≡ ok pte t)
    × Reached l s own level x va r path ps pte t

-- The rest of a walk below a valid entry.
Reached-suc :
    (l : Layout) (s s' t : Machine) (own own' : Roles) (level x va r : ℕ) (path : List ℕ)
    (y pte : ℕ) (ps all : List ℕ)
    → length all ≤ length ps + 1
    → Grown l s own s' own' ps
    → (own' x ≡ table r path)
    → (flag_set pte_v (entry_in s'.mem x (px (suc level) va)) ≡ true)
    → (pte2pa (entry_in s'.mem x (px (suc level) va)) ≡ y)
    → Reached l s' own' level y va r (px (suc level) va ∷ path) ps pte t
    → Reached l s own (suc level) x va r path all pte t
unfolding bottom
Reached-suc l s s' t own own' level x va r path y pte ps all more before role valid target k =
    let e = k.grown.entries x (px (suc level) va) r path role (px-lt (suc level) va) valid in
    record {
      after = k.after;
      left = k.left;
      supply = omega (arith, k.supply, more);
      grown = Grown-trans l s s' t own own' k.after ps k.left before k.grown;
      found = elim k.found [
        | inl none_left ↦ inl none_left
        | inr (place, here) ↦ inr (rw (e, valid, target) place, rw (e, valid, target) here)
      ];
    }

module _ {l : Layout} (is : IsLayout l) where
  -- The branch for a missing table.
  walk_loop-grows_missing :
      (level x va : ℕ) (s : Machine) (own : Roles) (ps : List ℕ) (r : ℕ) (path : List ℕ)
      → Pages l s own ps
      → own x ≡ table r path
      → length path + suc level ≡ 2
      → flag_set pte_v (entry_in s.mem x (px (suc level) va)) ≡ false
      → ((s' : Machine) (own' : Roles) (q : ℕ) (ps' : List ℕ)
          → Pages l s' own' ps'
          → own' q ≡ table r (px (suc level) va ∷ path)
          → Under own' s'.mem level r (px (suc level) va ∷ path) q
          → Reaches l s' own' level q va r (px (suc level) va ∷ path) ps')
      → Reaches l s own (suc level) x va r path ps
  unfolding walk_loop
  walk_loop-grows_missing level x va s own [] r path p role depth invalid below = (
    0,
    record s { trace = released kmem ∷ acquired kmem ∷ s.trace },
    rw (invalid, kalloc-null is s p.chain),
    record {
      after = own;
      left = [];
      supply = omega arith;
      grown = record {
        pages = record { chain = p.chain; free = p.free; pages = p.pages; spaces = p.spaces };
        roles = λ x h. refl;
        kept = λ x h. refl;
        entries = λ x j r path e low v. refl;
        same = λ r va e. refl;
        bytes = λ x h. refl;
      };
      found = inl (refl, refl);
    },
  )
  walk_loop-grows_missing level x va s own (q ∷ ps) r path p role depth invalid below =
      let (t1, run1, a) = kalloc-Allocates is s q ps p.chain in
      let s3 : Machine = t3 is s t1 own q ps p a x r level va path role depth invalid in
      let own3 : Roles = own' is s t1 own q ps p a x r level va path role depth invalid in
      let k = Grown-link is s t1 own q ps p a x r level va path role depth invalid in
      let here = linked_here is s t1 own q ps p a x r level va path role depth invalid in
      let role3 : own3 q ≡ table r (px (suc level) va ∷ path) =
        own'-fresh is s t1 own q ps p a x r level va path role depth invalid in
      let (pte, t, run, w) = below s3 own3 q ps k.pages role3 (
        Under-zero own3 s3.mem level r (px (suc level) va ∷ path) q
          (linked-zero is s t1 own q ps p a x r level va path role depth invalid)) in
      (
        pte,
        t,
        rw (invalid, run1, page-ne-zero is q p.chain.1) run,
        Reached-suc l s s3 t own own3 level x va r path q pte ps (q ∷ ps) (omega arith) k
            (k.roles x (λ z. cc (role, z)) ∙ role) here.0 here.1 w,
      )

  pub walk_loop-grows :
      (level x va : ℕ) (s : Machine) (own : Roles) (ps : List ℕ) (r : ℕ) (path : List ℕ)
      → Pages l s own ps
      → own x ≡ table r path
      → length path + level ≡ 2
      → Under own s.mem level r path x
      → Reaches l s own level x va r path ps
  unfolding walk_loop bottom
  walk_loop-grows zero x va s own ps r path p role depth under = (
    slot 0 x va,
    s,
    refl,
    record {
      after = own;
      left = ps;
      supply = omega arith;
      grown = Grown-refl l s own ps p;
      found = inr (refl, role);
    },
  )
  walk_loop-grows (suc level) x va s own ps r path p role depth under =
      let j : ℕ = px (suc level) va in
      elim (Bool-cases (flag_set pte_v (entry_in s.mem x j))) [
        | inl valid ↦
            let (role', under') = under j (px-lt (suc level) va) valid in
            let (pte, t, run, w) =
              walk_loop-grows level (pte2pa (entry_in s.mem x j)) va s own ps r (j ∷ path) p role'
                (omega arith) under' in
            (
              pte,
              t,
              rw valid run,
              Reached-suc l s s t own own level x va r path (pte2pa (entry_in s.mem x j)) pte ps ps
                  (omega arith) (Grown-refl l s own ps p) role valid refl w,
            )
        | inr invalid ↦
            walk_loop-grows_missing level x va s own ps r path p role depth invalid
              (λ s' own' q ps' p' role' under'.
                walk_loop-grows level q va s' own' ps' r (j ∷ path) p' role' (omega arith) under')
      ]

  -- walk with `alloc` at an address in range, from the root of a space, returns. It changes no address
  -- space and no data in use, and each page still serves one purpose. The result is the address of the
  -- entry for `va` in the level-0 table of that space, or null with the free list used up; at most two
  -- pages are taken from the list.
  pub walk-grows :
      (r va : ℕ) (s : Machine) (own : Roles) (ps : List ℕ)
      → va < maxva
      → Pages l s own ps
      → own r ≡ table r []
      → (pte : ℕ) × (t : Machine) × (walk r va true s ≡ ok pte t)
        × Reached l s own 2 r va r [] ps pte t
  unfolding walk
  walk-grows r va s own ps h p root =
      rw (lt→leb maxva va h) (walk_loop-grows 2 r va s own ps r [] p root refl (p.spaces r root))
