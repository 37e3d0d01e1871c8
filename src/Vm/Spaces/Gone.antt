-- ===== src/Vm/Spaces/Gone.antt =====
-- What uvmunmap of vm.c leaves in all address spaces, from what it does to one page and to the rest.
use lab_utilities.Base.{
  ℕ, zero, suc, ◌+◌, ◌*◌, ◌<◌, ◌≤◌, ◌≡◌, ◌≢◌, refl, sym, ap, Bool, true, false, arith, List, [],
  ◌∷◌, has, if◌then◌else◌, ==_ne,
}
use lab_utilities.Riscv.{maxva, pte_v, flag_set, pte2pa, pte_flags}
use lab_utilities.Layout.{Layout, IsLayout}
use lab_utilities.Machine.{Machine}
use lab_utilities.Kalloc.FreeList.{Frees}
use lab_utilities.Vm.Walk.Link.{page_of}
use lab_utilities.Vm.Spaces.{free, table, frame, Roles, set_role, bottom, space, Pages}
use lab_utilities.Vm.Spaces.Grow.{holds_data}
use lab_utilities.Vm.Spaces.Place.{number}
use lab_utilities.Vm.Spaces.Release.{Pages-released, space-released, bottom-released}
use lab_utilities.Vm.Spaces.Range.{
  covers, covers_self, covers-more, unmap_pages, set_page, unmap_pages-zero,
}

-- The free list after one page.
abbrev pub give : Bool → ℕ → List ℕ → List ℕ
give do_free pa ps = if do_free then pa ∷ ps else ps

-- The free list after `n` pages of a space from `va` on, with `do_free` the pages that they led to.
unfoldable pub give_back : Bool → (ℕ → ℕ) → ℕ → ℕ → List ℕ → List ℕ
give_back do_free entry va zero ps = ps
give_back do_free entry va (suc n) ps =
    give_back do_free entry (va + 4096) n (give do_free (pte2pa (entry va)) ps)

-- Only the entries of these pages play a part.
pub give_back-at :
    (do_free : Bool) (entry entry' : ℕ → ℕ) (va n : ℕ) (ps : List ℕ)
    → va + n * 4096 ≤ maxva
    → ((vb : ℕ) → vb < maxva → covers va n vb ≡ true → entry vb ≡ entry' vb)
    → give_back do_free entry va n ps ≡ give_back do_free entry' va n ps
unfolding give_back
give_back-at do_free entry entry' va zero ps low same = refl
give_back-at do_free entry entry' va (suc n) ps low same =
    rw (same va (omega arith) (covers_self va n)) (
      give_back-at do_free entry entry' (va + 4096) n (give do_free (pte2pa (entry' va)) ps)
        (omega arith) (λ vb below inside. same vb below (covers-more va n vb inside)))

-- The state between giving the memory back and clearing the entry.
pub record Between (l : Layout) (s : Machine) (own : Roles) (t : Machine) (own' : Roles)
    (left : List ℕ) : Type 0 where
  pub pages : Pages l t own' left
  pub roles : (x : ℕ) → has x left ≡ false → own' x ≡ own x
  pub roots : (r : ℕ) → own r ≡ table r [] → own' r ≡ table r []
  pub same : (r va : ℕ) → own r ≡ table r [] → space t.mem r va ≡ space s.mem r va
  pub bottoms : (r va : ℕ) → own r ≡ table r [] → bottom t.mem 2 r va ≡ bottom s.mem 2 r va
  pub bytes : (x : ℕ) → has (page_of x) left ≡ false → t.mem x ≡ s.mem x

pub Between-kept :
    (l : Layout) (s : Machine) (own : Roles) (ps : List ℕ)
    → Pages l s own ps
    → Between l s own s own ps
Between-kept l s own ps p = record {
  pages = p;
  roles = λ x h. refl;
  roots = λ r e. e;
  same = λ r va e. refl;
  bottoms = λ r va e. refl;
  bytes = λ x h. refl;
}

pub Between-freed :
    {l : Layout} (is : IsLayout l) (s t : Machine) (own : Roles) (ps : List ℕ) (pa r n : ℕ)
    → Pages l s own ps
    → own pa ≡ frame r n
    → Frees is s pa ps t
    → Between l s own t (set_role own pa free) (pa ∷ ps)
Between-freed is s t own ps pa r n p role f = record {
  pages = Pages-released is s t own ps pa r n p role f;
  roles = λ x h. let ne : pa ≢ x = ground arith in rw (==_ne pa x ne);
  roots = λ r' e. let ne : pa ≢ r' = λ z. cc (ap own z, e, role) in rw (==_ne pa r' ne) e;
  same = space-released is s t own ps pa r n p role f;
  bottoms = bottom-released is s t own ps pa r n p role f;
  bytes = λ x h.
      let page = p.pages pa (λ z. cc (z, role)) in
      let ne : page_of x ≢ pa = ground arith in f.same x (omega (arith, ne, page));
}

-- The pages of a row are valid leaves, and memory of the space where it is to be given back.
abbrev pub Leaves : Machine → Roles → ℕ → ℕ → ℕ → Bool → Type 0
Leaves s own pt va n do_free =
    (vb : ℕ)
    → vb < maxva
    → covers va n vb ≡ true
    → (flag_set pte_v (space s.mem pt vb) ≡ true)
      × (pte_flags (space s.mem pt vb) ≢ pte_v)
      × (do_free ≡ true → own (pte2pa (space s.mem pt vb)) ≡ frame pt (number vb))

-- What uvmunmap leaves.
pub record Unmaps (l : Layout) (s : Machine) (own : Roles) (ps : List ℕ) (pt va n : ℕ)
    (do_free : Bool) (t : Machine) : Type 0 where
  pub after : Roles
  pub left : List ℕ
  pub given : left ≡ give_back do_free (space s.mem pt) va n ps
  pub pages : Pages l t after left
  pub more : (x : ℕ) → has x left ≡ false → has x ps ≡ false
  pub roles : (x : ℕ) → has x left ≡ false → after x ≡ own x
  pub bytes :
      (x : ℕ)
      → has (page_of x) left ≡ false
      → holds_data (own (page_of x)) ≡ true
      → t.mem x ≡ s.mem x
  pub spaces :
      (r vb : ℕ)
      → own r ≡ table r []
      → vb < maxva
      → space t.mem r vb ≡ unmap_pages pt va n (space s.mem) r vb

pub Unmaps-none :
    (l : Layout) (s : Machine) (own : Roles) (ps : List ℕ) (pt va : ℕ) (do_free : Bool)
    → Pages l s own ps
    → Unmaps l s own ps pt va 0 do_free s
unfolding give_back
Unmaps-none l s own ps pt va do_free p = record {
  after = own;
  left = ps;
  given = refl;
  pages = p;
  more = λ x h. h;
  roles = λ x h. refl;
  bytes = λ x h k. refl;
  spaces = λ r vb root low. sym (unmap_pages-zero pt va (space s.mem) r vb);
}

-- One page gone: the state `u`.
pub record OneGone (l : Layout) (s : Machine) (own : Roles) (ps : List ℕ) (pt va : ℕ)
    (do_free : Bool) (u : Machine) : Type 0 where
  pub after : Roles
  pub pages : Pages l u after (give do_free (pte2pa (space s.mem pt va)) ps)
  pub roles :
      (x : ℕ) → has x (give do_free (pte2pa (space s.mem pt va)) ps) ≡ false → after x ≡ own x
  pub roots : (r : ℕ) → own r ≡ table r [] → after r ≡ table r []
  pub bytes :
      (x : ℕ)
      → has (page_of x) (give do_free (pte2pa (space s.mem pt va)) ps) ≡ false
      → holds_data (own (page_of x)) ≡ true
      → u.mem x ≡ s.mem x
  pub spaces :
      (r vb : ℕ)
      → own r ≡ table r []
      → vb < maxva
      → space u.mem r vb ≡ set_page pt va 0 (space s.mem) r vb

-- A list that has been added to.
pub has-give :
    (do_free : Bool) (pa x : ℕ) (ps : List ℕ)
    → has x (give do_free pa ps) ≡ false
    → has x ps ≡ false
has-give do_free pa x ps h = ground arith

pub has-give_apart :
    (do_free : Bool) (pa x : ℕ) (ps : List ℕ)
    → (do_free ≡ true → x ≢ pa)
    → has x ps ≡ false
    → has x (give do_free pa ps) ≡ false
has-give_apart false pa x ps ne h = h
has-give_apart true pa x ps ne h = rw (==_ne x pa (ne refl)) h

-- A page that is on the list stays there.
has-give_back_kept :
    (entry : ℕ → ℕ) (va n x : ℕ) (ps : List ℕ)
    → has x ps ≡ true
    → has x (give_back true entry va n ps) ≡ true
unfolding give_back
has-give_back_kept entry va zero x ps h = h
has-give_back_kept entry va (suc n) x ps h =
    has-give_back_kept entry (va + 4096) n x (pte2pa (entry va) ∷ ps) (ground arith)

-- What is given back is on the list afterwards, and nothing else is added to it.
pub has-give_back :
    (entry : ℕ → ℕ) (va n k : ℕ) (ps : List ℕ)
    → k < n
    → has (pte2pa (entry (va + k * 4096))) (give_back true entry va n ps) ≡ true
unfolding give_back
has-give_back entry va zero k ps h = absurd (omega (arith, h))
has-give_back entry va (suc n) zero ps h =
    let here : va + 0 * 4096 ≡ va = omega arith in
    rw here (
      has-give_back_kept entry (va + 4096) n (pte2pa (entry va)) (pte2pa (entry va) ∷ ps)
        (ground arith))
has-give_back entry va (suc n) (suc k) ps h =
    let next : va + suc k * 4096 ≡ va + 4096 + k * 4096 = omega arith in
    rw next (has-give_back entry (va + 4096) n k (pte2pa (entry va) ∷ ps) (omega (arith, h)))

pub has-give_back_apart :
    (entry : ℕ → ℕ) (va n x : ℕ) (ps : List ℕ)
    → has x ps ≡ false
    → ((k : ℕ) → k < n → x ≢ pte2pa (entry (va + k * 4096)))
    → has x (give_back true entry va n ps) ≡ false
unfolding give_back
has-give_back_apart entry va zero x ps h ne = h
has-give_back_apart entry va (suc n) x ps h ne =
    let here : va + 0 * 4096 ≡ va = omega arith in
    let first : x ≢ pte2pa (entry va) = λ z. ne 0 (omega arith) (rw here z) in
    has-give_back_apart entry (va + 4096) n x (pte2pa (entry va) ∷ ps)
      (has-give_apart true (pte2pa (entry va)) x ps (λ _. first) h)
      (λ k below z.
        let next : va + suc k * 4096 ≡ va + 4096 + k * 4096 = omega arith in
        ne (suc k) (omega (arith, below)) (rw next z))
