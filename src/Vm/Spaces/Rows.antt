-- ===== src/Vm/Spaces/Rows.antt =====
-- What mappages of vm.c leaves in all address spaces, from what it does to one page and to the rest.
use lab_utilities.Base.{
  ℕ, suc, ◌+◌, ◌*◌, ◌<◌, ◌≤◌, length, ◌≡◌, ◌≢◌, ◌⊎◌, inl, inr, refl, sym, ap, ◌∙◌, true, arith,
  List, [],
}
use lab_utilities.Riscv.{maxva}
use lab_utilities.Riscv.Entries.{leaf}
use lab_utilities.Layout.{Layout}
use lab_utilities.Machine.{Machine}
use lab_utilities.Vm.Map.{Status, done, failed}
use lab_utilities.Vm.Walk.Link.{page_of}
use lab_utilities.Vm.Spaces.{free, table, Roles, space, Pages}
use lab_utilities.Vm.Spaces.Grow.{holds_data, table-ne-free, data-ne-free}
use lab_utilities.Vm.Spaces.Walk.{Reached}
use lab_utilities.Vm.Spaces.Range.{map_pages, set_page, map_pages-zero, map_pages-suc, map_pages-at}

-- What mappages leaves: the first `count` pages are mapped in the space `pt`, all of them or those
-- before the free list was used up, and nothing else has changed in any space.
pub record Maps (l : Layout) (s : Machine) (own : Roles) (pt va n pa perm : ℕ) (ps : List ℕ)
    (result : Status) (t : Machine) : Type 0 where
  pub after : Roles
  pub left : List ℕ
  pub count : ℕ
  pub pages : Pages l t after left
  pub roles : (x : ℕ) → own x ≢ free → after x ≡ own x
  pub kept : (x : ℕ) → holds_data (after x) ≡ true → own x ≡ after x
  pub bytes : (x : ℕ) → holds_data (own (page_of x)) ≡ true → t.mem x ≡ s.mem x
  pub supply : length ps ≤ length left + 2 * n
  pub spaces :
      (r vb : ℕ)
      → own r ≡ table r []
      → vb < maxva
      → space t.mem r vb ≡ map_pages pt va count pa perm (space s.mem) r vb
  pub outcome : ((result ≡ done) × (count ≡ n)) ⊎ ((result ≡ failed) × (count < n) × (left ≡ []))

-- The free list is used up before the first page.
pub Maps-null :
    (l : Layout) (s t : Machine) (own : Roles) (pt va n pa perm pte : ℕ) (ps : List ℕ)
    → (w : Reached l s own 2 pt va pt [] ps pte t) → 0 < n
    → w.left ≡ []
    → Maps l s own pt va n pa perm ps failed t
Maps-null l s t own pt va n pa perm pte ps w pos none_left = record {
  after = w.after;
  left = w.left;
  count = 0;
  pages = w.grown.pages;
  roles = w.grown.roles;
  kept = w.grown.kept;
  bytes = w.grown.bytes;
  supply = omega (arith, w.supply, pos);
  spaces = λ r vb root low.
      w.grown.same r vb root ∙ sym (map_pages-zero pt va pa perm (space s.mem) r vb);
  outcome = inr (refl, pos, none_left);
}

-- One page mapped: the state `u` and what is known of it.
pub record OnePage (l : Layout) (s : Machine) (own : Roles) (pt va pa perm : ℕ) (ps : List ℕ)
    (u : Machine) : Type 0 where
  pub after : Roles
  pub left : List ℕ
  pub pages : Pages l u after left
  pub roles : (x : ℕ) → own x ≢ free → after x ≡ own x
  pub kept : (x : ℕ) → holds_data (after x) ≡ true → own x ≡ after x
  pub bytes : (x : ℕ) → holds_data (own (page_of x)) ≡ true → u.mem x ≡ s.mem x
  pub supply : length ps ≤ length left + 2
  pub spaces :
      (r vb : ℕ)
      → own r ≡ table r []
      → vb < maxva
      → space u.mem r vb ≡ set_page pt va (leaf pa perm) (space s.mem) r vb

pub Maps-one :
    (l : Layout) (s u : Machine) (own : Roles) (pt va pa perm : ℕ) (ps : List ℕ)
    → OnePage l s own pt va pa perm ps u
    → Maps l s own pt va 1 pa perm ps done u
Maps-one l s u own pt va pa perm ps k = record {
  after = k.after;
  left = k.left;
  count = 1;
  pages = k.pages;
  roles = k.roles;
  kept = k.kept;
  bytes = k.bytes;
  supply = omega (arith, k.supply);
  spaces = λ r vb root low.
      k.spaces r vb root low
      ∙ sym (
          map_pages-zero pt (va + 4096) (pa + 4096) perm
            (set_page pt va (leaf pa perm) (space s.mem)) r vb)
      ∙ map_pages-suc pt va 0 pa perm (space s.mem) r vb;
  outcome = inl (refl, refl);
}

pub Maps-more :
    (l : Layout) (s u t : Machine) (own : Roles) (pt va n pa perm : ℕ) (ps : List ℕ)
    (result : Status)
    → (k : OnePage l s own pt va pa perm ps u)
    → Maps l u k.after pt (va + 4096) n (pa + 4096) perm k.left result t
    → Maps l s own pt va (suc n) pa perm ps result t
Maps-more l s u t own pt va n pa perm ps result k w = record {
  after = w.after;
  left = w.left;
  count = suc w.count;
  pages = w.pages;
  roles = λ x h. let e = k.roles x h in w.roles x (λ z. h (sym e ∙ z)) ∙ e;
  kept = λ x h. let e = w.kept x h in k.kept x (ap holds_data e ∙ h) ∙ e;
  bytes = λ x h.
      let e = k.roles (page_of x) (data-ne-free (own (page_of x)) h) in
      w.bytes x (rw e h) ∙ k.bytes x h;
  supply = omega (arith, w.supply, k.supply);
  spaces = λ r vb root low.
      w.spaces r vb (k.roles r (table-ne-free (own r) r [] root) ∙ root) low
      ∙ map_pages-at pt (va + 4096) w.count (pa + 4096) perm (space u.mem)
          (set_page pt va (leaf pa perm) (space s.mem)) r vb (k.spaces r vb root low)
      ∙ map_pages-suc pt va w.count pa perm (space s.mem) r vb;
  outcome = elim w.outcome [
    | inl (e, all) ↦ inl (e, ap suc all)
    | inr (e, part, none_left) ↦ inr (e, omega arith, none_left)
  ];
}
