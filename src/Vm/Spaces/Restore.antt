-- ===== src/Vm/Spaces/Restore.antt =====
-- The failing branches of uvmalloc of vm.c: the page taken last goes back, and every space is as it was.
use lab_utilities.Base.{
  ℕ, ◌*◌, ◌<◌, ◌≤◌, ◌≡◌, ◌≢◌, sym, ap, subst, ◌∙◌, true, arith, List, [], ◌∷◌, ==_ne, ==_refl,
  ℕ_discrete,
}
use lab_utilities.Riscv.{maxva, pte2pa}
use lab_utilities.Layout.{Layout, IsLayout}
use lab_utilities.Machine.{Machine}
use lab_utilities.Kalloc.FreeList.{Frees}
use lab_utilities.Vm.Walk.Link.{page_of}
use lab_utilities.Vm.Map.{failed}
use lab_utilities.Vm.Spaces.{free, table, frame, Roles, set_role, space, Pages}
use lab_utilities.Vm.Spaces.Grow.{holds_data, data-ne-free}
use lab_utilities.Vm.Spaces.Rows.{Maps}
use lab_utilities.Vm.Spaces.Range.{map_pages, map_pages-zero}
use lab_utilities.Vm.Spaces.Release.{Pages-released, space-released}
use lab_utilities.Vm.Spaces.Size.{entry_at}
use lab_utilities.Vm.Spaces.Extend.{Grew}

-- A step that changes no space and no data in use.
pub record Quiet (l : Layout) (t : Machine) (own : Roles) (u : Machine) : Type 0 where
  pub after : Roles
  pub left : List ℕ
  pub pages : Pages l u after left
  pub tables : (x r : ℕ) (path : List ℕ) → own x ≡ table r path → after x ≡ table r path
  pub roles : (x : ℕ) → holds_data (own x) ≡ true → after x ≡ own x
  pub kept : (x : ℕ) → holds_data (after x) ≡ true → own x ≡ after x
  pub bytes : (x : ℕ) → holds_data (own (page_of x)) ≡ true → u.mem x ≡ t.mem x
  pub spaces : (r vb : ℕ) → own r ≡ table r [] → vb < maxva → space u.mem r vb ≡ space t.mem r vb

pub Grew-Quiet :
    (l : Layout) (s t u : Machine) (own : Roles) (pt : ℕ) (perm : ℕ → ℕ) (byte : ℕ → ℕ → ℕ)
    (n0 n top : ℕ)
    → top * 4096 ≤ maxva
    → n ≤ top
    → own pt ≡ table pt []
    → (g : Grew l s own pt perm byte n0 n top t) → Quiet l t g.after u
    → Grew l s own pt perm byte n0 n top u
Grew-Quiet l s t u own pt perm byte n0 n top fits low root g k =
    let entry : (j : ℕ) → j < top → entry_at u pt j ≡ entry_at t pt j =
      λ j below. k.spaces pt (j * 4096) (g.tables pt pt [] root) (omega (arith, fits, below)) in
    record {
      after = k.after;
      left = k.left;
      pages = k.pages;
      tables = λ x r path e. k.tables x r path (g.tables x r path e);
      roles = λ x d. let e = g.roles x d in k.roles x (rw e d) ∙ e;
      bytes = λ x d. let e = g.roles (page_of x) d in k.bytes x (rw e d) ∙ g.bytes x d;
      spaces = λ r vb e below apart.
          k.spaces r vb (g.tables r r [] e) below ∙ g.spaces r vb e below apart;
      holds = record {
        mapped = λ j below.
            let (valid, flags, memory) = g.holds.mapped j below in
            let e = entry j (omega (arith, below, low)) in
            (
              rw e valid,
              rw e flags,
              rw e (k.roles (pte2pa (entry_at t pt j)) (ap holds_data memory) ∙ memory),
            );
        only = λ x j e.
            let (below, place) = g.holds.only x j (k.kept x (ap holds_data e) ∙ e) in
            (below, rw (entry j (omega (arith, below, low))) place);
        empty = λ j above below. entry j below ∙ g.holds.empty j above below;
      };
      fresh = λ j above below.
          let (written, zeroed) = g.fresh j above below in
          let (_, _, memory) = g.holds.mapped j below in
          let e = entry j (omega (arith, below, low)) in
          (
            rw e written,
            λ x here.
                let here' : page_of x ≡ pte2pa (entry_at t pt j) = rw e at here in
                k.bytes x (ap holds_data (ap g.after here' ∙ memory)) ∙ zeroed x here',
          );
    }

module _ {l : Layout} (is : IsLayout l) (t u v : Machine) (own own2 : Roles) (pt n perm va q : ℕ)
    (was_free : own q ≡ free) (role2 : own2 q ≡ frame pt n)
    (used : (x : ℕ) → own x ≢ free → own2 x ≡ own x)
    (apart : (x : ℕ) → q ≢ x → own2 x ≡ own x) where
  -- mappages has failed, and the page is freed.
  pub Quiet-released :
      (t2 : Machine) (ps : List ℕ)
      → ((r vb : ℕ) → own r ≡ table r [] → space t2.mem r vb ≡ space t.mem r vb)
      → ((x : ℕ) → holds_data (own (page_of x)) ≡ true → t2.mem x ≡ t.mem x)
      → (m : Maps l t2 own2 pt va 1 q perm ps failed u) → m.count ≡ 0
      → Frees is u q m.left v
      → Quiet l t own v
  Quiet-released t2 ps same bytes m none f =
      let role3 : m.after q ≡ frame pt n = m.roles q (λ z. cc (z, role2)) ∙ role2 in
      let ne : (x : ℕ) → own x ≢ free → q ≢ x = λ x h e. h (ap own (sym e) ∙ was_free) in
      let keep : (x : ℕ) → own x ≢ free → m.after x ≡ own x =
        λ x h. let e = used x h in m.roles x (λ z. h (sym e ∙ z)) ∙ e in
      let last : (x : ℕ) → q ≢ x → set_role m.after q free x ≡ m.after x =
        λ x h. rw (==_ne q x h) in
      let tables2 : (x r : ℕ) (path : List ℕ) → own x ≡ table r path → own2 x ≡ table r path =
        λ x r path e. used x (λ z. cc (z, e)) ∙ e in
      record {
        after = set_role m.after q free;
        left = q ∷ m.left;
        pages = Pages-released is u v m.after m.left q pt n m.pages role3 f;
        tables =
            λ x r path e. let h : own x ≢ free = λ z. cc (z, e) in last x (ne x h) ∙ keep x h ∙ e;
        roles = λ x d. let h = data-ne-free (own x) d in last x (ne x h) ∙ keep x h;
        kept = λ x d. elim (ℕ_discrete q x) [
          | yes here ↦
              let gone : set_role m.after q free q ≡ free = rw (==_refl q) in
              let e = ap (set_role m.after q free) (sym here) ∙ gone in
              absurd (cc (d, ap holds_data e))
          | no away ↦
              sym (apart x away)
              ∙ m.kept x (ap holds_data (sym (last x away)) ∙ d)
              ∙ sym (last x away)
        ];
        bytes = λ x d.
            let h = data-ne-free (own (page_of x)) d in
            let h' = ne (page_of x) h in
            let e = used (page_of x) h in
            let page = m.pages.pages q (λ z. cc (z, role3)) in
            f.same x (omega (arith, h', page)) ∙ m.bytes x (rw e d) ∙ bytes x d;
        spaces = λ r vb e below.
            let e2 = tables2 r r [] e in
            space-released is u v m.after m.left q pt n m.pages role3 f r vb
              (m.roles r (λ z. cc (z, e2)) ∙ e2)
            ∙ subst (λ (c : ℕ). space u.mem r vb ≡ map_pages pt va c q perm (space t2.mem) r vb)
                none (m.spaces r vb e2 below)
            ∙ map_pages-zero pt va q perm (space t2.mem) r vb
            ∙ same r vb e;
      }
