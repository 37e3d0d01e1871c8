-- ===== src/Vm/Spaces/Destroy.antt =====
-- freewalk of vm.c among all address spaces.
use lab_utilities.Base.{ℕ, ◌≡◌, ◌≢◌, inl, inr, refl, sym, ap, ◌∙◌, true, List, [], has, ℕ_discrete}
use lab_utilities.Layout.{Layout, IsLayout}
use lab_utilities.Machine.{Machine, ok}
use lab_utilities.Vm.Space.{freewalk}
use lab_utilities.Vm.Walk.Link.{page_of}
use lab_utilities.Vm.Spaces.{table, Roles, Pages, space}
use lab_utilities.Vm.Spaces.Grow.{holds_data, data-ne-free}
use lab_utilities.Vm.Spaces.Below.{NoLeaf, Below, KeepsOn, view-KeepsOn}
use lab_utilities.Vm.Spaces.Clearing.{Others, entry-bytes, table-root}
use lab_utilities.Vm.Spaces.Rounds.{ClearsAll}
use lab_utilities.Vm.Spaces.Freewalk.{freewalk_depth-ClearsAll}

-- The tables of the space `r` are on the free list, and everything else is as it was.
pub record Destroyed (l : Layout) (s : Machine) (own : Roles) (ps : List ℕ) (r : ℕ) (t : Machine)
    : Type 0 where
  pub after : Roles
  pub left : List ℕ
  pub pages : Pages l t after left
  pub freed : (y : ℕ) → Below s.mem 2 r y → has y left ≡ true
  pub more : (y : ℕ) → has y ps ≡ true → has y left ≡ true
  pub roles : (y : ℕ) → ((p : List ℕ) → own y ≢ table r p) → after y ≡ own y
  pub bytes : (a : ℕ) → holds_data (own (page_of a)) ≡ true → t.mem a ≡ s.mem a
  pub spaces : (r' va : ℕ) → r' ≢ r → own r' ≡ table r' [] → space t.mem r' va ≡ space s.mem r' va

module _ {l : Layout} (is : IsLayout l) (r : ℕ) (s : Machine) (own : Roles) (ps : List ℕ)
    (p : Pages l s own ps) (root : own r ≡ table r []) (no_leaf : NoLeaf s.mem 2 r) where
  Destroyed-ClearsAll : (t : Machine) → ClearsAll l s own ps r [] 2 r t → Destroyed l s own ps r t
  Destroyed-ClearsAll t c =
      let keep : (y : ℕ) → ((q : List ℕ) → own y ≢ table r q) → c.after y ≡ own y =
        λ y out. elim (c.roles y) [ inl same ↦ same | inr (_, (q, e, _)) ↦ absurd (out q e) ] in
      let apart : (y r' : ℕ) (path : List ℕ) → r' ≢ r → own y ≡ table r' path → c.after y ≡ own y =
        λ y r' path ne e. keep y (λ q e'. ne (table-root r' r path q (sym e ∙ e'))) in
      let keeps : KeepsOn (Others r) own c.after s.mem t.mem = record {
        closed = λ r' i path h. h;
        roles = λ y r' path ne e. apart y r' path ne e ∙ e;
        entries = λ y j r' path ne e low.
            entry-bytes s.mem t.mem y j (p.pages y (λ z. cc (z, e))).0 low (λ a here.
              let still = ap c.after here ∙ apart y r' path ne e ∙ e in
              c.bytes a (λ z. cc (z, still)) tt);
      } in
      let root_free : has r c.left ≡ true = c.freed r (inl refl) in
      record {
        after = c.after;
        left = c.left;
        pages = record {
          chain = c.rest.chain;
          free = c.rest.free;
          pages = c.rest.pages;
          spaces = λ r' e. elim (ℕ_discrete r' r) [
            | no ne ↦ c.rest.spaces r' ne e
            | yes here ↦ absurd (cc (ap c.after here, c.rest.free r root_free, e))
          ];
        };
        freed = c.freed;
        more = c.more;
        roles = keep;
        bytes = λ a d.
            let e = keep (page_of a) (λ q z. cc (d, ap holds_data z)) in
            c.bytes a (λ z. data-ne-free (own (page_of a)) d (sym e ∙ z)) tt;
        spaces = λ r' va ne e.
            view-KeepsOn (Others r) own c.after s.mem t.mem keeps 2 r' [] r' va ne e
              (p.spaces r' e);
      }

  -- freewalk of a space whose tables have no leaf returns, and each page still serves one purpose: every
  -- table that was linked in the space is on the free list, and every page that was no table of it keeps
  -- its role, all data in use their bytes, and every other space its entries.
  pub freewalk-Destroyed : (t : Machine) × (freewalk l r s ≡ ok tt t) × Destroyed l s own ps r t
  unfolding freewalk
  freewalk-Destroyed =
      let (t, run, c) =
        freewalk_depth-ClearsAll is r 2 r [] s own ps
          (record {
            chain = p.chain;
            free = p.free;
            pages = p.pages;
            spaces = λ r' ne e. p.spaces r' e;
          })
          root (p.spaces r root) no_leaf in
      (t, run, Destroyed-ClearsAll t c)
