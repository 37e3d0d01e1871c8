-- ===== src/Vm/Spaces/Leaf.antt =====
-- A write to the level-0 entry of a virtual address, in one of many address spaces.
use lab_utilities.Base.{
  ℕ, ◌^◌, ◌<◌, ◌≡◌, ◌≢◌, refl, ap, ◌∙◌, Bool, true, ◌&&◌, arith, List, [], ◌==◌, if◌then◌else◌,
}
use lab_utilities.Memory.{store64}
use lab_utilities.Memory.Laws.{store-SameOutside, load64-store64_self}
use lab_utilities.Riscv.{px, maxva}
use lab_utilities.Riscv.Rounding.{px-lt}
use lab_utilities.Layout.{Layout, IsLayout}
use lab_utilities.Machine.{Machine}
use lab_utilities.Kalloc.FreeList.{IsPage, Chain-frame}
use lab_utilities.Vm.Walk.Descent.{slot}
use lab_utilities.Vm.Walk.Link.{page_of}
use lab_utilities.Vm.Spaces.{table, Roles, bottom, route, space, Pages}
use lab_utilities.Vm.Spaces.Same.{bottom-role, entry-store_other}
use lab_utilities.Vm.Spaces.Write.{Writes, Under-write, view-write}
use lab_utilities.Vm.Spaces.Place.{number, same_place}
use lab_utilities.Vm.Spaces.Grow.{holds_data, table-IsPage, table-ne-free, not_listed}

module _ {l : Layout} (is : IsLayout l) (s : Machine) (own : Roles) (ps : List ℕ) (r va v : ℕ)
    (p : Pages l s own ps) (root : own r ≡ table r []) (low : va < maxva)
    (there : bottom s.mem 2 r va ≢ 0) (fits : v < 2 ^ 64) where
  abbrev f : ℕ
  f = bottom s.mem 2 r va

  abbrev pub written : Machine
  written = record s { mem = store64 s.mem (slot 0 f va) v }

  f-role : own f ≡ table r (route 2 va [])
  f-role = bottom-role own s.mem 2 r [] r va root (p.spaces r root) there

  f-IsPage : IsPage l f
  f-IsPage = table-IsPage l s own ps f r (route 2 va []) p f-role

  writes : Writes own s.mem written.mem f (px 0 va) v r (route 2 va [])
  writes = record {
    role = f-role;
    lowest = refl;
    not_null = there;
    written = load64-store64_self s.mem (slot 0 f va) v fits;
    kept = λ x j r' path e low' apart.
        entry-store_other s.mem f (px 0 va) x j v f-IsPage.0
          (table-IsPage l s own ps x r' path p e).0 (px-lt 0 va) low' apart;
  }

  pub Pages-written : Pages l written own ps
  Pages-written = record {
    chain =
        Chain-frame is s.mem written.mem f s.freelist ps f-IsPage.0
          (not_listed l s own ps f p (table-ne-free (own f) r (route 2 va []) f-role))
          (λ x h.
            store-SameOutside 8 (slot 0 f va) v s.mem x (omega (arith, px-lt 0 va, f-IsPage.0)))
          p.chain;
    free = p.free;
    pages = p.pages;
    spaces = λ r' e.
        Under-write own s.mem written.mem f (px 0 va) v r (route 2 va []) writes 2 r' [] r' e refl
          (p.spaces r' e);
  }

  pub space-written :
      (r' vb : ℕ)
      → own r' ≡ table r' []
      → vb < maxva
      → space written.mem r' vb
        ≡ (if (r' == r) && (number vb == number va) then v else space s.mem r' vb)
  space-written r' vb e low' =
      view-write own s.mem written.mem f (px 0 va) v r (route 2 va []) writes 2 r' [] r' vb e refl
        (p.spaces r' e)
      ∙ ap (λ (b : Bool). if b then v else space s.mem r' vb)
          (same_place own s.mem r va r' vb low low' root e (p.spaces r root) (p.spaces r' e) there)

  pub bytes-written : (x : ℕ) → holds_data (own (page_of x)) ≡ true → written.mem x ≡ s.mem x
  bytes-written x h =
      let ne : page_of x ≢ f = λ e. cc (h, ap holds_data (ap own e ∙ f-role)) in
      store-SameOutside 8 (slot 0 f va) v s.mem x (omega (arith, px-lt 0 va, f-IsPage.0, ne))
