-- ===== src/Vm/Spaces/Grow.antt =====
-- Steps that take pages from the free list and leave every address space and all data as they are.
use lab_utilities.Base.{
  ℕ, ◌<◌, ◌≡◌, ◌≢◌, inl, inr, refl, sym, ap, ◌∙◌, Bool, true, false, arith, Bool-cases, List, [],
  has,
}
use lab_utilities.Riscv.{pte_v, flag_set}
use lab_utilities.Layout.{Layout, IsLayout}
use lab_utilities.Machine.{Machine}
use lab_utilities.Kalloc.FreeList.{IsPage}
use lab_utilities.Vm.Walk.Link.{page_of}
use lab_utilities.Vm.Spaces.{Role, free, table, frame, other, Roles, entry_in, space, Pages}

-- A page whose bytes are data of a process or of the kernel.
abbrev pub holds_data : Role → Bool
holds_data free = false
holds_data (table r path) = false
holds_data (frame r number) = true
holds_data other = true

pub record Grown (l : Layout) (s : Machine) (own : Roles) (t : Machine) (own' : Roles)
    (left : List ℕ) : Type 0 where
  pub pages : Pages l t own' left
  pub roles : (x : ℕ) → own x ≢ free → own' x ≡ own x
  pub kept : (x : ℕ) → holds_data (own' x) ≡ true → own x ≡ own' x
  pub entries :
      (x j r : ℕ) (path : List ℕ)
      → own x ≡ table r path
      → j < 512
      → flag_set pte_v (entry_in s.mem x j) ≡ true
      → entry_in t.mem x j ≡ entry_in s.mem x j
  pub same : (r va : ℕ) → own r ≡ table r [] → space t.mem r va ≡ space s.mem r va
  pub bytes : (x : ℕ) → holds_data (own (page_of x)) ≡ true → t.mem x ≡ s.mem x

pub table-ne-free : (role : Role) (r : ℕ) (path : List ℕ) → role ≡ table r path → role ≢ free
table-ne-free role r path e z = cc (e, z)

pub data-ne-free : (role : Role) → holds_data role ≡ true → role ≢ free
data-ne-free role e z = cc (ap holds_data z, e)

pub Grown-refl :
    (l : Layout) (s : Machine) (own : Roles) (ps : List ℕ)
    → Pages l s own ps
    → Grown l s own s own ps
Grown-refl l s own ps p = record {
  pages = p;
  roles = λ x h. refl;
  kept = λ x h. refl;
  entries = λ x j r path e low v. refl;
  same = λ r va e. refl;
  bytes = λ x h. refl;
}

pub Grown-trans :
    (l : Layout) (s t u : Machine) (own own' own'' : Roles) (left left' : List ℕ)
    → Grown l s own t own' left
    → Grown l t own' u own'' left'
    → Grown l s own u own'' left'
Grown-trans l s t u own own' own'' left left' a b =
    let tables : (x r : ℕ) (path : List ℕ) → own x ≡ table r path → own' x ≡ table r path =
      λ x r path e. a.roles x (table-ne-free (own x) r path e) ∙ e in
    record {
      pages = b.pages;
      roles = λ x h. let e = a.roles x h in b.roles x (λ z. h (sym e ∙ z)) ∙ e;
      kept = λ x h. let e = b.kept x h in a.kept x (ap holds_data e ∙ h) ∙ e;
      entries = λ x j r path e low v.
          let k = a.entries x j r path e low v in
          b.entries x j r path (tables x r path e) low (rw k v) ∙ k;
      same = λ r va e. b.same r va (tables r r [] e) ∙ a.same r va e;
      bytes = λ x h.
          let e = a.roles (page_of x) (data-ne-free (own (page_of x)) h) in
          b.bytes x (rw e h) ∙ a.bytes x h;
    }

pub not_listed :
    (l : Layout) (s : Machine) (own : Roles) (ps : List ℕ) (x : ℕ)
    → Pages l s own ps
    → own x ≢ free
    → has x ps ≡ false
not_listed l s own ps x p h = elim (Bool-cases (has x ps)) [
  | inl there ↦ absurd (h (p.free x there))
  | inr gone ↦ gone
]

-- A page table stands at a page address.
pub table-IsPage :
    (l : Layout) (s : Machine) (own : Roles) (ps : List ℕ) (x r : ℕ) (path : List ℕ)
    → Pages l s own ps
    → own x ≡ table r path
    → IsPage l x
table-IsPage l s own ps x r path p e = p.pages x (λ z. cc (e, z))

pub table-ne-zero :
    {l : Layout}
    → IsLayout l
    → (s : Machine) (own : Roles) (ps : List ℕ) (x r : ℕ) (path : List ℕ) → Pages l s own ps
    → own x ≡ table r path
    → x ≢ 0
table-ne-zero {l} is s own ps x r path p e =
    let page = table-IsPage l s own ps x r path p e in omega (arith, page, is.above_null)
