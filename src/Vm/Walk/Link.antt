-- ===== src/Vm/Walk/Link.antt =====
-- A fresh page table linked into a table in use, as in walk of lab page tables/kernel/vm.c.
use lab_utilities.Base.{
  ℕ, zero, suc, ◌*◌, ◌/◌, ◌%◌, ◌<◌, ◌≡◌, ◌≢◌, sym, ap, ◌∙◌, true, false, ◌==◌, arith, List, ◌∷◌,
  has, bit_or,
}
use lab_utilities.Memory.{Mem, load64, store64, fill}
use lab_utilities.Memory.Laws.{
  SameOutside, load64-store64_self, load-store_apart, load-fill_zero, load-SameOutside,
  fill-SameOutside, store-SameOutside,
}
use lab_utilities.Riscv.{pgsize, pte_v, flag_set, pte2pa, pa2pte}
use lab_utilities.Base.Bits.{bit_or-zero}
use lab_utilities.Riscv.Rounding.{px-lt}
use lab_utilities.Riscv.Entries.{leaf, leaf-valid, leaf-lt, pte2pa-leaf}
use lab_utilities.Layout.{Layout, IsLayout}
use lab_utilities.Kalloc.FreeList.{IsPage, Chain, Chain-frame}
use lab_utilities.Vm.Walk.Descent.{slot}

-- the page that an address is in
abbrev pub page_of : ℕ → ℕ
page_of a = a / 4096 * 4096

-- Every valid entry outside the free pages `ps` keeps its value.
abbrev pub Grows : List ℕ → Mem → Mem → Type 0
Grows ps m g =
    (a : ℕ)
    → a % 8 ≡ 0
    → has (page_of a) ps ≡ false
    → flag_set pte_v (load64 m a) ≡ true
    → load64 g a ≡ load64 m a

-- The page tables that a descent meets stand at page addresses outside the free pages.
abbrev pub IsTable : ℕ → List ℕ → Type 0
IsTable pt ps = (0 < pt) × (pt % 4096 ≡ 0) × (has pt ps ≡ false)

abbrev pub Clear : Mem → ℕ → ℕ → ℕ → List ℕ → Type 0
Clear m zero pt va ps = IsTable pt ps
Clear m (suc level) pt va ps =
    IsTable pt ps
    × (flag_set pte_v (load64 m (slot (suc level) pt va)) ≡ true
        → Clear m level (pte2pa (load64 m (slot (suc level) pt va))) va ps)

-- No page is mapped at `va`: the way down ends at an entry that is not valid.
abbrev pub IsUnmapped : Mem → ℕ → ℕ → ℕ → Type 0
IsUnmapped m zero pt va = flag_set pte_v (load64 m (slot 0 pt va)) ≡ false
IsUnmapped m (suc level) pt va =
    flag_set pte_v (load64 m (slot (suc level) pt va)) ≡ true
    → IsUnmapped m level (pte2pa (load64 m (slot (suc level) pt va))) va

pub slot-page : (level pt va : ℕ) → pt % 4096 ≡ 0 → page_of (slot level pt va) ≡ pt
slot-page level pt va h = omega (arith, px-lt level va)

pub slot-aligned : (level pt va : ℕ) → pt % 4096 ≡ 0 → slot level pt va % 8 ≡ 0
slot-aligned level pt va h = omega arith

-- The page `q` zeroed, and the entry `pte` pointing to it.
abbrev pub fresh_table : Mem → ℕ → ℕ → Mem
fresh_table m q pte = store64 (fill m q 0 pgsize) pte (bit_or (pa2pte q) pte_v)

module _ {l : Layout} (is : IsLayout l) where
  -- A fresh page `q`, zeroed and linked in at an invalid entry `pte` of the table `pt`: `m` is the
  -- memory before the page is allocated, `m'` the one after.
  module _ (m m' : Mem) (q pt pte : ℕ) (ps : List ℕ) (page : IsPage l q) (fresh : has q ps ≡ false)
      (table : IsTable pt (q ∷ ps)) (aligned : pte % 8 ≡ 0) (inside : page_of pte ≡ pt)
      (same : SameOutside q 4096 m m') where
    abbrev pub linked : Mem
    linked = store64 (fill m' q 0 pgsize) pte (bit_or (pa2pte q) pte_v)

    entry-leaf : bit_or (pa2pte q) pte_v ≡ leaf q 0
    entry-leaf = ap (λ (t : ℕ). bit_or t pte_v) (sym (bit_or-zero (pa2pte q)))

    pub linked-entry : load64 linked pte ≡ bit_or (pa2pte q) pte_v
    linked-entry =
        load64-store64_self (fill m' q 0 pgsize) pte (bit_or (pa2pte q) pte_v)
          (rw entry-leaf (omega (arith, leaf-lt q 0 (omega (arith, is.small)) (omega arith))))

    pub entry-valid : flag_set pte_v (bit_or (pa2pte q) pte_v) ≡ true
    entry-valid = rw entry-leaf (leaf-valid q 0 (omega (arith, is.small)) (omega arith))

    pub entry-target : pte2pa (bit_or (pa2pte q) pte_v) ≡ q
    entry-target =
        rw entry-leaf (pte2pa-leaf q 0 (omega (arith, is.small)) (omega arith) ∙ omega arith)

    apart : (pt == q) ≡ false
    apart = ground arith

    store-same : SameOutside pt 4096 (fill m' q 0 pgsize) linked
    store-same x h =
        store-SameOutside 8 pte (bit_or (pa2pte q) pte_v) (fill m' q 0 pgsize) x (omega arith)

    pub linked-Chain : (p : ℕ) → Chain l m' p ps → Chain l linked p ps
    linked-Chain p c =
        Chain-frame is (fill m' q 0 pgsize) linked pt p ps table.1 (ground arith) store-same (
          Chain-frame is m' (fill m' q 0 pgsize) q p ps page.0 fresh (fill-SameOutside m' q 0 4096)
            c)

    pub linked-Grows : flag_set pte_v (load64 m pte) ≡ false → Grows (q ∷ ps) m linked
    linked-Grows invalid a al out valid =
        let ne : a ≢ pte = λ e. cc in
        let off : (page_of a == q) ≡ false = ground arith in
        load-store_apart (fill m' q 0 pgsize) a 8 pte 8 (bit_or (pa2pte q) pte_v) (omega arith)
        ∙ load-SameOutside m' (fill m' q 0 pgsize) a 8 q 4096 (fill-SameOutside m' q 0 4096)
            (ground arith)
        ∙ load-SameOutside m m' a 8 q 4096 same (ground arith)

    linked-zero : (level va : ℕ) → load64 linked (slot level q va) ≡ 0
    linked-zero level va =
        load-store_apart (fill m' q 0 pgsize) (slot level q va) 8 pte 8 (bit_or (pa2pte q) pte_v)
          (ground (arith, px-lt level va))
        ∙ load-fill_zero 8 (slot level q va) q 4096 m' (omega arith) (omega (arith, px-lt level va))

    linked-Clear : (level va : ℕ) → Clear linked level q va ps
    linked-Clear zero va = (omega (arith, is.above_null), page.0, fresh)
    linked-Clear (suc level) va = (
      (omega (arith, is.above_null), page.0, fresh),
      λ valid. cc (ap (flag_set pte_v) (linked-zero (suc level) va)),
    )

    linked-IsUnmapped : (level va : ℕ) → IsUnmapped linked level q va
    linked-IsUnmapped zero va = ap (flag_set pte_v) (linked-zero 0 va)
    linked-IsUnmapped (suc level) va =
        λ valid. cc (ap (flag_set pte_v) (linked-zero (suc level) va))

  -- What linking in a fresh page `q` at the entry `pte` gives.
  pub record Linked (m : Mem) (q pte : ℕ) (ps : List ℕ) (p : ℕ) (g : Mem) : Type 0 where
    pub chain : Chain l g p ps
    pub grows : Grows (q ∷ ps) m g
    pub valid : flag_set pte_v (load64 g pte) ≡ true
    pub target : pte2pa (load64 g pte) ≡ q
    pub clear : (level va : ℕ) → Clear g level q va ps
    pub unmapped : (level va : ℕ) → IsUnmapped g level q va

  pub link :
      (m m' : Mem) (q pt level va : ℕ) (ps : List ℕ)
      → IsPage l q
      → has q ps ≡ false
      → IsTable pt (q ∷ ps)
      → flag_set pte_v (load64 m (slot (suc level) pt va)) ≡ false
      → SameOutside q 4096 m m'
      → (p : ℕ) → Chain l m' p ps
      → Linked m q (slot (suc level) pt va) ps p (fresh_table m' q (slot (suc level) pt va))
  link m m' q pt level va ps page fresh table invalid same p c = record {
    chain = linked-Chain m m' q pt at ps page fresh table al here same p c;
    grows = linked-Grows m m' q pt at ps page fresh table al here same invalid;
    valid = rw entry (entry-valid m m' q pt at ps page fresh table al here same);
    target = rw entry (entry-target m m' q pt at ps page fresh table al here same);
    clear = linked-Clear m m' q pt at ps page fresh table al here same;
    unmapped = linked-IsUnmapped m m' q pt at ps page fresh table al here same;
  }
    where
      at : ℕ
      at = slot (suc level) pt va

      al : at % 8 ≡ 0
      al = slot-aligned (suc level) pt va table.1

      here : page_of at ≡ pt
      here = slot-page (suc level) pt va table.1

      entry : load64 (fresh_table m' q at) at ≡ bit_or (pa2pte q) pte_v
      entry = linked-entry m m' q pt at ps page fresh table al here same
