-- ===== src/Kalloc/FreeList.antt =====
-- The free list of lab system calls/kernel/kalloc.c as a list of pages.
use lab_utilities.Base.{
  ℕ, zero, suc, ◌+◌, ◌-◌, ◌*◌, ◌/◌, ◌%◌, ◌^◌, ◌≤◌, ◌<◌, ◌≡◌, ◌≢◌, refl, ap, ◌∙◌, false, arith, List,
  [], ◌∷◌, length, has, Distinct, All, ==_ne, length-le_of_Distinct, ◌==◌,
}
use lab_utilities.Memory.{Mem, load64, store64, fill}
use lab_utilities.Memory.Laws.{
  SameOutside, load-SameOutside, fill-SameOutside, fill-inside, store-SameOutside,
  load64-store64_self,
}
use lab_utilities.Riscv.{pgsize}
use lab_utilities.Layout.{Layout, IsLayout}
use lab_utilities.Machine.{Machine, ok, acquired, released, kmem}
use lab_utilities.Kalloc.{kfree, kalloc, getbytes, getbytes_loop}

-- a page that the allocator may hand out
abbrev pub IsPage : Layout → ℕ → Type 0
IsPage l p = (p % pgsize ≡ 0) × (l.end ≤ p) × (p < l.phystop)

-- From `p` the links lead through the distinct pages `ps` to the null pointer.
abbrev pub Chain : Layout → Mem → ℕ → List ℕ → Type 0
Chain l m p [] = p ≡ 0
Chain l m p (q ∷ ps) = (p ≡ q) × IsPage l q × (has q ps ≡ false) × Chain l m (load64 m q) ps

module _ {l : Layout} (is : IsLayout l) where
  pub page-ne-zero : (p : ℕ) → IsPage l p → (p == 0) ≡ false
  page-ne-zero p h = ==_ne p 0 (omega (arith, is.above_null))

  page_end : (p : ℕ) → IsPage l p → p + 4096 ≤ l.phystop
  page_end p h = omega (arith, is.whole_pages)

  -- A write inside one page leaves the links of other pages as they are.
  pub Chain-frame :
      (m g : Mem) (a p : ℕ) (ps : List ℕ)
      → a % 4096 ≡ 0
      → has a ps ≡ false
      → SameOutside a 4096 m g
      → Chain l m p ps
      → Chain l g p ps
  Chain-frame m g a p [] al out same c = c
  Chain-frame m g a p (q ∷ ps) al out same (e, page, fresh, rest) =
      let ne : (a == q) ≡ false = ground arith in
      let same_link : load64 g q ≡ load64 m q =
        load-SameOutside m g q 8 a 4096 same (ground arith) in
      (e, page, fresh, rw same_link (Chain-frame m g a (load64 m q) ps al (ground arith) same rest))

  -- The head of the list is null or a page, so it fits 64 bits.
  head-lt : (m : Mem) (p : ℕ) (ps : List ℕ) → Chain l m p ps → p < 2 ^ 64
  head-lt m p [] c = omega arith
  head-lt m p (q ∷ ps) c = omega (arith, is.small)

  -- The memory that kfree leaves: junk, and the link in its first eight bytes.
  abbrev freed : Mem → ℕ → ℕ → Mem
  freed m pa next = store64 (fill m pa 1 pgsize) pa next

  freed-SameOutside : (m : Mem) (pa next : ℕ) → SameOutside pa 4096 m (freed m pa next)
  freed-SameOutside m pa next x h =
      store-SameOutside 8 pa next (fill m pa 1 pgsize) x (omega arith)
      ∙ fill-SameOutside m pa 1 4096 x h

  -- What a call that frees `pa` leaves behind.
  pub record Frees (s : Machine) (pa : ℕ) (ps : List ℕ) (t : Machine) : Type 0 where
    pub chain : Chain l t.mem t.freelist (pa ∷ ps)
    pub same : SameOutside pa 4096 s.mem t.mem
    pub locked : t.trace ≡ released kmem ∷ acquired kmem ∷ s.trace

  -- kfree of a page that is not on the free list puts it in front, and changes no other page.
  pub kfree-Frees :
      (s : Machine) (pa : ℕ) (ps : List ℕ)
      → IsPage l pa
      → Chain l s.mem s.freelist ps
      → has pa ps ≡ false
      → (t : Machine) × (kfree l pa s ≡ ok tt t) × Frees s pa ps t
  unfolding kfree
  kfree-Frees s pa ps page c fresh = (
    record {
      mem = freed s.mem pa s.freelist;
      freelist = pa;
      trace = released kmem ∷ acquired kmem ∷ s.trace;
    },
    ground arith,
    record {
      chain = (
        refl,
        page,
        fresh,
        rw link (
            Chain-frame s.mem (freed s.mem pa s.freelist) pa s.freelist ps page.0 fresh
              (freed-SameOutside s.mem pa s.freelist) c),
      );
      same = freed-SameOutside s.mem pa s.freelist;
      locked = refl;
    },
  )
    where
      link : load64 (freed s.mem pa s.freelist) pa ≡ s.freelist
      link =
          load64-store64_self (fill s.mem pa 1 pgsize) pa s.freelist (head-lt s.mem s.freelist ps c)

  -- What a call that hands out the first page leaves behind.
  pub record Allocates (s : Machine) (q : ℕ) (ps : List ℕ) (t : Machine) : Type 0 where
    pub chain : Chain l t.mem t.freelist ps
    pub same : SameOutside q 4096 s.mem t.mem
    pub junk : (x : ℕ) → q ≤ x → x < q + 4096 → t.mem x ≡ 5
    pub locked : t.trace ≡ released kmem ∷ acquired kmem ∷ s.trace

  -- kalloc with a free page left takes the first one, fills it with 5, and changes no other page.
  pub kalloc-Allocates :
      (s : Machine) (q : ℕ) (ps : List ℕ)
      → Chain l s.mem s.freelist (q ∷ ps)
      → (t : Machine) × (kalloc s ≡ ok q t) × Allocates s q ps t
  unfolding kalloc
  kalloc-Allocates s q ps (e, page, fresh, rest) = (
    record {
      mem = fill s.mem q 5 pgsize;
      freelist = load64 s.mem q;
      trace = released kmem ∷ acquired kmem ∷ s.trace;
    },
    rw (e, page-ne-zero q page),
    record {
      chain =
          Chain-frame s.mem (fill s.mem q 5 pgsize) q (load64 s.mem q) ps page.0 fresh
            (fill-SameOutside s.mem q 5 4096) rest;
      same = fill-SameOutside s.mem q 5 4096;
      junk = fill-inside s.mem q 5 4096;
      locked = refl;
    },
  )

  -- Out of memory: the null pointer, and nothing but the lock is touched.
  pub kalloc-null :
      (s : Machine)
      → Chain l s.mem s.freelist []
      → kalloc s ≡ ok 0 (record s { trace = released kmem ∷ acquired kmem ∷ s.trace })
  unfolding kalloc
  kalloc-null s e = rw e

  Chain-Distinct : (m : Mem) (p : ℕ) (ps : List ℕ) → Chain l m p ps → Distinct ps
  Chain-Distinct m p [] c = tt
  Chain-Distinct m p (q ∷ ps) (_, _, fresh, rest) = (fresh, Chain-Distinct m (load64 m q) ps rest)

  getbytes_loop-length :
      (fuel : ℕ) (s : Machine) (p n : ℕ) (ps : List ℕ)
      → Chain l s.mem p ps
      → length ps < fuel
      → n + 4096 * length ps < 2 ^ 32
      → getbytes_loop fuel p n s ≡ ok (n + 4096 * length ps) s
  unfolding getbytes_loop
  getbytes_loop-length zero s p n ps c h b = absurd (omega arith)
  getbytes_loop-length (suc fuel) s p n [] c h b = let e : n + 0 ≡ n = omega arith in rw (c, e)
  getbytes_loop-length (suc fuel) s p n (q ∷ ps) (e, page, _, rest) h b =
      let wrap : (n + 4096) % 2 ^ 32 ≡ n + 4096 = omega arith in
      let total : n + 4096 * suc (length ps) ≡ n + 4096 + 4096 * length ps = omega arith in
      rw (e, page-ne-zero q page, wrap, total)
        (getbytes_loop-length fuel s (load64 s.mem q) (n + 4096) ps rest (omega arith)
          (omega arith))

  -- The pages of the list, by number from the kernel's end on, are distinct and below the end of physical
  -- memory.
  page_numbers : List ℕ → List ℕ
  page_numbers [] = []
  page_numbers (q ∷ ps) = (q / 4096 - l.end / 4096) ∷ page_numbers ps

  length-page_numbers : (ps : List ℕ) → length (page_numbers ps) ≡ length ps
  unfolding page_numbers
  length-page_numbers [] = refl
  length-page_numbers (q ∷ ps) = ap suc (length-page_numbers ps)

  has-page_numbers :
      (m : Mem) (q p : ℕ) (ps : List ℕ)
      → IsPage l q
      → Chain l m p ps
      → has q ps ≡ false
      → has (q / 4096 - l.end / 4096) (page_numbers ps) ≡ false
  unfolding page_numbers
  has-page_numbers m q p [] al c h = refl
  has-page_numbers m q p (r ∷ ps) al (_, page, _, rest) h =
      let ne : (q == r) ≡ false = ground arith in
      let ne' : q ≢ r = ground arith in
      let apart : (q / 4096 - l.end / 4096 == r / 4096 - l.end / 4096) ≡ false =
        ==_ne (q / 4096 - l.end / 4096) (r / 4096 - l.end / 4096) (omega (arith, al, page, ne')) in
      rw apart (has-page_numbers m q (load64 m r) ps al rest (ground arith))

  Chain-numbers :
      (m : Mem) (p : ℕ) (ps : List ℕ)
      → Chain l m p ps
      → Distinct (page_numbers ps)
        × All (λ x. x < l.phystop / 4096 - l.end / 4096) (page_numbers ps)
  unfolding page_numbers
  Chain-numbers m p [] c = (tt, tt)
  Chain-numbers m p (q ∷ ps) (_, page, fresh, rest) =
      let (d, b) = Chain-numbers m (load64 m q) ps rest in
      (
        (has-page_numbers m q (load64 m q) ps page rest fresh, d),
        (omega (arith, is.whole_pages), b),
      )

  -- There are at most as many free pages as pages of physical memory after the kernel.
  pub Chain-length :
      (m : Mem) (p : ℕ) (ps : List ℕ) → Chain l m p ps → length ps ≤ l.phystop / 4096 - l.end / 4096
  Chain-length m p ps c =
      let (d, b) = Chain-numbers m p ps c in
      omega (
        arith,
        length-page_numbers ps,
        length-le_of_Distinct (l.phystop / 4096 - l.end / 4096) (page_numbers ps) d b,
      )

  -- getbytes ends, changes nothing, and returns the size of the free pages in bytes.
  pub getbytes-length :
      (s : Machine) (ps : List ℕ)
      → Chain l s.mem s.freelist ps
      → getbytes l s ≡ ok (4096 * length ps) s
  unfolding getbytes
  getbytes-length s ps c =
      let e : 4096 * length ps ≡ 0 + 4096 * length ps = omega arith in
      rw e (
        getbytes_loop-length (l.phystop / 4096 + 1) s s.freelist 0 ps c
          (omega (arith, Chain-length s.mem s.freelist ps c))
          (omega (arith, is.counted, Chain-length s.mem s.freelist ps c)))
