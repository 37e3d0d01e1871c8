-- ===== src/Kalloc/Boot.antt =====
-- freerange and kinit of lab system calls/kernel/kalloc.c, and a page freed twice.
use lab_utilities.Base.{
  ℕ, zero, suc, ◌+◌, ◌-◌, ◌*◌, ◌/◌, ◌%◌, ◌^◌, ◌≤◌, ◌<◌, ◌≡◌, ◌≢◌, refl, ap, false, arith, List, [],
  ◌∷◌, length, has, All, ==_ne, le→leb, lt→leb,
}
use lab_utilities.Memory.{Mem, load64, store64, fill}
use lab_utilities.Memory.Laws.{load64-store64_self}
use lab_utilities.Riscv.{pgsize, pg_round_up}
use lab_utilities.Riscv.Rounding.{pg_round_up_lem}
use lab_utilities.Layout.{Layout, IsLayout}
use lab_utilities.Machine.{Machine, ok, acquired, released, kmem, ◌>>◌, out_of_fuel}
use lab_utilities.Kalloc.{kfree, freerange_loop, freerange, kinit, getbytes, getbytes_loop}
use lab_utilities.Kalloc.FreeList.{IsPage, Chain, kfree-Frees, getbytes-length}

-- `n` pages from `p` on, pushed one after the other onto `ps`.
abbrev pub push_pages : ℕ → ℕ → List ℕ → List ℕ
push_pages zero p ps = ps
push_pages (suc n) p ps = push_pages n (p + pgsize) (p ∷ ps)

pub length-push_pages : (n p : ℕ) (ps : List ℕ) → length (push_pages n p ps) ≡ n + length ps
length-push_pages zero p ps = omega arith
length-push_pages (suc n) p ps = omega (arith, length-push_pages n (p + pgsize) (p ∷ ps))

-- All entries of a list lie below a bound, so the bound is not among them.
below-absent : (p : ℕ) (ps : List ℕ) → All (λ q. q < p) ps → has p ps ≡ false
below-absent p [] h = refl
below-absent p (q ∷ ps) h = ground (arith, below-absent p ps h.1)

below_mono : (p : ℕ) (ps : List ℕ) → All (λ q. q < p) ps → All (λ q. q < p + 4096) ps
below_mono p [] h = tt
below_mono p (q ∷ ps) h = (omega arith, below_mono p ps h.1)

module _ {l : Layout} (is : IsLayout l) where
  freerange_loop-Chain :
      (n fuel p pa_end : ℕ) (s : Machine) (ps : List ℕ)
      → p % 4096 ≡ 0
      → l.end ≤ p
      → pa_end ≤ l.phystop
      → p + 4096 * n ≤ pa_end
      → pa_end < p + 4096 * n + 4096
      → n < fuel
      → Chain l s.mem s.freelist ps
      → All (λ q. q < p) ps
      → (t : Machine) × (freerange_loop l fuel p pa_end s ≡ ok tt t)
        × Chain l t.mem t.freelist (push_pages n p ps)
  unfolding freerange_loop
  freerange_loop-Chain n zero p pa_end s ps al low high fits last enough c below =
      absurd (omega arith)
  freerange_loop-Chain zero (suc fuel) p pa_end s ps al low high fits last enough c below =
      (s, rw (lt→leb (p + 4096) pa_end (omega arith)), c)
  freerange_loop-Chain (suc n) (suc fuel) p pa_end s ps al low high fits last enough c below =
      let (t, freed, f) =
        kfree-Frees is s p ps (al, low, omega arith) c (below-absent p ps below) in
      let (u, run, c') =
        freerange_loop-Chain n fuel (p + 4096) pa_end t (p ∷ ps) (omega arith) (omega arith) high
          (omega arith) (omega arith) (omega arith) f.chain (omega arith, below_mono p ps below) in
      (u, rw (le→leb (p + 4096) pa_end (omega arith), freed) run, c')

  -- The pages between `end`, rounded up, and PHYSTOP.
  abbrev pub boot_pages : List ℕ
  boot_pages = push_pages ((l.phystop - pg_round_up l.end) / 4096) (pg_round_up l.end) []

  -- Booting hands out every whole page between the kernel and PHYSTOP, each once.
  pub kinit-Chain :
      (s : Machine)
      → l.end + 4095 < l.phystop
      → s.freelist ≡ 0
      → (t : Machine) × (kinit l s ≡ ok tt t) × Chain l t.mem t.freelist boot_pages
  unfolding kinit freerange
  kinit-Chain s room empty =
      let e : pg_round_up l.end ≡ (l.end + 4095) / 4096 * 4096 =
        pg_round_up_lem l.end (omega (arith, is.small)) in
      freerange_loop-Chain ((l.phystop - pg_round_up l.end) / 4096) (l.phystop / 4096 + 1)
        (pg_round_up l.end) l.phystop _ [] (omega arith) (omega arith) (omega arith) (omega arith)
        (omega arith) (omega arith) empty tt

  -- After boot the free memory is all of physical memory from `end`, rounded up.
  pub kinit-getbytes :
      (s : Machine)
      → l.end + 4095 < l.phystop
      → s.freelist ≡ 0
      → (t : Machine) × (kinit l s ≡ ok tt t)
        × (getbytes l t ≡ ok (l.phystop - (l.end + 4095) / 4096 * 4096) t)
  kinit-getbytes s room empty =
      let (t, run, c) = kinit-Chain s room empty in
      (
        t,
        run,
        rw (getbytes-length is t boot_pages c) (
            ap (λ n. ok n t)
              (omega (
                arith,
                is.small,
                is.counted,
                is.whole_pages,
                pg_round_up_lem l.end (omega (arith, is.small)),
                length-push_pages ((l.phystop - pg_round_up l.end) / 4096) (pg_round_up l.end) [],
              ))),
      )

  -- A link that points to itself keeps getbytes walking for ever.
  getbytes_loop_cycle :
      (fuel : ℕ) (s : Machine) (p n : ℕ)
      → load64 s.mem p ≡ p
      → p ≢ 0
      → getbytes_loop fuel p n s ≡ out_of_fuel
  unfolding getbytes_loop
  getbytes_loop_cycle zero s p n e h = refl
  getbytes_loop_cycle (suc fuel) s p n e h =
      rw (==_ne p 0 h, e) (getbytes_loop_cycle fuel s p ((n + 4096) % 2 ^ 32) e h)

  -- The allocator does not notice a second kfree of a page: the list becomes a cycle, along which
  -- getbytes never ends.
  pub kfree_twice :
      (s : Machine) (pa : ℕ)
      → IsPage l pa
      → (t : Machine) × ((kfree l pa >> kfree l pa) s ≡ ok tt t)
        × ((fuel n : ℕ) → getbytes_loop fuel t.freelist n t ≡ out_of_fuel)
  unfolding kfree
  kfree_twice s pa page =
      let first : Mem = store64 (fill s.mem pa 1 pgsize) pa s.freelist in
      let second : Mem = store64 (fill first pa 1 pgsize) pa pa in
      let t : Machine = record {
        mem = second;
        freelist = pa;
        trace = released kmem ∷ acquired kmem ∷ released kmem ∷ acquired kmem ∷ s.trace;
      } in
      (
        t,
        ground arith,
        λ fuel n.
            getbytes_loop_cycle fuel t pa n
              (load64-store64_self (fill first pa 1 pgsize) pa pa (omega (arith, is.small)))
              (omega (arith, is.above_null)),
      )
