-- ===== src/Vm/Spaces/Dealloc.antt =====
-- uvmdealloc of vm.c: the memory of a process made smaller.
use lab_utilities.Base.{
  ℕ, ◌+◌, ◌-◌, ◌*◌, ◌/◌, ◌%◌, ◌^◌, ◌<◌, ◌≤◌, ◌≡◌, inl, inr, refl, ap, ◌∙◌, leb, ltb, arith,
  Bool-cases, List, [], min, ltb→lt, lt→ltb, le→ltb, lt→leb,
}
use lab_utilities.Riscv.{pgsize, maxva, pg_round_up, sign_extend}
use lab_utilities.Riscv.Rounding.{pg_round_up_lem}
use lab_utilities.Layout.{Layout, IsLayout}
use lab_utilities.Machine.{Machine, ok}
use lab_utilities.Vm.Space.{uvmdealloc}
use lab_utilities.Vm.Spaces.{table, Roles, Pages}
use lab_utilities.Vm.Spaces.Size.{Holds, Shrunk, Shrunk-none, uvmunmap-Shrunk}

-- the number of pages of `sz` bytes
abbrev pub pages_of : ℕ → ℕ
pages_of sz = (sz + 4095) / 4096

pub round_up_pages : (sz : ℕ) → sz ≤ maxva → pg_round_up sz ≡ pages_of sz * 4096
round_up_pages sz h = pg_round_up_lem sz (omega arith)

pub sign_extend_small : (n : ℕ) → n < 2 ^ 31 → sign_extend n ≡ n
sign_extend_small n h = let e : n % 2 ^ 32 ≡ n = omega arith in rw (e, lt→ltb n (2 ^ 31) h)

module _ {l : Layout} (is : IsLayout l) (pt oldsz newsz top : ℕ) (s : Machine) (own : Roles)
    (ps : List ℕ) (fits : top * 4096 ≤ maxva) (low : oldsz ≤ top * 4096) (p : Pages l s own ps)
    (root : own pt ≡ table pt []) (h : Holds s own pt (pages_of oldsz) top) where
  -- The branch that unmaps something.
  dealloc_pages :
      newsz < oldsz
      → pages_of newsz < pages_of oldsz
      → (t : Machine) × (uvmdealloc l pt oldsz newsz s ≡ ok newsz t)
        × Shrunk l s own pt (pages_of newsz) (pages_of oldsz - pages_of newsz) top t
  unfolding uvmdealloc
  dealloc_pages less fewer =
      let d : ℕ = pages_of oldsz - pages_of newsz in
      let whole : pages_of newsz + d ≡ pages_of oldsz = omega (arith, fewer) in
      let (t, run, k) =
        uvmunmap-Shrunk is pt (pages_of newsz) d top s own ps fits (omega (arith, low, whole)) p
          root (rw whole h) in
      let count : sign_extend ((pages_of oldsz * 4096 - pages_of newsz * 4096) / pgsize) ≡ d =
        ap sign_extend (omega (arith, fewer)) ∙ sign_extend_small d (omega arith) in
      (
        t,
        rw
            (
              lt→leb oldsz newsz less,
              round_up_pages oldsz (omega arith),
              round_up_pages newsz (omega arith),
              lt→ltb (pages_of newsz * 4096) (pages_of oldsz * 4096) (omega (arith, fewer)),
              count,
              run,
            )
            refl,
        k,
      )

  -- The other branches leave the state alone.
  dealloc_nothing :
      pages_of (min oldsz newsz) ≡ pages_of oldsz
      → (t : Machine) × (uvmdealloc l pt oldsz newsz s ≡ ok (min oldsz newsz) t)
        × Shrunk l s own pt
            (pages_of (min oldsz newsz))
            (pages_of oldsz - pages_of (min oldsz newsz))
            top
            t
  unfolding uvmdealloc
  dealloc_nothing same =
      let none : pages_of oldsz - pages_of oldsz ≡ 0 = omega arith in
      (
        s,
        elim (Bool-cases (leb oldsz newsz)) [
          | inl more ↦ let e : min oldsz newsz ≡ oldsz = ground arith in rw (more, e) refl
          | inr less ↦
              let e : min oldsz newsz ≡ newsz = ground arith in
              let same' : pages_of newsz ≡ pages_of oldsz = rw e at same in
              rw
                (
                  less,
                  e,
                  round_up_pages oldsz (omega arith),
                  round_up_pages newsz (ground arith),
                  le→ltb (pages_of newsz * 4096) (pages_of oldsz * 4096) (omega (arith, same')),
                )
                refl
        ],
        rw (same, none) (Shrunk-none l s own ps pt (pages_of oldsz) top p h),
      )

  -- uvmdealloc from `oldsz` to `newsz`, of a space that holds `oldsz` bytes, returns the smaller size,
  -- and leaves a space that holds as many: the pages above have no entry and are no memory of it any
  -- more, and all other memory and every other entry of every space is as before.
  pub uvmdealloc-Shrunk :
      (t : Machine) × (uvmdealloc l pt oldsz newsz s ≡ ok (min oldsz newsz) t)
      × Shrunk l s own pt
          (pages_of (min oldsz newsz))
          (pages_of oldsz - pages_of (min oldsz newsz))
          top
          t
  uvmdealloc-Shrunk = elim (Bool-cases (ltb (pages_of (min oldsz newsz)) (pages_of oldsz))) [
    | inl fewer ↦
        let fewer' = ltb→lt (pages_of (min oldsz newsz)) (pages_of oldsz) fewer in
        let less : newsz < oldsz = omega (arith, fewer') in
        let smaller : min oldsz newsz ≡ newsz = omega arith in
        rw smaller (dealloc_pages less (omega (arith, fewer', smaller)))
    | inr same ↦ dealloc_nothing (ground arith)
  ]
