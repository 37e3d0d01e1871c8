-- ===== src/Vm/Space.antt =====
-- uvmcreate, uvmfirst, uvmalloc, uvmdealloc, freewalk, uvmfree, uvmcopy and uvmclear of vm.c.
use lab_utilities.Base.{
  ℕ, zero, suc, ◌+◌, ◌-◌, ◌*◌, ◌/◌, true, false, not, ◌&&◌, bit_or, bit_and, ltb, leb, ◌==◌,
  if◌then◌else◌,
}
use lab_utilities.Riscv.{
  pgsize, u64, bit_not, pte_v, pte_r, pte_w, pte_x, pte_u, flag_set, pte2pa, pte_flags, pg_round_up,
  sign_extend,
}
use lab_utilities.Layout.{Layout}
use lab_utilities.Machine.{
  Machine, Cmd, pure, fail, diverge, ◌>>=◌, ◌>>◌, when, read64, write64, memset, memmove,
}
use lab_utilities.Kalloc.{kfree, kalloc}
use lab_utilities.Vm.Walk.{walk}
use lab_utilities.Vm.Map.{Status, done, failed, mappages, uvmunmap}

unfoldable pub uvmcreate : Cmd Machine ℕ
uvmcreate = do
  pagetable ← kalloc
  if pagetable == 0 then pure 0 else do memset pagetable 0 pgsize; pure pagetable

-- The results of kalloc and mappages are not looked at.
unfoldable pub uvmfirst : ℕ → ℕ → ℕ → Cmd Machine (Unit {0})
uvmfirst pagetable src sz = if leb pgsize sz then fail "uvmfirst: more than a page" else do
  page ← kalloc
  memset page 0 pgsize
  _ ← mappages pagetable 0 pgsize page (bit_or (bit_or (bit_or pte_w pte_r) pte_x) pte_u)
  memmove page src sz

unfoldable pub uvmdealloc : Layout → ℕ → ℕ → ℕ → Cmd Machine ℕ
uvmdealloc l pagetable oldsz newsz = if leb oldsz newsz then pure oldsz else do
  when (ltb (pg_round_up newsz) (pg_round_up oldsz)) (
      uvmunmap l pagetable (pg_round_up newsz)
        (sign_extend ((pg_round_up oldsz - pg_round_up newsz) / pgsize)) true)
  pure newsz

unfoldable pub uvmalloc_loop : Layout → ℕ → ℕ → ℕ → ℕ → ℕ → ℕ → Cmd Machine ℕ
uvmalloc_loop l zero pagetable a oldsz newsz xperm = diverge
uvmalloc_loop l (suc fuel) pagetable a oldsz newsz xperm =
    let next = uvmalloc_loop l fuel pagetable (u64 (a + pgsize)) oldsz newsz xperm in
    if not (ltb a newsz) then pure newsz else do
      page ← kalloc
      if page == 0 then (uvmdealloc l pagetable a oldsz >> pure 0) else do
        memset page 0 pgsize
        r ← mappages pagetable a pgsize page (bit_or (bit_or pte_r pte_u) xperm)
        elim r [ done ↦ next | failed ↦ kfree l page >> uvmdealloc l pagetable a oldsz >> pure 0 ]

unfoldable pub uvmalloc : Layout → ℕ → ℕ → ℕ → ℕ → Cmd Machine ℕ
unfolding uvmalloc_loop
uvmalloc l pagetable oldsz newsz xperm =
    if ltb newsz oldsz
    then pure oldsz
    else let oldsz' = pg_round_up oldsz in
      uvmalloc_loop l (newsz / pgsize + 2) pagetable oldsz' oldsz' newsz xperm

-- The loop of freewalk over the entries from `i` on; `child` frees a lower table.
unfoldable pub freewalk_loop : (ℕ → Cmd Machine (Unit {0})) → ℕ → ℕ → ℕ → Cmd Machine (Unit {0})
freewalk_loop child zero i pagetable = pure tt
freewalk_loop child (suc n) i pagetable =
    let next = freewalk_loop child n (i + 1) pagetable in
    do
      pte ← read64 (pagetable + 8 * i)
      if flag_set pte_v pte && (bit_and pte (bit_or (bit_or pte_r pte_w) pte_x) == 0)
          then (child (pte2pa pte) >> write64 (pagetable + 8 * i) 0 >> next)
          else if flag_set pte_v pte
          then fail "freewalk: leaf"
          else next

-- The fuel bounds the depth of the recursion.
unfoldable pub freewalk_depth : Layout → ℕ → ℕ → Cmd Machine (Unit {0})
unfolding freewalk_loop
freewalk_depth l zero pagetable = diverge
freewalk_depth l (suc depth) pagetable =
    freewalk_loop (freewalk_depth l depth) 512 0 pagetable >> kfree l pagetable

-- A page table has three levels.
unfoldable pub freewalk : Layout → ℕ → Cmd Machine (Unit {0})
unfolding freewalk_depth
freewalk l = freewalk_depth l 3

unfoldable pub uvmfree : Layout → ℕ → ℕ → Cmd Machine (Unit {0})
uvmfree l pagetable sz = do
  when (ltb 0 sz) (uvmunmap l pagetable 0 (pg_round_up sz / pgsize) true)
  freewalk l pagetable

-- The code at `err:` of uvmcopy.
unfoldable pub uvmcopy_err : Layout → ℕ → ℕ → Cmd Machine Status
uvmcopy_err l new i = uvmunmap l new 0 (i / pgsize) true >> pure failed

unfoldable pub uvmcopy_loop : Layout → ℕ → ℕ → ℕ → ℕ → ℕ → Cmd Machine Status
unfolding uvmcopy_err
uvmcopy_loop l zero old new i sz = diverge
uvmcopy_loop l (suc fuel) old new i sz =
    let next = uvmcopy_loop l fuel old new (u64 (i + pgsize)) sz in
    if not (ltb i sz) then pure done else do
      pte ← walk old i false
      if pte == 0 then fail "uvmcopy: pte should exist" else do
        entry ← read64 pte
        if not (flag_set pte_v entry) then fail "uvmcopy: page not present" else do
          page ← kalloc
          if page == 0 then uvmcopy_err l new i else do
            memmove page (pte2pa entry) pgsize
            r ← mappages new i pgsize page (pte_flags entry)
            elim r [ done ↦ next | failed ↦ kfree l page >> uvmcopy_err l new i ]

unfoldable pub uvmcopy : Layout → ℕ → ℕ → ℕ → Cmd Machine Status
unfolding uvmcopy_loop
uvmcopy l old new sz = uvmcopy_loop l (sz / pgsize + 2) old new 0 sz

unfoldable pub uvmclear : ℕ → ℕ → Cmd Machine (Unit {0})
uvmclear pagetable va = do
  pte ← walk pagetable va false
  if pte == 0
      then fail "uvmclear"
      else do entry ← read64 pte; write64 pte (bit_and entry (bit_not pte_u))
