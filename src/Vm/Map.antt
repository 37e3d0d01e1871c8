-- ===== src/Vm/Map.antt =====
-- mappages, kvmmap and uvmunmap of vm.c.
pub mod Page
pub mod Unmap
use lab_utilities.Base.{
  ℕ, zero, suc, ◌+◌, ◌-◌, ◌*◌, ◌/◌, ◌%◌, ◌^◌, Bool, true, false, not, bit_or, ltb, ◌==◌,
  if◌then◌else◌,
}
use lab_utilities.Riscv.{pgsize, u64, pte_v, flag_set, pa2pte, pte2pa, pte_flags}
use lab_utilities.Layout.{Layout}
use lab_utilities.Machine.{Machine, Cmd, pure, fail, diverge, ◌>>=◌, ◌>>◌, when, read64, write64}
use lab_utilities.Kalloc.{kfree}
use lab_utilities.Vm.Walk.{walk}

-- The C results 0 and -1 of an int function.
pub data Status : Type 0 where
  done failed : Status

-- One round for each page: `last` is reached after `size / PGSIZE` rounds.
unfoldable pub mappages_loop : ℕ → ℕ → ℕ → ℕ → ℕ → ℕ → Cmd Machine Status
mappages_loop zero pagetable a last pa perm = diverge
mappages_loop (suc fuel) pagetable a last pa perm = do
  pte ← walk pagetable a true
  if pte == 0 then pure failed else do
    entry ← read64 pte
    if flag_set pte_v entry then fail "mappages: remap" else do
      write64 pte (bit_or (bit_or (pa2pte pa) perm) pte_v)
      if a == last
          then pure done
          else mappages_loop fuel pagetable (u64 (a + pgsize)) last (u64 (pa + pgsize)) perm

-- mappages(pagetable, va, size, pa, perm)
unfoldable pub mappages : ℕ → ℕ → ℕ → ℕ → ℕ → Cmd Machine Status
unfolding mappages_loop
mappages pagetable va size pa perm =
    if not (va % pgsize == 0)
    then fail "mappages: va not aligned"
    else if not (size % pgsize == 0)
    then fail "mappages: size not aligned"
    else if size == 0
    then fail "mappages: size"
    else mappages_loop (size / pgsize) pagetable va (u64 (va + size + 2 ^ 64 - pgsize)) pa perm

unfoldable pub kvmmap : ℕ → ℕ → ℕ → ℕ → ℕ → Cmd Machine (Unit {0})
kvmmap kpgtbl va pa sz perm = do
  r ← mappages kpgtbl va sz pa perm
  elim r [ done ↦ pure tt | failed ↦ fail "kvmmap" ]

-- The loop of uvmunmap up to the address `stop`.
unfoldable pub uvmunmap_loop : Layout → ℕ → ℕ → ℕ → ℕ → Bool → Cmd Machine (Unit {0})
uvmunmap_loop l zero pagetable a stop do_free = diverge
uvmunmap_loop l (suc fuel) pagetable a stop do_free =
    let next = uvmunmap_loop l fuel pagetable (u64 (a + pgsize)) stop do_free in
    if not (ltb a stop) then pure tt else do
      pte ← walk pagetable a false
      if pte == 0 then fail "uvmunmap: walk" else do
        entry ← read64 pte
        if not (flag_set pte_v entry)
            then fail "uvmunmap: not mapped"
            else if pte_flags entry == pte_v
            then fail "uvmunmap: not a leaf"
            else do when do_free (kfree l (pte2pa entry)); write64 pte 0; next

-- uvmunmap(pagetable, va, npages, do_free): at most `npages` rounds and the last test.
unfoldable pub uvmunmap : Layout → ℕ → ℕ → ℕ → Bool → Cmd Machine (Unit {0})
unfolding uvmunmap_loop
uvmunmap l pagetable va npages do_free =
    if not (va % pgsize == 0)
    then fail "uvmunmap: not aligned"
    else uvmunmap_loop l (npages + 1) pagetable va (u64 (va + npages * pgsize)) do_free
