-- ===== src/Vm/Walk.antt =====
-- walk and walkaddr of vm.c.
pub mod Descent
pub mod Link
pub mod Frame
pub mod Alloc
use lab_utilities.Base.{
  ℕ, zero, suc, ◌+◌, ◌*◌, Bool, true, false, not, ◌||◌, bit_or, leb, ◌==◌, if◌then◌else◌,
}
use lab_utilities.Riscv.{pgsize, maxva, px, pte_v, pte_u, flag_set, pa2pte, pte2pa}
use lab_utilities.Machine.{Machine, Cmd, pure, fail, ◌>>=◌, ◌>>◌, read64, write64, memset}
use lab_utilities.Kalloc.{kalloc}

-- The loop of walk from a level down to level 0, at the page table `pagetable` of that level.
-- The result is the address of an entry, or 0.
unfoldable pub walk_loop : ℕ → ℕ → ℕ → Bool → Cmd Machine ℕ
walk_loop zero pagetable va alloc = pure (pagetable + 8 * px 0 va)
walk_loop (suc level) pagetable va alloc =
    let pte = pagetable + 8 * px (suc level) va in
    do
      entry ← read64 pte
      if flag_set pte_v entry
          then walk_loop level (pte2pa entry) va alloc
          else if not alloc
          then pure 0
          else do
            page ← kalloc
            if page == 0 then pure 0 else do
              memset page 0 pgsize
              write64 pte (bit_or (pa2pte page) pte_v)
              walk_loop level page va alloc

unfoldable pub walk : ℕ → ℕ → Bool → Cmd Machine ℕ
unfolding walk_loop
walk pagetable va alloc = if leb maxva va then fail "walk" else walk_loop 2 pagetable va alloc

-- The physical address of the page that `va` is in, or 0 if it is not mapped for the user.
unfoldable pub walkaddr : ℕ → ℕ → Cmd Machine ℕ
walkaddr pagetable va = if leb maxva va then pure 0 else do
  pte ← walk pagetable va false
  if pte == 0 then pure 0 else do
    entry ← read64 pte
    if not (flag_set pte_v entry)
        then pure 0
        else if not (flag_set pte_u entry)
        then pure 0
        else pure (pte2pa entry)
