-- ===== src/Vm/Kernel.antt =====
-- The kernel's page table: kvmmake, kvminit and kvminithart of vm.c, and proc_mapstacks of
-- lab page tables/kernel/proc.c.
use lab_utilities.Base.{ℕ, zero, suc, ◌+◌, ◌-◌, ◌^◌, bit_or, ◌==◌, if◌then◌else◌}
use lab_utilities.Riscv.{pgsize, u64, pte_r, pte_w, pte_x, make_satp}
use lab_utilities.Layout.{Layout}
use lab_utilities.Machine.{Machine, Cmd, pure, fail, ◌>>=◌, ◌>>◌, memset, emit, w_satp, sfence_vma}
use lab_utilities.Kalloc.{kalloc}
use lab_utilities.Vm.Map.{kvmmap}

-- The loop of proc_mapstacks over the process numbers from `i` on.
pub proc_mapstacks_loop : Layout → ℕ → ℕ → ℕ → Cmd Machine (Unit {0})
proc_mapstacks_loop l zero i kpgtbl = pure tt
proc_mapstacks_loop l (suc n) i kpgtbl = do
  pa ← kalloc
  if pa == 0 then fail "kalloc" else do
    kvmmap kpgtbl (l.kstack i) pa pgsize (bit_or pte_r pte_w)
    proc_mapstacks_loop l n (i + 1) kpgtbl

unfoldable pub proc_mapstacks : Layout → ℕ → Cmd Machine (Unit {0})
unfolding proc_mapstacks_loop
proc_mapstacks l kpgtbl = proc_mapstacks_loop l l.nproc 0 kpgtbl

-- The result of the first kalloc is not looked at.
unfoldable pub kvmmake : Layout → Cmd Machine ℕ
kvmmake l = do
  kpgtbl ← kalloc
  memset kpgtbl 0 pgsize
  kvmmap kpgtbl l.uart0 l.uart0 pgsize (bit_or pte_r pte_w)
  kvmmap kpgtbl l.virtio0 l.virtio0 pgsize (bit_or pte_r pte_w)
  kvmmap kpgtbl l.plic l.plic 0x400000 (bit_or pte_r pte_w)
  kvmmap kpgtbl l.kernbase l.kernbase (u64 (l.etext + 2 ^ 64 - l.kernbase)) (bit_or pte_r pte_x)
  kvmmap kpgtbl l.etext l.etext (u64 (l.phystop + 2 ^ 64 - l.etext)) (bit_or pte_r pte_w)
  kvmmap kpgtbl l.trampoline l.trampoline_text pgsize (bit_or pte_r pte_x)
  proc_mapstacks l kpgtbl
  pure kpgtbl

unfoldable pub kvminit : Layout → Cmd Machine ℕ
kvminit l = do kernel_pagetable ← kvmmake l; pure kernel_pagetable

-- kvminit stores what kvmmake returns in `kernel_pagetable`; kvminithart installs it.
unfoldable pub kvminithart : ℕ → Cmd Machine (Unit {0})
kvminithart kernel_pagetable = do
  emit sfence_vma
  emit (w_satp (make_satp kernel_pagetable))
  emit sfence_vma
