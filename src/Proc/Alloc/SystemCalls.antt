-- ===== src/Proc/Alloc/SystemCalls.antt =====
-- lab system calls/kernel/proc.c: allocproc, freeproc, proc_pagetable and proc_freepagetable. The two
-- functions on page tables are the same in lab traps.
use lab_utilities.Base.{ℕ, false, not, bit_or, Option, none, some, ◌==◌, if◌then◌else◌}
use lab_utilities.Riscv.{pgsize, pte_r, pte_w, pte_x}
use lab_utilities.Layout.{Layout}
use lab_utilities.Machine.{Machine, Cmd, pure, ◌>>=◌, ◌>>◌, when}
use lab_utilities.Kalloc.{kfree, kalloc}
use lab_utilities.Vm.Map.{done, failed, mappages, uvmunmap}
use lab_utilities.Vm.Space.{uvmcreate, uvmfree}
use lab_utilities.Proc.{used, World, on_machine, get_proc, modify}
use lab_utilities.Proc.Alloc.{allocpid, find_unused, cleared, give_up, start_context, Lab}

-- A user page table with the trampoline and the trapframe, or 0.
unfoldable pub proc_pagetable : Layout → (trapframe : ℕ) → Cmd Machine ℕ
proc_pagetable l trapframe = do
  pagetable ← uvmcreate
  if pagetable == 0 then pure 0 else do
    first ← mappages pagetable l.trampoline pgsize l.trampoline_text (bit_or pte_r pte_x)
    elim first [
      | failed ↦ (uvmfree l pagetable 0 >> pure 0)
      | done ↦ do
        second ← mappages pagetable l.trapframe pgsize trapframe (bit_or pte_r pte_w)
        elim second [
          | failed ↦ do uvmunmap l pagetable l.trampoline 1 false; uvmfree l pagetable 0; pure 0
          | done ↦ pure pagetable
        ]
    ]

unfoldable pub proc_freepagetable : Layout → ℕ → ℕ → Cmd Machine (Unit {0})
proc_freepagetable l pagetable sz = do
  uvmunmap l pagetable l.trampoline 1 false
  uvmunmap l pagetable l.trapframe 1 false
  uvmfree l pagetable sz

-- `mask` keeps its value.
unfoldable pub freeproc : Layout → ℕ → Cmd World (Unit {0})
freeproc l i = do
  p ← get_proc i
  on_machine (when (not (p.trapframe == 0)) (kfree l p.trapframe))
  modify i (λ q. record q { trapframe = 0 })
  on_machine (when (not (p.pagetable == 0)) (proc_freepagetable l p.pagetable p.sz))
  modify i cleared

-- allocproc from `found:` on.
unfoldable pub allocproc_found : Layout → ℕ → Cmd World (Option ℕ)
allocproc_found l i = do
  pid ← allocpid
  modify i (λ p. record p { pid = pid; state = used })
  trapframe ← on_machine kalloc
  modify i (λ p. record p { trapframe = trapframe })
  if trapframe == 0 then give_up (freeproc l) i else do
    pagetable ← on_machine (proc_pagetable l trapframe)
    modify i (λ p. record p { pagetable = pagetable })
    if pagetable == 0 then give_up (freeproc l) i else do modify i (start_context l); pure (some i)

unfoldable pub allocproc : Layout → Cmd World (Option ℕ)
allocproc l = do
  found ← find_unused l.nproc 0
  elim found [ none ↦ pure none | some i ↦ allocproc_found l i ]

abbrev pub system_calls : Lab
system_calls = record {
  allocproc = allocproc;
  freeproc = freeproc;
  inherit = λ p np. record np { mask = p.mask };
}
