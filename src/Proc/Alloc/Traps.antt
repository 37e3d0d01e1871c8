-- ===== src/Proc/Alloc/Traps.antt =====
-- lab traps/kernel/proc.c: allocproc and freeproc, with the page that saves the registers for an alarm.
use lab_utilities.Base.{ℕ, not, Option, none, some, ◌==◌, if◌then◌else◌}
use lab_utilities.Layout.{Layout}
use lab_utilities.Machine.{Cmd, pure, ◌>>=◌, ◌>>◌, when}
use lab_utilities.Kalloc.{kfree, kalloc}
use lab_utilities.Proc.{used, World, on_machine, get_proc, modify}
use lab_utilities.Proc.Alloc.{allocpid, find_unused, cleared, give_up, start_context, Lab}
use lab_utilities.Proc.Alloc.SystemCalls.{proc_pagetable, proc_freepagetable}

unfoldable pub freeproc : Layout → ℕ → Cmd World (Unit {0})
freeproc l i = do
  p ← get_proc i
  on_machine (when (not (p.trapframe == 0)) (kfree l p.trapframe))
  modify i (λ q. record q { trapframe = 0 })
  on_machine (when (not (p.trapframesv == 0)) (kfree l p.trapframesv))
  modify i (λ q. record q { trapframesv = 0 })
  on_machine (when (not (p.pagetable == 0)) (proc_freepagetable l p.pagetable p.sz))
  modify i cleared

-- allocproc from `found:` on: no alarm is set.
unfoldable pub allocproc_found : Layout → ℕ → Cmd World (Option ℕ)
allocproc_found l i = do
  pid ← allocpid
  modify i (λ p. record p { pid = pid; state = used })
  modify i (λ p. record p { ticks = 0; ainterv = 0; handler = 0; hfl = 0 })
  trapframe ← on_machine kalloc
  modify i (λ p. record p { trapframe = trapframe })
  if trapframe == 0 then give_up (freeproc l) i else do
    trapframesv ← on_machine kalloc
    modify i (λ p. record p { trapframesv = trapframesv })
    if trapframesv == 0 then give_up (freeproc l) i else do
      pagetable ← on_machine (proc_pagetable l trapframe)
      modify i (λ p. record p { pagetable = pagetable })
      if pagetable == 0
          then give_up (freeproc l) i
          else do modify i (start_context l); pure (some i)

unfoldable pub allocproc : Layout → Cmd World (Option ℕ)
allocproc l = do
  found ← find_unused l.nproc 0
  elim found [ none ↦ pure none | some i ↦ allocproc_found l i ]

abbrev pub traps : Lab
traps = record { allocproc = allocproc; freeproc = freeproc; inherit = λ p np. np }
