-- ===== src/Examples/Life.antt =====
-- The theorems on the life of a process and on the stack trace.
use lab_utilities.Base.{
  ℕ, ◌+◌, ◌-◌, ◌^◌, ◌==◌, ◌≡◌, refl, false, [], ◌∷◌, none, some, arith, ltb, if◌then◌else◌,
}
use lab_utilities.Memory.{load, load64}
use lab_utilities.Machine.{Machine, ok}
use lab_utilities.Riscv.{u64, pg_round_down}
use lab_utilities.Riscv.Rounding.{pg_round_down_lem}
use lab_utilities.Printf.{backtrace}
use lab_utilities.Printf.Backtrace.{backtrace-Returns, inside, outside}
use lab_utilities.Kalloc.FreeList.{Chain}
use lab_utilities.Proc.{Proc, World, runnable, sleeping, proc_ptr}
use lab_utilities.Proc.Alloc.PageTables.{allocproc_found}
use lab_utilities.Proc.Alloc.Stale.{allocproc_found-frees_stale}
use lab_utilities.Proc.Sched.Wakeup.{Quiet}
use lab_utilities.Proc.Alloc.SystemCalls.{system_calls}
use lab_utilities.Proc.Life.{Wait, wait, reparent, exit}
use lab_utilities.Proc.Life.Waiting.{AllAlive, Waited, wait-Waited}
use lab_utilities.Proc.Life.Reparent.{Woke, adopt, reparent-Woke}
use lab_utilities.Proc.Life.Exit.{exit-Exited, exit-wakes_parent, Exited}
use lab_utilities.Examples.{sample, sample-IsLayout, booted, shell, unbooted}

-- Process 2, a child of process 1, which waits for it; both descend from process 0.
abbrev waiter : Proc
waiter = record shell { parent = some 0; state = sleeping; chan = 101 }

abbrev leaver : Proc
leaver = record shell { parent = some 1; ofile = 3 ∷ 0 ∷ [] }

abbrev family : World
family = record booted {
  procs = λ k. if k == 1 then waiter else if k == 2 then leaver else shell;
  current = some 2;
}

reparent-Woke_example :
    (v : World) × (reparent sample 1 family ≡ ok tt v)
    × ((k : ℕ)
        → Woke (proc_ptr sample (some 0)) (adopt (some 0) 1 (ltb k 3) (family.procs k)) (v.procs k))
    × Quiet family v
reparent-Woke_example = reparent-Woke sample 1 family

exit-Exited_example : (v : World) × (exit sample 2 7 family ≡ ok 0 v) × Exited sample 2 7 family v
exit-Exited_example = exit-Exited sample 2 7 family refl refl refl refl

exit-wakes_parent_example :
    (v : World) × (exit sample 2 7 family ≡ ok 0 v) × ((v.procs 1).state ≡ runnable)
exit-wakes_parent_example =
    exit-wakes_parent sample 2 7 family refl refl refl refl 1 (omega arith) (omega arith) refl refl
      refl refl

-- A process table whose entry 1 had the page at 12288 as its read-only page, without free memory.
abbrev reused : World
reused = record booted { procs = λ k. record shell { usysro = 12288; pagetable = 0 } }

allocproc_found-frees_stale_example :
    (v : World) × (allocproc_found sample 1 reused ≡ ok none v)
    × Chain sample v.machine.mem v.machine.freelist (12288 ∷ [])
    × ((v.procs 1).usysro ≡ 12288)
allocproc_found-frees_stale_example =
    allocproc_found-frees_stale sample-IsLayout 1 12288 reused refl refl
      (omega arith, omega arith, omega arith) refl

-- A stack whose saved words all point out of the page.
abbrev saved_words : Machine
saved_words = record unbooted { mem = λ x. 255 }

leaves : (a : ℕ) → load64 saved_words.mem a ≡ 2 ^ 64 - 1
unfolding load
leaves a = refl

backtrace-Returns_example :
    (t : Machine) × (backtrace false 0 4200 saved_words ≡ ok (pg_round_down 4200) t)
    × (t.mem ≡ saved_words.mem)
    × (t.freelist ≡ 0)
backtrace-Returns_example =
    backtrace-Returns false 0 4200 saved_words (omega arith) (λ x. omega arith)
      (inside 4200 (omega (arith, leaves (u64 (4200 + 2 ^ 64 - 16)))) (
        rw (leaves (u64 (4200 + 2 ^ 64 - 16))) (
          outside (2 ^ 64 - 1) (
            omega (
              arith,
              pg_round_down_lem 4200 (omega arith),
              pg_round_down_lem (2 ^ 64 - 1) (omega arith),
            )))))

-- No child of process 0 has exited.
all_alive : AllAlive 3 0 family
all_alive k low mine e = ground arith

wait-Waited_example :
    (r : Wait) × (v : World) × (wait system_calls sample 0 0 family ≡ ok r v)
    × Waited sample 0 family r v
wait-Waited_example = wait-Waited system_calls sample 0 0 family all_alive refl refl refl
