-- ===== src/Proc/Alloc/Stale.antt =====
-- The read-only page of a process in lab page tables/kernel/proc.c, after a failed allocproc.
use lab_utilities.Base.{ℕ, ◌+◌, ◌%◌, ◌^◌, ◌≡◌, refl, ◌∙◌, false, [], ◌∷◌, none, ◌==◌, ==_refl}
use lab_utilities.Layout.{Layout, IsLayout}
use lab_utilities.Machine.{Machine, ok, acquired, released, kmem, pid_lock, proc_lock}
use lab_utilities.Kalloc.{kfree, kalloc}
use lab_utilities.Kalloc.FreeList.{IsPage, Chain, kfree-Frees, kalloc-null, page-ne-zero}
use lab_utilities.Proc.{used, World, update}
use lab_utilities.Proc.Alloc.{allocpid, cleared}
use lab_utilities.Proc.Alloc.PageTables.{freeproc, allocproc_found}

-- The world after the failed allocation: `t` is the machine that kfree left.
abbrev given_up : ℕ → World → Machine → World
given_up i w t = record w {
  machine = record t { trace = released (proc_lock i) ∷ t.trace };
  nextpid = (w.nextpid + 1) % 2 ^ 32;
  procs =
      update
        (update
          (update (update w.procs i (λ p. record p { pid = w.nextpid; state = used })) i
            (λ p. record p { trapframe = 0 }))
          i (λ q. record q { trapframe = 0 }))
        i cleared;
}

gives_up :
    (l : Layout) (i pa : ℕ) (w : World) (m t : Machine)
    → (w.procs i).usysro ≡ pa
    → (w.procs i).pagetable ≡ 0
    → (pa == 0) ≡ false
    → kalloc (record w.machine { trace = released pid_lock ∷ acquired pid_lock ∷ w.machine.trace })
      ≡ ok 0 m
    → kfree l pa m ≡ ok tt t
    → allocproc_found l i w ≡ ok none (given_up i w t)
unfolding allocproc_found freeproc allocpid update
gives_up l i pa w m t stale no_table page no_memory freed =
    rw (no_memory, ==_refl i, stale, no_table, page, freed)

given_up-stale :
    (i : ℕ) (w : World) (t : Machine) → ((given_up i w t).procs i).usysro ≡ (w.procs i).usysro
unfolding update
given_up-stale i w t = rw (==_refl i)

module _ {l : Layout} (is : IsLayout l) where
  -- Where allocproc finds no memory for the trapframe, it frees the page that the entry's last process
  -- had as its read-only page, whoever owns that page by then, and the entry keeps the address, so
  -- that the next failure frees it again.
  pub allocproc_found-frees_stale :
      (i pa : ℕ) (w : World)
      → (w.procs i).usysro ≡ pa
      → (w.procs i).pagetable ≡ 0
      → IsPage l pa
      → Chain l w.machine.mem w.machine.freelist []
      → (v : World) × (allocproc_found l i w ≡ ok none v)
        × Chain l v.machine.mem v.machine.freelist (pa ∷ [])
        × ((v.procs i).usysro ≡ pa)
  allocproc_found-frees_stale i pa w stale no_table page empty =
      let here : Machine = record w.machine {
        trace = released pid_lock ∷ acquired pid_lock ∷ w.machine.trace;
      } in
      let m : Machine = record here { trace = released kmem ∷ acquired kmem ∷ here.trace } in
      let (t, run, f) = kfree-Frees is m pa [] page empty refl in
      (
        given_up i w t,
        gives_up l i pa w m t stale no_table (page-ne-zero is pa page) (kalloc-null is here empty)
            run,
        f.chain,
        given_up-stale i w t ∙ stale,
      )
