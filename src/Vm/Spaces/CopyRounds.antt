-- ===== src/Vm/Spaces/CopyRounds.antt =====
-- The rounds of the loop of uvmcopy of vm.c.
use lab_utilities.Base.{ℕ, suc, ◌+◌, ◌/◌, ◌<◌, ◌≤◌, ◌≡◌, true, false, ◌==◌, lt→ltb, le→ltb}
use lab_utilities.Memory.{move, load64}
use lab_utilities.Riscv.{pgsize, u64, pte_v, flag_set, pte2pa, pte_flags}
use lab_utilities.Vm.Walk.Descent.{slot}
use lab_utilities.Layout.{Layout}
use lab_utilities.Machine.{Machine, ok}
use lab_utilities.Kalloc.{kalloc, kfree}
use lab_utilities.Vm.Map.{done, failed, mappages, uvmunmap}
use lab_utilities.Vm.Walk.{walk}
use lab_utilities.Vm.Space.{uvmcopy_loop, uvmcopy_err}

module _ (l : Layout) (old new sz : ℕ) where
  pub loop_done :
      (fuel i : ℕ) (t : Machine) → sz ≤ i → uvmcopy_loop l (suc fuel) old new i sz t ≡ ok done t
  unfolding uvmcopy_loop
  loop_done fuel i t h = rw (le→ltb i sz h)

  -- The entry of the old space is found.
  abbrev pub Finds : Machine → ℕ → ℕ → ℕ → Type 0
  Finds t i slot entry =
      (walk old i false t ≡ ok slot t)
      × ((slot == 0) ≡ false)
      × (load64 t.mem slot ≡ entry)
      × (flag_set pte_v entry ≡ true)

  pub loop_null :
      (fuel i slot entry : ℕ) (t t1 v : Machine)
      → i < sz
      → Finds t i slot entry
      → kalloc t ≡ ok 0 t1
      → uvmunmap l new 0 (i / pgsize) true t1 ≡ ok tt v
      → uvmcopy_loop l (suc fuel) old new i sz t ≡ ok failed v
  unfolding uvmcopy_loop uvmcopy_err
  loop_null fuel i slot entry t t1 v h (found, there, read, valid) run undo =
      rw (lt→ltb i sz h, found, there, read, valid, run, undo)

  pub loop_failed :
      (fuel i slot entry q : ℕ) (t t1 u v w : Machine)
      → i < sz
      → Finds t i slot entry
      → kalloc t ≡ ok q t1
      → (q == 0) ≡ false
      → mappages new i pgsize q
          (pte_flags entry)
          (record t1 { mem = move t1.mem q (pte2pa entry) pgsize })
        ≡ ok failed u
      → kfree l q u ≡ ok tt v
      → uvmunmap l new 0 (i / pgsize) true v ≡ ok tt w
      → uvmcopy_loop l (suc fuel) old new i sz t ≡ ok failed w
  unfolding uvmcopy_loop uvmcopy_err
  loop_failed fuel i slot entry q t t1 u v w h (found, there, read, valid) run ne mapped freed
        undo =
      rw (lt→ltb i sz h, found, there, read, valid, run, ne, mapped, freed, undo)

  pub loop_more :
      (fuel i i' slot entry q : ℕ) (t t1 u : Machine)
      → i < sz
      → Finds t i slot entry
      → kalloc t ≡ ok q t1
      → (q == 0) ≡ false
      → mappages new i pgsize q
          (pte_flags entry)
          (record t1 { mem = move t1.mem q (pte2pa entry) pgsize })
        ≡ ok done u
      → u64 (i + pgsize) ≡ i'
      → uvmcopy_loop l (suc fuel) old new i sz t ≡ uvmcopy_loop l fuel old new i' sz u
  unfolding uvmcopy_loop
  loop_more fuel i i' slot entry q t t1 u h (found, there, read, valid) run ne mapped next =
      rw (lt→ltb i sz h, found, there, read, valid, run, ne, mapped, next)
