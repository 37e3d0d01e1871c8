-- ===== src/Examples/Memory.antt =====
-- The theorems on the allocator and the page tables, on that machine.
use lab_utilities.Base.{ℕ, ◌≡◌, refl, false, [], ◌∷◌, arith}
use lab_utilities.Memory.{load, store64}
use lab_utilities.Riscv.{pgsize, px, pte2pa, pa2pte}
use lab_utilities.Machine.{Machine, ok, out_of_fuel, ◌>>◌}
use lab_utilities.Kalloc.{kfree, kalloc, kinit, getbytes, getbytes_loop}
use lab_utilities.Kalloc.FreeList.{
  Chain, Frees, Allocates, kfree-Frees, kalloc-Allocates, getbytes-length,
}
use lab_utilities.Kalloc.Boot.{kinit-getbytes, kfree_twice}
use lab_utilities.Vm.Walk.{walk, walkaddr, walk_loop}
use lab_utilities.Vm.Walk.Descent.{descend, translate, walk-descend, walkaddr-translate}
use lab_utilities.Vm.Map.{done, mappages, mappages_loop}
use lab_utilities.Vm.Copy.{copyinstr}
use lab_utilities.Vm.Copy.Total.{Returns, copyinstr-Returns}
use lab_utilities.Examples.{sample, sample-IsLayout, unbooted, one_free, page_table, one_mapped}

kinit-getbytes_example :
    (t : Machine) × (kinit sample unbooted ≡ ok tt t) × (getbytes sample t ≡ ok 12288 t)
kinit-getbytes_example = kinit-getbytes sample-IsLayout unbooted (omega arith) refl

one_free-Chain : Chain sample one_free.mem one_free.freelist (4096 ∷ [])
unfolding load
one_free-Chain = (refl, (omega arith, omega arith, omega arith), refl, refl)

kfree-Frees_example :
    (t : Machine) × (kfree sample 8192 one_free ≡ ok tt t)
    × Frees sample-IsLayout one_free 8192 (4096 ∷ []) t
kfree-Frees_example =
    kfree-Frees sample-IsLayout one_free 8192 (4096 ∷ []) (omega arith, omega arith, omega arith)
      one_free-Chain refl

kalloc-Allocates_example :
    (t : Machine) × (kalloc one_free ≡ ok 4096 t) × Allocates sample-IsLayout one_free 4096 [] t
kalloc-Allocates_example = kalloc-Allocates sample-IsLayout one_free 4096 [] one_free-Chain

getbytes-length_example : getbytes sample one_free ≡ ok 4096 one_free
getbytes-length_example = getbytes-length sample-IsLayout one_free (4096 ∷ []) one_free-Chain

kfree_twice_example :
    (t : Machine) × ((kfree sample 8192 >> kfree sample 8192) one_free ≡ ok tt t)
    × ((fuel n : ℕ) → getbytes_loop fuel t.freelist n t ≡ out_of_fuel)
kfree_twice_example =
    kfree_twice sample-IsLayout one_free 8192 (omega arith, omega arith, omega arith)

walk-descend_example :
    walk 8192 4096 false one_free ≡ ok (descend one_free.mem 2 8192 4096) one_free
walk-descend_example = walk-descend 8192 4096 one_free (omega arith)

walkaddr-translate_example :
    walkaddr 8192 4096 one_free ≡ ok (translate one_free.mem 8192 4096) one_free
walkaddr-translate_example = walkaddr-translate 8192 4096 one_free

copyinstr-Returns_example : Returns (copyinstr 8192 0 4096 8 one_free)
copyinstr-Returns_example = copyinstr-Returns 8192 0 4096 8 one_free (omega arith)

-- A second page of the same process, at 4096.
abbrev two_mapped : Machine
two_mapped = record one_mapped { mem = store64 page_table 28680 3091 }

maps_second : mappages 20480 4096 pgsize 12288 18 one_mapped ≡ ok done two_mapped
unfolding mappages mappages_loop walk walk_loop load px pte2pa pa2pte
maps_second = refl
