-- ===== src/Examples/Spaces.antt =====
-- The theorems on all address spaces together, on the machine with two processes.
use lab_utilities.Base.{◌≤◌, ℕ, ◌-◌, ◌*◌, ◌≡◌, ◌⊎◌, refl, ap, ◌∙◌, true, arith, [], ◌∷◌, min}
use lab_utilities.Riscv.{pte_v, flag_set}
use lab_utilities.Machine.{Machine, ok}
use lab_utilities.Vm.Map.{mappages, uvmunmap, Status, done, failed}
use lab_utilities.Vm.Space.{uvmalloc, uvmdealloc, uvmcopy}
use lab_utilities.Vm.Walk.{walk}
use lab_utilities.Vm.Spaces.Place.{number}
use lab_utilities.Vm.Spaces.Range.{covers-range}
use lab_utilities.Vm.Spaces.Walk.{walk-grows, Reached}
use lab_utilities.Vm.Spaces.Map.{mappages-Maps}
use lab_utilities.Vm.Spaces.Rows.{Maps}
use lab_utilities.Vm.Spaces.Gone.{Unmaps}
use lab_utilities.Vm.Spaces.Unmap.{uvmunmap-Unmaps}
use lab_utilities.Vm.Spaces.Size.{entry_at, entry_at-number, Shrunk}
use lab_utilities.Vm.Spaces.Dealloc.{pages_of, uvmdealloc-Shrunk}
use lab_utilities.Vm.Spaces.Extend.{Grew}
use lab_utilities.Vm.Spaces.Alloc.{perms, zeros, uvmalloc-Grew}
use lab_utilities.Vm.Spaces.Copied.{flags_in, byte_in, uvmcopy-Grew}
use lab_utilities.Examples.{one_mapped, booted, shell}
use lab_utilities.Proc.{World}
use lab_utilities.Proc.Life.{growproc}
use lab_utilities.Proc.Life.Growing.{Resized, growproc-Resized}
use lab_utilities.Examples.Owners.{
  larger, larger-IsLayout, owners, owners-Pages, owners-Holds, empty-Holds, first_valid, first_leaf,
  first_page, second_empty,
}

-- A walk that takes a page for a second level-0 table.
walk-grows_example :
    (pte : ℕ) × (t : Machine) × (walk 20480 0x200000 true one_mapped ≡ ok pte t)
    × Reached larger one_mapped owners 2 20480 0x200000 20480 [] (4096 ∷ []) pte t
walk-grows_example =
    walk-grows larger-IsLayout 20480 0x200000 one_mapped owners (4096 ∷ []) (omega arith)
      owners-Pages refl

mappages-Maps_example :
    (r : Status) × (t : Machine) × (mappages 20480 4096 (1 * 4096) 32768 18 one_mapped ≡ ok r t)
    × Maps larger one_mapped owners 20480 4096 1 32768 18 (4096 ∷ []) r t
mappages-Maps_example =
    mappages-Maps larger-IsLayout 20480 18 (omega arith) 1 4096 32768 one_mapped owners (4096 ∷ [])
      (omega arith) refl (omega arith) (omega arith) owners-Pages refl
      (λ vb low inside.
        let e = covers-range 4096 1 vb inside in
        let second : number vb ≡ 1 = omega (arith, e) in
        ap (flag_set pte_v) (
          entry_at-number one_mapped 20480 vb
          ∙ ap (entry_at one_mapped 20480) second
          ∙ second_empty))

uvmunmap-Unmaps_example :
    (t : Machine) × (uvmunmap larger 20480 0 1 true one_mapped ≡ ok tt t)
    × Unmaps larger one_mapped owners (4096 ∷ []) 20480 0 1 true t
uvmunmap-Unmaps_example =
    uvmunmap-Unmaps larger-IsLayout 20480 true 1 0 one_mapped owners (4096 ∷ []) refl (omega arith)
      owners-Pages refl
      (λ vb low inside.
        let e = covers-range 0 1 vb inside in
        let first : number vb ≡ 0 = omega (arith, e) in
        let same = entry_at-number one_mapped 20480 vb ∙ ap (entry_at one_mapped 20480) first in
        rw (same, first) (first_valid, first_leaf, λ _. ap owners first_page))

uvmdealloc-Shrunk_example :
    (t : Machine) × (uvmdealloc larger 20480 4096 0 one_mapped ≡ ok (min 4096 0) t)
    × Shrunk larger one_mapped owners 20480
        (pages_of (min 4096 0))
        (pages_of 4096 - pages_of (min 4096 0))
        2
        t
uvmdealloc-Shrunk_example =
    uvmdealloc-Shrunk larger-IsLayout 20480 4096 0 2 one_mapped owners (4096 ∷ []) (omega arith)
      (omega arith) owners-Pages refl owners-Holds

uvmalloc-Grew_example :
    (t : Machine) × (((uvmalloc larger 20480 4096 8192 4 one_mapped ≡ ok 8192 t)
        × Grew larger one_mapped owners 20480 (perms 4) zeros (pages_of 4096) (pages_of 8192) 2 t)
      ⊎ ((uvmalloc larger 20480 4096 8192 4 one_mapped ≡ ok 0 t)
          × Grew larger one_mapped owners 20480 (perms 4) zeros (pages_of 4096) (pages_of 4096) 2 t
          × (1 ≤ 3 * (pages_of 8192 - pages_of 4096))))
uvmalloc-Grew_example =
    uvmalloc-Grew larger-IsLayout 20480 4096 8192 4 2 one_mapped owners (4096 ∷ []) (omega arith)
      (omega arith) (omega arith) (omega arith) (omega arith) owners-Pages refl owners-Holds

uvmcopy-Grew_example :
    (t : Machine) × (((uvmcopy larger 20480 12288 4096 one_mapped ≡ ok done t)
        × Grew larger one_mapped owners 12288
            (flags_in one_mapped 20480)
            (byte_in one_mapped 20480)
            0
            (pages_of 4096)
            2
            t)
      ⊎ ((uvmcopy larger 20480 12288 4096 one_mapped ≡ ok failed t)
          × Grew larger one_mapped owners 12288
              (flags_in one_mapped 20480)
              (byte_in one_mapped 20480)
              0
              0
              2
              t
          × (1 ≤ 3 * pages_of 4096)))
uvmcopy-Grew_example =
    uvmcopy-Grew larger-IsLayout 20480 12288 4096 2 one_mapped owners (4096 ∷ []) (omega arith)
      (omega arith) (omega arith) owners-Pages refl refl owners-Holds empty-Holds

-- The first process, whose size is one page.
abbrev world : World
world = record booted { machine = one_mapped; procs = λ j. record shell { pagetable = 20480 } }

growproc-Resized_example :
    (result : Status) × (t : World) × (growproc larger 0 4096 world ≡ ok result t)
    × Resized larger world owners 0 4096 2 result t
growproc-Resized_example =
    growproc-Resized larger-IsLayout 0 4096 2 world owners (4096 ∷ []) (omega arith) (omega arith)
      (omega arith) owners-Pages refl owners-Holds (omega arith)
