-- ===== src/Examples/Copy.antt =====
-- The theorems on copyout and copyin, on a machine with one page of a user.
use lab_utilities.Base.{subst, ◌%◌, ◌<◌, ◌+◌, ℕ, ◌≡◌, refl, true, [], ◌∷◌, arith}
use lab_utilities.Memory.{load}
use lab_utilities.Riscv.{px, flag_set, pte_w, pte2pa}
use lab_utilities.Machine.{Machine, ok}
use lab_utilities.Vm.Walk.Descent.{descend, translate}
use lab_utilities.Vm.Map.{done}
use lab_utilities.Vm.Copy.{copyout, copyin}
use lab_utilities.Vm.Copy.User.{entry, IsUserPage, IsSpace, IsWritable}
use lab_utilities.Vm.Copy.Write.{IsKernelBuffer, Written, copyout-Written}
use lab_utilities.Vm.Copy.Read.{IsApartBuffer, Fetched, copyin-Fetched}
use lab_utilities.Vm.Copy.RoundTrip.{copyin-copyout}
use lab_utilities.Examples.{page_table, one_mapped}

-- One page of a user at address 0, seen through the table at 20480.
zero_page : (a : ℕ) → a % 4096 ≡ 0 → a < 4096 → 0 ≡ a
zero_page a al high = omega arith

mapped-IsUserPage : IsUserPage page_table 20480 (8192 ∷ 12288 ∷ []) 0
unfolding load px pte2pa descend
mapped-IsUserPage = record {
  clear =
      ((omega arith, refl, refl), λ h. ((omega arith, refl, refl), λ k. (omega arith, refl, refl)));
  there = omega arith;
  valid = refl;
  user = refl;
  owned = refl;
}

one_page-IsSpace : IsSpace 20480 0 4096 (8192 ∷ 12288 ∷ []) page_table
one_page-IsSpace = record {
  mapped = λ a al low high.
      subst (λ (b : ℕ). IsUserPage page_table 20480 (8192 ∷ 12288 ∷ []) b) (zero_page a al high)
        mapped-IsUserPage;
  apart = λ a b al bl la ha lb hb e. omega arith;
}

mapped_writable : flag_set pte_w (entry page_table 20480 0) ≡ true
unfolding load px pte2pa descend
mapped_writable = refl

one_page-IsWritable : IsWritable 20480 0 4096 page_table
one_page-IsWritable a al low high =
    subst (λ (b : ℕ). flag_set pte_w (entry page_table 20480 b) ≡ true) (zero_page a al high)
      mapped_writable

in_frame : translate page_table 20480 0 ≡ 8192
unfolding load px pte2pa descend translate
in_frame = refl

-- 64 bytes at 0 as one buffer of the kernel, and 64 at 12288 as another.
first-IsKernelBuffer : IsKernelBuffer (8192 ∷ 12288 ∷ []) 0 64
first-IsKernelBuffer x low high = ground arith

second-IsApartBuffer : IsApartBuffer 20480 0 4096 (8192 ∷ 12288 ∷ []) page_table 12288 64
second-IsApartBuffer x low high = (
  ground arith,
  λ a al la ha e.
      let frame =
        subst (λ (b : ℕ). translate page_table 20480 b ≡ 8192) (zero_page a al ha) in_frame in
      omega arith,
)

copyout-Written_example :
    (t : Machine) × (copyout 20480 100 0 64 one_mapped ≡ ok done t)
    × Written 20480 0 4096 (8192 ∷ 12288 ∷ []) 100 0 64 one_mapped t
copyout-Written_example =
    copyout-Written 20480 0 4096 (8192 ∷ 12288 ∷ []) refl (omega arith) 100 0 64 one_mapped
      one_page-IsSpace one_page-IsWritable (omega arith) (omega arith) (omega arith)
      first-IsKernelBuffer

copyin-Fetched_example :
    (t : Machine) × (copyin 20480 12288 100 64 one_mapped ≡ ok done t)
    × Fetched 20480 12288 100 64 one_mapped t
copyin-Fetched_example =
    copyin-Fetched 20480 0 4096 (8192 ∷ 12288 ∷ []) refl (omega arith) refl 12288 100 64 one_mapped
      one_page-IsSpace second-IsApartBuffer (omega arith) (omega arith) (omega arith)

copyin-copyout_example :
    (t : Machine) × (u : Machine) × (copyout 20480 100 0 64 one_mapped ≡ ok done t)
    × (copyin 20480 12288 100 64 t ≡ ok done u)
    × ((i : ℕ) → i < 64 → u.mem (12288 + i) ≡ page_table (0 + i))
copyin-copyout_example =
    copyin-copyout 20480 0 4096 (8192 ∷ 12288 ∷ []) 0 100 12288 64 one_mapped refl (omega arith)
      refl one_page-IsSpace one_page-IsWritable first-IsKernelBuffer second-IsApartBuffer
      (omega arith) (omega arith) (omega arith) (omega arith)
