-- ===== src/Vm/Copy/RoundTrip.antt =====
-- copyout followed by copyin of lab page tables/kernel/vm.c.
use lab_utilities.Base.{
  ℕ, ◌+◌, ◌-◌, ◌%◌, ◌^◌, ◌≤◌, ◌<◌, ◌≡◌, sym, ◌∙◌, true, false, ◌&&◌, leb, ltb, arith, List, has,
}
use lab_utilities.Riscv.{maxva}
use lab_utilities.Machine.{Machine, ok}
use lab_utilities.Vm.Map.{done}
use lab_utilities.Vm.Copy.{copyout, copyin}
use lab_utilities.Vm.Copy.User.{IsSpace, IsWritable, IsSpace-SameOff, translate-SameOff}
use lab_utilities.Vm.Copy.Write.{IsKernelBuffer, copyout-Written}
use lab_utilities.Vm.Copy.Read.{IsApartBuffer, copyin-Fetched}

-- What copyout has written to the user, copyin reads back: both return 0, and the second buffer then
-- holds the bytes of the first.
pub copyin-copyout :
    (pt lo hi : ℕ) (ps : List ℕ) (src va dst len : ℕ) (s : Machine)
    → lo % 4096 ≡ 0
    → hi ≤ maxva
    → has 0 ps ≡ false
    → IsSpace pt lo hi ps s.mem
    → IsWritable pt lo hi s.mem
    → IsKernelBuffer ps src len
    → IsApartBuffer pt lo hi ps s.mem dst len
    → lo ≤ va
    → va + len ≤ hi
    → src + len < 2 ^ 64
    → dst + len < 2 ^ 64
    → (t : Machine) × (u : Machine) × (copyout pt va src len s ≡ ok done t)
      × (copyin pt dst va len t ≡ ok done u)
      × ((i : ℕ) → i < len → u.mem (dst + i) ≡ s.mem (src + i))
copyin-copyout pt lo hi ps src va dst len s al bound null space writable kernel buffer low high room
      room' =
    let (t, out, w) =
      copyout-Written pt lo hi ps al bound va src len s space writable low high room kernel in
    let (u, back, f) =
      copyin-Fetched pt lo hi ps al bound null dst va len t
        (IsSpace-SameOff pt lo hi ps s.mem bound space t.mem w.same)
        (λ x l h.
          let (owned, unseen) = buffer x l h in
          (
            owned,
            λ a ala loa hia e. unseen a ala loa hia (
                sym (
                  translate-SameOff s.mem t.mem pt a ps w.same (space.mapped a ala loa hia)
                    (omega arith))
                ∙ e),
          ))
        low high room' in
    (
      t,
      u,
      out,
      back,
      λ i h.
          let inside : (leb va (va + i) && ltb (va + i) (va + len)) ≡ true = ground arith in
          let offset : va + i - va ≡ i = omega arith in
          f.bytes i h ∙ w.bytes (va + i) (omega arith) (omega arith) ∙ rw (inside, offset),
    )
