-- ===== src/Vm/Copy.antt =====
-- copyout, copyin and copyinstr of vm.c. A kernel buffer is an address too: the kernel maps memory
-- directly.
pub mod Total
pub mod User
pub mod Write
pub mod Read
pub mod RoundTrip
use lab_utilities.Base.{
  ℕ, zero, suc, ◌+◌, ◌-◌, ◌*◌, ◌/◌, ◌%◌, ◌^◌, Bool, true, false, not, ◌&&◌, ◌||◌, ltb, leb, ◌==◌,
  if◌then◌else◌,
}
use lab_utilities.Memory.{update}
use lab_utilities.Riscv.{pgsize, u64, maxva, pte_v, pte_u, pte_w, flag_set, pte2pa, pg_round_down}
use lab_utilities.Machine.{
  Machine, Cmd, ok, pure, fail, diverge, ◌>>=◌, ◌>>◌, when, read64, write64, memmove,
}
use lab_utilities.Vm.Walk.{walk, walkaddr}
use lab_utilities.Vm.Map.{Status, done, failed}

-- `n = PGSIZE - (va - va0); if(n > len) n = len;`
abbrev pub chunk : ℕ → ℕ → ℕ → ℕ
chunk va va0 len = let n = pgsize - (va - va0) in if ltb len n then len else n

-- Each round copies at least one byte.
pub copyout_loop : ℕ → ℕ → ℕ → ℕ → ℕ → Cmd Machine Status
copyout_loop zero pagetable dstva src len = diverge
copyout_loop (suc fuel) pagetable dstva src len =
    if not (ltb 0 len)
    then pure done
    else let va0 = pg_round_down dstva in
      if leb maxva va0 then pure failed else do
        pte ← walk pagetable va0 false
        if pte == 0 then pure failed else do
          entry ← read64 pte
          if not (flag_set pte_v entry) || not (flag_set pte_u entry) || not (flag_set pte_w entry)
              then pure failed
              else do
                let n = chunk dstva va0 len
                memmove (u64 (pte2pa entry + (dstva - va0))) src n
                copyout_loop fuel pagetable (u64 (va0 + pgsize)) (u64 (src + n)) (len - n)

unfoldable pub copyout : ℕ → ℕ → ℕ → ℕ → Cmd Machine Status
unfolding copyout_loop
copyout pagetable dstva src len = copyout_loop (len + 1) pagetable dstva src len

pub copyin_loop : ℕ → ℕ → ℕ → ℕ → ℕ → Cmd Machine Status
copyin_loop zero pagetable dst srcva len = diverge
copyin_loop (suc fuel) pagetable dst srcva len = if not (ltb 0 len) then pure done else do
  let va0 = pg_round_down srcva
  pa0 ← walkaddr pagetable va0
  if pa0 == 0 then pure failed else do
    let n = chunk srcva va0 len
    memmove dst (u64 (pa0 + (srcva - va0))) n
    copyin_loop fuel pagetable (u64 (dst + n)) (u64 (va0 + pgsize)) (len - n)

unfoldable pub copyin : ℕ → ℕ → ℕ → ℕ → Cmd Machine Status
unfolding copyin_loop
copyin pagetable dst srcva len = copyin_loop (len + 1) pagetable dst srcva len

-- a byte read and written through a pointer
abbrev read8 : ℕ → Cmd Machine ℕ
read8 a s = ok (s.mem a) s

abbrev write8 : ℕ → ℕ → Cmd Machine (Unit {0})
write8 a v s = ok tt (record s { mem = update s.mem a v })

-- The variables that the inner loop of copyinstr leaves.
pub record Progress : Type 0 where
  pub got_null : Bool
  pub dst : ℕ
  pub max : ℕ

-- `while(n > 0)`: at most `n` bytes from `p`, up to the terminating null.
pub copyinstr_page : ℕ → ℕ → ℕ → ℕ → Cmd Machine Progress
copyinstr_page zero p dst max = pure (record { got_null = false; dst = dst; max = max })
copyinstr_page (suc n) p dst max = do
  c ← read8 p
  if c == 0
      then (do write8 dst 0; pure (record { got_null = true; dst = dst; max = max }))
      else (do write8 dst c; copyinstr_page n (p + 1) (dst + 1) (max - 1))

pub copyinstr_loop : ℕ → ℕ → ℕ → ℕ → ℕ → Cmd Machine Status
unfolding copyinstr_page
copyinstr_loop zero pagetable dst srcva max = diverge
copyinstr_loop (suc fuel) pagetable dst srcva max = if not (ltb 0 max) then pure failed else do
  let va0 = pg_round_down srcva
  pa0 ← walkaddr pagetable va0
  if pa0 == 0 then pure failed else do
    p ← copyinstr_page (chunk srcva va0 max) (pa0 + (srcva - va0)) dst max
    if p.got_null then pure done else copyinstr_loop fuel pagetable p.dst (u64 (va0 + pgsize)) p.max

unfoldable pub copyinstr : ℕ → ℕ → ℕ → ℕ → Cmd Machine Status
unfolding copyinstr_loop
copyinstr pagetable dst srcva max = copyinstr_loop (max + 1) pagetable dst srcva max
