-- ===== src/Vm/Copy/Write.antt =====
-- copyout of lab page tables/kernel/vm.c as a write to the memory that the user sees.
use lab_utilities.Base.{
  ℕ, zero, suc, ◌+◌, ◌-◌, ◌%◌, ◌^◌, ◌≤◌, ◌<◌, ◌≡◌, ◌⊎◌, refl, sym, ap, ◌∙◌, Bool, true, false, not,
  ◌&&◌, ◌||◌, leb, ltb, if◌then◌else◌, arith, Bool-cases, inl, inr, List, has, ==_ne, lt→leb,
  ℕ_discrete, lt→ltb,
}
use lab_utilities.Memory.{Mem, move}
use lab_utilities.Riscv.{pgsize, u64, maxva, pte_v, pte_u, pte_w, flag_set, pte2pa, pg_round_down}
use lab_utilities.Riscv.Rounding.{pg_round_down_lem}
use lab_utilities.Machine.{Machine, ok}
use lab_utilities.Vm.Walk.Descent.{descend, walk-descend, translate}
use lab_utilities.Vm.Walk.Link.{page_of}
use lab_utilities.Vm.Walk.Frame.{SameOff}
use lab_utilities.Vm.Map.{done}
use lab_utilities.Vm.Copy.{chunk, copyout, copyout_loop}
use lab_utilities.Vm.Copy.User.{
  user, entry, translate-IsUserPage, IsSpace, IsWritable, IsSpace-SameOff, IsWritable-SameOff,
  move-SameOff, user-move,
}

-- The bytes from `src` on lie outside the pages `ps`: a buffer of the kernel.
abbrev pub IsKernelBuffer : List ℕ → ℕ → ℕ → Type 0
IsKernelBuffer ps src len = (x : ℕ) → src ≤ x → x < src + len → has (page_of x) ps ≡ false

if_cong :
    {A : Type 0} (b : Bool) (x x' y y' : A)
    → (b ≡ true → x ≡ x')
    → y ≡ y'
    → (if b then x else y) ≡ (if b then x' else y')
if_cong true x x' y y' f e = f refl
if_cong false x x' y y' f e = e

-- Two chunks that follow one another are one.
joined :
    (m : Mem) (dst src len n va old : ℕ)
    → n ≤ len
    → n ≡ len ⊎ (dst + n ≡ page_of dst + 4096)
    → (if leb (page_of dst + 4096) va && ltb va (page_of dst + 4096 + (len - n))
        then m (src + n + (va - (page_of dst + 4096)))
        else if leb dst va && ltb va (dst + n)
        then m (src + (va - dst))
        else old)
      ≡ (if leb dst va && ltb va (dst + len) then m (src + (va - dst)) else old)
joined m dst src len n va old le (inl e) = ground arith
joined m dst src len n va old le (inr e) =
    let index : leb (dst + n) va ≡ true → src + n + (va - (dst + n)) ≡ src + (va - dst) =
      λ h. ground arith in
    elim (Bool-cases (leb (dst + n) va)) [
      | inl past ↦ rw (← e, index past) (ground arith)
      | inr before ↦ rw (← e) (ground arith)
    ]

pub chunk_cases :
    (dst len : ℕ)
    → 0 < len
    → (0 < chunk dst (page_of dst) len)
      × (chunk dst (page_of dst) len ≤ len)
      × (dst - page_of dst + chunk dst (page_of dst) len ≤ 4096)
      × ((chunk dst (page_of dst) len ≡ len)
          ⊎ (dst + chunk dst (page_of dst) len ≡ page_of dst + 4096))
chunk_cases dst len more = ground arith

pub pte2pa-add : (pte o : ℕ) → o < 4096 → u64 (pte2pa pte + o) ≡ pte2pa pte + o
unfolding pte2pa
pte2pa-add pte o h = omega arith

copyout_loop-nothing :
    (fuel pt dst src len : ℕ) (s : Machine)
    → len ≡ 0
    → copyout_loop (suc fuel) pt dst src len s ≡ ok done s
unfolding copyout_loop
copyout_loop-nothing fuel pt dst src len s none_left = rw none_left

-- What a call of copyout leaves behind: the bytes from `dst` on have been written, the rest of the
-- user's memory, all other memory and the allocator are as before.
pub record Written (pt lo hi : ℕ) (ps : List ℕ) (dst src len : ℕ) (s t : Machine) : Type 0 where
  pub bytes :
      (va : ℕ)
      → lo ≤ va
      → va < hi
      → user t.mem pt va
        ≡ (if leb dst va && ltb va (dst + len) then s.mem (src + (va - dst)) else user s.mem pt va)
  pub same : SameOff ps s.mem t.mem
  pub freelist : t.freelist ≡ s.freelist
  pub trace : t.trace ≡ s.trace

module _ (pt lo hi : ℕ) (ps : List ℕ) (al : lo % 4096 ≡ 0) (bound : hi ≤ maxva) where
  -- One round, and then what the rounds after it leave.
  Written-step :
      (dst src len n : ℕ) (s t : Machine)
      → (space : IsSpace pt lo hi ps s.mem) → lo ≤ dst
      → dst + len ≤ hi
      → 0 < len
      → n ≤ len
      → dst - page_of dst + n ≤ 4096
      → (n ≡ len) ⊎ (dst + n ≡ page_of dst + 4096)
      → IsKernelBuffer ps src len
      → Written pt lo hi ps
          (page_of dst + 4096)
          (src + n)
          (len - n)
          (record s {
            mem = move s.mem (translate s.mem pt (page_of dst) + (dst - page_of dst)) src n;
          })
          t
      → Written pt lo hi ps dst src len s t
  Written-step dst src len n s t space low high more le fits last kernel w =
      let start : page_of dst + (dst - page_of dst) ≡ dst = omega arith in
      let same : SameOff ps s.mem
          (move s.mem (translate s.mem pt (page_of dst) + (dst - page_of dst)) src n) =
        move-SameOff pt lo hi ps s.mem bound space (page_of dst) (dst - page_of dst) src n
          (omega arith) (omega arith) (omega arith) fits in
      record {
        bytes = λ va l h.
            let first =
              user-move pt lo hi ps s.mem bound space (page_of dst) (dst - page_of dst) src n
                (omega arith) (omega arith) (omega arith) fits va (omega arith) h in
            let m : Mem = s.mem in
            let a : ℕ = page_of dst in
            let later : Bool = leb (a + 4096) va && ltb va (a + 4096 + (len - n)) in
            w.bytes va l h
            ∙ if_cong later _ (m (src + n + (va - (a + 4096)))) _
                (if leb dst va && ltb va (dst + n) then m (src + (va - dst)) else user m pt va)
                (λ e.
                  same (src + n + (va - (a + 4096)))
                    (kernel (src + n + (va - (a + 4096))) (omega arith) (ground arith)))
                (rw start at first)
            ∙ joined m dst src len n va (user m pt va) le last;
        same = λ x out. w.same x out ∙ same x out;
        freelist = w.freelist;
        trace = w.trace;
      }

  copyout_round :
      (fuel dst src len : ℕ) (s t : Machine)
      → IsSpace pt lo hi ps s.mem
      → IsWritable pt lo hi s.mem
      → lo ≤ dst
      → dst + len ≤ hi
      → 0 < len
      → src + len < 2 ^ 64
      → copyout_loop fuel pt
          (page_of dst + 4096)
          (src + chunk dst (page_of dst) len)
          (len - chunk dst (page_of dst) len)
          (record s {
            mem =
                move s.mem
                  (translate s.mem pt (page_of dst) + (dst - page_of dst))
                  src
                  (chunk dst (page_of dst) len);
          })
        ≡ ok done t
      → copyout_loop (suc fuel) pt dst src len s ≡ ok done t
  unfolding copyout_loop
  copyout_round fuel dst src len s t space writable low high some_left room run =
      let a : ℕ = page_of dst in
      let round : pg_round_down dst ≡ a = pg_round_down_lem dst (omega arith) in
      let (pos, le, fits, last) = chunk_cases dst len some_left in
      let p = space.mapped a (omega arith) (omega arith) (omega arith) in
      let allowed : (not (flag_set pte_v (entry s.mem pt a))
            || not (flag_set pte_u (entry s.mem pt a))
            || not (flag_set pte_w (entry s.mem pt a)))
          ≡ false =
        rw (p.valid, p.user, writable a (omega arith) (omega arith) (omega arith)) in
      let place : u64 (pte2pa (entry s.mem pt a) + (dst - a)) ≡ translate s.mem pt a + (dst - a) =
        pte2pa-add (entry s.mem pt a) (dst - a) (omega arith)
        ∙ ap (λ (f : ℕ). f + (dst - a))
            (sym (translate-IsUserPage s.mem pt a ps (omega arith) p)) in
      let next : u64 (a + pgsize) ≡ a + 4096 = omega arith in
      let next_src : u64 (src + chunk dst a len) ≡ src + chunk dst a len = omega arith in
      rw
        (
          lt→ltb 0 len some_left,
          round,
          lt→leb maxva a (omega arith),
          walk-descend pt a s (omega arith),
          ==_ne (descend s.mem 2 pt a) 0 p.there,
          allowed,
          place,
          next,
          next_src,
        )
        run

  copyout_loop-Written :
      (fuel dst src len : ℕ) (s : Machine)
      → IsSpace pt lo hi ps s.mem
      → IsWritable pt lo hi s.mem
      → lo ≤ dst
      → (len ≡ 0) ⊎ (dst + len ≤ hi)
      → src + len < 2 ^ 64
      → IsKernelBuffer ps src len
      → len < fuel
      → (t : Machine) × (copyout_loop fuel pt dst src len s ≡ ok done t)
        × Written pt lo hi ps dst src len s t
  copyout_loop-Written zero dst src len s space writable low high room kernel enough =
      absurd (omega arith)
  copyout_loop-Written (suc fuel) dst src len s space writable low high room kernel enough =
      elim (ℕ_discrete len 0) [
        | yes none_left ↦ (
          s,
          copyout_loop-nothing fuel pt dst src len s none_left,
          record {
            bytes = λ va l h. ground arith;
            same = λ x h. refl;
            freelist = refl;
            trace = refl;
          },
        )
        | no more ↦
            let a : ℕ = page_of dst in
            let n : ℕ = chunk dst a len in
            let (pos, le, fits, last) = chunk_cases dst len (omega arith) in
            let s1 : Machine = record s {
              mem = move s.mem (translate s.mem pt a + (dst - a)) src n;
            } in
            let same : SameOff ps s.mem s1.mem =
              move-SameOff pt lo hi ps s.mem bound space a (dst - a) src n (omega arith)
                (omega arith) (omega arith) fits in
            let (t, run, w) =
              copyout_loop-Written fuel (a + 4096) (src + n) (len - n) s1
                (IsSpace-SameOff pt lo hi ps s.mem bound space s1.mem same)
                (IsWritable-SameOff pt lo hi ps s.mem bound space s1.mem same writable)
                (omega arith) (omega arith) (omega arith)
                (λ x l h. kernel x (omega arith) (omega arith)) (omega arith) in
            (
              t,
              copyout_round fuel dst src len s t space writable low (omega arith) (omega arith) room
                  run,
              Written-step dst src len n s t space low (omega arith) (omega arith) le fits last
                  kernel w,
            )
      ]

  -- copyout to an address range that is mapped for the user and writable returns 0. Afterwards the
  -- user sees the bytes of the buffer from `dst` on and its old bytes everywhere else; memory that is
  -- not the user's, and the allocator, are unchanged.
  pub copyout-Written :
      (dst src len : ℕ) (s : Machine)
      → IsSpace pt lo hi ps s.mem
      → IsWritable pt lo hi s.mem
      → lo ≤ dst
      → dst + len ≤ hi
      → src + len < 2 ^ 64
      → IsKernelBuffer ps src len
      → (t : Machine) × (copyout pt dst src len s ≡ ok done t) × Written pt lo hi ps dst src len s t
  unfolding copyout
  copyout-Written dst src len s space writable low high room kernel =
      copyout_loop-Written (len + 1) dst src len s space writable low (inr high) room kernel
        (omega arith)
