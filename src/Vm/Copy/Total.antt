-- ===== src/Vm/Copy/Total.antt =====
-- How copyout, copyin and copyinstr of lab page tables/kernel/vm.c end.
use lab_utilities.Base.{
  ℕ, zero, suc, ◌+◌, ◌-◌, ◌^◌, ◌≤◌, ◌<◌, ◌≡◌, ◌⊎◌, inl, inr, refl, true, not, ◌||◌, leb, ltb, ◌==◌,
  arith, Bool-cases, leb, ltb→lt,
}
use lab_utilities.Memory.{load64, update}
use lab_utilities.Riscv.{pgsize, u64, maxva, pte_v, pte_u, pte_w, flag_set, pg_round_down}
use lab_utilities.Riscv.Rounding.{pg_round_down_lem}
use lab_utilities.Machine.{Machine, Outcome, ok}
use lab_utilities.Vm.Walk.Descent.{descend, walk-descend, translate, walkaddr-translate}
use lab_utilities.Vm.Map.{done, failed}
use lab_utilities.Vm.Copy.{
  chunk, copyout, copyout_loop, copyin, copyin_loop, copyinstr, copyinstr_loop, copyinstr_page,
  Progress,
}

-- A command's run ends with a result.
abbrev pub Returns : {A : Type 0} → Outcome Machine A → Type 0
Returns {A} r = (a : A) × (t : Machine) × (r ≡ ok a t)

pub chunk_pos : (va len : ℕ) → va < 2 ^ 64 → 0 < len → 0 < chunk va (pg_round_down va) len
chunk_pos va len h k = ground (arith, pg_round_down_lem va h)

pub chunk-le : (va va0 len : ℕ) → chunk va va0 len ≤ len
chunk-le va va0 len = ground arith

fewer_left : (va len : ℕ) → va < 2 ^ 64 → 0 < len → len - chunk va (pg_round_down va) len < len
fewer_left va len h k = ground (arith, chunk_pos va len h k)

copyout_loop-Returns :
    (fuel pt dstva src len : ℕ) (s : Machine)
    → dstva < 2 ^ 64
    → len < fuel
    → Returns (copyout_loop fuel pt dstva src len s)
unfolding copyout_loop
copyout_loop-Returns zero pt dstva src len s h enough = absurd (omega arith)
copyout_loop-Returns (suc fuel) pt dstva src len s h enough =
    let va0 : ℕ = pg_round_down dstva in
    let pte : ℕ = descend s.mem 2 pt va0 in
    let entry : ℕ = load64 s.mem pte in
    elim (Bool-cases (ltb 0 len)) [
      | inr none_left ↦ (done, s, rw none_left)
      | inl more ↦ elim (Bool-cases (leb maxva va0)) [
        | inl high ↦ (failed, s, rw (more, high))
        | inr low ↦ elim (Bool-cases (pte == 0)) [
          | inl null ↦ (failed, s, rw (more, low, walk-descend pt va0 s (ground arith), null))
          | inr there ↦
              elim (Bool-cases (
                not (flag_set pte_v entry)
                || not (flag_set pte_u entry)
                || not (flag_set pte_w entry))) [
                  | inl refused ↦ (
                    failed,
                    s,
                    rw (more, low, walk-descend pt va0 s (ground arith), there, refused),
                  )
                  | inr allowed ↦
                      rw (more, low, walk-descend pt va0 s (ground arith), there, allowed)
                        (copyout_loop-Returns fuel pt (u64 (va0 + pgsize)) _ _ _ (omega arith)
                          (omega (arith, fewer_left dstva len h (ltb→lt 0 len more))))
                ]
        ]
      ]
    ]

-- copyout returns 0 or -1 for every destination address and length; it never reaches a panic.
copyout-Returns :
    (pt dstva src len : ℕ) (s : Machine) → dstva < 2 ^ 64 → Returns (copyout pt dstva src len s)
unfolding copyout
copyout-Returns pt dstva src len s h =
    copyout_loop-Returns (len + 1) pt dstva src len s h (omega arith)

copyin_loop-Returns :
    (fuel pt dst srcva len : ℕ) (s : Machine)
    → srcva < 2 ^ 64
    → len < fuel
    → Returns (copyin_loop fuel pt dst srcva len s)
unfolding copyin_loop
copyin_loop-Returns zero pt dst srcva len s h enough = absurd (omega arith)
copyin_loop-Returns (suc fuel) pt dst srcva len s h enough =
    let va0 : ℕ = pg_round_down srcva in
    elim (Bool-cases (ltb 0 len)) [
      | inr none_left ↦ (done, s, rw none_left)
      | inl more ↦ elim (Bool-cases (translate s.mem pt va0 == 0)) [
        | inl null ↦ (failed, s, rw (more, walkaddr-translate pt va0 s, null))
        | inr there ↦
            rw (more, walkaddr-translate pt va0 s, there)
              (copyin_loop-Returns fuel pt _ (u64 (va0 + pgsize)) _ _ (omega arith)
                (omega (arith, fewer_left srcva len h (ltb→lt 0 len more))))
      ]
    ]

-- copyin returns 0 or -1 for every source address and length; it never reaches a panic.
copyin-Returns :
    (pt dst srcva len : ℕ) (s : Machine) → srcva < 2 ^ 64 → Returns (copyin pt dst srcva len s)
unfolding copyin
copyin-Returns pt dst srcva len s h =
    copyin_loop-Returns (len + 1) pt dst srcva len s h (omega arith)

-- The inner loop of copyinstr finds a null, or uses up its `n` bytes.
copyinstr_page-Returns :
    (n p dst max : ℕ) (s : Machine)
    → (r : Progress) × (t : Machine) × (copyinstr_page n p dst max s ≡ ok r t)
      × ((r.got_null ≡ true) ⊎ (r.max ≡ max - n))
unfolding copyinstr_page
copyinstr_page-Returns zero p dst max s = (_, s, refl, inr (omega arith))
copyinstr_page-Returns (suc n) p dst max s = elim (Bool-cases (s.mem p == 0)) [
  | inl null ↦ (
    record { got_null = true; dst = dst; max = max },
    record s { mem = update s.mem dst 0 },
    rw null,
    inl refl,
  )
  | inr more ↦
      let (r, t, run, e) =
        copyinstr_page-Returns n (p + 1) (dst + 1) (max - 1)
          (record s { mem = update s.mem dst (s.mem p) }) in
      (r, t, rw more run, ground arith)
]

copyinstr_loop-Returns :
    (fuel pt dst srcva max : ℕ) (s : Machine)
    → srcva < 2 ^ 64
    → max < fuel
    → Returns (copyinstr_loop fuel pt dst srcva max s)
unfolding copyinstr_loop
copyinstr_loop-Returns zero pt dst srcva max s h enough = absurd (omega arith)
copyinstr_loop-Returns (suc fuel) pt dst srcva max s h enough =
    let va0 : ℕ = pg_round_down srcva in
    elim (Bool-cases (ltb 0 max)) [
      | inr none_left ↦ (failed, s, rw none_left)
      | inl more ↦ elim (Bool-cases (translate s.mem pt va0 == 0)) [
        | inl null ↦ (failed, s, rw (more, walkaddr-translate pt va0 s, null))
        | inr there ↦
            let (r, t, run, e) =
              copyinstr_page-Returns (chunk srcva va0 max) (translate s.mem pt va0 + (srcva - va0))
                dst max s in
            elim (Bool-cases r.got_null) [
              | inl null ↦ (done, t, rw (more, walkaddr-translate pt va0 s, there, run, null))
              | inr not_yet ↦
                  rw (more, walkaddr-translate pt va0 s, there, run, not_yet)
                    (copyinstr_loop-Returns fuel pt r.dst (u64 (va0 + pgsize)) r.max t (omega arith)
                      (ground (arith, fewer_left srcva max h (ltb→lt 0 max more))))
            ]
      ]
    ]

-- copyinstr returns 0 or -1 for every source address and bound; it never reaches a panic.
pub copyinstr-Returns :
    (pt dst srcva max : ℕ) (s : Machine) → srcva < 2 ^ 64 → Returns (copyinstr pt dst srcva max s)
unfolding copyinstr
copyinstr-Returns pt dst srcva max s h =
    copyinstr_loop-Returns (max + 1) pt dst srcva max s h (omega arith)
