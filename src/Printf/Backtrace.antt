-- ===== src/Printf/Backtrace.antt =====
-- How backtrace of lab traps/kernel/printf.c ends.
use lab_utilities.Base.{
  ℕ, zero, suc, ◌+◌, ◌-◌, ◌*◌, ◌/◌, ◌^◌, ◌≤◌, ◌<◌, ◌≡◌, ◌≢◌, refl, sym, ◌∙◌, Bool, [], ◌∷◌, some,
  ◌++◌, ◌==◌, if◌then◌else◌, arith, Bool-cases, inl, inr, ==_iff, ==_ne,
}
use lab_utilities.Memory.{Mem, load64}
use lab_utilities.Memory.Laws.{IsBytes, load-lt}
use lab_utilities.Riscv.{pgsize, u64, pg_round_down}
use lab_utilities.Riscv.Rounding.{pg_round_down_lem}
use lab_utilities.Machine.{Machine, ok}
use lab_utilities.Printf.{
  ptr, printptr, format, conversion, address_format, backtrace, backtrace_loop,
}
use lab_utilities.Printf.Output.{printed, printf_lem}

-- The frames of a stack page from the one at `fp` on: it is outside of the page, or the frame of the
-- caller, whose pointer is saved 16 bytes below, is above it, for a stack grows down.
pub data Frames (m : Mem) (page : ℕ) : ℕ → Type 0 where
  outside : (fp : ℕ) → pg_round_down fp ≢ page → Frames m page fp
  inside :
      (fp : ℕ)
      → fp < load64 m (u64 (fp + 2 ^ 64 - 16))
      → Frames m page (load64 m (u64 (fp + 2 ^ 64 - 16)))
      → Frames m page fp

format-address : (a : ℕ) → format address_format (ptr a ∷ []) ≡ some (printptr a ++ 10 ∷ [])
unfolding format conversion
format-address a = refl

backtrace_loop-Returns :
    (fuel : ℕ) (locking : Bool) (page fp : ℕ) (s : Machine)
    → fp < 2 ^ 64
    → IsBytes s.mem
    → Frames s.mem page fp
    → (page ≤ fp → page + 4096 < fp + fuel)
    → 0 < fuel
    → (t : Machine) × (backtrace_loop fuel locking page fp s ≡ ok tt t)
      × (t.mem ≡ s.mem)
      × (t.freelist ≡ s.freelist)
unfolding backtrace_loop
backtrace_loop-Returns zero locking page fp s h bytes frames enough pos = absurd (omega arith)
backtrace_loop-Returns (suc fuel) locking page fp s h bytes (outside _ out) enough pos =
    (s, rw (==_ne page (pg_round_down fp) (λ e. out (sym e))), refl, refl)
backtrace_loop-Returns (suc fuel) locking page fp s h bytes (inside _ above rest) enough pos =
    elim (Bool-cases (page == pg_round_down fp)) [
      | inr out ↦ (s, rw out, refl, refl)
      | inl within ↦
          let e : page ≡ fp / 4096 * 4096 =
            (==_iff page (pg_round_down fp)).0 within ∙ pg_round_down_lem fp h in
          let ra : ℕ = load64 s.mem (u64 (fp + 2 ^ 64 - 8)) in
          let caller : ℕ = load64 s.mem (u64 (fp + 2 ^ 64 - 16)) in
          let s1 : Machine = record s {
            trace = printed locking (printptr ra ++ 10 ∷ []) s.trace;
          } in
          let room = enough (omega arith) in
          let (t, run, mem, freelist) =
            backtrace_loop-Returns fuel locking page caller s1
              (omega (arith, load-lt 8 (u64 (fp + 2 ^ 64 - 16)) s.mem bytes)) bytes rest
              (λ k. omega (arith, above)) (omega arith) in
          (
            t,
            rw
                (
                  within,
                  printf_lem locking address_format (ptr ra ∷ []) (printptr ra ++ 10 ∷ []) s
                      (format-address ra),
                )
                run,
            mem,
            freelist,
          )
    ]

-- On a stack page each of whose frames, from the current one on, is below that of its caller, up to one
-- whose caller's frame is outside of the page, backtrace ends, within one round more than a page has
-- bytes, and changes nothing but the console.
pub backtrace-Returns :
    (locking : Bool) (grnd fp : ℕ) (s : Machine)
    → fp < 2 ^ 64
    → IsBytes s.mem
    → Frames s.mem (if grnd == 0 then pg_round_down fp else grnd) fp
    → (t : Machine) × (backtrace locking grnd fp s
        ≡ ok (if grnd == 0 then pg_round_down fp else grnd) t)
      × (t.mem ≡ s.mem)
      × (t.freelist ≡ s.freelist)
unfolding backtrace
backtrace-Returns locking grnd fp s h bytes frames =
    let (t, run, mem, freelist) =
      backtrace_loop-Returns (pgsize + 1) locking (if grnd == 0 then pg_round_down fp else grnd) fp
        s h bytes frames (λ k. omega arith) (omega arith) in
    (t, rw run, mem, freelist)
