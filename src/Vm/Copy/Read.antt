-- ===== src/Vm/Copy/Read.antt =====
-- copyin of lab page tables/kernel/vm.c as a read of the memory that the user sees.
use lab_utilities.Base.{
  ℕ, zero, suc, ◌+◌, ◌-◌, ◌%◌, ◌^◌, ◌≤◌, ◌<◌, ◌≡◌, ◌≢◌, ◌⊎◌, refl, sym, ap, ◌∙◌, true, false, ◌&&◌,
  leb, ltb, arith, Bool-cases, inl, inr, List, has, ==_ne, ℕ_discrete, dec_lt, lt→ltb,
}
use lab_utilities.Memory.{Mem, move}
use lab_utilities.Memory.Laws.{SameOutside, move-SameOutside, move-inside}
use lab_utilities.Riscv.{pgsize, u64, maxva, pg_round_down}
use lab_utilities.Riscv.Rounding.{pg_round_down_lem}
use lab_utilities.Machine.{Machine, ok}
use lab_utilities.Vm.Walk.Descent.{translate, walkaddr-translate}
use lab_utilities.Vm.Walk.Link.{page_of}
use lab_utilities.Vm.Walk.Frame.{SameOff}
use lab_utilities.Vm.Map.{done}
use lab_utilities.Vm.Copy.{chunk, copyin, copyin_loop}
use lab_utilities.Vm.Copy.User.{
  entry, translate-IsUserPage, user, IsSpace, frame-aligned, IsSpace-SameOff, translate-SameOff,
}
use lab_utilities.Vm.Copy.Write.{chunk_cases, pte2pa-add}

-- A buffer of the kernel on pages that are not page tables (they are among `ps`) and that the user
-- does not see.
abbrev pub IsApartBuffer : (pt lo hi : ℕ) → List ℕ → Mem → (dst len : ℕ) → Type 0
IsApartBuffer pt lo hi ps m dst len =
    (x : ℕ)
    → dst ≤ x
    → x < dst + len
    → (has (page_of x) ps ≡ true)
      × ((a : ℕ) → a % 4096 ≡ 0 → lo ≤ a → a < hi → translate m pt a ≢ page_of x)

-- What a call of copyin leaves behind: the user's bytes from `src` on stand in the buffer, and all
-- other memory and the allocator are as before.
pub record Fetched (pt dst src len : ℕ) (s t : Machine) : Type 0 where
  pub bytes : (i : ℕ) → i < len → t.mem (dst + i) ≡ user s.mem pt (src + i)
  pub same : SameOutside dst len s.mem t.mem
  pub freelist : t.freelist ≡ s.freelist
  pub trace : t.trace ≡ s.trace

copyin_loop-nothing :
    (fuel pt dst src len : ℕ) (s : Machine)
    → len ≡ 0
    → copyin_loop (suc fuel) pt dst src len s ≡ ok done s
unfolding copyin_loop
copyin_loop-nothing fuel pt dst src len s none_left = rw none_left

module _ (pt lo hi : ℕ) (ps : List ℕ) (al : lo % 4096 ≡ 0) (bound : hi ≤ maxva)
    (null : has 0 ps ≡ false) where
  -- A write to the buffer is seen by no walk and by no user.
  module _ (s : Machine) (g : Mem) (dst len : ℕ) (space : IsSpace pt lo hi ps s.mem)
      (buffer : IsApartBuffer pt lo hi ps s.mem dst len) (same : SameOutside dst len s.mem g) where
    buffer-SameOff : SameOff ps s.mem g
    buffer-SameOff x out = elim (Bool-cases (leb dst x && ltb x (dst + len))) [
      | inl inside ↦ absurd (cc ((buffer x (ground arith) (ground arith)).0, out))
      | inr outside ↦ same x (ground arith)
    ]

    pub buffer-user : (va : ℕ) → lo ≤ va → va < hi → user g pt va ≡ user s.mem pt va
    buffer-user va low high =
        let frame : ℕ = translate s.mem pt (page_of va) in
        let place : ℕ = frame + va % 4096 in
        let (frame_al, owned) =
          frame-aligned pt lo hi ps s.mem bound space (page_of va) (omega arith) (omega arith)
            (omega arith) in
        let still : translate g pt (page_of va) ≡ frame =
          translate-SameOff s.mem g pt (page_of va) ps buffer-SameOff
            (space.mapped (page_of va) (omega arith) (omega arith) (omega arith)) (omega arith) in
        rw still (elim (Bool-cases (leb dst place && ltb place (dst + len))) [
          | inl inside ↦ absurd (
              (buffer place (ground arith) (ground arith)).1 (page_of va) (omega arith)
                (omega arith) (omega arith) (omega arith))
          | inr outside ↦ same place (ground arith)
        ])

  copyin_round :
      (fuel dst src len : ℕ) (s t : Machine)
      → IsSpace pt lo hi ps s.mem
      → lo ≤ src
      → src + len ≤ hi
      → 0 < len
      → dst + len < 2 ^ 64
      → copyin_loop fuel pt
          (dst + chunk src (page_of src) len)
          (page_of src + 4096)
          (len - chunk src (page_of src) len)
          (record s {
            mem =
                move s.mem dst
                  (translate s.mem pt (page_of src) + (src - page_of src))
                  (chunk src (page_of src) len);
          })
        ≡ ok done t
      → copyin_loop (suc fuel) pt dst src len s ≡ ok done t
  unfolding copyin_loop
  copyin_round fuel dst src len s t space low high some_left room run =
      let a : ℕ = page_of src in
      let round : pg_round_down src ≡ a = pg_round_down_lem src (omega arith) in
      let (pos, le, fits, last) = chunk_cases src len some_left in
      let (frame_al, owned) =
        frame-aligned pt lo hi ps s.mem bound space a (omega arith) (omega arith) (omega arith) in
      let there : translate s.mem pt a ≢ 0 = λ e. cc (ap (λ (f : ℕ). has f ps) e, owned, null) in
      let place : u64 (translate s.mem pt a + (src - a)) ≡ translate s.mem pt a + (src - a) =
        rw
          (translate-IsUserPage s.mem pt a ps (omega arith)
            (space.mapped a (omega arith) (omega arith) (omega arith)))
          (pte2pa-add (entry s.mem pt a) (src - a) (omega arith)) in
      let next : u64 (a + pgsize) ≡ a + 4096 = omega arith in
      let next_dst : u64 (dst + chunk src a len) ≡ dst + chunk src a len = omega arith in
      rw
        (
          lt→ltb 0 len some_left,
          round,
          walkaddr-translate pt a s,
          ==_ne (translate s.mem pt a) 0 there,
          place,
          next,
          next_dst,
        )
        run

  Fetched-bytes :
      (s t : Machine) (dst src len n : ℕ)
      → IsSpace pt lo hi ps s.mem
      → IsApartBuffer pt lo hi ps s.mem dst len
      → lo ≤ src
      → src + len ≤ hi
      → n ≤ len
      → src - page_of src + n ≤ 4096
      → (n ≡ len) ⊎ (src + n ≡ page_of src + 4096)
      → Fetched pt
          (dst + n)
          (page_of src + 4096)
          (len - n)
          (record s {
            mem = move s.mem dst (translate s.mem pt (page_of src) + (src - page_of src)) n;
          })
          t
      → (i : ℕ) → i < len
      → t.mem (dst + i) ≡ user s.mem pt (src + i)
  Fetched-bytes s t dst src len n space buffer low high le fits last w i h =
      let from : ℕ = translate s.mem pt (page_of src) + (src - page_of src) in
      elim (dec_lt i n) [
        | yes first ↦
            let page : page_of (src + i) ≡ page_of src = omega arith in
            let index : from + i ≡ translate s.mem pt (page_of src) + (src + i) % 4096 =
              omega arith in
            w.same (dst + i) (omega arith)
            ∙ move-inside s.mem dst from n i first
            ∙ rw page (ap (λ (x : ℕ). s.mem x) index)
        | no later ↦
            let at_dst : dst + n + (i - n) ≡ dst + i = omega arith in
            let at_src : page_of src + 4096 + (i - n) ≡ src + i = omega arith in
            rw (at_dst, at_src) at (w.bytes (i - n) (omega arith))
            ∙ buffer-user s (move s.mem dst from n) dst len space buffer
                (λ x out. move-SameOutside s.mem dst from n x (omega arith)) (src + i) (omega arith)
                (omega arith)
      ]

  copyin_loop-Fetched :
      (fuel dst src len : ℕ) (s : Machine)
      → IsSpace pt lo hi ps s.mem
      → IsApartBuffer pt lo hi ps s.mem dst len
      → lo ≤ src
      → (len ≡ 0) ⊎ (src + len ≤ hi)
      → dst + len < 2 ^ 64
      → len < fuel
      → (t : Machine) × (copyin_loop fuel pt dst src len s ≡ ok done t) × Fetched pt dst src len s t
  copyin_loop-Fetched zero dst src len s space buffer low high room enough = absurd (omega arith)
  copyin_loop-Fetched (suc fuel) dst src len s space buffer low high room enough =
      elim (ℕ_discrete len 0) [
        | yes none_left ↦ (
          s,
          copyin_loop-nothing fuel pt dst src len s none_left,
          record {
            bytes = λ i h. absurd (omega arith);
            same = λ x h. refl;
            freelist = refl;
            trace = refl;
          },
        )
        | no more ↦
            let a : ℕ = page_of src in
            let n : ℕ = chunk src a len in
            let (pos, le, fits, last) = chunk_cases src len (omega arith) in
            let from : ℕ = translate s.mem pt a + (src - a) in
            let s1 : Machine = record s { mem = move s.mem dst from n } in
            let wrote : SameOutside dst len s.mem s1.mem =
              λ x h. move-SameOutside s.mem dst from n x (omega arith) in
            let same : SameOff ps s.mem s1.mem =
              buffer-SameOff s s1.mem dst len space buffer wrote in
            let (t, run, w) =
              copyin_loop-Fetched fuel (dst + n) (a + 4096) (len - n) s1
                (IsSpace-SameOff pt lo hi ps s.mem bound space s1.mem same)
                (λ x l h.
                  let (owned, unseen) = buffer x (omega arith) (omega arith) in
                  (
                    owned,
                    λ b alb lob hib e. unseen b alb lob hib (
                        sym (
                          translate-SameOff s.mem s1.mem pt b ps same (space.mapped b alb lob hib)
                            (omega arith))
                        ∙ e),
                  ))
                (omega arith) (omega arith) (omega arith) (omega arith) in
            (
              t,
              copyin_round fuel dst src len s t space low (omega arith) (omega arith) room run,
              record {
                bytes =
                    Fetched-bytes s t dst src len n space buffer low (omega arith) le fits last w;
                same = λ x h. w.same x (omega arith) ∙ wrote x h;
                freelist = w.freelist;
                trace = w.trace;
              },
            )
      ]

  -- copyin from an address range that is mapped for the user returns 0. Afterwards the buffer holds
  -- the bytes that the user sees from `src` on, and all other memory and the allocator are unchanged.
  pub copyin-Fetched :
      (dst src len : ℕ) (s : Machine)
      → IsSpace pt lo hi ps s.mem
      → IsApartBuffer pt lo hi ps s.mem dst len
      → lo ≤ src
      → src + len ≤ hi
      → dst + len < 2 ^ 64
      → (t : Machine) × (copyin pt dst src len s ≡ ok done t) × Fetched pt dst src len s t
  unfolding copyin
  copyin-Fetched dst src len s space buffer low high room =
      copyin_loop-Fetched (len + 1) dst src len s space buffer low (inr high) room (omega arith)
