-- ===== src/Vm/Walk/Descent.antt =====
-- What walk and walkaddr of lab page tables/kernel/vm.c read, as functions of memory.
use lab_utilities.Base.{
  ℕ, zero, suc, ◌+◌, ◌*◌, ◌<◌, ◌≡◌, inl, inr, refl, false, not, leb, ◌==◌, if◌then◌else◌, arith,
  Bool-cases, lt→leb,
}
use lab_utilities.Memory.{Mem, load64}
use lab_utilities.Riscv.{maxva, px, pte_v, pte_u, flag_set, pte2pa}
use lab_utilities.Machine.{Machine, ok}
use lab_utilities.Vm.Walk.{walk_loop, walk, walkaddr}

-- the address of the entry for `va` in the page table `pt` of a level
abbrev pub slot : ℕ → ℕ → ℕ → ℕ
slot level pt va = pt + 8 * px level va

-- The address of the level-0 entry for `va`, or 0 where a table on the way is missing.
unfoldable pub descend : Mem → ℕ → ℕ → ℕ → ℕ
descend m zero pt va = slot 0 pt va
descend m (suc level) pt va =
    let below = descend m level (pte2pa (load64 m (slot (suc level) pt va))) va in
    if flag_set pte_v (load64 m (slot (suc level) pt va)) then below else 0

pub walk_loop-descend :
    (level pt va : ℕ) (s : Machine)
    → walk_loop level pt va false s ≡ ok (descend s.mem level pt va) s
unfolding walk_loop descend
walk_loop-descend zero pt va s = refl
walk_loop-descend (suc level) pt va s =
    elim (Bool-cases (flag_set pte_v (load64 s.mem (slot (suc level) pt va)))) [
      | inl e ↦ rw e (walk_loop-descend level (pte2pa (load64 s.mem (slot (suc level) pt va))) va s)
      | inr e ↦ rw e
    ]

-- walk without `alloc` only reads, and finds the entry that the tables lead to.
pub walk-descend :
    (pt va : ℕ) (s : Machine) → va < maxva → walk pt va false s ≡ ok (descend s.mem 2 pt va) s
unfolding walk
walk-descend pt va s h = rw (lt→leb maxva va h) (walk_loop-descend 2 pt va s)

-- The physical page that `va` is in, or 0: what the page tables mean to a user.
unfoldable pub translate : Mem → ℕ → ℕ → ℕ
translate m pt va =
    if leb maxva va
    then 0
    else if descend m 2 pt va == 0
    then 0
    else if not (flag_set pte_v (load64 m (descend m 2 pt va)))
    then 0
    else if not (flag_set pte_u (load64 m (descend m 2 pt va)))
    then 0
    else pte2pa (load64 m (descend m 2 pt va))

-- walkaddr changes nothing, always returns, and returns the translation.
pub walkaddr-translate : (pt va : ℕ) (s : Machine) → walkaddr pt va s ≡ ok (translate s.mem pt va) s
unfolding walkaddr translate
walkaddr-translate pt va s = elim (Bool-cases (leb maxva va)) [
  | inl e ↦ rw (e)
  | inr e ↦ rw (e, walk-descend pt va s (ground arith)) (ground arith)
]
