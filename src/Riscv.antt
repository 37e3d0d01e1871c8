-- ===== src/Riscv.antt =====
-- lab page tables/kernel/riscv.h (and the same text in lab traps/kernel/riscv.h): page arithmetic,
-- page-table entries, and the indices of a virtual address. A `uint64` is a number below 2 ^ 64,
-- and sums wrap.
pub mod Rounding
pub mod Entries
use lab_utilities.Base.{
  ℕ, ◌+◌, ◌-◌, ◌*◌, ◌/◌, ◌%◌, ◌^◌, Bool, not, bit_and, bit_or, ◌==◌, ltb, if◌then◌else◌,
}

abbrev pub pgsize : ℕ
pgsize = 4096

-- the value kept in a uint64
abbrev pub u64 : ℕ → ℕ
u64 n = n % 2 ^ 64

-- `~m` on 64 bits
abbrev pub bit_not : ℕ → ℕ
bit_not m = 2 ^ 64 - 1 - m

unfoldable pub pg_round_up : ℕ → ℕ
pg_round_up sz = bit_and (u64 (sz + pgsize - 1)) (bit_not (pgsize - 1))

unfoldable pub pg_round_down : ℕ → ℕ
pg_round_down a = bit_and a (bit_not (pgsize - 1))

abbrev pub pte_v : ℕ
pte_v = 2 ^ 0

abbrev pub pte_r : ℕ
pte_r = 2 ^ 1

abbrev pub pte_w : ℕ
pte_w = 2 ^ 2

abbrev pub pte_x : ℕ
pte_x = 2 ^ 3

abbrev pub pte_u : ℕ
pte_u = 2 ^ 4

abbrev pub pte_a : ℕ
pte_a = 2 ^ 6

-- `pte & flag` as a condition
abbrev pub flag_set : ℕ → ℕ → Bool
flag_set flag pte = not (bit_and pte flag == 0)

unfoldable pub pa2pte : ℕ → ℕ
pa2pte pa = u64 (pa / 2 ^ 12 * 2 ^ 10)

unfoldable pub pte2pa : ℕ → ℕ
pte2pa pte = u64 (pte / 2 ^ 10 * 2 ^ 12)

unfoldable pub pte_flags : ℕ → ℕ
pte_flags pte = bit_and pte 0x3ff

-- the 9-bit index of `va` at a level
unfoldable pub px : ℕ → ℕ → ℕ
px level va = bit_and (va / 2 ^ (12 + 9 * level)) 0x1ff

abbrev pub maxva : ℕ
maxva = 2 ^ (9 + 9 + 9 + 12 - 1)

-- MAKE_SATP: Sv39 mode in the top bits, and the number of the root page.
abbrev satp_sv39 : ℕ
satp_sv39 = 8 * 2 ^ 60

unfoldable pub make_satp : ℕ → ℕ
make_satp pagetable = bit_or satp_sv39 (pagetable / 2 ^ 12)

-- an int, as the uint64 that C converts it to
abbrev pub sign_extend : ℕ → ℕ
sign_extend n = if ltb (n % 2 ^ 32) (2 ^ 31) then n % 2 ^ 32 else 2 ^ 64 - 2 ^ 32 + n % 2 ^ 32
