-- ===== src/Riscv/Rounding.antt =====
-- Rounding to pages as arithmetic.
use lab_utilities.Base.{ℕ, ◌+◌, ◌-◌, ◌*◌, ◌/◌, ◌%◌, ◌^◌, ◌<◌, ◌≡◌, arith}
use lab_utilities.Base.Bits.{bit_and-high, bit_and-mask}
use lab_utilities.Riscv.{pgsize, u64, pg_round_up, pg_round_down, px, pte_flags}

pub pg_round_down_lem : (a : ℕ) → a < 2 ^ 64 → pg_round_down a ≡ a / 4096 * 4096
unfolding pg_round_down
pg_round_down_lem a h = bit_and-high 12 52 a (omega arith)

pub pg_round_up_lem : (a : ℕ) → a + 4095 < 2 ^ 64 → pg_round_up a ≡ (a + 4095) / 4096 * 4096
unfolding pg_round_up
pg_round_up_lem a h = omega (arith, bit_and-high 12 52 (u64 (a + pgsize - 1)) (omega arith))

pub px_lem : (level va : ℕ) → px level va ≡ va / 2 ^ (12 + 9 * level) % 512
unfolding px
px_lem level va = bit_and-mask 9 (va / 2 ^ (12 + 9 * level))

pub px-lt : (level va : ℕ) → px level va < 512
px-lt level va = omega (arith, px_lem level va)

pub pte_flags_lem : (pte : ℕ) → pte_flags pte ≡ pte % 1024
unfolding pte_flags
pte_flags_lem pte = bit_and-mask 10 pte
