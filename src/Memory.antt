-- ===== src/Memory.antt =====
-- Byte-addressed physical memory. The kernel maps physical memory directly, so its C pointers are
-- physical addresses; a memory maps each address to the byte that stands there. Multi-byte values
-- are little-endian, as on RISC-V.
pub mod Laws
use lab_utilities.Base.{ℕ, zero, suc, ◌+◌, ◌-◌, ◌*◌, ◌/◌, ◌%◌, ◌&&◌, ltb, leb, ◌==◌, if◌then◌else◌}

abbrev pub Mem : Type 0
Mem = ℕ → ℕ

-- one byte written
unfoldable pub update : Mem → ℕ → ℕ → Mem
update m a v x = if x == a then v else m x

-- the `n`-byte little-endian value at `a`
unfoldable pub load : Mem → ℕ → ℕ → ℕ
load m a zero = 0
load m a (suc n) = m a + 256 * load m (a + 1) n

-- `v` written as an `n`-byte little-endian value at `a`
unfoldable pub store : Mem → ℕ → ℕ → ℕ → Mem
unfolding update
store m a zero v = m
store m a (suc n) v = store (update m a (v % 256)) (a + 1) n (v / 256)

-- memset
unfoldable pub fill : Mem → ℕ → ℕ → ℕ → Mem
fill m a c n x = if leb a x && ltb x (a + n) then c % 256 else m x

-- memmove
unfoldable pub move : Mem → ℕ → ℕ → ℕ → Mem
move m dst src n x = if leb dst x && ltb x (dst + n) then m (src + (x - dst)) else m x

-- a uint64 and an int in memory
abbrev pub load64 : Mem → ℕ → ℕ
load64 m a = load m a 8

abbrev pub store64 : Mem → ℕ → ℕ → Mem
store64 m a v = store m a 8 v
