-- ===== src/Base/Bits.antt =====
-- Bitwise `and` and `or` at variables: both act separately on the digits below a place and on
-- those from that place up.
use Prim.Native.Nat.{
  ℕ, zero, suc, ◌+◌, ◌-◌, ◌*◌, ◌/◌, ◌%◌, ◌^◌, ◌≤◌, ◌<◌, min, max, bit_and, bit_or, digits,
  bit_and-bitwise, bit_or-bitwise,
}
use mathlib.Core.Path.{◌≡◌, refl, ap}
use native.Mathlib.Nat.{pow-suc, one-le-pow}
use native.Mathlib.Omega.{arith}

module _ (z : ℕ → ℕ) (f : ℕ → ℕ → ℕ) where
  -- Any count of rounds that is at least the first operand gives the same digits.
  rounds_irrelevant : (a b n m : ℕ) → a ≤ n → a ≤ m → digits z f n a b ≡ digits z f m a b
  rounds_irrelevant zero b zero zero p q = refl
  rounds_irrelevant zero b zero (suc m) p q = refl
  rounds_irrelevant zero b (suc n) zero p q = refl
  rounds_irrelevant zero b (suc n) (suc m) p q = refl
  rounds_irrelevant (suc a) b zero m p q = absurd (omega arith)
  rounds_irrelevant (suc a) b (suc n) zero p q = absurd (omega arith)
  rounds_irrelevant (suc a) b (suc n) (suc m) p q =
      ap (λ (t : ℕ). t * 2 + f (suc a % 2) (b % 2))
        (rounds_irrelevant (suc a / 2) (b / 2) n m (omega arith) (omega arith))

-- The lowest digit of each operation, split off.
pub bit_and_low : (a b : ℕ) → bit_and a b ≡ 2 * bit_and (a / 2) (b / 2) + min (a % 2) (b % 2)
bit_and_low zero b = omega (arith, bit_and-bitwise 0 b, bit_and-bitwise 0 (b / 2))
bit_and_low (suc a) b = omega (
  arith,
  bit_and-bitwise (suc a) b,
  bit_and-bitwise (suc a / 2) (b / 2),
  rounds_irrelevant (λ y. 0) min (suc a / 2) (b / 2) a (suc a / 2) (omega arith) (omega arith),
)

pub bit_or_low : (a b : ℕ) → bit_or a b ≡ 2 * bit_or (a / 2) (b / 2) + max (a % 2) (b % 2)
bit_or_low zero b = omega (arith, bit_or-bitwise 0 b, bit_or-bitwise 0 (b / 2))
bit_or_low (suc a) b = omega (
  arith,
  bit_or-bitwise (suc a) b,
  bit_or-bitwise (suc a / 2) (b / 2),
  rounds_irrelevant (λ y. y) max (suc a / 2) (b / 2) a (suc a / 2) (omega arith) (omega arith),
)

pub zero-bit_and : (b : ℕ) → bit_and 0 b ≡ 0
zero-bit_and b = bit_and-bitwise 0 b

pub zero-bit_or : (b : ℕ) → bit_or 0 b ≡ b
zero-bit_or b = bit_or-bitwise 0 b

-- A number whose binary digits all stand below the place `k`, with its halvings.
bit_and-zero_below : (k a : ℕ) → a < 2 ^ k → bit_and a 0 ≡ 0
bit_and-zero_below zero a h = let e : a ≡ 0 = omega arith in rw e (zero-bit_and 0)
bit_and-zero_below (suc k) a h =
    omega (
      arith,
      bit_and_low a 0,
      pow-suc 2 k,
      bit_and-zero_below k (a / 2) (omega (arith, pow-suc 2 k)),
    )

bit_or-zero_below : (k a : ℕ) → a < 2 ^ k → bit_or a 0 ≡ a
bit_or-zero_below zero a h = let e : a ≡ 0 = omega arith in rw e (zero-bit_or 0)
bit_or-zero_below (suc k) a h =
    omega
      (arith, bit_or_low a 0, pow-suc 2 k, bit_or-zero_below k (a / 2) (omega (arith, pow-suc 2 k)))

lt-two-pow : (a : ℕ) → a < 2 ^ a
lt-two-pow zero = omega arith
lt-two-pow (suc a) = omega (arith, lt-two-pow a, pow-suc 2 a)

pub bit_and-zero : (a : ℕ) → bit_and a 0 ≡ 0
bit_and-zero a = bit_and-zero_below a a (lt-two-pow a)

pub bit_or-zero : (a : ℕ) → bit_or a 0 ≡ a
bit_or-zero a = bit_or-zero_below a a (lt-two-pow a)

-- A place `k + 1` in a number, seen from its half.
module _ (k a r : ℕ) where
  half_split : (a * 2 ^ suc k + r) / 2 ≡ a * 2 ^ k + r / 2
  half_split = omega (arith, ap (λ (t : ℕ). a * t) (pow-suc 2 k))

  parity_split : (a * 2 ^ suc k + r) % 2 ≡ r % 2
  parity_split = omega (arith, ap (λ (t : ℕ). a * t) (pow-suc 2 k))

split_zero : (a r : ℕ) → r < 2 ^ 0 → a * 2 ^ 0 + r ≡ a
split_zero a r h = omega arith

-- Both operations at a place: the parts above `k` binary digits, and the parts below.
pub bit_and_split :
    (k a b r s : ℕ)
    → r < 2 ^ k
    → s < 2 ^ k
    → bit_and (a * 2 ^ k + r) (b * 2 ^ k + s) ≡ bit_and a b * 2 ^ k + bit_and r s
bit_and_split zero a b r s p q =
    let e : r ≡ 0 = omega arith in
    rw (split_zero a r p, split_zero b s q, e, zero-bit_and s) (omega arith)
bit_and_split (suc k) a b r s p q =
    rw
      (
        bit_and_low (a * 2 ^ suc k + r) (b * 2 ^ suc k + s),
        half_split k a r,
        half_split k b s,
        parity_split k a r,
        parity_split k b s,
      )
      (omega (
        arith,
        bit_and_split k a b (r / 2) (s / 2) (omega (arith, pow-suc 2 k))
            (omega (arith, pow-suc 2 k)),
        bit_and_low r s,
        ap (λ (t : ℕ). bit_and a b * t) (pow-suc 2 k),
      ))

pub bit_or_split :
    (k a b r s : ℕ)
    → r < 2 ^ k
    → s < 2 ^ k
    → bit_or (a * 2 ^ k + r) (b * 2 ^ k + s) ≡ bit_or a b * 2 ^ k + bit_or r s
bit_or_split zero a b r s p q =
    let e : r ≡ 0 = omega arith in
    let e' : s ≡ 0 = omega arith in
    rw (split_zero a r p, split_zero b s q, e, e', zero-bit_or 0) (omega arith)
bit_or_split (suc k) a b r s p q =
    rw
      (
        bit_or_low (a * 2 ^ suc k + r) (b * 2 ^ suc k + s),
        half_split k a r,
        half_split k b s,
        parity_split k a r,
        parity_split k b s,
      )
      (omega (
        arith,
        bit_or_split k a b (r / 2) (s / 2) (omega (arith, pow-suc 2 k))
            (omega (arith, pow-suc 2 k)),
        bit_or_low r s,
        ap (λ (t : ℕ). bit_or a b * t) (pow-suc 2 k),
      ))

-- A mask of `k` ones is the remainder by `2 ^ k`.
pub bit_and-ones : (k a : ℕ) → a < 2 ^ k → bit_and a (2 ^ k - 1) ≡ a
bit_and-ones zero a h = let e : a ≡ 0 = omega arith in rw e (zero-bit_and 0)
bit_and-ones (suc k) a h =
    let e : (2 ^ suc k - 1) / 2 ≡ 2 ^ k - 1 = omega (arith, pow-suc 2 k, one-le-pow k 2) in
    let o : (2 ^ suc k - 1) % 2 ≡ 1 = omega (arith, pow-suc 2 k, one-le-pow k 2) in
    rw (bit_and_low a (2 ^ suc k - 1), e, o)
      (omega (arith, bit_and-ones k (a / 2) (omega (arith, pow-suc 2 k))))

pub bit_and-mask : (k a : ℕ) → bit_and a (2 ^ k - 1) ≡ a % 2 ^ k
bit_and-mask k a = ground (
  arith,
  one-le-pow k 2,
  bit_and_split k (a / 2 ^ k) 0 (a % 2 ^ k) (2 ^ k - 1),
  bit_and-ones k (a % 2 ^ k),
  bit_and-zero (a / 2 ^ k),
)

pub bit_and-one : (a : ℕ) → bit_and a 1 ≡ a % 2
bit_and-one a = bit_and-mask 1 a

-- One digit tested: the digit at the place `k`, at its weight.
pub bit_and-pow : (k a : ℕ) → bit_and a (2 ^ k) ≡ a / 2 ^ k % 2 * 2 ^ k
bit_and-pow k a = ground (
  arith,
  one-le-pow k 2,
  bit_and_split k (a / 2 ^ k) 1 (a % 2 ^ k) 0,
  bit_and-one (a / 2 ^ k),
  bit_and-zero (a % 2 ^ k),
)

-- `(q << k) | r` is a sum where `r` fits the `k` low digits.
pub bit_or-fields : (k q r : ℕ) → r < 2 ^ k → bit_or (q * 2 ^ k) r ≡ q * 2 ^ k + r
bit_or-fields k q r h =
    ground (arith, one-le-pow k 2, bit_or_split k q 0 0 r, bit_or-zero q, zero-bit_or r)

-- The low `k` digits cleared, in a number of at most `k + n` digits.
pub bit_and-high :
    (k n a : ℕ) → a / 2 ^ k < 2 ^ n → bit_and a ((2 ^ n - 1) * 2 ^ k) ≡ a / 2 ^ k * 2 ^ k
bit_and-high k n a h = ground (
  arith,
  one-le-pow k 2,
  bit_and_split k (a / 2 ^ k) (2 ^ n - 1) (a % 2 ^ k) 0,
  bit_and-ones n (a / 2 ^ k),
  bit_and-zero (a % 2 ^ k),
)
