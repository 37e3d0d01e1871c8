-- ===== src/Printf/Digits.antt =====
-- The digits that printint of lab traps/kernel/printf.c writes.
use lab_utilities.Base.{ℕ, ◌+◌, ◌-◌, ◌*◌, ◌<◌, ◌≡◌, List, [], ◌∷◌, ltb, if◌then◌else◌, arith}
use lab_utilities.Printf.{digit}

-- the value of one digit, and of a text of digits, most significant first, behind a number
unfoldable pub digit_value : ℕ → ℕ
digit_value c = if ltb c b'a' then c - b'0' else c - b'a' + 10

unfoldable pub read_digits : ℕ → ℕ → List ℕ → ℕ
read_digits base acc [] = acc
read_digits base acc (c ∷ cs) = read_digits base (acc * base + digit_value c) cs

pub digit_value-digit : (d : ℕ) → d < 16 → digit_value (digit d) ≡ d
unfolding digit_value digit
digit_value-digit d h = ground arith
