-- ===== src/Prelude/Word.antt =====
-- C `int` arithmetic: a number of 32 bits in two's complement, as the word below 2^32.
use connected_homa.Prelude.{ℕ, ◌+◌, ◌-◌, ◌%◌, ◌^◌, ◌≤◌, ◌<◌, ◌≡◌, Bool, ltb, leb, arith}

-- The order of signed numbers.
unfoldable pub lt32 : ℕ → ℕ → Bool
lt32 a b = ltb ((a + 2 ^ 31) % 2 ^ 32) ((b + 2 ^ 31) % 2 ^ 32)

unfoldable pub le32 : ℕ → ℕ → Bool
le32 a b = leb ((a + 2 ^ 31) % 2 ^ 32) ((b + 2 ^ 31) % 2 ^ 32)

unfoldable pub add32 : ℕ → ℕ → ℕ
add32 a b = (a + b) % 2 ^ 32

unfoldable pub sub32 : ℕ → ℕ → ℕ
sub32 a b = (a + (2 ^ 32 - b)) % 2 ^ 32

-- On numbers that are not negative, this is the arithmetic of ℕ, as long as the results are so.
pub lt32_small : (a b : ℕ) → a < 2 ^ 31 → b < 2 ^ 31 → lt32 a b ≡ ltb a b
unfolding lt32
lt32_small a b h k = ground arith

pub le32_small : (a b : ℕ) → a < 2 ^ 31 → b < 2 ^ 31 → le32 a b ≡ leb a b
unfolding le32
le32_small a b h k = ground arith

pub add32_small : (a b : ℕ) → a + b < 2 ^ 32 → add32 a b ≡ a + b
unfolding add32
add32_small a b h = omega arith

pub sub32_small : (a b : ℕ) → b ≤ a → a < 2 ^ 32 → sub32 a b ≡ a - b
unfolding sub32
sub32_small a b h k = omega arith
