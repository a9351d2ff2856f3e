-- ===== src/Prelude/Int64.antt =====
-- Go's 64-bit `int`, as the bit pattern: a number below 2^64 that wraps around.
use Prim.Native.Nat.{ℕ, ◌+◌, ◌-◌, ◌%◌, ◌^◌, ◌≤◌, ◌<◌}
use mathlib.Core.Path.{◌≡◌}
use mathlib.Core.Bool.{Bool}
use native.Mathlib.Omega.{arith}
use copilot_token_cost.Prelude.Tests.{ltb, leb}

abbrev pub word : ℕ
word = 2 ^ 64

-- The first pattern that stands for a negative number.
abbrev pub sign_bit : ℕ
sign_bit = 2 ^ 63

abbrev pub Fits : ℕ → Type 0
Fits a = a < word

unfoldable pub add64 : ℕ → ℕ → ℕ
add64 a b = (a + b) % word

unfoldable pub sub64 : ℕ → ℕ → ℕ
sub64 a b = (a + (word - b % word)) % word

-- `a < 0`.
unfoldable pub is_neg : ℕ → Bool
is_neg a = leb sign_bit (a % word)

-- `a < b` on signed integers: the patterns shifted by half the range compare as numbers.
unfoldable pub lt64 : ℕ → ℕ → Bool
lt64 a b = ltb ((a + sign_bit) % word) ((b + sign_bit) % word)

pub add64_comm : (a b : ℕ) → add64 a b ≡ add64 b a
unfolding add64
add64_comm a b = omega arith

pub add64_assoc : (a b c : ℕ) → add64 (add64 a b) c ≡ add64 a (add64 b c)
unfolding add64
add64_assoc a b c = omega arith

pub add64_left_comm : (a b c : ℕ) → add64 a (add64 b c) ≡ add64 b (add64 a c)
unfolding add64
add64_left_comm a b c = omega arith

pub add64-Fits : (a b : ℕ) → Fits (add64 a b)
unfolding add64
add64-Fits a b = omega arith

pub add64_zero : (a : ℕ) → Fits a → add64 a 0 ≡ a
unfolding add64
add64_zero a h = omega arith

pub zero_add64 : (a : ℕ) → Fits a → add64 0 a ≡ a
unfolding add64
zero_add64 a h = omega arith

-- Where nothing overflows the machine operations are those of the numbers.
pub add64-eq-add : (a b : ℕ) → a + b < word → add64 a b ≡ a + b
unfolding add64
add64-eq-add a b h = omega arith

pub sub64-eq-sub : (a b : ℕ) → b ≤ a → a < word → sub64 a b ≡ a - b
unfolding sub64
sub64-eq-sub a b h k = omega arith
