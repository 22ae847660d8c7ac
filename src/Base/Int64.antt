-- ===== src/Base/Int64.antt =====
-- Go's int64 (also `int` and `time.Duration`) as a bit pattern, a number below 2 ^ 64: sums wrap,
-- and comparisons read the top bit as the sign.
use Prim.Native.Nat.{ℕ, ◌+◌, ◌%◌, ◌≤◌, ◌<◌}
use mathlib.Core.Path.{◌≡◌}
use mathlib.Core.Bool.{Bool, true}
use native.Mathlib.Omega.{arith}
use imapped.Base.Tests.{ltb, leb}

abbrev pub two63 : ℕ
two63 = 0x8000000000000000

abbrev pub two64 : ℕ
two64 = 0x10000000000000000

-- a + b
unfoldable pub add : ℕ → ℕ → ℕ
add a b = (a + b) % two64

-- a < b
unfoldable pub lt : ℕ → ℕ → Bool
lt a b = ltb ((a + two63) % two64) ((b + two63) % two64)

-- a <= b
unfoldable pub le : ℕ → ℕ → Bool
le a b = leb ((a + two63) % two64) ((b + two63) % two64)

-- Values that are not negative compare as the numbers they are, and their sum is exact while it
-- stays below 2 ^ 63.
pub add_small : (a b : ℕ) → a + b < two63 → add a b ≡ a + b
unfolding add
add_small a b h = omega arith

pub lt_small : (a b : ℕ) → a < two63 → b < two63 → lt a b ≡ ltb a b
unfolding lt
lt_small a b h k = ground arith

pub le_small : (a b : ℕ) → a < two63 → b < two63 → le a b ≡ leb a b
unfolding le
le_small a b h k = ground arith

-- A pattern with the top bit set is a negative value.
pub lt_negative : (a b : ℕ) → two63 ≤ a → a < two64 → b < two63 → lt a b ≡ true
unfolding lt
lt_negative a b h k l = ground arith
