-- ===== src/Base/Words.antt =====
-- int64 as the bit pattern it is stored in, a number below 2 ^ 64: sums wrap around, and the order
-- is the signed one.
use Prim.Native.Nat.{ℕ, ◌+◌, ◌%◌}
use mathlib.Core.Path.{◌≡◌}
use mathlib.Core.Bool.{Bool, ◌||◌}
use native.Mathlib.Omega.{arith}
use portage.Base.Tests.{ltb, leb, if◌then◌else◌}

abbrev pub i64_mod : ℕ
i64_mod = 18_446_744_073_709_551_616

-- The pattern with the sign bit flipped: it orders as the signed numbers do.
abbrev pub biased : ℕ → ℕ
biased a = (a + 9_223_372_036_854_775_808) % i64_mod

unfoldable pub i64_add : ℕ → ℕ → ℕ
i64_add a b = (a + b) % i64_mod

unfoldable pub i64_lt : ℕ → ℕ → Bool
i64_lt a b = ltb (biased a) (biased b)

unfoldable pub i64_le : ℕ → ℕ → Bool
i64_le a b = leb (biased a) (biased b)

-- The larger of two reaches a bound exactly if one of the two does.
pub i64_le-max :
    (floor a b : ℕ)
    → i64_le floor (if i64_lt a b then b else a) ≡ (i64_le floor a || i64_le floor b)
unfolding i64_lt i64_le
i64_le-max floor a b = ground arith
