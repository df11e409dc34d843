-- ===== src/Common/Integers.antt =====
-- Signed numbers, `ssize_t`, over the native numbers.
use Prim.Native.Nat.{ℕ, zero, suc, ◌+◌}
use mathlib.Core.Bool.{Bool, true, false}
use ultra_os.Common.Tests.{◌==◌}

-- `negsuc n` is - (n + 1).
pub data ℤ : Type 0 where
  pos negsuc : ℕ → ℤ

abbrev pub increment : ℤ → ℤ
increment (pos n) = pos (n + 1)
increment (negsuc zero) = pos 0
increment (negsuc (suc n)) = negsuc n

abbrev pub decrement : ℤ → ℤ
decrement (pos zero) = negsuc 0
decrement (pos (suc n)) = pos n
decrement (negsuc n) = negsuc (n + 1)

-- `a == 0`, `a >= 0`, `a > 0` and `a == -1`.
abbrev pub is_zero : ℤ → Bool
is_zero (pos n) = n == 0
is_zero (negsuc n) = false

abbrev pub is_nonnegative : ℤ → Bool
is_nonnegative (pos n) = true
is_nonnegative (negsuc n) = false

abbrev pub is_positive : ℤ → Bool
is_positive (pos zero) = false
is_positive (pos (suc n)) = true
is_positive (negsuc n) = false

abbrev pub is_minus_one : ℤ → Bool
is_minus_one (pos n) = false
is_minus_one (negsuc n) = n == 0
