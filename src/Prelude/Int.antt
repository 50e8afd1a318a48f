-- ===== src/Prelude/Int.antt =====
-- The integers that the messages carry: indices and terms, where -1 says that there is none.
use Prim.Native.Nat.{ℕ, zero, suc, ◌+◌}
use mathlib.Core.Bool.{Bool, true, false}
use hamok_ts.Prelude.Tests.{ltb}

-- `negsuc n` is -(n + 1).
pub data ℤ : Type 0 where
  pos : ℕ → ℤ
  negsuc : ℕ → ℤ

abbrev pub minus_one : ℤ
minus_one = negsuc 0

abbrev pub is_negative : ℤ → Bool
is_negative (pos n) = false
is_negative (negsuc n) = true

-- How many of the indices 0, 1, … are at most `i`: `i + 1`, or 0 below zero.
abbrev pub count_to : ℤ → ℕ
count_to (pos n) = suc n
count_to (negsuc n) = 0

-- `i - 1`.
abbrev pub pred_int : ℤ → ℤ
pred_int (pos zero) = minus_one
pred_int (pos (suc n)) = pos n
pred_int (negsuc n) = negsuc (suc n)

-- `i - n`.
abbrev pub sub_nat : ℤ → ℕ → ℤ
sub_nat (pos zero) zero = pos zero
sub_nat (pos zero) (suc n) = negsuc n
sub_nat (pos (suc m)) zero = pos (suc m)
sub_nat (pos (suc m)) (suc n) = sub_nat (pos m) n
sub_nat (negsuc m) n = negsuc (m + n)

-- `i < n`.
abbrev pub int_lt_nat : ℤ → ℕ → Bool
int_lt_nat (pos m) n = ltb m n
int_lt_nat (negsuc m) n = true

-- `Math.max(0, i)`.
abbrev pub at_least_zero : ℤ → ℕ
at_least_zero (pos n) = n
at_least_zero (negsuc n) = 0
