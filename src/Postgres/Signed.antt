-- ===== src/Postgres/Signed.antt =====
-- Signed integers of 64 bits, with the checked operations of Rust's `i64`.
use ferroid.Common.{
  ℕ, zero, suc, ◌+◌, ◌-◌, ◌*◌, ◌/◌, ◌%◌, ◌^◌, Bool, ltb, leb, if◌then◌else◌, Option, none, some,
}

-- `negsuc n` is -(n + 1).
pub data ℤ : Type 0 where
  pos : ℕ → ℤ
  negsuc : ℕ → ℤ

-- The integer `gain - loss`.
unfoldable pub balance : ℕ → ℕ → ℤ
balance gain loss = if leb loss gain then pos (gain - loss) else negsuc (loss - gain - 1)

infixl 65 ◌+ℤ◌
infixl 70 ◌*ℤ◌
unfoldable pub ◌+ℤ◌ : ℤ → ℤ → ℤ
unfolding balance
pos m +ℤ pos n = pos (m + n)
pos m +ℤ negsuc n = balance m (suc n)
negsuc m +ℤ pos n = balance n (suc m)
negsuc m +ℤ negsuc n = negsuc (suc (m + n))

unfoldable pub opposite : ℤ → ℤ
unfolding balance
opposite (pos n) = balance 0 n
opposite (negsuc n) = pos (suc n)

unfoldable pub ◌*ℤ◌ : ℤ → ℤ → ℤ
unfolding opposite
pos m *ℤ pos n = pos (m * n)
pos m *ℤ negsuc n = opposite (pos (m * suc n))
negsuc m *ℤ pos n = opposite (pos (suc m * n))
negsuc m *ℤ negsuc n = pos (suc m * suc n)

-- Division rounds towards zero.
unfoldable pub div_trunc : ℤ → ℤ → ℤ
unfolding opposite
div_trunc (pos m) (pos n) = pos (m / n)
div_trunc (pos m) (negsuc n) = opposite (pos (m / suc n))
div_trunc (negsuc m) (pos n) = opposite (pos (suc m / n))
div_trunc (negsuc m) (negsuc n) = pos (suc m / suc n)

abbrev pub in_i64 : ℤ → Bool
in_i64 (pos n) = ltb n (2 ^ 63)
in_i64 (negsuc n) = ltb n (2 ^ 63)

unfoldable pub checked : ℤ → Option ℤ
checked z = if in_i64 z then some z else none

unfoldable pub checked_add : ℤ → ℤ → Option ℤ
unfolding checked ◌+ℤ◌
checked_add a b = checked (a +ℤ b)

unfoldable pub checked_sub : ℤ → ℤ → Option ℤ
unfolding checked ◌+ℤ◌ opposite
checked_sub a b = checked (a +ℤ opposite b)

unfoldable pub checked_mul : ℤ → ℤ → Option ℤ
unfolding checked ◌*ℤ◌
checked_mul a b = checked (a *ℤ b)

unfoldable pub checked_div : ℤ → ℤ → Option ℤ
unfolding checked div_trunc
checked_div a (pos zero) = none
checked_div a (pos (suc n)) = checked (div_trunc a (pos (suc n)))
checked_div a (negsuc n) = checked (div_trunc a (negsuc n))

-- `as i64` of an unsigned integer: its low 64 bits, read as two's complement.
unfoldable pub as_i64 : ℕ → ℤ
as_i64 x = if ltb (x % 2 ^ 64) (2 ^ 63) then pos (x % 2 ^ 64) else negsuc (2 ^ 64 - 1 - x % 2 ^ 64)

-- `u128::try_from`
unfoldable pub try_unsigned : ℤ → Option ℕ
try_unsigned (pos n) = some n
try_unsigned (negsuc n) = none
