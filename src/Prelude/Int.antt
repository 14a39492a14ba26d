-- ===== src/Prelude/Int.antt =====
-- Signed 64-bit values (`std::int64_t`) as integers. The code only compares them, takes a maximum
-- with zero, and computes with those it has found non-negative.
use Prim.Native.Nat.{ℕ}
use mathlib.Core.Bool.{Bool, true, false}

-- `negsuc n` is -(n + 1).
pub data ℤ : Type 0 where
  pos : ℕ → ℤ
  negsuc : ℕ → ℤ

abbrev pub is_negative : ℤ → Bool
is_negative (pos n) = false
is_negative (negsuc n) = true

-- `(std::max)(value, 0)`.
abbrev pub max_zero : ℤ → ℤ
max_zero (pos n) = pos n
max_zero (negsuc n) = pos 0
