-- ===== src/Timing/Bits.antt =====
-- `|` of two words whose bits do not meet is their sum.
use Prim.Native.Nat.{bit_or, bit_or-bitwise, digits}
use native.Mathlib.Nat.{pow-suc}
use sonotide.Prelude.{
  ℕ, zero, suc, ◌+◌, ◌*◌, ◌/◌, ◌%◌, ◌^◌, ◌≤◌, ◌<◌, ◌≡◌, refl, ap, ◌∙◌, max, arith,
}

abbrev or_digits : ℕ → ℕ → ℕ → ℕ
or_digits fuel a b = digits (λ c. c) max fuel a b

or_digits_enough : (n m a b : ℕ) → a ≤ n → a ≤ m → or_digits n a b ≡ or_digits m a b
or_digits_enough zero zero a b p q = refl
or_digits_enough zero (suc m) zero b p q = refl
or_digits_enough zero (suc m) (suc a) b p q = absurd (omega arith)
or_digits_enough (suc n) zero zero b p q = refl
or_digits_enough (suc n) zero (suc a) b p q = absurd (omega arith)
or_digits_enough (suc n) (suc m) zero b p q = refl
or_digits_enough (suc n) (suc m) (suc a) b p q =
    omega (arith, or_digits_enough n m (suc a / 2) (b / 2) (omega arith) (omega arith))

zero-bit_or : (b : ℕ) → bit_or 0 b ≡ b
zero-bit_or b = bit_or-bitwise 0 b

bit_or-halves : (a b : ℕ) → bit_or a b ≡ bit_or (a / 2) (b / 2) * 2 + max (a % 2) (b % 2)
bit_or-halves zero b = omega (arith, zero-bit_or b, zero-bit_or (b / 2))
bit_or-halves (suc a) b = omega (
  arith,
  bit_or-bitwise (suc a) b,
  bit_or-bitwise (suc a / 2) (b / 2),
  or_digits_enough a (suc a / 2) (suc a / 2) (b / 2) (omega arith) (omega arith),
)

bit_or-zero_below : (n a : ℕ) → a ≤ n → bit_or a 0 ≡ a
bit_or-zero_below zero zero h = zero-bit_or 0
bit_or-zero_below zero (suc a) h = absurd (omega arith)
bit_or-zero_below (suc n) zero h = zero-bit_or 0
bit_or-zero_below (suc n) (suc a) h =
    omega (arith, bit_or-halves (suc a) 0, bit_or-zero_below n (suc a / 2) (omega arith))

halves-shifted-bit_or :
    (a b q : ℕ) → bit_or (a * q) (b / 2) ≡ a * q + b / 2 → bit_or (a * q * 2) b ≡ a * q * 2 + b
halves-shifted-bit_or a b q h =
    let half : a * q * 2 / 2 ≡ a * q = omega arith in
    let even : a * q * 2 % 2 ≡ 0 = omega arith in
    bit_or-halves (a * q * 2) b ∙ rw (half, even, h) (omega arith)

pub shifted-bit_or : (k a b : ℕ) → b < 2 ^ k → bit_or (a * 2 ^ k) b ≡ a * 2 ^ k + b
shifted-bit_or zero a b h =
    let whole : a * 2 ^ 0 ≡ a = omega arith in
    let none_left : b ≡ 0 = omega arith in
    rw (whole, none_left) (omega (arith, bit_or-zero_below a a (omega arith)))
shifted-bit_or (suc k) a b h =
    let doubled : a * 2 ^ suc k ≡ a * 2 ^ k * 2 = omega (arith, ap (λ t. a * t) (pow-suc 2 k)) in
    rw doubled
      (halves-shifted-bit_or a b (2 ^ k) (shifted-bit_or k a (b / 2) (omega (arith, pow-suc 2 k))))
