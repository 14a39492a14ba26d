-- ===== src/Timing/Product.antt =====
-- `multiply_u64` and `less_or_equal` against the product and the order of the natural numbers.
use Prim.Native.Nat.{bit_or}
use native.Mathlib.Nat.{mul-le-mul}
use mathlib.Core.Path.{ap₂, sym, ◌∙◌}
use sonotide.Prelude.{ℕ, ◌+◌, ◌-◌, ◌*◌, ◌%◌, ◌^◌, ◌≤◌, ◌<◌, ◌≡◌, ◌↔◌, true, arith}
use sonotide.Timing.{
  Uint128Parts, u64, low_half, high_half, combine_products, multiply_u64, less_or_equal,
}
use sonotide.Timing.Bits.{shifted-bit_or}

-- The 128-bit number that two halves stand for.
abbrev pub value : Uint128Parts → ℕ
value p = p.high * 2 ^ 64 + p.low

-- The largest product of two 32-bit halves.
abbrev half_product_max : ℕ
half_product_max = (2 ^ 32 - 1) * (2 ^ 32 - 1)

combine_low :
    (carry p : ℕ)
    → bit_or (u64 (carry * 2 ^ 32)) (low_half p) ≡ carry % 2 ^ 32 * 2 ^ 32 + low_half p
combine_low carry p =
    let moved : u64 (carry * 2 ^ 32) ≡ carry % 2 ^ 32 * 2 ^ 32 = omega arith in
    rw moved (shifted-bit_or 32 (carry % 2 ^ 32) (low_half p) (omega arith))

value-combine_products :
    (p q r s : ℕ)
    → p ≤ half_product_max
    → q ≤ half_product_max
    → r ≤ half_product_max
    → s ≤ half_product_max
    → s * 2 ^ 64 + (q + r) * 2 ^ 32 + p < 2 ^ 128
    → value (combine_products p q r s) ≡ s * 2 ^ 64 + (q + r) * 2 ^ 32 + p
unfolding combine_products
value-combine_products p q r s hp hq hr hs h =
    omega (arith, combine_low (u64 (u64 (high_half p + low_half q) + low_half r)) p)

combine_products-words :
    (p q r s : ℕ)
    → ((combine_products p q r s).high < 2 ^ 64) × ((combine_products p q r s).low < 2 ^ 64)
unfolding combine_products
combine_products-words p q r s =
    (omega arith, omega (arith, combine_low (u64 (u64 (high_half p + low_half q) + low_half r)) p))

halves : ℕ → ℕ → ℕ
halves l r =
    high_half l * high_half r * 2 ^ 64
    + (low_half l * high_half r + high_half l * low_half r) * 2 ^ 32
    + low_half l * low_half r

mul-halves : (l r : ℕ) → l * r ≡ halves l r
unfolding halves
mul-halves l r =
    let left : l ≡ high_half l * 2 ^ 32 + low_half l = omega arith in
    let right : r ≡ high_half r * 2 ^ 32 + low_half r = omega arith in
    let expanded : (a b c d : ℕ)
        → (b * 2 ^ 32 + a) * (d * 2 ^ 32 + c) ≡ b * d * 2 ^ 64 + (a * d + b * c) * 2 ^ 32 + a * c =
      λ a b c d. omega arith in
    ap₂ ◌*◌ left right ∙ expanded (low_half l) (high_half l) (low_half r) (high_half r)

half_product_le : (a b : ℕ) → a < 2 ^ 32 → b < 2 ^ 32 → a * b ≤ half_product_max
half_product_le a b ha hb =
    mul-le-mul {n₁ = a} {m₁ = b} {n₂ = 2 ^ 32 - 1} {m₂ = 2 ^ 32 - 1} (omega arith) (omega arith)

u64_half_product : (a b : ℕ) → a < 2 ^ 32 → b < 2 ^ 32 → u64 (a * b) ≡ a * b
u64_half_product a b ha hb = omega (arith, half_product_le a b ha hb)

mul-lt-2-pow-128 : (l r : ℕ) → l < 2 ^ 64 → r < 2 ^ 64 → l * r < 2 ^ 128
mul-lt-2-pow-128 l r hl hr = omega (
  arith,
  mul-le-mul {n₁ = l} {m₁ = r} {n₂ = 2 ^ 64 - 1} {m₂ = 2 ^ 64 - 1} (omega arith) (omega arith),
)

-- Both halves of the product of two 64-bit words are words, and together they are the exact
-- product: no carry is lost and nothing wraps.
pub value-multiply_u64 :
    (left right : ℕ)
    → left < 2 ^ 64
    → right < 2 ^ 64
    → (value (multiply_u64 left right) ≡ left * right)
      × ((multiply_u64 left right).high < 2 ^ 64)
      × ((multiply_u64 left right).low < 2 ^ 64)
unfolding multiply_u64 halves
value-multiply_u64 l r hl hr =
    rw
      (
        u64_half_product (low_half l) (low_half r) (omega arith) (omega arith),
        u64_half_product (low_half l) (high_half r) (omega arith) (omega arith),
        u64_half_product (high_half l) (low_half r) (omega arith) (omega arith),
        u64_half_product (high_half l) (high_half r) (omega arith) (omega arith),
      )
      (
        value-combine_products _ _ _ _ (half_product_le _ _ (omega arith) (omega arith))
              (half_product_le _ _ (omega arith) (omega arith))
              (half_product_le _ _ (omega arith) (omega arith))
              (half_product_le _ _ (omega arith) (omega arith))
              (omega (arith, mul-halves l r, mul-lt-2-pow-128 l r hl hr))
            ∙ sym (mul-halves l r),
        (combine_products-words _ _ _ _).0,
        (combine_products-words _ _ _ _).1,
      )

-- `less_or_equal` compares the 128-bit numbers.
pub less_or_equal_iff :
    (p q : Uint128Parts)
    → p.low < 2 ^ 64
    → q.low < 2 ^ 64
    → (less_or_equal p q ≡ true) ↔ (value p ≤ value q)
unfolding less_or_equal
less_or_equal_iff p q hp hq = ground arith
