-- ===== src/Timing/Search.antt =====
-- The binary search of `scale_remainder`: it finds the floor of a 128-bit quotient.
use native.Mathlib.Nat.{
  mul-le-mul_right, div-eq_of_lt-le, div-lt_iff_lt-mul, mul_comm, mul-lt-mul_of_pos_right, pow-suc,
}
use sonotide.Prelude.{
  ℕ, zero, suc, ◌+◌, ◌-◌, ◌*◌, ◌/◌, ◌^◌, ◌≤◌, ◌<◌, ◌≡◌, refl, some, sym, ◌↔◌, true, Bool-cases, inl,
  inr, ltb, ltb→lt, arith,
}
use sonotide.Timing.{
  Uint128Parts, u64, u64_max, multiply_u64, less_or_equal, search_round, search_rounds,
  search_scale, scale_remainder,
}
use sonotide.Timing.Product.{value, value-multiply_u64, less_or_equal_iff}

module _ (product : Uint128Parts) (divisor : ℕ) (low_word : product.low < 2 ^ 64)
    (divisor_word : divisor < 2 ^ 64) where
  -- The test of the loop compares the exact products.
  raise_iff :
      (candidate : ℕ)
      → candidate < 2 ^ 64
      → (less_or_equal (multiply_u64 candidate divisor) product ≡ true)
        ↔ (candidate * divisor ≤ value product)
  raise_iff c hc =
      let (exact, _, low) = value-multiply_u64 c divisor hc divisor_word in
      rw exact at (less_or_equal_iff (multiply_u64 c divisor) product low low_word)

  search_scale-exact :
      (fuel lower upper : ℕ)
      → lower ≤ upper
      → upper < u64_max
      → upper - lower < 2 ^ fuel
      → lower * divisor ≤ value product
      → value product < (upper + 1) * divisor
      → search_scale fuel product divisor lower upper ≡ value product / divisor
  unfolding search_scale search_round
  search_scale-exact zero lower upper h w f below above =
      let closed : upper ≡ lower = omega arith in
      sym (div-eq_of_lt-le {k = lower} divisor below (rw closed at above))
  search_scale-exact (suc fuel) lower upper h w f below above =
      elim (Bool-cases (ltb lower upper)) [
        | inr last ↦
            let closed : upper ≡ lower = ground (arith, ltb→lt lower upper) in
            rw last (sym (div-eq_of_lt-le {k = lower} divisor below (rw closed at above)))
        | inl more ↦
            let gap : lower < upper = ltb→lt lower upper more in
            let c = lower + (upper - lower + 1) / 2 in
            let exact : u64 (lower + u64 (upper - lower + 1) / 2) ≡ c = omega arith in
            rw (more, exact)
              (elim (Bool-cases (less_or_equal (multiply_u64 c divisor) product)) [
                | inl raise ↦ rw raise (
                    search_scale-exact fuel c upper (omega arith) w (omega (arith, pow-suc 2 fuel))
                      ((raise_iff c (omega arith)).0 raise) above)
                | inr lower_it ↦ rw lower_it (
                    search_scale-exact fuel lower (c - 1) (omega arith) (omega arith)
                      (omega (arith, pow-suc 2 fuel)) below
                      (let back : c - 1 + 1 ≡ c = omega arith in
                        rw back (ground (arith, raise_iff c (omega arith)))))
              ])
      ]

-- With a remainder below the divisor and a multiplier that is neither 0 nor the largest word, the
-- search returns the floor of the scaled remainder, a number below the multiplier.
pub scale_remainder-exact :
    (remainder multiplier divisor : ℕ)
    → remainder < divisor
    → divisor < 2 ^ 64
    → 0 < multiplier
    → multiplier < u64_max
    → (scale_remainder remainder multiplier divisor ≡ remainder * multiplier / divisor)
      × (scale_remainder remainder multiplier divisor < multiplier)
unfolding scale_remainder
scale_remainder-exact r m d hr hd pm hm =
    let (exact, _, low) = value-multiply_u64 r m (omega arith) (omega arith) in
    let above : r * m < (m + 1) * d =
      omega (arith, mul-le-mul_right {m = r} {n = d} m (omega arith)) in
    let found : search_scale 64 (multiply_u64 r m) d 0 m ≡ r * m / d = rw (← exact) (
      search_scale-exact (multiply_u64 r m) d low hd 64 0 m (omega arith) hm (omega arith)
        (omega arith) (rw exact above)) in
    (
      found,
      rw found (
          (div-lt_iff_lt-mul {k = d} (omega arith)).1
            (rw (mul_comm m d) (mul-lt-mul_of_pos_right {m = r} {n = d} {k = m} hr pm))),
    )

-- With the largest word as the multiplier the loop of `scale_remainder` never ends: the candidate
-- wraps to the lower bound, so after any number of rounds the loop is still running, with the
-- bounds 0 and the multiplier that it began with, whatever the product and the divisor.
pub search_rounds-stalls :
    (rounds : ℕ) (product : Uint128Parts) (divisor : ℕ)
    → product.low < 2 ^ 64
    → divisor < 2 ^ 64
    → search_rounds rounds product divisor 0 u64_max ≡ some (0, u64_max)
unfolding search_rounds search_round
search_rounds-stalls zero product divisor low hd = refl
search_rounds-stalls (suc n) product divisor low hd = rw (
  search_rounds-stalls n product divisor low hd,
  (raise_iff product divisor low hd 0 (omega arith)).1 (omega arith),
)
