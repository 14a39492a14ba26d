-- ===== src/Timing.antt =====
-- internal/win/wasapi_stream_validation.h: the overflow-safe arithmetic on clock counters, latencies
-- and buffer sizes. Unsigned words are numbers below 2 ^ 64, and each operation on them wraps.
pub mod Bits
pub mod Product
pub mod Search
pub mod Clock
use Prim.Native.Nat.{bit_or}
use sonotide.Prelude.{
  ℕ, zero, suc, ◌+◌, ◌-◌, ◌*◌, ◌/◌, ◌%◌, ◌^◌, Bool, true, false, ◌&&◌, ◌||◌, Option, none, some,
  ltb, leb, ◌==◌, if◌then◌else◌,
}
use sonotide.Prelude.Int.{ℤ, pos, negsuc}

abbrev pub u64_mod : ℕ
u64_mod = 2 ^ 64

abbrev pub u64_max : ℕ
u64_max = 2 ^ 64 - 1

abbrev pub i64_max : ℕ
i64_max = 2 ^ 63 - 1

-- The wrap-around of a `std::uint64_t`.
abbrev pub u64 : ℕ → ℕ
u64 n = n % 2 ^ 64

-- `x & 0xFFFF'FFFF` and `x >> 32`.
abbrev pub low_half : ℕ → ℕ
low_half x = x % 2 ^ 32

abbrev pub high_half : ℕ → ℕ
high_half x = x / 2 ^ 32

abbrev pub qpc_ticks_per_second : ℕ
qpc_ticks_per_second = 10_000_000

abbrev pub reference_ticks_per_millisecond : ℕ
reference_ticks_per_millisecond = 10_000

pub record Uint128Parts : Type 0 where
  pub high : ℕ
  pub low : ℕ

-- The tail of `multiply_u64`, from its four partial products.
unfoldable pub combine_products : ℕ → ℕ → ℕ → ℕ → Uint128Parts
combine_products low_low low_high high_low high_high =
    let carry = u64 (u64 (high_half low_low + low_half low_high) + low_half high_low) in
    record {
      high =
          u64 (u64 (u64 (high_high + high_half low_high) + high_half high_low) + high_half carry);
      low = bit_or (u64 (carry * 2 ^ 32)) (low_half low_low);
    }

unfoldable pub multiply_u64 : ℕ → ℕ → Uint128Parts
multiply_u64 left right =
    combine_products (u64 (low_half left * low_half right)) (u64 (low_half left * high_half right))
      (u64 (high_half left * low_half right)) (u64 (high_half left * high_half right))

unfoldable pub less_or_equal : Uint128Parts → Uint128Parts → Bool
less_or_equal left right =
    ltb left.high right.high || left.high == right.high && leb left.low right.low

-- One round of the `while` loop of `scale_remainder`: the new bounds, or `none` where the loop ends.
unfoldable pub search_round : Uint128Parts → ℕ → ℕ → ℕ → Option (ℕ × ℕ)
search_round product divisor lower upper =
    let candidate = u64 (lower + u64 (upper - lower + 1) / 2) in
    if ltb lower upper
    then some (
        if less_or_equal (multiply_u64 candidate divisor) product
        then (candidate, upper)
        else (lower, candidate - 1))
    else none

abbrev search_on : (ℕ → ℕ → ℕ) → ℕ → Option (ℕ × ℕ) → ℕ
search_on go lower none = lower
search_on go lower (some (next_lower, next_upper)) = go next_lower next_upper

-- The loop, on fuel, over `lower` and `upper`.
unfoldable pub search_scale : ℕ → Uint128Parts → ℕ → ℕ → ℕ → ℕ
search_scale zero product divisor lower upper = lower
search_scale (suc fuel) product divisor lower upper =
    search_on (search_scale fuel product divisor) lower (search_round product divisor lower upper)

abbrev round_on : Uint128Parts → ℕ → Option (ℕ × ℕ) → Option (ℕ × ℕ)
round_on product divisor none = none
round_on product divisor (some (lower, upper)) = search_round product divisor lower upper

-- The bounds after a number of rounds, or `none` when the loop has ended in one of them.
unfoldable pub search_rounds : ℕ → Uint128Parts → ℕ → ℕ → ℕ → Option (ℕ × ℕ)
search_rounds zero product divisor lower upper = some (lower, upper)
search_rounds (suc n) product divisor lower upper =
    round_on product divisor (search_rounds n product divisor lower upper)

-- The gap between the bounds halves in each round, so 64 rounds close any 64-bit gap.
abbrev pub scale_fuel : ℕ
scale_fuel = 64

unfoldable pub scale_remainder : ℕ → ℕ → ℕ → ℕ
scale_remainder remainder multiplier divisor =
    search_scale scale_fuel (multiply_u64 remainder multiplier) divisor 0 multiplier

-- The unsigned part of `scale_qpc_to_100ns`, after its guard on the signs.
unfoldable pub scale_counter : ℕ → ℕ → Option ℕ
scale_counter counter frequency =
    let quotient = counter / frequency in
    let remainder = counter % frequency in
    let whole = u64 (quotient * qpc_ticks_per_second) in
    let fractional = scale_remainder remainder qpc_ticks_per_second frequency in
    if ltb (u64_max / qpc_ticks_per_second) quotient
    then none
    else if ltb (u64_max - fractional) whole
    then none
    else some (u64 (whole + fractional))

unfoldable pub scale_qpc_to_100ns : ℤ → ℤ → Option ℕ
scale_qpc_to_100ns (pos counter) (pos zero) = none
scale_qpc_to_100ns (pos counter) (pos (suc f)) = scale_counter counter (suc f)
scale_qpc_to_100ns (pos counter) (negsuc f) = none
scale_qpc_to_100ns (negsuc c) frequency = none

unfoldable pub milliseconds_to_reference_time : ℤ → Option ℕ
milliseconds_to_reference_time (negsuc n) = none
milliseconds_to_reference_time (pos count) =
    if leb count 0 || ltb (i64_max / reference_ticks_per_millisecond) count
    then none
    else some (count * reference_ticks_per_millisecond)

unfoldable pub checked_audio_byte_count : ℕ → ℕ → Option ℕ
checked_audio_byte_count frames block_align =
    if block_align == 0 || ltb (u64_max / block_align) frames
    then none
    else some (u64 (frames * block_align))
