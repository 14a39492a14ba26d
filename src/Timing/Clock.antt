-- ===== src/Timing/Clock.antt =====
-- The conversions of internal/win/wasapi_stream_validation.h against exact arithmetic.
use native.Mathlib.Nat.{div-add-mod', mul-add-div_right, mod-lt, le-div_iff_mul-le}
use sonotide.Prelude.{
  ℕ, zero, suc, ◌+◌, ◌-◌, ◌*◌, ◌/◌, ◌%◌, ◌≤◌, ◌<◌, ◌≡◌, ◌↔◌, refl, ap, ◌∙◌, Option, none, some, ltb,
  if◌then◌else◌, arith,
}
use sonotide.Prelude.Int.{ℤ, pos, negsuc}
use sonotide.Timing.{
  u64, u64_max, i64_max, qpc_ticks_per_second, scale_counter, scale_qpc_to_100ns,
  milliseconds_to_reference_time, checked_audio_byte_count,
}
use sonotide.Timing.Search.{scale_remainder-exact}

split_ticks : (c f t : ℕ) → 0 < f → c * t / f ≡ c / f * t + c % f * t / f
split_ticks c f t hf =
    ap (λ k. k / f) (parts (c / f) (c % f) (div-add-mod' c f))
    ∙ mul-add-div_right {m = f} hf (c / f * t) (c % f * t)
  where
    parts : (q r : ℕ) → q * f + r ≡ c → c * t ≡ q * t * f + r * t
    parts q r e = rw (← e) (omega arith)

-- The exact number of 100-ns units, where it is a word.
abbrev pub exact_100ns : ℕ → ℕ → Option ℕ
exact_100ns counter frequency =
    let ticks = counter * qpc_ticks_per_second / frequency in
    if ltb u64_max ticks then none else some ticks

-- The two overflow guards together refuse exactly the sums that are no word.
guards-exact :
    (q x : ℕ)
    → x < qpc_ticks_per_second
    → (if ltb (u64_max / qpc_ticks_per_second) q
        then none
        else if ltb (u64_max - x) (u64 (q * qpc_ticks_per_second))
        then none
        else some (u64 (u64 (q * qpc_ticks_per_second) + x)))
      ≡ (if ltb u64_max (q * qpc_ticks_per_second + x)
          then none
          else some (q * qpc_ticks_per_second + x))
guards-exact q x h = ground arith

scale_counter-exact :
    (counter frequency : ℕ)
    → 0 < frequency
    → frequency ≤ i64_max
    → scale_counter counter frequency ≡ exact_100ns counter frequency
unfolding scale_counter
scale_counter-exact c f hf wf =
    let (exact, bounded) =
      scale_remainder-exact (c % f) qpc_ticks_per_second f (mod-lt c hf) (omega arith) (omega arith)
        (omega arith) in
    rw (split_ticks c f qpc_ticks_per_second hf, exact)
      (guards-exact (c / f) (c % f * qpc_ticks_per_second / f) (rw exact at bounded))

-- For a counter and a positive frequency, both in the 64-bit signed range, the conversion returns
-- the floor of the counter in 100-ns units where that is a 64-bit word, and nothing otherwise; it
-- returns nothing for a negative counter and for a frequency that is not positive.
pub scale_qpc_to_100ns-exact :
    (counter frequency below : ℕ)
    → 0 < frequency
    → frequency ≤ i64_max
    → counter ≤ i64_max
    → (scale_qpc_to_100ns (pos counter) (pos frequency) ≡ exact_100ns counter frequency)
      × (scale_qpc_to_100ns (negsuc below) (pos frequency) ≡ none)
      × (scale_qpc_to_100ns (pos counter) (negsuc below) ≡ none)
      × (scale_qpc_to_100ns (pos counter) (pos 0) ≡ none)
unfolding scale_qpc_to_100ns
scale_qpc_to_100ns-exact c zero n hf wf wc = absurd (omega arith)
scale_qpc_to_100ns-exact c (suc f) n hf wf wc =
    (scale_counter-exact c (suc f) hf wf, refl, refl, refl)

-- A byte count is returned exactly when the block alignment is not 0 and the product of frames and
-- alignment fits in a `std::size_t` of 64 bits; then it is that product.
pub checked_audio_byte_count_iff :
    (frames block_align bytes : ℕ)
    → (checked_audio_byte_count frames block_align ≡ some bytes)
      ↔ (0 < block_align) × (frames * block_align ≡ bytes) × (bytes ≤ u64_max)
unfolding checked_audio_byte_count
checked_audio_byte_count_iff frames block_align bytes =
    (ground (arith, fits frames block_align), ground (arith, fits frames block_align))
  where
    fits : (n b : ℕ) → 0 < b → (n ≤ u64_max / b) ↔ (n * b ≤ u64_max)
    fits n b h = le-div_iff_mul-le {k = b} {x = n} {y = u64_max} h

-- A latency is converted exactly when it is positive and the number of 100-ns units fits in a
-- 64-bit signed integer; then the result is 10,000 units for each millisecond.
pub milliseconds_to_reference_time_iff :
    (count : ℤ) (units : ℕ)
    → (milliseconds_to_reference_time count ≡ some units)
      ↔ ((n : ℕ) × (count ≡ pos n) × (0 < n) × (units ≡ n * 10_000) × (units ≤ i64_max))
unfolding milliseconds_to_reference_time
milliseconds_to_reference_time_iff (negsuc n) units = ((λ h. cc), (λ h. cc (h.1)))
milliseconds_to_reference_time_iff (pos n) units =
    ((λ h. (n, refl, ground arith, ground arith, ground arith)), (λ h. ground arith))
