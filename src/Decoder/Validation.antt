-- ===== src/Decoder/Validation.antt =====
-- The decoder's checks against exact arithmetic, and against the formats that the streams agree on.
use sonotide.Prelude.{ℕ, ◌+◌, ◌-◌, ◌*◌, ◌/◌, ◌^◌, ◌≤◌, ◌<◌, ◌≡◌, ◌↔◌, refl, leb, some, arith}
use sonotide.Prelude.Int.{ℤ, pos, negsuc}
use sonotide.Error.{done}
use sonotide.Timing.{i64_max}
use sonotide.Wave.{WaveSdk, WaveFormat, detect_sample_type, validate_wave_format}
use sonotide.Wave.Convert.{to_audio_format}
use sonotide.Wave.Validity.{validate_wave_format_iff}
use sonotide.Decoder.{
  is_valid_decoder_output_format, milliseconds_to_100ns, advance_timestamp_100ns, to_milliseconds,
}

-- The decoder can produce what a negotiated stream asks for: of a validated native format, it
-- accepts the public format exactly when its own output, at 4 bytes a sample, stays within the
-- 32-bit byte rate.
pub is_valid_decoder_output_format-to_audio_format :
    (sdk : WaveSdk) (f : WaveFormat)
    → validate_wave_format sdk f ≡ done
    → is_valid_decoder_output_format (to_audio_format sdk f)
      ≡ leb (f.samples_per_sec * f.channels * 4) (2 ^ 32 - 1)
unfolding is_valid_decoder_output_format to_audio_format detect_sample_type
is_valid_decoder_output_format-to_audio_format sdk f h =
    let u = (validate_wave_format_iff sdk f).0 h in ground (arith, u.known, h)

-- A seek position that converts is read back unchanged, and the 100-ns timestamp fits in 63 bits.
pub to_milliseconds-milliseconds_to_100ns :
    (position : ℤ) (ticks : ℕ)
    → milliseconds_to_100ns position ≡ some ticks
    → (pos (to_milliseconds (pos ticks)) ≡ position) × (ticks ≤ i64_max)
unfolding to_milliseconds milliseconds_to_100ns
to_milliseconds-milliseconds_to_100ns (negsuc n) ticks h = absurd (ground arith)
to_milliseconds-milliseconds_to_100ns (pos n) ticks h = (ground arith, ground arith)

-- A timestamp advances exactly when it is not negative, the rate is not 0, and the sum with the
-- duration of the frames, rounded down to 100-ns units, fits in a signed integer of 64 bits; the
-- result is that sum.
pub advance_timestamp_100ns_iff :
    (current : ℤ) (frames rate next : ℕ)
    → frames * 10_000_000 / rate ≤ i64_max
    → (advance_timestamp_100ns current frames rate ≡ some next) ↔ (
        (n : ℕ) × (current ≡ pos n)
        × (0 < rate)
        × (next ≡ n + frames * 10_000_000 / rate)
        × (next ≤ i64_max))
unfolding advance_timestamp_100ns
advance_timestamp_100ns_iff (negsuc n) frames rate next w =
    ((λ h. absurd (ground arith)), (λ h. absurd (ground arith)))
advance_timestamp_100ns_iff (pos n) frames rate next w =
    ((λ h. (n, refl, ground arith, ground arith, ground arith)), λ h. ground arith)
