-- ===== src/Decoder.antt =====
-- internal/win/media_foundation_decoder_validation.h: the checks and the timestamp arithmetic of
-- the decoder, and the epoch by which its commands are cancelled.
pub mod Validation
use sonotide.Prelude.{
  ℕ, ◌+◌, ◌-◌, ◌*◌, ◌/◌, ◌^◌, Bool, true, false, not, ◌&&◌, ◌||◌, Option, none, some, ltb, leb,
  ◌==◌, ◌!=◌, if◌then◌else◌,
}
use sonotide.Prelude.Int.{ℤ, pos, negsuc}
use sonotide.Format.{SampleType, unknown, pcm_i16, pcm_i24_in_32, pcm_i32, float32, AudioFormat}
use sonotide.Timing.{u64, u64_max, i64_max}

-- `decoder_cancellation_epoch`: an atomic counter of 64 bits. `request` returns the new epoch.
abbrev pub request_epoch : ℕ → ℕ × ℕ
request_epoch epoch = (u64 (epoch + 1), u64 (epoch + 1))

abbrev pub changed_since : ℕ → ℕ → Bool
changed_since epoch snapshot = epoch != snapshot

abbrev pub sample_layout_valid : SampleType → AudioFormat → Bool
sample_layout_valid float32 format =
    format.bits_per_sample == 32
    && (format.valid_bits_per_sample == 0 || format.valid_bits_per_sample == 32)
sample_layout_valid pcm_i16 format =
    format.bits_per_sample == 16
    && (format.valid_bits_per_sample == 0 || format.valid_bits_per_sample == 16)
sample_layout_valid pcm_i24_in_32 format =
    format.bits_per_sample == 32 && format.valid_bits_per_sample == 24
sample_layout_valid pcm_i32 format =
    format.bits_per_sample == 32
    && (format.valid_bits_per_sample == 0 || format.valid_bits_per_sample == 32)
sample_layout_valid unknown format = false

-- The product of a 32-bit rate, a 16-bit count and 4 fits in 64 bits.
unfoldable pub is_valid_decoder_output_format : AudioFormat → Bool
is_valid_decoder_output_format format =
    if not format.interleaved || format.sample_rate == 0 || format.channel_count == 0
    then false
    else if not (sample_layout_valid format.sample format)
    then false
    else leb (format.sample_rate * format.channel_count * 4) (2 ^ 32 - 1)

unfoldable pub checked_sample_count : ℕ → ℕ → ℕ → Option ℕ
checked_sample_count frame_count channel_count maximum_count =
    if channel_count == 0 || ltb (maximum_count / channel_count) frame_count
    then none
    else some (u64 (frame_count * channel_count))

unfoldable pub milliseconds_to_100ns : ℤ → Option ℕ
milliseconds_to_100ns (negsuc n) = none
milliseconds_to_100ns (pos position_ms) =
    if ltb (i64_max / 10_000) position_ms then none else some (position_ms * 10_000)

-- A signed timestamp, and frame counts and rates of 32 bits: the increment fits in 63 bits.
unfoldable pub advance_timestamp_100ns : ℤ → ℕ → ℕ → Option ℕ
advance_timestamp_100ns (negsuc n) frame_count sample_rate = none
advance_timestamp_100ns (pos current) frame_count sample_rate =
    let increment = frame_count * 10_000_000 / sample_rate in
    if sample_rate == 0
    then none
    else if ltb (i64_max - increment) current
    then none
    else some (current + increment)

-- `to_milliseconds`, of media_foundation_decoder.cpp.
unfoldable pub to_milliseconds : ℤ → ℕ
to_milliseconds (negsuc n) = 0
to_milliseconds (pos value_100ns) = value_100ns / 10_000
