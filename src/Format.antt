-- ===== src/Format.antt =====
-- include/sonotide/audio_format.h: the public description of a stream's samples, and the comparison
-- of two formats in playback_session.cpp.
use sonotide.Prelude.{ℕ, Bool, true, false, ◌&&◌, Option, ◌==◌, ◌≡◌, ◌↔◌, arith}

pub data SampleType : Type 0 where
  unknown pcm_i16 pcm_i24_in_32 pcm_i32 float32 : SampleType

pub record AudioFormat : Type 0 where
  pub sample : SampleType
  pub sample_rate : ℕ
  pub channel_count : ℕ
  pub bits_per_sample : ℕ
  pub valid_bits_per_sample : ℕ
  pub channel_mask : ℕ
  pub interleaved : Bool

-- `audio_format{}`.
abbrev pub no_format : AudioFormat
no_format = record {
  sample = unknown;
  sample_rate = 0;
  channel_count = 0;
  bits_per_sample = 0;
  valid_bits_per_sample = 0;
  channel_mask = 0;
  interleaved = true;
}

pub record FormatRequest : Type 0 where
  pub preferred_sample : Option SampleType
  pub preferred_sample_rate : Option ℕ
  pub preferred_channel_count : Option ℕ
  pub interleaved : Bool
  pub allow_mix_format_fallback : Bool

abbrev pub same_sample : SampleType → SampleType → Bool
same_sample unknown unknown = true
same_sample pcm_i16 pcm_i16 = true
same_sample pcm_i24_in_32 pcm_i24_in_32 = true
same_sample pcm_i32 pcm_i32 = true
same_sample float32 float32 = true
same_sample _ _ = false

abbrev pub same_bool : Bool → Bool → Bool
same_bool true b = b
same_bool false true = false
same_bool false false = true

unfoldable pub formats_match : AudioFormat → AudioFormat → Bool
formats_match left right =
    same_sample left.sample right.sample
    && left.sample_rate == right.sample_rate
    && left.channel_count == right.channel_count
    && left.bits_per_sample == right.bits_per_sample
    && left.valid_bits_per_sample == right.valid_bits_per_sample
    && left.channel_mask == right.channel_mask
    && same_bool left.interleaved right.interleaved

-- Two formats match exactly when they are equal, field by field.
pub formats_match_iff :
    (left right : AudioFormat) → (formats_match left right ≡ true) ↔ (left ≡ right)
unfolding formats_match
formats_match_iff left right = ground arith
