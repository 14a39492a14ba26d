-- ===== src/Wave.antt =====
-- internal/win/wave_format_utils.cpp: the native WAVE format of a stream, its validation, and the
-- conversion to and from the public format. The Windows headers are not part of the repository:
-- the format tags and sub-formats that they name are constructors here, and the numbers that they
-- fix are the parameter `WaveSdk`.
pub mod Convert
pub mod Validity
pub mod RoundTrip
pub mod Negotiate
use sonotide.Prelude.{
  ℕ, zero, suc, String, ◌+◌, ◌-◌, ◌*◌, ◌/◌, ◌%◌, ◌^◌, ◌≤◌, ◌≡◌, Bool, true, false, not, ◌&&◌, ◌||◌,
  Option, none, some, ltb, leb, ◌==◌, ◌!=◌, if◌then◌else◌,
}
use sonotide.Error.{
  Error, ErrorCategory, ErrorCode, make_error, Result, success, failure, VoidResult, done, ◌>>=◌,
  ◌>>◌,
}
use sonotide.Format.{
  SampleType, unknown, pcm_i16, pcm_i24_in_32, pcm_i32, float32, same_sample, AudioFormat,
  no_format, FormatRequest,
}

-- `WAVE_FORMAT_PCM`, `WAVE_FORMAT_IEEE_FLOAT`, `WAVE_FORMAT_EXTENSIBLE`, and any other tag.
pub data FormatTag : Type 0 where
  pcm ieee_float extensible : FormatTag
  other_tag : ℕ → FormatTag

-- `KSDATAFORMAT_SUBTYPE_IEEE_FLOAT`, `KSDATAFORMAT_SUBTYPE_PCM`, and any other GUID.
pub data SubFormat : Type 0 where
  subtype_ieee_float subtype_pcm : SubFormat
  other_subtype : ℕ → SubFormat

-- `WAVEFORMATEX` with the fields of `WAVEFORMATEXTENSIBLE` behind it. The code reads the last
-- three only under the tag `extensible` and with a large enough `cb_size`.
pub record WaveFormat : Type 0 where
  pub format_tag : FormatTag
  pub channels : ℕ
  pub samples_per_sec : ℕ
  pub avg_bytes_per_sec : ℕ
  pub block_align : ℕ
  pub bits_per_sample : ℕ
  pub cb_size : ℕ
  pub valid_bits_per_sample : ℕ
  pub channel_mask : ℕ
  pub sub_format : SubFormat

-- The numbers that the Windows headers define: how many bytes an extensible format adds
-- (`sizeof(WAVEFORMATEXTENSIBLE) - sizeof(WAVEFORMATEX)`), and the masks of the speakers of a
-- mono and of a stereo stream.
pub record WaveSdk : Type 0 where
  pub extension_bytes : ℕ
  pub speaker_front_center : ℕ
  pub speaker_stereo : ℕ

abbrev pub word_max : ℕ
word_max = 2 ^ 16 - 1

abbrev pub dword_max : ℕ
dword_max = 2 ^ 32 - 1

abbrev pub maximum_wave_format_extra_bytes : ℕ
maximum_wave_format_extra_bytes = 4096

abbrev pub is_extensible : FormatTag → Bool
is_extensible extensible = true
is_extensible _ = false

-- `std::popcount` of a word of 32 bits.
unfoldable pub popcount_bits : ℕ → ℕ → ℕ
popcount_bits zero mask = 0
popcount_bits (suc bits) mask = mask % 2 + popcount_bits bits (mask / 2)

abbrev pub popcount : ℕ → ℕ
popcount mask = popcount_bits 32 mask

-- The extensible branch of `detect_sample_type`.
abbrev pub detect_extensible : SubFormat → ℕ → ℕ → SampleType
detect_extensible subtype_ieee_float bits valid =
    if bits == 32 && valid == 32 then float32 else unknown
detect_extensible subtype_pcm bits valid =
    if valid == 24 && bits == 32
    then pcm_i24_in_32
    else if bits == 16 && valid == 16
    then pcm_i16
    else if bits == 32 && valid == 32
    then pcm_i32
    else unknown
detect_extensible (other_subtype guid) bits valid = unknown

invalid_wave_format : String → String → VoidResult
invalid_wave_format operation message =
    failure (make_error ErrorCategory.format ErrorCode.invalid_argument operation message)

module _ (sdk : WaveSdk) where
  -- The dispatch of `detect_sample_type` on the tag.
  abbrev pub detect_by_tag : FormatTag → WaveFormat → SampleType
  detect_by_tag ieee_float format = if format.bits_per_sample == 32 then float32 else unknown
  detect_by_tag pcm format =
      if format.bits_per_sample == 16
      then pcm_i16
      else if format.bits_per_sample == 32
      then pcm_i32
      else unknown
  detect_by_tag extensible format =
      if leb sdk.extension_bytes format.cb_size
      then detect_extensible format.sub_format format.bits_per_sample format.valid_bits_per_sample
      else unknown
  detect_by_tag (other_tag tag) format = unknown

  unfoldable pub detect_sample_type : WaveFormat → SampleType
  detect_sample_type format = detect_by_tag format.format_tag format

  -- The checks of `validate_wave_format` on the header and on the extension.
  abbrev check : Bool → String → VoidResult
  check true message = invalid_wave_format "validate_wave_format" message
  check false message = done

  unfoldable pub validate_header : WaveFormat → VoidResult
  unfolding invalid_wave_format
  validate_header format = do
    check (ltb maximum_wave_format_extra_bytes format.cb_size)
        "WAVE format extra data is unreasonably large."
    check (format.channels == 0 || format.samples_per_sec == 0)
        "WAVE format channel count and sample rate must be non-zero."
    check (is_extensible format.format_tag && ltb format.cb_size sdk.extension_bytes)
        "WAVE_FORMAT_EXTENSIBLE does not contain the required extension."
    check
        (is_extensible format.format_tag
          && (format.channel_mask != 0 && popcount format.channel_mask != format.channels))
        "WAVE channel-mask population does not match the channel count."

  unfoldable pub validate_layout : WaveFormat → SampleType → VoidResult
  unfolding invalid_wave_format
  validate_layout format detected = do
    check (same_sample detected unknown) "WAVE format uses an unknown or unsupported sample layout."
    check (format.bits_per_sample == 0 || format.bits_per_sample % 8 != 0)
        "WAVE format bits per sample must be a non-zero whole number of bytes."
    check
        (same_sample detected pcm_i16 && format.bits_per_sample != 16
          || not (same_sample detected pcm_i16) && format.bits_per_sample != 32)
        "WAVE format sample type and container width are inconsistent."

  -- Its checks on the sizes. The products are of 64 bits and cannot wrap.
  unfoldable pub validate_sizes : WaveFormat → VoidResult
  unfolding invalid_wave_format
  validate_sizes format =
      let expected_block_align = format.channels * (format.bits_per_sample / 8) in
      let expected_average_bytes = expected_block_align * format.samples_per_sec in
      do
        check
            (expected_block_align == 0
              || ltb word_max expected_block_align
              || format.block_align != expected_block_align)
            "WAVE format block alignment is zero, inconsistent, or overflows WORD."
        check
            (expected_average_bytes == 0
              || ltb dword_max expected_average_bytes
              || format.avg_bytes_per_sec != expected_average_bytes)
            "WAVE format average byte rate is zero, inconsistent, or overflows DWORD."

  unfoldable pub validate_wave_format : WaveFormat → VoidResult
  validate_wave_format format = do
    validate_header format
    validate_layout format (detect_sample_type format)
    validate_sizes format
