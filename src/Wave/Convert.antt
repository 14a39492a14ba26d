-- ===== src/Wave/Convert.antt =====
-- internal/win/wave_format_utils.cpp: `make_requested_wave_format`, `to_audio_format` and
-- `clone_wave_format`. Whether `CoTaskMemAlloc` returns memory is an argument of what calls it.
use sonotide.Prelude.{
  ℕ, ◌*◌, ◌/◌, String, Bool, true, false, ◌||◌, none, some, ltb, leb, ◌==◌, if◌then◌else◌,
}
use sonotide.Error.{
  ErrorCategory, ErrorCode, make_error, Result, success, failure, VoidResult, done, ◌>>◌,
}
use sonotide.Format.{
  SampleType, unknown, pcm_i16, pcm_i24_in_32, float32, same_sample, AudioFormat, no_format,
  FormatRequest,
}
use sonotide.Wave.{
  WaveSdk, WaveFormat, SubFormat, subtype_ieee_float, subtype_pcm, extensible, is_extensible,
  word_max, dword_max, detect_sample_type, validate_wave_format,
}

-- The container width, the valid bits and the sub-format of a public sample type.
abbrev pub container_bits : SampleType → ℕ
container_bits pcm_i16 = 16
container_bits _ = 32

abbrev pub valid_bits : SampleType → ℕ
valid_bits pcm_i16 = 16
valid_bits pcm_i24_in_32 = 24
valid_bits _ = 32

abbrev pub sub_format_of : SampleType → SubFormat
sub_format_of float32 = subtype_ieee_float
sub_format_of _ = subtype_pcm

abbrev pub request_error : {A : Type 0} → String → Result A
request_error message = failure (
    make_error ErrorCategory.configuration ErrorCode.invalid_argument "make_requested_wave_format"
      message)

abbrev reject : Bool → VoidResult → VoidResult
reject true refusal = refusal
reject false refusal = done

abbrev allocation_error : String → VoidResult
allocation_error message =
    failure (make_error ErrorCategory.platform ErrorCode.platform_failure "CoTaskMemAlloc" message)

module _ (sdk : WaveSdk) where
  -- The mask of the speakers, known for mono and stereo only.
  abbrev pub requested_mask : ℕ → ℕ
  requested_mask channels =
      if channels == 1
      then sdk.speaker_front_center
      else if channels == 2
      then sdk.speaker_stereo
      else 0

  -- The structure that is filled in for a known sample type.
  abbrev pub requested_format : SampleType → ℕ → ℕ → WaveFormat
  requested_format sample rate channels = record {
    format_tag = extensible;
    channels = channels;
    samples_per_sec = rate;
    avg_bytes_per_sec = channels * (container_bits sample / 8) * rate;
    block_align = channels * (container_bits sample / 8);
    bits_per_sample = container_bits sample;
    cb_size = sdk.extension_bytes;
    valid_bits_per_sample = valid_bits sample;
    channel_mask = requested_mask channels;
    sub_format = sub_format_of sample;
  }

  unfoldable pub make_format : Bool → SampleType → ℕ → ℕ → Result WaveFormat
  make_format allocated sample rate channels =
      let block_align = channels * (container_bits sample / 8) in
      let average_bytes_per_second = block_align * rate in
      do
        reject (same_sample sample unknown || rate == 0 || channels == 0) (
            request_error "Requested sample type must be known and rate/channels must be non-zero.")
        reject (ltb word_max block_align || ltb dword_max average_bytes_per_second)
            (request_error "Requested WAVE format overflows block alignment or average byte rate.")
        reject (if allocated then false else true)
            (allocation_error "Failed to allocate WAVEFORMATEXTENSIBLE.")
        validate_wave_format sdk (requested_format sample rate channels)
        success (requested_format sample rate channels)

  unfoldable pub make_requested_wave_format : Bool → FormatRequest → Result WaveFormat
  make_requested_wave_format allocated request = elim request.preferred_sample [
    | none ↦ incomplete
    | some sample ↦ elim request.preferred_sample_rate [
      | none ↦ incomplete
      | some rate ↦ elim request.preferred_channel_count [
        | none ↦ incomplete
        | some channels ↦ make_format allocated sample rate channels
      ]
    ]
  ]
    where
      incomplete : Result WaveFormat
      incomplete = failure (
          make_error ErrorCategory.configuration ErrorCode.invalid_argument
            "make_requested_wave_format"
            "Explicit format negotiation requires preferred sample type, sample rate, and channel count.")

  -- The public view of a format that has passed the validation.
  abbrev public_view : WaveFormat → AudioFormat
  public_view format =
      let extended =
        if is_extensible format.format_tag then leb sdk.extension_bytes format.cb_size else false in
      record {
        sample = detect_sample_type sdk format;
        sample_rate = format.samples_per_sec;
        channel_count = format.channels;
        bits_per_sample = format.bits_per_sample;
        valid_bits_per_sample =
            if extended then format.valid_bits_per_sample else format.bits_per_sample;
        channel_mask = if extended then format.channel_mask else 0;
        interleaved = true;
      }

  abbrev if_valid : VoidResult → AudioFormat → AudioFormat
  if_valid (success _) view = view
  if_valid (failure _) view = no_format

  unfoldable pub to_audio_format : WaveFormat → AudioFormat
  to_audio_format format = if_valid (validate_wave_format sdk format) (public_view format)

  -- `std::memcpy` of the structure and its extra bytes gives an equal format.
  unfoldable pub clone_wave_format : Bool → WaveFormat → Result WaveFormat
  clone_wave_format allocated source = do
    validate_wave_format sdk source
    reject (if allocated then false else true) (allocation_error "Failed to clone WAVEFORMATEX.")
    success source
