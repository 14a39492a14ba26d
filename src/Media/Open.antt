-- ===== src/Media/Open.antt =====
-- internal/win/media_foundation_decoder.cpp: `open`, `configure_output_type`,
-- `query_duration_100ns` and `seek_to`.
use sonotide.Prelude.{
  ℕ, String, Bool, true, false, not, ◌||◌, Option, none, some, [], leb, if◌then◌else◌,
}
use sonotide.Prelude.Int.{ℤ, pos, max_zero}
use sonotide.Error.{ErrorCategory, ErrorCode, VoidResult, done, success, failure, ◌>>◌}
use sonotide.Format.{AudioFormat}
use sonotide.Session.{is_empty}
use sonotide.Timing.{i64_max}
use sonotide.Decoder.{changed_since, is_valid_decoder_output_format, milliseconds_to_100ns}
use sonotide.Hresult.{is_failed, map_hresult}
use sonotide.Media.{MediaDecoder, close_source, decoder_error}

-- The result of a Windows windows_call, as an error if it failed.
abbrev pub windows_call : String → ErrorCategory → ErrorCode → ℤ → VoidResult
windows_call operation category code hr =
    if is_failed hr then failure (map_hresult operation hr category code false) else done

-- What the calls of `configure_output_type` return.
pub record TypeCodes : Type 0 where
  pub create : ℤ
  pub major : ℤ
  pub subtype : ℤ
  pub channels : ℤ
  pub rate : ℤ
  pub bits : ℤ
  pub alignment : ℤ
  pub bytes : ℤ
  pub valid_bits_per_sample : ℤ
  pub selection : ℤ
  pub current : ℤ

unfoldable pub configure_output_type : TypeCodes → VoidResult
configure_output_type t = do
  windows_call "MFCreateMediaType" ErrorCategory.initialization ErrorCode.initialization_failed
      t.create
  windows_call "IMFMediaType::SetGUID(MF_MT_MAJOR_TYPE)" ErrorCategory.format
      ErrorCode.format_negotiation_failed t.major
  windows_call "IMFMediaType::SetGUID(MF_MT_SUBTYPE)" ErrorCategory.format
      ErrorCode.format_negotiation_failed t.subtype
  windows_call "IMFMediaType::SetUINT32(MF_MT_AUDIO_NUM_CHANNELS)" ErrorCategory.format
      ErrorCode.format_negotiation_failed t.channels
  windows_call "IMFMediaType::SetUINT32(MF_MT_AUDIO_SAMPLES_PER_SECOND)" ErrorCategory.format
      ErrorCode.format_negotiation_failed t.rate
  windows_call "IMFMediaType::SetUINT32(MF_MT_AUDIO_BITS_PER_SAMPLE)" ErrorCategory.format
      ErrorCode.format_negotiation_failed t.bits
  windows_call "IMFMediaType::SetUINT32(MF_MT_AUDIO_BLOCK_ALIGNMENT)" ErrorCategory.format
      ErrorCode.format_negotiation_failed t.alignment
  windows_call "IMFMediaType::SetUINT32(MF_MT_AUDIO_AVG_BYTES_PER_SECOND)" ErrorCategory.format
      ErrorCode.format_negotiation_failed t.bytes
  windows_call "IMFMediaType::SetUINT32(MF_MT_AUDIO_VALID_BITS_PER_SAMPLE)" ErrorCategory.format
      ErrorCode.format_negotiation_failed t.valid_bits_per_sample
  windows_call "IMFSourceReader::SetStreamSelection" ErrorCategory.initialization
      ErrorCode.stream_open_failed t.selection
  windows_call "IMFSourceReader::SetCurrentMediaType" ErrorCategory.format
      ErrorCode.format_negotiation_failed t.current

-- The attribute `MF_PD_DURATION` of a source, by its variant type.
pub data DurationValue : Type 0 where
  ui8 : ℕ → DurationValue
  i8 : ℤ → DurationValue
  other_type : DurationValue

pub record DurationAnswer : Type 0 where
  pub hr : ℤ
  pub value : DurationValue

abbrev duration_of : DurationValue → ℤ
duration_of (ui8 n) = if leb n i64_max then pos n else pos 0
duration_of (i8 z) = max_zero z
duration_of other_type = pos 0

unfoldable pub query_duration_100ns : DurationAnswer → ℤ
query_duration_100ns a = if is_failed a.hr then pos 0 else duration_of a.value

-- What `open` meets: the codes of its calls, whether the source URI has a UTF-16 form, and the
-- epoch at each test of the cancellation.
pub record OpenAnswers : Type 0 where
  pub epoch_first : ℕ
  pub attributes : ℤ
  pub low_latency : ℤ
  pub transforms : ℤ
  pub has_wide_uri : Bool
  pub create : ℤ
  pub epoch_created : ℕ
  pub types : TypeCodes
  pub epoch_configured : ℕ
  pub duration : DurationAnswer
  pub epoch_last : ℕ

-- A step that may refuse.
abbrev pub require : Bool → VoidResult → VoidResult
require true refusal = done
require false refusal = refusal

-- Where a windows_call fails after the command has been cancelled, the cancellation is reported.
abbrev cancelled_or : ℕ → ℕ → String → VoidResult → VoidResult
cancelled_or now epoch message (success u) = success u
cancelled_or now epoch message (failure e) =
    if changed_since now epoch
    then decoder_error ErrorCategory.stream ErrorCode.invalid_state "media_foundation_decoder::open"
        message
    else failure e

abbrev pub open_checks : OpenAnswers → String → AudioFormat → ℕ → VoidResult
open_checks a source_uri output_format epoch = do
  require (not (is_empty source_uri)) (
      decoder_error ErrorCategory.configuration ErrorCode.invalid_argument
        "media_foundation_decoder::open" "Source URI must not be empty.")
  require (is_valid_decoder_output_format output_format) (
      decoder_error ErrorCategory.format ErrorCode.invalid_argument "media_foundation_decoder::open"
        "Output format must be a supported interleaved PCM layout with non-zero, overflow-safe rate and channels.")
  require (not (changed_since a.epoch_first epoch)) (
      decoder_error ErrorCategory.stream ErrorCode.invalid_state "media_foundation_decoder::open"
        "Decode operation was cancelled while opening the source.")
  windows_call "MFCreateAttributes" ErrorCategory.initialization ErrorCode.initialization_failed
      a.attributes
  windows_call "IMFAttributes::SetUINT32(MF_LOW_LATENCY)" ErrorCategory.initialization
      ErrorCode.initialization_failed a.low_latency
  windows_call "IMFAttributes::SetUINT32(MF_READWRITE_ENABLE_HARDWARE_TRANSFORMS)"
      ErrorCategory.initialization ErrorCode.initialization_failed a.transforms
  require a.has_wide_uri (
      decoder_error ErrorCategory.configuration ErrorCode.invalid_argument
        "media_foundation_decoder::open"
        "Source URI is not valid UTF-8 or is too long for the Windows API.")
  cancelled_or a.epoch_created epoch
      "Decode operation was cancelled while creating the source reader."
      (windows_call "MFCreateSourceReaderFromURL" ErrorCategory.initialization
        ErrorCode.stream_open_failed a.create)
  cancelled_or a.epoch_configured epoch
      "Decode operation was cancelled while configuring the source reader."
      (configure_output_type a.types)
  require (not (changed_since a.epoch_last epoch)) (
      decoder_error ErrorCategory.stream ErrorCode.invalid_state "media_foundation_decoder::open"
        "Decode operation was cancelled while opening the source.")

module _ {A : Type 0} where
  -- The end of `open`, on a decoder that has been closed.
  abbrev pub open_after :
      OpenAnswers → AudioFormat → MediaDecoder A → VoidResult → MediaDecoder A × VoidResult
  open_after a output_format d (failure e) = (d, failure e)
  open_after a output_format d (success u) = (
    record d {
      has_source_reader = true;
      source_reader_position = 0;
      output_format = output_format;
      decoded_samples = [];
      decoded_sample_offset = 0;
      next_sample_time_100ns = pos 0;
      duration_100ns = query_duration_100ns a.duration;
      end_of_stream = false;
    },
    done,
  )

  -- `open` closes the decoder first.
  unfoldable pub open_source :
      OpenAnswers → String → AudioFormat → ℕ → MediaDecoder A → MediaDecoder A × VoidResult
  open_source a source_uri output_format epoch d =
      open_after a output_format (close_source d) (open_checks a source_uri output_format epoch)

-- What `seek_to` meets.
pub record SeekAnswers : Type 0 where
  pub epoch_first : ℕ
  pub hr : ℤ
  pub epoch_last : ℕ

abbrev seek_error : ErrorCategory → ErrorCode → String → VoidResult
seek_error category code message =
    decoder_error category code "media_foundation_decoder::seek_to" message

abbrev cancelled_seek : VoidResult
cancelled_seek =
    seek_error ErrorCategory.stream ErrorCode.invalid_state
      "Decode operation was cancelled while seeking."

module _ {A : Type 0} where
  -- A successful `SetCurrentPosition` has moved the reader, whatever follows.
  abbrev pub moved_to : SeekAnswers → ℕ → MediaDecoder A → MediaDecoder A
  moved_to a position d =
      if is_failed a.hr then d else record d { source_reader_position = position }

  abbrev pub sought_at : MediaDecoder A → ℕ → VoidResult → MediaDecoder A × VoidResult
  sought_at d position (failure e) = (d, failure e)
  sought_at d position (success u) = (
    record d {
      decoded_samples = [];
      decoded_sample_offset = 0;
      next_sample_time_100ns = pos position;
      end_of_stream = false;
    },
    done,
  )

-- The code `MF_E_NOTACCEPTING` is of the Windows headers, so the test for it is a parameter.
module _ (is_not_accepting : ℤ → Bool) where
  abbrev pub position_result : SeekAnswers → ℕ → VoidResult
  position_result a epoch =
      if is_failed a.hr
      then (if changed_since a.epoch_last epoch || is_not_accepting a.hr
          then cancelled_seek
          else failure (
              map_hresult "IMFSourceReader::SetCurrentPosition" a.hr ErrorCategory.stream
                ErrorCode.stream_open_failed false))
      else if changed_since a.epoch_last epoch
      then cancelled_seek
      else done

  module _ {A : Type 0} where
    abbrev pub seek_converted :
        SeekAnswers → ℕ → MediaDecoder A → Option ℕ → MediaDecoder A × VoidResult
    seek_converted a epoch d none = (
      d,
      seek_error ErrorCategory.configuration ErrorCode.invalid_argument
          "Seek position must be non-negative and fit in a Media Foundation timestamp.",
    )
    seek_converted a epoch d (some position) =
        sought_at (moved_to a position d) position (position_result a epoch)

    unfoldable pub seek_source : SeekAnswers → ℤ → ℕ → MediaDecoder A → MediaDecoder A × VoidResult
    seek_source a position_ms epoch d =
        if changed_since a.epoch_first epoch
        then (
          d,
          seek_error ErrorCategory.stream ErrorCode.invalid_state
              "Decode command was cancelled before seeking started.",
        )
        else if not d.has_source_reader
        then (
          d,
          seek_error ErrorCategory.stream ErrorCode.invalid_state
              "Cannot seek before a source has been opened.",
        )
        else seek_converted a epoch d (milliseconds_to_100ns position_ms)
