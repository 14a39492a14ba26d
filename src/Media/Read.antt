-- ===== src/Media/Read.antt =====
-- internal/win/media_foundation_decoder.cpp: `ensure_decoded_frames`. The answers
-- of `ReadSample` are a list; a read that needs more of them than the list has is unfinished.
use sonotide.Prelude.{
  ℕ, ◌-◌, ◌/◌, ◌%◌, String, Bool, true, false, not, ◌&&◌, ◌||◌, Option, none, some, List, [], ◌∷◌,
  ◌++◌, length, take, ltb, ◌!=◌, if◌then◌else◌,
}
use sonotide.Prelude.Int.{ℤ, max_zero}
use sonotide.Error.{Error, ErrorCategory, ErrorCode, make_error, Result, success, failure}
use sonotide.Decoder.{changed_since, checked_sample_count}
use sonotide.Hresult.{is_failed, map_hresult}
use sonotide.Media.{MediaDecoder}

-- How an allocation ends.
pub data Growth : Type 0 where
  grows bad_alloc length_error : Growth

-- `IMFMediaBuffer`: what `Lock` and `Unlock` return, the floats behind the pointer unless it is
-- null, and whether the decoder's vector can grow by them.
pub record MediaBuffer (A : Type 0) : Type 0 where
  pub lock_hr : ℤ
  pub max_length : ℕ
  pub current_length : ℕ
  pub floats : Option (List A)
  pub growth : Growth
  pub unlock_hr : ℤ

-- `IMFSample` with its time and its contiguous buffer, which may be null.
pub record MediaSample (A : Type 0) : Type 0 where
  pub time : ℤ
  pub contiguous_hr : ℤ
  pub buffer : Option (MediaBuffer A)

-- One round of the loop: the epoch before `ReadSample`, its answer, and the epoch after it.
pub record Reply (A : Type 0) : Type 0 where
  pub epoch_before : ℕ
  pub hr : ℤ
  pub epoch_after : ℕ
  pub is_end_of_stream : Bool
  pub sample : Option (MediaSample A)

-- What a round does to the loop.
pub data Round (A : Type 0) : Type 0 where
  goes_on : MediaDecoder A → Round A
  breaks : MediaDecoder A → Round A
  fails : MediaDecoder A → Error → Round A

-- What a read does: it returns, or its list of answers ends first.
pub data ReadOutcome (R : Type 0) : Type 0 where
  returns : Result R → ReadOutcome R
  unfinished : ReadOutcome R

abbrev read_error : String → Error
read_error message =
    make_error ErrorCategory.stream ErrorCode.invalid_state "media_foundation_decoder::read_frames"
      message

abbrev cancelled : Error
cancelled = read_error "Decode operation was cancelled."

abbrev decoded_failure : Error → ReadOutcome (Unit {0})
decoded_failure e = returns (failure e)

module _ {A : Type 0} where
  -- The floats of `current_length` bytes.
  abbrev pub float_count : MediaBuffer A → ℕ
  float_count b = b.current_length / 4

  abbrev is_null : Option (List A) → Bool
  is_null none = true
  is_null (some floats) = false

  abbrev pub floats_behind : Option (List A) → List A
  floats_behind none = []
  floats_behind (some floats) = floats

  abbrev pub is_invalid : MediaBuffer A → Bool
  is_invalid b =
      ltb b.max_length b.current_length
      || b.current_length % 4 != 0
      || ltb 0 b.current_length && is_null b.floats

  -- The copy into the decoder's vector, which `Unlock` follows.
  abbrev pub copied : MediaDecoder A → MediaBuffer A → MediaDecoder A
  copied d b = record d {
    decoded_samples = d.decoded_samples ++ take (float_count b) (floats_behind b.floats);
  }

  abbrev pub unlocked : MediaDecoder A → MediaBuffer A → Round A
  unlocked d b =
      if is_failed b.unlock_hr
      then fails d (
          map_hresult "IMFMediaBuffer::Unlock" b.unlock_hr ErrorCategory.stream
            ErrorCode.stream_open_failed false)
      else goes_on (copied d b)

  abbrev pub grown : Growth → MediaDecoder A → MediaBuffer A → Round A
  grown grows d b = unlocked d b
  grown bad_alloc d b = fails d (
      make_error ErrorCategory.platform ErrorCode.platform_failure
        "media_foundation_decoder::ensure_decoded_frames" "Failed to grow the decoded PCM buffer.")
  grown length_error d b = fails d (
      make_error ErrorCategory.stream ErrorCode.stream_open_failed
        "media_foundation_decoder::ensure_decoded_frames"
        "Decoded PCM buffer exceeds vector limits.")

  abbrev pub no_samples : List A → Bool
  no_samples [] = true
  no_samples (x ∷ xs) = false

  -- The timestamp follows the source where no decoded sample is kept.
  abbrev pub timed : MediaDecoder A → ℤ → MediaDecoder A
  timed d time =
      if no_samples d.decoded_samples
      then record d { next_sample_time_100ns = max_zero time }
      else d

  -- The condition of the loop.
  abbrev pub wants : MediaDecoder A → ℕ → Bool
  wants d required =
      ltb (length d.decoded_samples - d.decoded_sample_offset) required && not d.end_of_stream

  abbrev pub is_beyond : ℕ → MediaDecoder A → MediaBuffer A → Bool
  is_beyond max_size d b =
      float_count b % d.output_format.channel_count != 0
      || ltb (max_size - length d.decoded_samples) (float_count b)

module _ {A : Type 0} (is_not_accepting : ℤ → Bool) (max_size : ℕ) where
  -- The locked buffer: its checks, and the growth of the vector.
  unfoldable pub append_buffer : MediaDecoder A → MediaBuffer A → Round A
  append_buffer d b =
      if is_failed b.lock_hr
      then fails d (
          map_hresult "IMFMediaBuffer::Lock" b.lock_hr ErrorCategory.stream
            ErrorCode.stream_open_failed false)
      else if is_invalid b
      then fails d (
          make_error ErrorCategory.stream ErrorCode.stream_open_failed "IMFMediaBuffer::Lock"
            "Media Foundation returned an invalid float PCM buffer.")
      else if is_beyond max_size d b
      then fails d (
          make_error ErrorCategory.stream ErrorCode.stream_open_failed
            "media_foundation_decoder::ensure_decoded_frames"
            "Decoded PCM buffer is not frame-aligned or exceeds decoder capacity.")
      else if ltb 0 (float_count b)
      then grown b.growth d b
      else unlocked d b

  abbrev pub append_contiguous : MediaDecoder A → Option (MediaBuffer A) → Round A
  append_contiguous d none = fails d (
      make_error ErrorCategory.stream ErrorCode.stream_open_failed
        "IMFSample::ConvertToContiguousBuffer"
        "Media Foundation returned a null contiguous buffer.")
  append_contiguous d (some b) = append_buffer d b

  unfoldable pub append_sample : MediaDecoder A → Option (MediaSample A) → Round A
  append_sample d none = goes_on d
  append_sample d (some s) =
      if is_failed s.contiguous_hr
      then fails (timed d s.time) (
          map_hresult "IMFSample::ConvertToContiguousBuffer" s.contiguous_hr ErrorCategory.stream
            ErrorCode.stream_open_failed false)
      else append_contiguous (timed d s.time) s.buffer

  -- One round, whose condition holds.
  unfoldable pub read_sample : ℕ → MediaDecoder A → Reply A → Round A
  read_sample epoch d r =
      if changed_since r.epoch_before epoch
      then fails d cancelled
      else if is_failed r.hr
      then (if changed_since r.epoch_after epoch || is_not_accepting r.hr
          then fails d cancelled
          else fails d (
              map_hresult "IMFSourceReader::ReadSample" r.hr ErrorCategory.stream
                ErrorCode.stream_open_failed false))
      else if changed_since r.epoch_after epoch
      then fails d cancelled
      else if r.is_end_of_stream
      then breaks (record d { end_of_stream = true })
      else append_sample d r.sample

  -- The `while` loop, on the list of answers; what is left of the list comes last.
  unfoldable pub read_loop :
      ℕ
      → ℕ
      → MediaDecoder A
      → List (Reply A)
      → MediaDecoder A × ReadOutcome (Unit {0}) × List (Reply A)
  read_loop epoch required d [] =
      if wants d required then (d, unfinished, []) else (d, returns (success tt), [])
  read_loop epoch required d (r ∷ rs) =
      if wants d required
      then elim (read_sample epoch d r) [
        | goes_on e ↦ read_loop epoch required e rs
        | breaks e ↦ (e, returns (success tt), rs)
        | fails e x ↦ (e, returns (failure x), rs)
      ]
      else (d, returns (success tt), r ∷ rs)

  abbrev ensure_required :
      ℕ
      → Option ℕ
      → MediaDecoder A
      → List (Reply A)
      → MediaDecoder A × ReadOutcome (Unit {0}) × List (Reply A)
  ensure_required epoch none d replies = (
    d,
    decoded_failure (
        make_error ErrorCategory.configuration ErrorCode.invalid_argument
          "media_foundation_decoder::ensure_decoded_frames"
          "Requested frame and channel count exceeds the decoder sample capacity."),
    replies,
  )
  ensure_required epoch (some required) d replies = read_loop epoch required d replies

  unfoldable pub ensure_decoded_frames :
      ℕ
      → ℕ
      → MediaDecoder A
      → List (Reply A)
      → MediaDecoder A × ReadOutcome (Unit {0}) × List (Reply A)
  ensure_decoded_frames frame_count epoch d replies =
      if not d.has_source_reader
      then (
        d,
        decoded_failure (
            make_error ErrorCategory.stream ErrorCode.invalid_state
              "media_foundation_decoder::ensure_decoded_frames"
              "Cannot decode before a source has been opened."),
        replies,
      )
      else if ltb (length d.decoded_samples) d.decoded_sample_offset
      then (
        d,
        decoded_failure (
            make_error ErrorCategory.stream ErrorCode.invalid_state
              "media_foundation_decoder::ensure_decoded_frames"
              "Decoder sample offset is outside the decoded buffer."),
        replies,
      )
      else ensure_required epoch
          (checked_sample_count frame_count d.output_format.channel_count max_size) d replies
