-- ===== src/Media/Frames.antt =====
-- internal/win/media_foundation_decoder.cpp: `read_frames`.
use sonotide.Prelude.{
  ℕ, ◌+◌, ◌-◌, String, Bool, ◌&&◌, Option, none, some, List, [], ◌++◌, length, take, drop,
  replicate, min, leb, if◌then◌else◌,
}
use sonotide.Prelude.Int.{ℤ, pos}
use sonotide.Error.{ErrorCategory, ErrorCode, make_error, success, failure}
use sonotide.Decoder.{changed_since, checked_sample_count, advance_timestamp_100ns, to_milliseconds}
use sonotide.Session.Worker.{DecodedBlock}
use sonotide.Media.{MediaDecoder}
use sonotide.Media.Read.{
  Growth, grows, bad_alloc, length_error, Reply, ReadOutcome, returns, unfinished, no_samples,
  ensure_decoded_frames,
}

-- What `read_frames` meets besides the answers of the reader: the epoch at its start and after the
-- decoding, and how the allocation of the block ends.
pub record ReadAnswers : Type 0 where
  pub epoch_first : ℕ
  pub epoch_last : ℕ
  pub allocation : Growth

module _ {A : Type 0} (silence : A) where
  -- The copy out of the decoder's vector, which is cleared once it is used up.
  unfoldable pub take_samples : ℕ → MediaDecoder A → MediaDecoder A × List A
  take_samples requested d =
      let available = length d.decoded_samples - d.decoded_sample_offset in
      let copied_samples = min available requested in
      let offset = d.decoded_sample_offset + copied_samples in
      (
        if leb (length d.decoded_samples) offset
            then record d { decoded_samples = []; decoded_sample_offset = 0 }
            else record d { decoded_sample_offset = offset },
        take copied_samples (drop d.decoded_sample_offset d.decoded_samples)
            ++ replicate (requested - copied_samples) silence,
      )

  abbrev is_drained : MediaDecoder A → Bool
  is_drained d = d.end_of_stream && no_samples d.decoded_samples

  abbrev pub delivered : ℕ → MediaDecoder A × List A → MediaDecoder A × ReadOutcome (DecodedBlock A)
  delivered next (d, samples) = (
    record d { next_sample_time_100ns = pos next },
    returns (
        success (record {
          samples = samples;
          position_ms = pos (to_milliseconds (pos next));
          duration_ms = pos (to_milliseconds d.duration_100ns);
          end_of_stream = is_drained d;
        })),
  )

  abbrev frames_error : ErrorCategory → ErrorCode → String → ReadOutcome (DecodedBlock A)
  frames_error category code message =
      returns (failure (make_error category code "media_foundation_decoder::read_frames" message))

  abbrev pub allocated :
      Growth → ℕ → ℕ → MediaDecoder A → MediaDecoder A × ReadOutcome (DecodedBlock A)
  allocated grows requested next d = delivered next (take_samples requested d)
  allocated bad_alloc requested next d = (
    d,
    frames_error ErrorCategory.platform ErrorCode.platform_failure
        "Failed to allocate the decoded output block.",
  )
  allocated length_error requested next d = (
    d,
    frames_error ErrorCategory.configuration ErrorCode.invalid_argument
        "Decoded output block exceeds vector limits.",
  )

  abbrev pub timestamped :
      ReadAnswers → ℕ → Option ℕ → MediaDecoder A → MediaDecoder A × ReadOutcome (DecodedBlock A)
  timestamped a requested none d = (
    d,
    frames_error ErrorCategory.stream ErrorCode.invalid_state
        "Decoded stream timestamp would overflow.",
  )
  timestamped a requested (some next) d = allocated a.allocation requested next d

  -- What follows a successful `ensure_decoded_frames`.
  unfoldable pub hand_out :
      ReadAnswers → ℕ → ℕ → ℕ → MediaDecoder A → MediaDecoder A × ReadOutcome (DecodedBlock A)
  hand_out a frame_count requested epoch d =
      if changed_since a.epoch_last epoch
      then (
        d,
        frames_error ErrorCategory.stream ErrorCode.invalid_state "Decode operation was cancelled.",
      )
      else timestamped a requested
          (advance_timestamp_100ns d.next_sample_time_100ns frame_count d.output_format.sample_rate)
          d

  abbrev pub with_rest :
      List (Reply A)
      → MediaDecoder A × ReadOutcome (DecodedBlock A)
      → MediaDecoder A × ReadOutcome (DecodedBlock A) × List (Reply A)
  with_rest rest (d, outcome) = (d, outcome, rest)

  abbrev pub ensured :
      ReadAnswers
      → ℕ
      → ℕ
      → ℕ
      → MediaDecoder A × ReadOutcome (Unit {0}) × List (Reply A)
      → MediaDecoder A × ReadOutcome (DecodedBlock A) × List (Reply A)
  ensured a frame_count requested epoch (d, unfinished, rest) = (d, unfinished, rest)
  ensured a frame_count requested epoch (d, returns (failure e), rest) =
      (d, returns (failure e), rest)
  ensured a frame_count requested epoch (d, returns (success u), rest) =
      with_rest rest (hand_out a frame_count requested epoch d)

  module _ (is_not_accepting : ℤ → Bool) (max_size : ℕ) where
    abbrev pub requested_frames :
        ReadAnswers
        → ℕ
        → ℕ
        → Option ℕ
        → MediaDecoder A
        → List (Reply A)
        → MediaDecoder A × ReadOutcome (DecodedBlock A) × List (Reply A)
    requested_frames a frame_count epoch none d replies = (
      d,
      frames_error ErrorCategory.configuration ErrorCode.invalid_argument
          "Requested frame and channel count exceeds the decoder sample capacity.",
      replies,
    )
    requested_frames a frame_count epoch (some requested) d replies =
        ensured a frame_count requested epoch
          (ensure_decoded_frames is_not_accepting max_size frame_count epoch d replies)

    unfoldable pub read_frames :
        ReadAnswers
        → ℕ
        → ℕ
        → MediaDecoder A
        → List (Reply A)
        → MediaDecoder A × ReadOutcome (DecodedBlock A) × List (Reply A)
    read_frames a frame_count epoch d replies =
        if changed_since a.epoch_first epoch
        then (
          d,
          frames_error ErrorCategory.stream ErrorCode.invalid_state
              "Decode command was cancelled before reading started.",
          replies,
        )
        else requested_frames a frame_count epoch
            (checked_sample_count frame_count d.output_format.channel_count max_size) d replies
