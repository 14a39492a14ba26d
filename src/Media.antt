-- ===== src/Media.antt =====
-- internal/win/media_foundation_decoder.cpp: the decoder that reads a source through Media
-- Foundation. What the system answers to each call is an argument; `cancellation_` is read by the
-- operations while other threads change it, so each answer carries the epoch that is seen with it.
-- The children open a source, read blocks of it, and relate the blocks to the source.
pub mod Open
pub mod Read
pub mod Frames
pub mod Pending
pub mod Stream
pub mod Cancellation
use sonotide.Prelude.{ℕ, Bool, true, false, Option, none, some, List, [], String, drop}
use sonotide.Prelude.Int.{ℤ, pos}
use sonotide.Error.{Error, ErrorCategory, ErrorCode, make_error, VoidResult, failure}
use sonotide.Format.{AudioFormat, no_format}

-- `media_foundation_decoder`, without the epoch. Of the reader object it has whether there is one,
-- and the position that `SetCurrentPosition` has last set it to.
pub record MediaDecoder (A : Type 0) : Type 0 where
  pub has_source_reader : Bool
  pub source_reader_position : ℕ
  pub output_format : AudioFormat
  pub decoded_samples : List A
  pub decoded_sample_offset : ℕ
  pub next_sample_time_100ns : ℤ
  pub duration_100ns : ℤ
  pub end_of_stream : Bool

-- The initial state of a decoder, which has no source.
abbrev pub closed_decoder : {A : Type 0} → MediaDecoder A
closed_decoder = record {
  has_source_reader = false;
  source_reader_position = 0;
  output_format = no_format;
  decoded_samples = [];
  decoded_sample_offset = 0;
  next_sample_time_100ns = pos 0;
  duration_100ns = pos 0;
  end_of_stream = false;
}

-- `close`: the reader is released, and its position with it.
unfoldable pub close_source : {A : Type 0} → MediaDecoder A → MediaDecoder A
close_source d = record d {
  has_source_reader = false;
  source_reader_position = 0;
  decoded_samples = [];
  decoded_sample_offset = 0;
  next_sample_time_100ns = pos 0;
  duration_100ns = pos 0;
  end_of_stream = false;
  output_format = no_format;
}

-- `decoder_error`.
abbrev pub decoder_error : ErrorCategory → ErrorCode → String → String → VoidResult
decoder_error category code operation message = failure (make_error category code operation message)

-- The samples that have been read from the source and not yet been handed out.
abbrev pub pending : {A : Type 0} → MediaDecoder A → List A
pending d = drop d.decoded_sample_offset d.decoded_samples
