-- ===== src/Tests/Media.antt =====
-- The decoder on a small source.
use sonotide.Prelude.{ℕ, ◌≡◌, refl, Bool, true, false, some, List, [], ◌∷◌, arith}
use sonotide.Prelude.Int.{ℤ, pos}
use sonotide.Error.{success}
use sonotide.Decoder.{milliseconds_to_100ns, is_valid_decoder_output_format}
use sonotide.Media.{MediaDecoder, closed_decoder, close_source}
use sonotide.Media.Open.{
  configure_output_type, query_duration_100ns, OpenAnswers, TypeCodes, ui8, SeekAnswers,
  open_source, seek_source,
}
use sonotide.Media.Read.{Reply, grows}
use sonotide.Media.Frames.{ReadAnswers, read_frames}
use sonotide.Media.Stream.{IsInOrder, read_frames-IsInOrder}
use sonotide.Media.Cancellation.{Opens, Seeks, open_source-Opens, seek_source-Seeks}
use sonotide.Tests.Samples.{stereo}

abbrev no_code : ℤ → Bool
no_code code = false

abbrev reply : List ℕ → ℕ → Reply ℕ
reply floats bytes = record {
  epoch_before = 1;
  hr = pos 0;
  epoch_after = 1;
  is_end_of_stream = false;
  sample = some (record {
    time = pos 0;
    contiguous_hr = pos 0;
    buffer = some (record {
      lock_hr = pos 0;
      max_length = bytes;
      current_length = bytes;
      floats = some floats;
      growth = grows;
      unlock_hr = pos 0;
    });
  });
}

abbrev answers : ReadAnswers
answers = record { epoch_first = 1; epoch_last = 1; allocation = grows }

abbrev codes : TypeCodes
codes = record {
  create = pos 0;
  major = pos 0;
  subtype = pos 0;
  channels = pos 0;
  rate = pos 0;
  bits = pos 0;
  alignment = pos 0;
  bytes = pos 0;
  valid_bits_per_sample = pos 0;
  selection = pos 0;
  current = pos 0;
}

abbrev open_answers : OpenAnswers
open_answers = record {
  epoch_first = 1;
  attributes = pos 0;
  low_latency = pos 0;
  transforms = pos 0;
  has_wide_uri = true;
  create = pos 0;
  epoch_created = 1;
  types = codes;
  epoch_configured = 1;
  duration = record { hr = pos 0; value = ui8 90_000 };
  epoch_last = 1;
}

abbrev seek_answers : SeekAnswers
seek_answers = record { epoch_first = 1; hr = pos 0; epoch_last = 1 }

-- The opened decoder.
abbrev fresh : MediaDecoder ℕ
fresh = record closed_decoder { has_source_reader = true; output_format = stereo }

-- A decoder that has been read to the end of another source.
abbrev worn : MediaDecoder ℕ
worn = record fresh {
  source_reader_position = 70;
  decoded_samples = 9 ∷ [];
  next_sample_time_100ns = pos 80;
  end_of_stream = true;
}

abbrev replies : List (Reply ℕ)
replies = reply (1 ∷ 2 ∷ 3 ∷ 4 ∷ []) 16 ∷ reply (5 ∷ 6 ∷ []) 8 ∷ reply (7 ∷ 8 ∷ []) 8 ∷ []

fresh-opened :
    open_source open_answers "a.wav" stereo 1 worn
    ≡ (record fresh { duration_100ns = pos 90_000 }, success tt)
unfolding open_source close_source is_valid_decoder_output_format configure_output_type
    query_duration_100ns
fresh-opened = refl

open_source-Opens_example :
    Opens {A = ℕ} open_answers "a.wav" stereo 1 (open_source open_answers "a.wav" stereo 1 worn)
open_source-Opens_example = open_source-Opens ℕ open_answers "a.wav" stereo 1 worn

seek_source-Seeks_example :
    Seeks seek_answers
      (milliseconds_to_100ns (pos 5))
      1
      fresh
      (seek_source no_code seek_answers (pos 5) 1 fresh)
seek_source-Seeks_example = seek_source-Seeks no_code seek_answers 1 (pos 5) fresh

read_frames-IsInOrder_example :
    IsInOrder 0 6 fresh replies (read_frames 0 no_code 1_000 answers 3 1 fresh replies)
read_frames-IsInOrder_example =
    read_frames-IsInOrder 0 no_code 1_000 answers 3 1 fresh replies (omega arith) (omega arith)
