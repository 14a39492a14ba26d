-- ===== src/Tests/Rounds.antt =====
-- Rounds of the decode worker.
use sonotide.Prelude.{ℕ, true, none, refl, arith, [], ◌∷◌}
use sonotide.Prelude.Int.{pos}
use sonotide.Error.{done, success}
use sonotide.Session.{SessionOf}
use sonotide.Session.Transport.Invariant.{loads, call}
use sonotide.Session.Render.{on_render_begin}
use sonotide.Format.{formats_match}
use sonotide.Session.Transport.{load}
use sonotide.Session.Worker.{
  initial_worker, Command, DecodedBlock, command_in, next_command, needs_open,
}
use sonotide.Session.Worker.Slots.{slot_size_overflows}
use sonotide.Session.Worker.Delivery.{IsDelivered, round-IsDelivered}
use sonotide.Session.Worker.Round.{Answers, round}
use sonotide.Tests.Samples.{stereo, small_port, fresh_session}

-- A loaded session whose callback has told its format, and a decoder that succeeds.
abbrev asked : SessionOf small_port
asked =
    (on_render_begin small_port true (record { format = stereo; frame_count = 1 })
      (call small_port (loads "song.flac") fresh_session)).0

abbrev answers : Answers ℕ
answers = record {
  opens = success (pos 10);
  seeks = done;
  reads = success (record {
    samples = 4 ∷ 5 ∷ [];
    position_ms = pos 10;
    duration_ms = pos 10;
    end_of_stream = true;
  });
}

abbrev asked_command : Command
asked_command = record {
  source_uri = "song.flac";
  format = stereo;
  frame_count = 1;
  generation = 1;
  seek_sequence = 0;
  decoder_epoch = 1;
  seek_position = none;
  pipeline = none;
}

abbrev last_block : DecodedBlock ℕ
last_block = record {
  samples = 4 ∷ 5 ∷ [];
  position_ms = pos 10;
  duration_ms = pos 10;
  end_of_stream = true;
}

round-IsDelivered_example :
    IsDelivered small_port asked_command last_block
      (round small_port (λ j t. t) answers initial_worker asked)
unfolding next_command command_in needs_open formats_match slot_size_overflows on_render_begin call
    load
round-IsDelivered_example =
    round-IsDelivered small_port answers initial_worker asked asked_command (pos 10) last_block refl
      refl refl refl refl refl refl (omega arith)
