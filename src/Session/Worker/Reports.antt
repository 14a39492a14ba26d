-- ===== src/Session/Worker/Reports.antt =====
-- playback_session.cpp: what the decode worker shows of its work in the session: an open source, a
-- seek, and the failures of the decoder.
use sonotide.Prelude.{String, true, false, not, Option, none, some, if◌then◌else◌}
use sonotide.Prelude.Int.{ℤ}
use sonotide.Error.{Error}
use sonotide.Session.{PlaybackStatus, EqualizerPort, eq_error, SessionOf}
use sonotide.Session.Worker.{WorkerState, Command, decode_command_is_current}

module _ (port : EqualizerPort) where
  open port use {set_status, set_error_message}

  abbrev St : Type 0
  St = SessionOf port

  unfoldable pub handle_source_error : Error → St → St
  handle_source_error source_error s = record s {
    playback_intent_playing = false;
    decoder_ready = false;
    reached_end_of_stream = false;
    state = record (s.state) {
      status = PlaybackStatus.error;
      error_message = source_error.message;
    };
  }

  abbrev remember_failure : Command → WorkerState → WorkerState
  remember_failure c w = record w {
    request_failed = true;
    failed_generation = c.generation;
    failed_seek_sequence = c.seek_sequence;
    failed_format = c.format;
    failed_frame_count = c.frame_count;
  }

  -- The section after a failed `open`.
  unfoldable pub open_failed : Error → Command → WorkerState → St → St × WorkerState
  open_failed e c w s =
      if not (decode_command_is_current port c s)
      then (s, record w { active_generation = 0 })
      else (
        handle_source_error e s,
        record (remember_failure c w) { active_generation = c.generation; end_of_stream = true },
      )

  -- The section after a failed `seek_to`.
  unfoldable pub seek_failed : Error → Command → WorkerState → St → St × WorkerState
  seek_failed e c w s =
      if not (decode_command_is_current port c s)
      then (s, record w { active_generation = 0 })
      else (handle_source_error e s, remember_failure c w)

  -- The section after a failed `read_frames`; `none` ends the loop.
  unfoldable pub read_failed : Error → Command → WorkerState → St → Option (St × WorkerState)
  read_failed e c w s =
      if s.shutting_down
      then none
      else some (
          if not (decode_command_is_current port c s)
          then (s, record w { active_generation = 0 })
          else (handle_source_error e s, record (remember_failure c w) { end_of_stream = true }))

  -- What the worker notes, and then the session shows, once a source is open.
  unfoldable pub opened : Command → WorkerState → WorkerState
  opened c w = record w {
    active_generation = c.generation;
    active_format = c.format;
    active_frame_count = c.frame_count;
    active_seek_sequence = 0;
    end_of_stream = false;
    request_failed = false;
  }

  unfoldable pub show_opened : ℤ → Command → St → St
  show_opened duration c s =
      if decode_command_is_current port c s
      then record s { decoder_ready = true; state = record (s.state) { duration_ms = duration } }
      else s

  -- The same after a seek.
  unfoldable pub sought : Command → WorkerState → WorkerState
  sought c w = record w {
    active_seek_sequence = c.seek_sequence;
    end_of_stream = false;
    request_failed = false;
  }

  unfoldable pub show_sought : Command → St → St
  show_sought c s =
      if decode_command_is_current port c s then record s { pending_seek_ms = none } else s

  -- The report of an exception that left the loop.
  unfoldable pub publish_decode_worker_exception : String → St → St
  publish_decode_worker_exception message s = if s.shutting_down then s else record s {
    playback_intent_playing = false;
    decoder_ready = false;
    state = record (s.state) { status = PlaybackStatus.error; error_message = message };
    equalizer = set_error_message message (set_status eq_error s.equalizer);
  }

  -- The end of `decode_worker_entry`.
  unfoldable pub finish_worker : St → St
  finish_worker s = record s { decode_worker_finished = true }
