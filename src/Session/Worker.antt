-- ===== src/Session/Worker.antt =====
-- playback_session.cpp: `decode_loop` and what it calls. The worker's local variables are a record;
-- each section under `mutex_`, and each piece of work between two of them, is one step. What the
-- decoder answers is an argument of the step that asks it.
pub mod Reports
pub mod Slots
pub mod Currency
pub mod Pipelines
pub mod Round
pub mod Queued
pub mod Delivery
use sonotide.Prelude.{
  ℕ, zero, suc, ◌+◌, ◌*◌, ◌/◌, String, Bool, true, false, not, ◌&&◌, ◌||◌, Option, none, some, List,
  [], ◌∷◌, get_elem?, join, set, length, ltb, ◌==◌, ◌!=◌, is_some, join, if◌then◌else◌,
}
use sonotide.Prelude.Int.{ℤ, pos}
use sonotide.Error.{Error}
use sonotide.Format.{AudioFormat, no_format, formats_match}
use sonotide.Timing.{u64_max}
use sonotide.AudioQueue.{DecodedMetadata, DecodedAudioQueue, make_queue, try_push, full}
use sonotide.Session.{
  PlaybackStatus, PlaybackState, EqualizerPort, eq_error, Payload, Session, SessionOf, is_empty,
  recompute_equalizer_metadata,
}

-- The variables that `decode_loop` keeps from one round to the next.
pub record WorkerState : Type 0 where
  pub active_generation : ℕ
  pub active_seek_sequence : ℕ
  pub active_format : AudioFormat
  pub active_frame_count : ℕ
  pub end_of_stream : Bool
  pub request_failed : Bool
  pub failed_generation : ℕ
  pub failed_seek_sequence : ℕ
  pub failed_format : AudioFormat
  pub failed_frame_count : ℕ

abbrev pub initial_worker : WorkerState
initial_worker = record {
  active_generation = 0;
  active_seek_sequence = 0;
  active_format = no_format;
  active_frame_count = 0;
  end_of_stream = false;
  request_failed = false;
  failed_generation = 0;
  failed_seek_sequence = 0;
  failed_format = no_format;
  failed_frame_count = 0;
}

-- The copy of the request that a round works on.
pub record Command : Type 0 where
  pub source_uri : String
  pub format : AudioFormat
  pub frame_count : ℕ
  pub generation : ℕ
  pub seek_sequence : ℕ
  pub decoder_epoch : ℕ
  pub seek_position : Option ℤ
  pub pipeline : Option ℕ

-- `decoded_block`.
pub record DecodedBlock (A : Type 0) : Type 0 where
  pub samples : List A
  pub position_ms : ℤ
  pub duration_ms : ℤ
  pub end_of_stream : Bool

module _ (port : EqualizerPort) where
  open port use {Sample, silence, Headroom, set_status, set_error_message}

  abbrev St : Type 0
  St = SessionOf port

  abbrev pub slot_payload : St → ℕ → Option (Payload Sample Headroom)
  slot_payload s i = join (get_elem? s.pipeline_slots i)

  -- `current_pipeline && !current_pipeline->payload->queue.full()`. A published slot is never without
  -- a payload, which the code would use here without a test; the model counts it as full.
  abbrev has_room : St → Bool
  has_room s = elim s.decoded_pipeline [
    | none ↦ false
    | some i ↦ elim (slot_payload s i) [
      | none ↦ false
      | some payload ↦ not (full silence payload.queue)
    ]
  ]

  -- The predicate of `decode_condition_`, for a request in the format `format`.
  abbrev wakes_for : WorkerState → AudioFormat → St → Bool
  wakes_for w format s =
      let failed_request_changed =
        not w.request_failed
        || s.requested_source_generation != w.failed_generation
        || s.requested_seek_sequence != w.failed_seek_sequence
        || not (formats_match format w.failed_format)
        || s.requested_frame_count != w.failed_frame_count in
      not (is_empty s.requested_source_uri)
      && ltb 0 s.requested_frame_count
      && failed_request_changed
      && (s.requested_source_generation != w.active_generation
          || s.requested_seek_sequence != w.active_seek_sequence
          || not (formats_match format w.active_format)
          || s.requested_frame_count != w.active_frame_count
          || not w.end_of_stream && has_room s)

  abbrev command_for : AudioFormat → St → Command
  command_for format s = record {
    source_uri = s.requested_source_uri;
    format = format;
    frame_count = s.requested_frame_count;
    generation = s.requested_source_generation;
    seek_sequence = s.requested_seek_sequence;
    decoder_epoch = s.requested_decoder_epoch;
    seek_position = s.pending_seek_ms;
    pipeline = s.decoded_pipeline;
  }

  -- One passage of the wait: the command of the next round, once the predicate holds. A session
  -- that is shutting down ends the loop instead.
  unfoldable pub command_in : Option AudioFormat → WorkerState → St → Option Command
  command_in none w s = none
  command_in (some format) w s =
      if not s.shutting_down && wakes_for w format s then some (command_for format s) else none

  unfoldable pub next_command : WorkerState → St → Option Command
  next_command w s = command_in s.requested_render_format w s

  unfoldable pub needs_open : WorkerState → Command → Bool
  needs_open w c =
      c.generation != w.active_generation
      || not (formats_match c.format w.active_format)
      || c.frame_count != w.active_frame_count

  unfoldable pub decode_command_is_current : Command → St → Bool
  decode_command_is_current c s =
      not s.shutting_down
      && c.generation == s.requested_source_generation
      && c.seek_sequence == s.requested_seek_sequence
      && c.decoder_epoch == s.requested_decoder_epoch
