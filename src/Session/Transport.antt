-- ===== src/Session/Transport.antt =====
-- playback_session.cpp: the public transport calls. Each returns the state and its result. The
-- decoder's `request_cancel` raises its epoch, which the call then owns.
pub mod Device
pub mod Invariant
pub mod Closed
pub mod Recovery
use sonotide.Prelude.{
  ℕ, ◌+◌, String, Bool, true, false, not, Option, none, some, ltb, if◌then◌else◌,
}
use sonotide.Prelude.Int.{ℤ, pos, negsuc, max_zero}
use sonotide.Error.{Error, ErrorCategory, ErrorCode, make_error, VoidResult, done, failure, success}
use sonotide.Session.{
  PlaybackStatus, idle, loading, playing, paused, PlaybackState, EqualizerPort, EqualizerStatus,
  eq_loading, eq_audio_engine_unavailable, eq_error, DeviceSelector, system_default, explicit_id,
  Session, SessionOf, increase, is_empty, closed_session_result,
}

-- `(std::clamp)(volume_percent, 0, 100)`.
abbrev pub clamp_volume : ℤ → ℕ
clamp_volume (negsuc n) = 0
clamp_volume (pos n) = if ltb 100 n then 100 else n

module _ (port : EqualizerPort) where
  open port use {set_status, set_error_message}

  abbrev St : Type 0
  St = SessionOf port

  -- Raises the decoder's epoch; the new value belongs to the command.
  abbrev pub request_cancel : St → St
  request_cancel s = record s {
    decoder_epoch = increase s.decoder_epoch;
    requested_decoder_epoch = increase s.decoder_epoch;
  }

  unfoldable pub load : String → St → St × VoidResult
  load source_uri s =
      if is_empty source_uri
      then (
        s,
        failure (
            make_error ErrorCategory.configuration ErrorCode.invalid_argument
              "playback_session::load" "Source URI must not be empty."),
      )
      else if s.closed
      then (s, closed_session_result "playback_session::load")
      else (
        record (request_cancel s) {
          requested_source_uri = source_uri;
          requested_source_generation = increase s.requested_source_generation;
          requested_generation_atomic = increase s.requested_source_generation;
          pending_seek_ms = none;
          requested_seek_sequence_atomic = s.requested_seek_sequence;
          state = record (s.state) {
            source_uri = source_uri;
            status = if s.config.auto_play_on_load then loading else paused;
            error_message = "";
            position_ms = pos 0;
            duration_ms = pos 0;
            device_lost = false;
            completion_token = 0;
          };
          playback_intent_playing = s.config.auto_play_on_load;
          decoder_ready = false;
          reached_end_of_stream = false;
          equalizer = set_error_message "" s.equalizer;
        },
        done,
      )

  -- The part of `play` that asks for the start of a source that has ended.
  abbrev restart_at_end : St → St
  restart_at_end s =
      if s.reached_end_of_stream
      then record s {
        pending_seek_ms = some (pos 0);
        requested_seek_sequence = increase s.requested_seek_sequence;
        requested_seek_sequence_atomic = increase s.requested_seek_sequence;
        reached_end_of_stream = false;
      }
      else s

  unfoldable pub play : St → St × VoidResult
  play s =
      if s.closed
      then (s, closed_session_result "playback_session::play")
      else if is_empty s.requested_source_uri
      then (
        record s {
          state = record (s.state) {
            status = PlaybackStatus.error;
            error_message = "Playback session has no loaded source.";
          };
        },
        failure (
            make_error ErrorCategory.stream ErrorCode.invalid_state "playback_session::play"
              "Playback session has no loaded source."),
      )
      else (
        record (restart_at_end s) {
          playback_intent_playing = true;
          state = record (s.state) {
            status = if s.decoder_ready then playing else loading;
            error_message = "";
          };
        },
        done,
      )

  unfoldable pub pause : St → St × VoidResult
  pause s = if s.closed then (s, closed_session_result "playback_session::pause") else (
    record s {
      playback_intent_playing = false;
      state = record (s.state) {
        status = if is_empty s.requested_source_uri then idle else paused;
        error_message = "";
      };
    },
    done,
  )

  unfoldable pub seek_to : ℤ → St → St × VoidResult
  seek_to position_ms s =
      if s.closed
      then (s, closed_session_result "playback_session::seek_to")
      else if is_empty s.requested_source_uri
      then (
        s,
        failure (
            make_error ErrorCategory.stream ErrorCode.invalid_state "playback_session::seek_to"
              "Cannot seek before a source has been loaded."),
      )
      else (
        record (request_cancel s) {
          pending_seek_ms = some (max_zero position_ms);
          requested_seek_sequence = increase s.requested_seek_sequence;
          requested_seek_sequence_atomic = increase s.requested_seek_sequence;
          reached_end_of_stream = false;
          state = record (s.state) {
            position_ms = max_zero position_ms;
            status = if s.playback_intent_playing then loading else paused;
            error_message = "";
          };
        },
        done,
      )

  unfoldable pub set_volume_percent : ℤ → St → St × VoidResult
  set_volume_percent volume_percent s =
      if s.closed then (s, closed_session_result "playback_session::set_volume_percent") else (
        record s {
          state = record (s.state) { volume_percent = clamp_volume volume_percent };
          equalizer_control_version = increase s.equalizer_control_version;
        },
        done,
      )

  -- The first section of `close`, under the lock.
  unfoldable pub begin_close : St → St
  begin_close s = if s.closed then s else record s {
    closed = true;
    shutting_down = true;
    recovery_requested = false;
    decoder_epoch = increase s.decoder_epoch;
  }

  -- Its end, after the worker has finished or the wait has timed out: the pipeline is withdrawn
  -- and the render stream closed, which gives `close_result`.
  unfoldable pub end_close : Bool → VoidResult → St → St × VoidResult
  end_close decode_shutdown_timed_out (failure e) s =
      (record s { decoded_pipeline = none }, failure e)
  end_close decode_shutdown_timed_out (success u) s = (
    record s { decoded_pipeline = none },
    if decode_shutdown_timed_out
        then failure (record {
          category = ErrorCategory.stream;
          code = ErrorCode.operation_timed_out;
          operation = "playback_session::close";
          message =
              "The playback session was closed, but decoder cleanup was deferred because a synchronous Media Foundation operation did not finish before the configured timeout.";
          native_code = none;
          recoverable = true;
        })
        else success u,
  )
