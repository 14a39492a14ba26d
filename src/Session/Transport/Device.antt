-- ===== src/Session/Transport/Device.antt =====
-- playback_session.cpp: the output device of a session: its selection, its loss, and the recovery.
use sonotide.Prelude.{String, Bool, true, false, Option, none, some, if◌then◌else◌}
use sonotide.Error.{Error, VoidResult, done}
use sonotide.Session.{
  PlaybackStatus, loading, paused, EqualizerPort, eq_loading, eq_audio_engine_unavailable, eq_error,
  system_default, explicit_id, SessionOf, increase, is_empty, closed_session_result,
}
use sonotide.Session.Transport.{request_cancel}

module _ (port : EqualizerPort) where
  open port use {set_status, set_error_message}

  abbrev St : Type 0
  St = SessionOf port

  -- The section of `select_output_device` under the lock; the stream is reopened after it.
  unfoldable pub select_output_device : String → St → St × VoidResult
  select_output_device device_id s =
      if s.closed then (s, closed_session_result "playback_session::select_output_device") else (
        record (request_cancel port s) {
          config = record (s.config) {
            device = if is_empty device_id then system_default else explicit_id device_id;
          };
          pending_seek_ms = some s.state.position_ms;
          requested_seek_sequence = increase s.requested_seek_sequence;
          requested_seek_sequence_atomic = increase s.requested_seek_sequence;
          decoder_ready = false;
          reached_end_of_stream = false;
          equalizer = set_error_message "" (set_status eq_loading s.equalizer);
          state = record (s.state) {
            preferred_output_device_id = device_id;
            status =
                if is_empty s.requested_source_uri
                then s.state.status
                else if s.playback_intent_playing
                then loading
                else paused;
          };
        },
        done,
      )

  -- The callback of the stream for a fault of its device.
  unfoldable pub on_stream_error : Error → St → St
  on_stream_error stream_error s =
      if s.shutting_down
      then s
      else let lost : St = record s {
        state = record (s.state) {
          device_lost = true;
          active_output_device_id = "";
          active_output_device_name = "";
          active_output_device_is_default = false;
          error_message = stream_error.message;
          status = loading;
        };
        decoder_ready = false;
        reached_end_of_stream = false;
        equalizer =
            set_error_message stream_error.message
              (set_status eq_audio_engine_unavailable s.equalizer);
      } in
        if s.config.auto_recover_device_loss
        then record lost { recovery_requested = true }
        else record lost {
          playback_intent_playing = false;
          state = record (lost.state) { status = PlaybackStatus.error };
          equalizer = set_status eq_error lost.equalizer;
        }

  -- `recovery_loop`: the section that takes a request, and the one that follows a failed reopening.
  unfoldable pub take_recovery : St → St × Bool
  take_recovery s =
      if s.shutting_down
      then (s, false)
      else if s.recovery_requested
      then (record s { recovery_requested = false }, true)
      else (s, false)

  unfoldable pub recovery_failed : Error → St → St
  recovery_failed reopen_error s = if s.shutting_down then s else record s {
    playback_intent_playing = false;
    state = record (s.state) {
      status = PlaybackStatus.error;
      error_message = reopen_error.message;
    };
    equalizer = set_error_message reopen_error.message (set_status eq_error s.equalizer);
  }

  -- `refresh_active_output_device_state`, at the end of a successful opening of the stream: the
  -- device that the backend found, by its id, its name and whether it is a default one.
  unfoldable pub refresh_active_output_device : Option (String × String × Bool) → St → St
  refresh_active_output_device none s = s
  refresh_active_output_device (some (id, name, is_default)) s = record s {
    state = record (s.state) {
      active_output_device_id = id;
      active_output_device_name = name;
      active_output_device_is_default = is_default;
      device_lost = false;
    };
  }
