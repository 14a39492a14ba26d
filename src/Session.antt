-- ===== src/Session.antt =====
-- playback_session.cpp and include/sonotide/playback_state.h: the state of one playback session.
-- Each section of the code that runs under `mutex_` is one function here, from the state before to
-- the state after; the children hold the public calls, the render callback and the decode worker.
pub mod Transport
pub mod Render
pub mod Worker
use sonotide.Prelude.{
  ℕ, suc, ◌+◌, String, Bool, true, false, Option, none, some, List, ◌≡◌, if◌then◌else◌,
}
use sonotide.Prelude.Int.{ℤ, pos}
use sonotide.Error.{ErrorCategory, ErrorCode, make_error, VoidResult, failure}
use sonotide.Format.{AudioFormat}
use sonotide.Timing.{u64}
use sonotide.AudioQueue.{DecodedAudioQueue}

pub data PlaybackStatus : Type 0 where
  idle loading playing paused error : PlaybackStatus

pub record PlaybackState : Type 0 where
  pub status : PlaybackStatus
  pub source_uri : String
  pub error_message : String
  pub preferred_output_device_id : String
  pub active_output_device_id : String
  pub active_output_device_name : String
  pub position_ms : ℤ
  pub duration_ms : ℤ
  pub volume_percent : ℕ
  pub completion_token : ℕ
  pub negotiated_format : Option AudioFormat
  pub active_output_device_is_default : Bool
  pub device_lost : Bool

pub data EqualizerStatus : Type 0 where
  eq_loading eq_ready eq_unsupported_audio_path eq_audio_engine_unavailable eq_error :
      EqualizerStatus

-- What the transport needs of the rest: the type of a sample with its silence, and the equalizer
-- state with its status and message, the headroom that the
-- render callback carries back, and `recompute_equalizer_metadata_locked` at a sample rate. The
-- laws say which of these a recomputation may change.
pub record EqualizerPort : Type 1 where
  pub Sample : Type 0
  pub silence : Sample
  pub Equalizer : Type 0
  pub Headroom : Type 0
  pub status : Equalizer → EqualizerStatus
  pub headroom : Equalizer → Headroom
  pub set_status : EqualizerStatus → Equalizer → Equalizer
  pub set_error_message : String → Equalizer → Equalizer
  pub set_headroom : Headroom → Equalizer → Equalizer
  pub target_preamp : ℕ → Equalizer → Headroom
  pub status-set_status : (x : EqualizerStatus) (e : Equalizer) → status (set_status x e) ≡ x
  pub status-set_error_message :
      (m : String) (e : Equalizer) → status (set_error_message m e) ≡ status e
  pub status-set_headroom : (h : Headroom) (e : Equalizer) → status (set_headroom h e) ≡ status e

-- `device_selector`, for a render endpoint.
pub data DeviceSelector : Type 0 where
  system_default : DeviceSelector
  explicit_id : String → DeviceSelector

pub record SessionConfig : Type 0 where
  pub device : DeviceSelector
  pub auto_recover_device_loss : Bool
  pub auto_play_on_load : Bool

-- `decoded_pipeline_payload`. The equalizer chain is represented by the headroom that was last
-- set in it; `none` is the initial `applied_equalizer_control_version_`, which no version equals.
pub record Payload (A H : Type 0) : Type 0 where
  pub queue : DecodedAudioQueue A
  pub format : AudioFormat
  pub frame_count : ℕ
  pub applied_equalizer_control_version : Option ℕ
  pub chain_headroom : Option H

-- The members of `playback_session::implementation` that `mutex_` and the atomics guard. A sample
-- rate is kept as the integer whose float the code stores. Pipeline pointers are indices of
-- `pipeline_slots`.
pub record Session (A Equalizer Headroom : Type 0) : Type 0 where
  pub config : SessionConfig
  pub state : PlaybackState
  pub equalizer : Equalizer
  pub last_known_sample_rate : ℕ
  pub negotiated_sample_rate : ℕ
  pub playback_intent_playing : Bool
  pub equalizer_control_version : ℕ
  pub decoder_ready : Bool
  pub recovery_requested : Bool
  pub shutting_down : Bool
  pub closed : Bool
  pub reached_end_of_stream : Bool
  pub decode_worker_finished : Bool
  pub requested_source_generation : ℕ
  pub requested_generation_atomic : ℕ
  pub requested_seek_sequence : ℕ
  pub requested_decoder_epoch : ℕ
  pub requested_seek_sequence_atomic : ℕ
  pub pending_seek_ms : Option ℤ
  pub requested_source_uri : String
  pub requested_render_format : Option AudioFormat
  pub requested_frame_count : ℕ
  pub pipeline_slots : List (Option (Payload A Headroom))
  pub decoded_pipeline : Option ℕ
  pub render_hazard : Option ℕ
  pub decoder_epoch : ℕ

abbrev pub SessionOf : EqualizerPort → Type 0
SessionOf port = Session port.Sample port.Equalizer port.Headroom

-- `++x` on a 64-bit counter.
abbrev pub increase : ℕ → ℕ
increase x = u64 (x + 1)

-- `std::string::empty`.
abbrev pub is_empty : String → Bool
is_empty String.[] = true
is_empty (String.◌∷◌ c s) = false

abbrev pub closed_session_result : String → VoidResult
closed_session_result operation = failure (
    make_error ErrorCategory.stream ErrorCode.invalid_state operation "Playback session is closed.")

abbrev keeps_status : EqualizerStatus → Bool
keeps_status eq_audio_engine_unavailable = true
keeps_status eq_unsupported_audio_path = true
keeps_status _ = false

module _ (port : EqualizerPort) where
  open port use {status, set_status, set_error_message, set_headroom, target_preamp}

  -- `recompute_equalizer_metadata_locked`.
  unfoldable pub recompute_equalizer_metadata : ℕ → SessionOf port → SessionOf port
  recompute_equalizer_metadata sample_rate s =
      let computed = set_headroom (target_preamp sample_rate s.equalizer) s.equalizer in
      record s {
        equalizer =
            if keeps_status (status computed)
            then computed
            else set_error_message "" (set_status eq_ready computed);
        equalizer_control_version = increase s.equalizer_control_version;
      }
