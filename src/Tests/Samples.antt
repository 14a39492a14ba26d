-- ===== src/Tests/Samples.antt =====
-- The values that the tests share.
use sonotide.Prelude.{ℕ, String, true, false, none, some, refl, replicate, arith}
use sonotide.Prelude.Int.{pos}
use sonotide.Error.{Error, ErrorCategory, ErrorCode, make_error}
use sonotide.Format.{float32, AudioFormat, FormatRequest}
use sonotide.Wave.{WaveSdk, popcount_bits}
use sonotide.Wave.RoundTrip.{IsWindows}
use sonotide.Session.{
  idle, EqualizerPort, EqualizerStatus, eq_ready, system_default, Session, SessionOf,
}

-- The numbers of the Windows headers.
abbrev pub windows : WaveSdk
windows = record { extension_bytes = 22; speaker_front_center = 4; speaker_stereo = 3 }

pub windows-IsWindows : IsWindows windows
unfolding popcount_bits
windows-IsWindows = record {
  small_extension = ground arith;
  one_speaker = refl;
  two_speakers = refl;
}

abbrev pub stereo : AudioFormat
stereo = record {
  sample = float32;
  sample_rate = 48_000;
  channel_count = 2;
  bits_per_sample = 32;
  valid_bits_per_sample = 32;
  channel_mask = 3;
  interleaved = true;
}

abbrev pub stereo_request : FormatRequest
stereo_request = record {
  preferred_sample = some float32;
  preferred_sample_rate = some 48_000;
  preferred_channel_count = some 2;
  interleaved = true;
  allow_mix_format_fallback = false;
}

abbrev pub a_fault : Error
a_fault = make_error ErrorCategory.stream ErrorCode.platform_failure "test" "The device is gone."

-- An equalizer that is its status, its message and its headroom.
pub record SmallEqualizer : Type 0 where
  pub status : EqualizerStatus
  pub message : String
  pub headroom : ℕ

abbrev pub small_port : EqualizerPort
small_port = record {
  Sample = ℕ;
  silence = 0;
  Equalizer = SmallEqualizer;
  Headroom = ℕ;
  status = λ e. e.status;
  headroom = λ e. e.headroom;
  set_status = λ x e. record e { status = x };
  set_error_message = λ m e. record e { message = m };
  set_headroom = λ h e. record e { headroom = h };
  target_preamp = λ rate e. rate;
  status-set_status = λ x e. refl;
  status-set_error_message = λ m e. refl;
  status-set_headroom = λ h e. refl;
}

abbrev pub fresh_session_of : {A E H : Type 0} → E → Session A E H
fresh_session_of equalizer = record {
  config = record {
    device = system_default;
    auto_recover_device_loss = true;
    auto_play_on_load = true;
  };
  state = record {
    status = idle;
    source_uri = "";
    error_message = "";
    preferred_output_device_id = "";
    active_output_device_id = "";
    active_output_device_name = "";
    position_ms = pos 0;
    duration_ms = pos 0;
    volume_percent = 100;
    completion_token = 0;
    negotiated_format = none;
    active_output_device_is_default = false;
    device_lost = false;
  };
  equalizer = equalizer;
  last_known_sample_rate = 0;
  negotiated_sample_rate = 0;
  playback_intent_playing = false;
  equalizer_control_version = 1;
  decoder_ready = false;
  recovery_requested = false;
  shutting_down = false;
  closed = false;
  reached_end_of_stream = false;
  decode_worker_finished = false;
  requested_source_generation = 0;
  requested_generation_atomic = 0;
  requested_seek_sequence = 0;
  requested_decoder_epoch = 0;
  requested_seek_sequence_atomic = 0;
  pending_seek_ms = none;
  requested_source_uri = "";
  requested_render_format = none;
  requested_frame_count = 0;
  pipeline_slots = replicate 3 none;
  decoded_pipeline = none;
  render_hazard = none;
  decoder_epoch = 0;
}

abbrev pub fresh_session : SessionOf small_port
fresh_session = fresh_session_of (record { status = eq_ready; message = ""; headroom = 0 })
