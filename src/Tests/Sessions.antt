-- ===== src/Tests/Sessions.antt =====
-- The transport and the decode worker of a playback session.
use sonotide.Prelude.{
  ℕ, ◌≡◌, refl, String, Bool, true, Option, none, some, ◌==◌, if◌then◌else◌, arith,
}
use sonotide.Prelude.Int.{pos}
use sonotide.Session.{SessionOf, recompute_equalizer_metadata}
use sonotide.Session.Transport.{load, play, pause, seek_to, set_volume_percent, begin_close}
use sonotide.Session.Transport.Device.{select_output_device, on_stream_error}
use sonotide.Session.Transport.Invariant.{
  loads, seeks, takes_recovery, refreshes_device, call, IsCoherent, call-IsCoherent,
}
use sonotide.Session.Transport.Closed.{Refuses, begin_close-Refuses}
use sonotide.Session.Transport.Recovery.{
  IsUnavailable, here, then_call, then_recompute, takes_recovery_routine, refreshes_device_routine,
  on_stream_error-IsUnavailable,
}
use sonotide.Session.Worker.{
  command_in, Command, decode_command_is_current, next_command, initial_worker, slot_payload,
}
use sonotide.Session.Worker.Slots.{fresh_payload, prepare_pipeline_slot}
use sonotide.Session.Render.{on_render_begin}
use sonotide.Session.Worker.Currency.{IsIgnored, SameRequest, superseded-IsIgnored}
use sonotide.Session.Worker.Currency
use sonotide.Session.Worker.Pipelines.{IsFree, prepare_pipeline_slot-fresh}
use sonotide.Tests.Samples.{stereo, a_fault, small_port, fresh_session}

abbrev loaded : SessionOf small_port
loaded = call small_port (loads "song.flac") fresh_session

fresh_session-IsCoherent : IsCoherent small_port fresh_session
fresh_session-IsCoherent = ground arith

loaded-IsCoherent : IsCoherent small_port loaded
loaded-IsCoherent =
    call-IsCoherent small_port (loads "song.flac") fresh_session fresh_session-IsCoherent

call-IsCoherent_example : IsCoherent small_port (call small_port (seeks (pos 900)) loaded)
call-IsCoherent_example = call-IsCoherent small_port (seeks (pos 900)) loaded loaded-IsCoherent

-- The command that asks for the loaded source.
abbrev open_command : Command
open_command = record {
  source_uri = "song.flac";
  format = stereo;
  frame_count = 480;
  generation = 1;
  seek_sequence = 0;
  decoder_epoch = 1;
  seek_position = none;
  pipeline = none;
}

-- The render callback has run after another source has been loaded.
abbrev later : SessionOf small_port
later =
    (on_render_begin small_port true (record { format = stereo; frame_count = 480 })
      (load small_port "other.flac" loaded).0).0

later-SameRequest : SameRequest small_port (load small_port "other.flac" loaded).0 later
unfolding on_render_begin call load
later-SameRequest = record {
  generation = refl;
  seek_sequence = refl;
  decoder_epoch = refl;
  shutting_down = refl;
}

superseded-IsIgnored_example : IsIgnored small_port open_command later
unfolding call load decode_command_is_current
superseded-IsIgnored_example =
    superseded-IsIgnored small_port open_command (Currency.loads "other.flac") loaded later refl
      refl refl later-SameRequest

prepare_pipeline_slot-fresh_example :
    let prepared = prepare_pipeline_slot small_port open_command loaded in
    (i : ℕ) × (prepared.1 ≡ some i)
    × IsFree loaded.decoded_pipeline loaded.render_hazard i
    × (slot_payload small_port prepared.0 2 ≡ (
        if 2 == i
        then some (fresh_payload small_port stereo 480)
        else slot_payload small_port loaded 2))
unfolding call load
prepare_pipeline_slot-fresh_example =
    prepare_pipeline_slot-fresh small_port open_command loaded 2 refl

begin_close-Refuses_example :
    let t = begin_close small_port loaded in
    Refuses small_port (load small_port "other.flac" t) t "playback_session::load"
    × Refuses small_port (play small_port t) t "playback_session::play"
    × Refuses small_port (pause small_port t) t "playback_session::pause"
    × Refuses small_port (seek_to small_port (pos 5) t) t "playback_session::seek_to"
    × Refuses small_port
        (set_volume_percent small_port (pos 50) t)
        t
        "playback_session::set_volume_percent"
    × Refuses small_port
        (select_output_device small_port "usb" t)
        t
        "playback_session::select_output_device"
    × (begin_close small_port t ≡ t)
begin_close-Refuses_example =
    begin_close-Refuses small_port loaded "other.flac" "usb" (pos 5) (pos 50) refl

abbrev lost : SessionOf small_port
lost = on_stream_error small_port a_fault loaded

abbrev found : Option (String × String × Bool)
found = some ("usb", "Headset", true)

-- The lost device is found again, and a pipeline is published.
abbrev recovered : SessionOf small_port
recovered =
    recompute_equalizer_metadata small_port 48_000
      (call small_port (refreshes_device found) (call small_port takes_recovery lost))

on_stream_error-IsUnavailable_example : IsUnavailable small_port recovered
unfolding call load
on_stream_error-IsUnavailable_example =
    on_stream_error-IsUnavailable small_port a_fault loaded recovered refl refl (
      then_recompute 48_000 (
        then_call (refreshes_device found) refreshes_device_routine
          (then_call takes_recovery takes_recovery_routine here)))

-- A volume above the range is cut to it.
set_volume_percent-high :
    (set_volume_percent small_port (pos 250) loaded).0.state.volume_percent ≡ 100
unfolding call load set_volume_percent
set_volume_percent-high = refl

-- The worker takes up nothing before the callback has told it the format.
next_command-waits : next_command small_port initial_worker loaded ≡ none
unfolding call load next_command command_in
next_command-waits = refl
