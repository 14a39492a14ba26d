-- ===== src/Tests/Captures.antt =====
-- The capture worker when the callback fails.
use sonotide.Prelude.{◌≡◌, refl, Bool, true, false, List, [], ◌∷◌}
use sonotide.Prelude.Int.{ℤ, pos}
use sonotide.Error.{done}
use sonotide.Lifecycle.{faulted}
use sonotide.Stream.{make_handle}
use sonotide.Stream.Worker.{record_runtime_error, count_callback}
use sonotide.Stream.RenderLoop.{
  audio_event, CallbackEnd, returned, threw_unknown, get_buffer, release_buffer,
}
use sonotide.Stream.CaptureLoop.{
  Packet, CaptureAnswer, CaptureEndpoint, capture_loop, capture_packets,
}
use sonotide.Stream.Capturing.{is_paired, leaves, capture_loop-leaves}
use sonotide.Timing.{checked_audio_byte_count}
use sonotide.Tests.Samples.{stereo}

abbrev never_lost : ℤ → Bool
never_lost code = false

abbrev endpoint : CaptureEndpoint
endpoint = record { block_align = 8; silent_bytes = 3_840; deliver_silence_on_glitch = true }

abbrev packet : CallbackEnd → Packet
packet callback = record {
  buffer_hr = pos 0;
  frames = 480;
  is_silent = false;
  is_discontinuous = false;
  callback = callback;
  release_hr = pos 0;
  next_hr = pos 0;
  next_frames = 0;
}

abbrev answer : CallbackEnd → CaptureAnswer
answer callback = record {
  wait = audio_event;
  size_hr = pos 0;
  packet_frames = 480;
  packets = packet callback ∷ [];
}

-- The callback throws, and is called again.
abbrev answers : List CaptureAnswer
answers = answer threw_unknown ∷ answer (returned done) ∷ []

called_again :
    (capture_loop never_lost endpoint (make_handle stereo) answers).calls
    ≡ get_buffer 480 ∷ release_buffer 480 false ∷ get_buffer 480 ∷ release_buffer 480 false ∷ []
unfolding capture_loop capture_packets checked_audio_byte_count
called_again = refl

stays_faulted :
    (capture_loop never_lost endpoint (make_handle stereo) answers).handle.status.state ≡ faulted
unfolding capture_loop capture_packets checked_audio_byte_count record_runtime_error count_callback
    make_handle
stays_faulted = refl

answers-leaves : leaves answers ≡ false
unfolding leaves
answers-leaves = refl

capture_loop-leaves_example :
    (is_paired (capture_loop never_lost endpoint (make_handle stereo) answers).calls ≡ true)
    × ((capture_loop never_lost endpoint (make_handle stereo) answers).left ≡ false)
capture_loop-leaves_example =
    capture_loop-leaves never_lost endpoint (make_handle stereo) answers answers-leaves
