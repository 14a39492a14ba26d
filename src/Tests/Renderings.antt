-- ===== src/Tests/Renderings.antt =====
-- The render worker on a small endpoint.
use sonotide.Prelude.{ℕ, ◌≡◌, refl, Bool, true, false, List, [], ◌∷◌}
use sonotide.Prelude.Int.{ℤ, pos}
use sonotide.Error.{done}
use sonotide.Stream.{Handle, make_handle}
use sonotide.Stream.RenderLoop.{
  WaitResult, stop_event, audio_event, returned, RenderAnswer, Endpoint, get_buffer, release_buffer,
  stop_client, write_frames, write_round, render_loop,
}
use sonotide.Stream.Rendering.{IsRendered, render_loop-IsRendered}
use sonotide.Stream.RenderStart.{StartAnswers, IsReported, start_render, start_render-IsReported}
use sonotide.Timing.{checked_audio_byte_count}
use sonotide.Tests.Samples.{stereo}

abbrev never_lost : ℤ → Bool
never_lost code = false

abbrev endpoint : Endpoint
endpoint = record { buffer_frame_count = 480; block_align = 8 }

abbrev answer : WaitResult → ℕ → RenderAnswer
answer wait padding = record {
  wait = wait;
  padding_hr = pos 0;
  padding = padding;
  buffer_hr = pos 0;
  callback = returned done;
  release_hr = pos 0;
}

abbrev answers : List RenderAnswer
answers = answer audio_event 80 ∷ answer audio_event 480 ∷ answer stop_event 0 ∷ []

one_buffer :
    (render_loop never_lost endpoint (make_handle stereo) 0 answers).calls
    ≡ get_buffer 400 ∷ release_buffer 400 false ∷ stop_client ∷ []
unfolding render_loop write_round write_frames checked_audio_byte_count
one_buffer = refl

render_loop-IsRendered_example :
    IsRendered 480
      (make_handle stereo)
      0
      (render_loop never_lost endpoint (make_handle stereo) 0 answers)
render_loop-IsRendered_example =
    render_loop-IsRendered never_lost endpoint (make_handle stereo) 0 answers

abbrev start_answers : StartAnswers
start_answers = record {
  apartment = done;
  client = done;
  service_hr = pos 0;
  prefill_with_silence = true;
  buffer_frame_count = 480;
  buffer_hr = pos 0;
  release_hr = pos 0;
  start_hr = pos 0;
  public_format = stereo;
}

abbrev unchanged : Handle → Handle
unchanged h = h

start_render-IsReported_example :
    IsReported (start_render never_lost start_answers unchanged (make_handle stereo))
start_render-IsReported_example =
    start_render-IsReported never_lost start_answers unchanged (make_handle stereo)
