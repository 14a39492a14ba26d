-- ===== src/Tests/Renders.antt =====
-- The render callback of a playback session.
use sonotide.Prelude.{ℕ, ◌≡◌, refl, ap, true, false, none, some, [], ◌∷◌, arith}
use sonotide.Prelude.Int.{pos}
use sonotide.AudioQueue.{DecodedMetadata, make_queue, try_push}
use sonotide.Format.{formats_match}
use sonotide.Session.{playing, paused, Payload, SessionOf}
use sonotide.Session.Transport.{load, pause}
use sonotide.Session.Transport.Invariant.{loads, call, IsCoherent, call-IsCoherent}
use sonotide.AudioQueue.Contents.{Block}
use sonotide.AudioQueue.Ring.{IsRing, contents, make_queue-IsRing}
use sonotide.AudioQueue.Refinement.{try_push-fifo_push}
use sonotide.Session.Render.{RenderBuffer, on_render, on_render_complete}
use sonotide.Session.Render.Taking.{still, IsWaiting}
use sonotide.Session.Render.Playback.{IsHandled, on_render-IsHandled}
use sonotide.Session.Render.Heard.{IsHeard, on_render-IsHeard}
use sonotide.Session.Worker.{Command, DecodedBlock, initial_worker, decode_command_is_current}
use sonotide.Session.Worker.Round.{continues}
use sonotide.Session.Worker.Delivery.{IsDelivered}
use sonotide.Session.Render.Races.{on_render_complete-pause}
use sonotide.Session.Worker.Slots.{fresh_payload}
use sonotide.Tests.Samples.{stereo, small_port, fresh_session}

abbrev loaded : SessionOf small_port
loaded = call small_port (loads "song.flac") fresh_session

abbrev short_buffer : RenderBuffer
short_buffer = record { format = stereo; frame_count = 1 }

abbrev metadata : DecodedMetadata
metadata = record {
  generation = 1;
  seek_sequence = 0;
  position_ms = pos 10;
  duration_ms = pos 10;
  end_of_stream = true;
}

-- A pipeline for the buffer, into which the worker has pushed the block.
abbrev waiting_block : Block ℕ
waiting_block = record { samples = 4 ∷ 5 ∷ []; metadata = metadata }

abbrev waiting_payload : Payload ℕ ℕ
waiting_payload = record (fresh_payload small_port stereo 1) {
  queue = (try_push 0 (make_queue 0 4 2) (4 ∷ 5 ∷ []) metadata).1;
}

-- The loaded session, with the pipeline published in slot 0.
abbrev waiting : SessionOf small_port
waiting = record loaded {
  decoder_ready = true;
  decoded_pipeline = some 0;
  pipeline_slots = some waiting_payload ∷ none ∷ none ∷ [];
}

fresh_session-IsCoherent : IsCoherent small_port fresh_session
fresh_session-IsCoherent = ground arith

loaded-IsCoherent : IsCoherent small_port loaded
loaded-IsCoherent =
    call-IsCoherent small_port (loads "song.flac") fresh_session fresh_session-IsCoherent

abbrev short_payload : Payload ℕ ℕ
short_payload = fresh_payload small_port stereo 1

waiting-IsCoherent : IsCoherent small_port waiting
waiting-IsCoherent = ground (arith, loaded-IsCoherent)

-- The queue of the pipeline is a ring with just the block.
waiting-IsRing :
    IsRing 0 4 2 waiting_payload.queue × (contents 0 waiting_payload.queue ≡ waiting_block ∷ [])
waiting-IsRing =
    let (ring, pushed) =
      try_push-fifo_push {A = ℕ} 0 4 2 (make_queue 0 4 2) (4 ∷ 5 ∷ []) metadata
        (make_queue-IsRing {A = ℕ} 0 4 2).0 in
    let empty = (make_queue-IsRing {A = ℕ} 0 4 2).1 in (ring, ap (λ p. p.1) (rw empty at pushed))

waiting_payload-IsWaiting :
    IsWaiting small_port 2 short_buffer 0 waiting_payload waiting_block [] waiting
unfolding formats_match
waiting_payload-IsWaiting = record {
  published = refl;
  within = omega arith;
  held = refl;
  sized = refl;
  formatted = refl;
  ring = waiting-IsRing.0;
  front = waiting-IsRing.1;
}

-- The command and the block of a round that leaves this session.
abbrev short_command : Command
short_command = record {
  source_uri = "song.flac";
  format = stereo;
  frame_count = 1;
  generation = 1;
  seek_sequence = 0;
  decoder_epoch = 1;
  seek_position = none;
  pipeline = none;
}

abbrev last_block : DecodedBlock ℕ
last_block = record {
  samples = 4 ∷ 5 ∷ [];
  position_ms = pos 10;
  duration_ms = pos 10;
  end_of_stream = true;
}

abbrev waiting_delivery :
    IsDelivered small_port short_command last_block (continues waiting initial_worker)
waiting_delivery = record {
  slot = 0;
  payload = waiting_payload;
  session = waiting;
  worker = initial_worker;
  goes_on = refl;
  queued = record {
    published = refl;
    within = omega arith;
    held = refl;
    of_format = refl;
    of_size = refl;
    ring = waiting-IsRing.0;
    one_block = waiting-IsRing.1;
  };
  is_ready = refl;
}

on_render-IsHeard_example :
    IsHeard small_port short_command last_block 0 waiting
      (on_render small_port (still small_port) true true short_buffer waiting)
unfolding call load decode_command_is_current
on_render-IsHeard_example =
    on_render-IsHeard small_port short_command last_block (continues waiting initial_worker)
      waiting_delivery waiting-IsCoherent refl refl

on_render-IsHandled_example :
    IsHandled small_port 2 short_buffer 0 waiting_block [] waiting
      (on_render small_port (still small_port) true true short_buffer waiting)
unfolding call load
on_render-IsHandled_example =
    on_render-IsHandled small_port 2 short_buffer 0 waiting_payload waiting_block [] waiting
      waiting-IsCoherent refl refl waiting_payload-IsWaiting

abbrev middle : DecodedMetadata
middle = record metadata { end_of_stream = false }

on_render_complete-pause_example :
    let paused_session = (pause small_port loaded).0 in
    let t = on_render_complete small_port true middle short_payload paused_session in
    (paused_session.state.status ≡ paused)
    × (t.state.status ≡ playing)
    × (t.playback_intent_playing ≡ false)
unfolding call load
on_render_complete-pause_example =
    on_render_complete-pause small_port middle short_payload loaded refl refl refl refl refl refl
