-- ===== src/Session/Render/Races.antt =====
-- The completion of the render callback, between two calls of other threads.
use sonotide.Prelude.{◌⊎◌, ◌≢◌, ◌≡◌, Bool, true, false, arith}
use sonotide.AudioQueue.{DecodedMetadata}
use sonotide.Session.{idle, playing, paused, EqualizerPort, Payload, SessionOf, increase, is_empty}
use sonotide.Session.Transport.{pause}
use sonotide.Session.Render.{on_render_complete}

module _ (port : EqualizerPort) where
  open port use {Sample, Headroom}

  -- A callback that has taken a block and then finds the session paused shows it as playing: the
  -- completion of a block that is not the last, on a session that is open, has a source and asks
  -- for the source and position of the block, leaves the status `playing`, although the
  -- session no longer means to play.
  pub on_render_complete-pause :
      (metadata : DecodedMetadata) (payload : Payload Sample Headroom) (s : SessionOf port)
      → s.closed ≡ false
      → s.shutting_down ≡ false
      → is_empty s.requested_source_uri ≡ false
      → metadata.generation ≡ s.requested_source_generation
      → metadata.seek_sequence ≡ s.requested_seek_sequence
      → metadata.end_of_stream ≡ false
      → let paused_session = (pause port s).0 in
        let t = on_render_complete port true metadata payload paused_session in
        (paused_session.state.status ≡ paused)
        × (t.state.status ≡ playing)
        × (t.playback_intent_playing ≡ false)
  unfolding pause on_render_complete
  on_render_complete-pause metadata payload s c d u g q e =
      (ground arith, ground arith, ground arith)

  -- The completion changes nothing when it does not get the lock, or the session is shutting
  -- down, or another source or position has been asked for; after the last block of a source it
  -- stops the session at the end, and counts the completion; after any other block it shows the
  -- position of the block.
  pub on_render_complete_cases :
      (owns_lock : Bool) (metadata : DecodedMetadata) (payload : Payload Sample Headroom)
      (s : SessionOf port)
      → let t = on_render_complete port owns_lock metadata payload s in
        (((owns_lock ≡ false)
            ⊎ (s.shutting_down ≡ true)
            ⊎ (metadata.generation ≢ s.requested_source_generation)
            ⊎ (metadata.seek_sequence ≢ s.requested_seek_sequence))
          × (t ≡ s))
        ⊎ ((metadata.generation ≡ s.requested_source_generation)
            × (metadata.seek_sequence ≡ s.requested_seek_sequence)
            × (((metadata.end_of_stream ≡ true)
                  × (t.state.status ≡ idle)
                  × (t.playback_intent_playing ≡ false)
                  × (t.reached_end_of_stream ≡ true)
                  × (t.state.position_ms ≡ metadata.duration_ms)
                  × (t.state.completion_token ≡ increase s.state.completion_token))
                ⊎ ((metadata.end_of_stream ≡ false)
                    × (t.state.status ≡ playing)
                    × (t.playback_intent_playing ≡ s.playback_intent_playing)
                    × (t.reached_end_of_stream ≡ s.reached_end_of_stream)
                    × (t.state.position_ms ≡ metadata.position_ms)
                    × (t.state.completion_token ≡ s.state.completion_token))))
  unfolding on_render_complete
  on_render_complete_cases owns_lock metadata payload s = ground arith
