-- ===== src/Session/Render/Playback.antt =====
-- The whole render callback on a pipeline that holds a block.
use sonotide.Prelude.{
  ℕ, ◌*◌, ◌≡◌, ◌≢◌, ◌⊎◌, inl, inr, refl, ◌∙◌, true, false, ◌&&◌, none, some, List, length-set, ◌==◌,
  Bool-cases, if◌then◌else◌, arith,
}
use sonotide.AudioQueue.{DecodedMetadata}
use sonotide.AudioQueue.Contents.{Block}
use sonotide.AudioQueue.Refinement.{fit}
use sonotide.Session.{playing, idle, EqualizerPort, Payload, SessionOf, increase}
use sonotide.Session.Transport.Invariant.{IsCoherent}
use sonotide.Session.Render.{
  RenderBuffer, Snapshot, RenderOutcome, silent, plays, payload_at, on_render_begin,
  on_render_complete, on_render_end, on_render,
}
use sonotide.Session.Render.Taking.{
  still, IsWaiting, IsLeft, popped_payload, IsPopped, waiting-IsPopped, after_popped,
  processed_payload, after_processed, payload_at-set_payload, is_asked_for, take-plays, take-silent,
}

module _ (port : EqualizerPort) where
  open port use {Sample, silence, Headroom, headroom}

  abbrev St : Type 0
  St = SessionOf port

  -- The session shows the block that has been played: its position, or the end of the source.
  pub record IsShown (metadata : DecodedMetadata) (s t : St) : Type 0 where
    pub no_hazard : t.render_hazard ≡ none
    pub status : t.state.status ≡ (if metadata.end_of_stream then idle else playing)
    pub position :
        t.state.position_ms
        ≡ (if metadata.end_of_stream then metadata.duration_ms else metadata.position_ms)
    pub duration : t.state.duration_ms ≡ metadata.duration_ms
    pub intent : t.playback_intent_playing ≡ (if metadata.end_of_stream then false else true)
    pub completions : t.state.completion_token ≡ (
        if metadata.end_of_stream
        then increase s.state.completion_token
        else s.state.completion_token)

  -- The session shows what it showed before.
  pub record IsUnshown (s t : St) : Type 0 where
    pub no_hazard : t.render_hazard ≡ none
    pub status : t.state.status ≡ s.state.status
    pub position : t.state.position_ms ≡ s.state.position_ms
    pub duration : t.state.duration_ms ≡ s.state.duration_ms
    pub intent : t.playback_intent_playing ≡ s.playback_intent_playing
    pub completions : t.state.completion_token ≡ s.state.completion_token

  -- How a callback ends that finds a block: the block is played and shown when the session still asks
  -- for its source and its position, and dropped without a trace when not.
  unfoldable pub IsHandled :
      ℕ
      → RenderBuffer
      → ℕ
      → Block Sample
      → List (Block Sample)
      → St
      → RenderOutcome Sample St
      → Type 0
  IsHandled capacity buffer i block rest s r =
      ((block.metadata.generation ≡ s.requested_source_generation)
        × (block.metadata.seek_sequence ≡ s.requested_seek_sequence)
        × (t : St) × (r
            ≡ plays i (fit silence (buffer.frame_count * buffer.format.channel_count) block.samples)
                block.metadata t)
        × IsLeft port capacity i rest t
        × IsShown block.metadata s t)
      ⊎ (((block.metadata.generation ≢ s.requested_source_generation)
            ⊎ (block.metadata.seek_sequence ≢ s.requested_seek_sequence))
          × (t : St) × (r ≡ silent t)
          × IsLeft port capacity i rest t
          × IsUnshown s t)

  module _ (capacity : ℕ) (buffer : RenderBuffer) (i : ℕ) (payload : Payload Sample Headroom)
      (block : Block Sample) (rest : List (Block Sample)) (s : St) (coherent : IsCoherent port s)
      (running : s.shutting_down ≡ false) (playing_on : s.playback_intent_playing ≡ true)
      (w : IsWaiting port capacity buffer i payload block rest s) where
    abbrev begun : St
    begun = (on_render_begin port true buffer s).0

    -- The local variables of the callback.
    abbrev locals : Snapshot Headroom
    locals = record {
      buffer = buffer;
      should_play = true;
      pipeline = some i;
      equalizer_headroom = headroom s.equalizer;
      equalizer_control_version = s.equalizer_control_version;
    }

    begins : on_render_begin port true buffer s ≡ (begun, some locals)
    unfolding on_render_begin
    begins = simp (running, playing_on, coherent.intent_has_source playing_on, w.published)

    begun-IsWaiting : IsWaiting port capacity buffer i payload block rest begun
    unfolding on_render_begin
    begun-IsWaiting = rw running (record {
      published = w.published;
      within = w.within;
      held = w.held;
      sized = w.sized;
      formatted = w.formatted;
      ring = w.ring;
      front = w.front;
    })

    abbrev shown_payload : Payload Sample Headroom
    shown_payload = processed_payload port capacity buffer i payload block rest locals

    -- The session before the completion, and after it.
    abbrev processed : St
    processed = after_processed port capacity buffer i payload block rest locals begun

    abbrev finished : St
    finished =
        on_render_end port (on_render_complete port true block.metadata shown_payload processed)

    processed-held : payload_at port processed i ≡ some shown_payload
    unfolding on_render_begin
    processed-held =
        payload_at-set_payload port capacity buffer i payload block rest shown_payload
          (after_popped port capacity buffer i payload block rest begun)
          (ground (
            arith,
            begun-IsWaiting.within,
            length-set begun.pipeline_slots i
                (some (popped_payload port capacity buffer i payload block rest)),
          ))

    shown_payload-queue :
        shown_payload.queue ≡ (popped_payload port capacity buffer i payload block rest).queue
    shown_payload-queue = ground arith

    -- What the callback compares a block with is what the session asks for.
    begun-asks : is_asked_for port capacity buffer i payload block rest block.metadata begun ≡ (
        block.metadata.generation == s.requested_source_generation
        && block.metadata.seek_sequence == s.requested_seek_sequence)
    unfolding on_render_begin
    begun-asks = rw (running, coherent.generation_mirrored, coherent.seek_mirrored) refl

    popped-front : IsPopped port capacity buffer i payload block rest
    popped-front = waiting-IsPopped port capacity buffer i payload block rest s w

    asked-plays :
        block.metadata.generation ≡ s.requested_source_generation
        → block.metadata.seek_sequence ≡ s.requested_seek_sequence
        → on_render port (still port) true true buffer s
          ≡ plays i
              (fit silence (buffer.frame_count * buffer.format.channel_count) block.samples)
              block.metadata
              finished
    unfolding on_render
    asked-plays g q =
        let taken =
          take-plays port capacity buffer i payload block rest locals begun begun-IsWaiting
            popped-front refl refl refl (ground (arith, begun-asks, g, q)) in
        simp (begins, taken, processed-held)

    finished-IsLeft : IsLeft port capacity i rest finished
    unfolding on_render_end on_render_complete
    finished-IsLeft = record {
      payload = shown_payload;
      held = ground (arith, processed-held);
      ring = rw shown_payload-queue popped-front.ring;
      left = rw shown_payload-queue popped-front.left;
    }

    finished-IsShown :
        block.metadata.generation ≡ s.requested_source_generation
        → block.metadata.seek_sequence ≡ s.requested_seek_sequence
        → IsShown block.metadata s finished
    unfolding on_render_end on_render_complete on_render_begin
    finished-IsShown g q = record {
      no_hazard = refl;
      status = ground (arith, running, g, q);
      position = ground (arith, running, g, q);
      duration = ground (arith, running, g, q);
      intent = ground (arith, running, g, q, playing_on);
      completions = ground (arith, running, g, q);
    }

    abbrev dropped : St
    dropped = on_render_end port (after_popped port capacity buffer i payload block rest begun)

    stale-silent :
        (block.metadata.generation == s.requested_source_generation
            && block.metadata.seek_sequence == s.requested_seek_sequence)
          ≡ false
        → on_render port (still port) true true buffer s ≡ silent dropped
    unfolding on_render
    stale-silent stale =
        let taken =
          take-silent port capacity buffer i payload block rest locals begun begun-IsWaiting
            popped-front refl refl refl (begun-asks ∙ stale) in
        simp (begins, taken)

    dropped-IsLeft : IsLeft port capacity i rest dropped
    unfolding on_render_end
    dropped-IsLeft = record {
      payload = popped_payload port capacity buffer i payload block rest;
      held =
          payload_at-set_payload port capacity buffer i payload block rest
            (popped_payload port capacity buffer i payload block rest) begun begun-IsWaiting.within;
      ring = popped-front.ring;
      left = popped-front.left;
    }

    dropped-IsUnshown : IsUnshown s dropped
    unfolding on_render_end on_render_begin
    dropped-IsUnshown = record {
      no_hazard = refl;
      status = ground (arith, running);
      position = ground (arith, running);
      duration = ground (arith, running);
      intent = ground (arith, running);
      completions = ground (arith, running);
    }

    -- A callback that gets the lock at its start and its end, with nothing between its steps, on a
    -- coherent session that is running and means to play, and whose published slot holds a payload
    -- that fits the buffer, takes the front block of the queue. When the session still asks for the
    -- source and the position of this block, the buffer gets the block, cut or filled with silence,
    -- and the session shows its position as playing, or, after the last block, stops at the end of
    -- the source and counts the completion. When not, the block is dropped: the buffer stays
    -- silent, and status, position, intent and completions are as before. In both cases the queue
    -- keeps the other blocks, and the hazard pointer is cleared.
    pub on_render-IsHandled :
        IsHandled capacity buffer i block rest s (on_render port (still port) true true buffer s)
    unfolding IsHandled
    on_render-IsHandled =
        elim (Bool-cases (
          block.metadata.generation == s.requested_source_generation
          && block.metadata.seek_sequence == s.requested_seek_sequence)) [
            | inl asked ↦
                let g : block.metadata.generation ≡ s.requested_source_generation =
                  ground (arith, asked) in
                let q : block.metadata.seek_sequence ≡ s.requested_seek_sequence =
                  ground (arith, asked) in
                inl (g, q, finished, asked-plays g q, finished-IsLeft, finished-IsShown g q)
            | inr stale ↦ inr (
              ground (arith, stale),
              dropped,
              stale-silent stale,
              dropped-IsLeft,
              dropped-IsUnshown,
            )
          ]
