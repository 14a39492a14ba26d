-- ===== src/Session/Render/Taking.antt =====
-- What the render callback does without the lock, on a pipeline that holds a block.
use sonotide.Prelude.{
  ℕ, ◌*◌, ◌<◌, ◌≡◌, inl, inr, ap, Bool, true, false, ◌&&◌, some, join, List, ◌∷◌, length,
  get_elem?-set_self, replicate, length-replicate, ◌==◌, ◌!=◌, Bool-cases, arith,
}
use sonotide.Format.{formats_match}
use sonotide.AudioQueue.{DecodedMetadata, no_metadata, Popped, try_pop}
use sonotide.AudioQueue.Ring.{IsRing, contents}
use sonotide.AudioQueue.Contents.{Block}
use sonotide.AudioQueue.Refinement.{fit, try_pop-fifo_pop}
use sonotide.Session.{EqualizerPort, Payload, SessionOf}
use sonotide.Session.Render.{
  RenderBuffer, Snapshot, silent, plays, payload_at, set_payload, apply_controls,
  check_seek_sequence, check_generation, pop_block, check_payload, on_render_take,
}

module _ (port : EqualizerPort) where
  open port use {Sample, silence, Headroom, headroom}

  abbrev St : Type 0
  St = SessionOf port

  -- Nothing happens between the steps of the callback.
  abbrev pub still : ℕ → St → St
  still k s = s

  -- Slot `i` holds a payload that fits the buffer, and whose queue begins with a block.
  pub record IsWaiting (capacity : ℕ) (buffer : RenderBuffer) (i : ℕ)
      (payload : Payload Sample Headroom) (block : Block Sample) (rest : List (Block Sample))
      (s : St) : Type 0 where
    pub published : s.decoded_pipeline ≡ some i
    pub within : i < length s.pipeline_slots
    pub held : payload_at port s i ≡ some payload
    pub sized : payload.frame_count ≡ buffer.frame_count
    pub formatted : formats_match payload.format buffer.format ≡ true
    pub ring : IsRing silence 4 capacity payload.queue
    pub front : contents silence payload.queue ≡ block ∷ rest

  -- Slot `i` still holds a payload, and its queue holds just these blocks.
  pub record IsLeft (capacity : ℕ) (i : ℕ) (rest : List (Block Sample)) (t : St) : Type 0 where
    pub payload : Payload Sample Headroom
    pub held : payload_at port t i ≡ some payload
    pub ring : IsRing silence 4 capacity payload.queue
    pub left : contents silence payload.queue ≡ rest

  module _ (capacity : ℕ) (buffer : RenderBuffer) (i : ℕ) (payload : Payload Sample Headroom)
      (block : Block Sample) (rest : List (Block Sample)) where
    abbrev pub size : ℕ
    size = buffer.frame_count * buffer.format.channel_count

    abbrev pub popped : Popped Sample
    popped = try_pop silence payload.queue (replicate size silence) no_metadata

    abbrev pub popped_payload : Payload Sample Headroom
    popped_payload = record payload { queue = popped.queue }

    -- The front block leaves the queue, cut or filled to the buffer.
    pub record IsPopped : Type 0 where
      pub taken : popped.taken ≡ true
      pub samples : popped.destination ≡ fit silence size block.samples
      pub metadata : popped.metadata ≡ block.metadata
      pub ring : IsRing silence 4 capacity popped.queue
      pub left : contents silence popped.queue ≡ rest

    pub waiting-IsPopped : (s : St) → IsWaiting capacity buffer i payload block rest s → IsPopped
    waiting-IsPopped s w =
        let (ring, popped_front) =
          try_pop-fifo_pop silence 4 capacity payload.queue (replicate size silence) no_metadata
            w.ring in
        let e = rw (w.front, length-replicate size silence) at popped_front in
        record {
          taken = ap (λ p. p.0) e;
          samples = ap (λ p. p.1) e;
          metadata = ap (λ p. p.2) e;
          ring = ring;
          left = ap (λ p. p.3) e;
        }

    -- The slots after the pop, and after the processing.
    abbrev pub after_popped : St → St
    after_popped s = set_payload port i popped_payload s

    abbrev pub processed_payload : Snapshot Headroom → Payload Sample Headroom
    processed_payload snapshot = apply_controls port snapshot popped_payload

    abbrev pub after_processed : Snapshot Headroom → St → St
    after_processed snapshot s = set_payload port i (processed_payload snapshot) (after_popped s)

    pub payload_at-set_payload :
        (q : Payload Sample Headroom) (s : St)
        → i < length s.pipeline_slots
        → payload_at port (set_payload port i q s) i ≡ some q
    payload_at-set_payload q s within =
        ap join (get_elem?-set_self s.pipeline_slots i (some q) within)

    abbrev pub is_asked_for : DecodedMetadata → St → Bool
    is_asked_for metadata s =
        metadata.generation == s.requested_generation_atomic
        && metadata.seek_sequence == s.requested_seek_sequence_atomic

    module _ (snapshot : Snapshot Headroom) (s : St)
        (w : IsWaiting capacity buffer i payload block rest s) (p : IsPopped)
        (same_buffer : snapshot.buffer ≡ buffer) (through : snapshot.pipeline ≡ some i)
        (intended : snapshot.should_play ≡ true) where
      pub take-plays :
          is_asked_for block.metadata s ≡ true
          → on_render_take port still snapshot s
            ≡ plays i (fit silence size block.samples) block.metadata (after_processed snapshot s)
      unfolding on_render_take check_payload pop_block check_generation check_seek_sequence
      take-plays asked =
          let of_source : (block.metadata.generation != s.requested_generation_atomic) ≡ false =
            ground (arith, asked) in
          let of_position : (block.metadata.seek_sequence != s.requested_seek_sequence_atomic)
              ≡ false =
            ground (arith, asked) in
          let kept = payload_at-set_payload popped_payload s w.within in
          let sized : (payload.frame_count != buffer.frame_count) ≡ false =
            ground (arith, w.sized) in
          simp (
            through, intended, same_buffer, w.held, sized, w.formatted, p.taken, p.metadata,
            p.samples, of_source, of_position, kept,
          )

      pub take-silent :
          is_asked_for block.metadata s ≡ false
          → on_render_take port still snapshot s ≡ silent (after_popped s)
      unfolding on_render_take check_payload pop_block check_generation check_seek_sequence
      take-silent asked =
          let sized : (payload.frame_count != buffer.frame_count) ≡ false =
            ground (arith, w.sized) in
          elim (Bool-cases (block.metadata.generation != s.requested_generation_atomic)) [
            | inl stale ↦ simp (
              through, intended, same_buffer, w.held, sized, w.formatted, p.taken, p.metadata,
              stale,
            )
            | inr of_source ↦
                let stale : (block.metadata.seek_sequence != s.requested_seek_sequence_atomic)
                    ≡ true =
                  ground (arith, asked, of_source) in
                simp (
                  through, intended, same_buffer, w.held, sized, w.formatted, p.taken, p.metadata,
                  of_source, stale,
                )
          ]
