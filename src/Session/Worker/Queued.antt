-- ===== src/Session/Worker/Queued.antt =====
-- The push of a block into a pipeline that has just been published.
use sonotide.Prelude.{
  ℕ, ◌*◌, ◌≤◌, ◌<◌, leb, ◌≡◌, refl, ap, true, some, join, List, [], ◌∷◌, length, length-set, set,
  get_elem?-set_self, arith,
}
use sonotide.AudioQueue.{DecodedMetadata, make_queue, try_push}
use sonotide.AudioQueue.Ring.{IsRing, contents, make_queue-IsRing}
use sonotide.AudioQueue.Refinement.{try_push-fifo_push}
use sonotide.Session.{EqualizerPort, Payload, SessionOf}
use sonotide.Session.Worker.{
  WorkerState, Command, DecodedBlock, slot_payload, decode_command_is_current,
}
use sonotide.Session.Worker.Slots.{fresh_payload, push_block, block_metadata}

module _ (port : EqualizerPort) where
  open port use {Sample, silence, Headroom}

  -- The slot `i` is published, and its queue holds the one block that the command has asked for.
  pub record IsQueued (c : Command) (block : DecodedBlock Sample) (i : ℕ)
      (payload : Payload Sample Headroom) (s : SessionOf port) : Type 0 where
    pub published : s.decoded_pipeline ≡ some i
    pub within : i < length s.pipeline_slots
    pub held : slot_payload port s i ≡ some payload
    pub of_format : payload.format ≡ c.format
    pub of_size : payload.frame_count ≡ c.frame_count
    pub ring : IsRing silence 4 (c.frame_count * c.format.channel_count) payload.queue
    pub one_block :
        contents silence payload.queue
        ≡ record { samples = block.samples; metadata = block_metadata port c block } ∷ []

  fresh_push :
      (capacity : ℕ) (samples : List Sample) (metadata : DecodedMetadata)
      → length samples ≤ capacity
      → let r = try_push silence (make_queue silence 4 capacity) samples metadata in
        (r.0 ≡ true)
        × IsRing silence 4 capacity r.1
        × (contents silence r.1 ≡ record { samples = samples; metadata = metadata } ∷ [])
  fresh_push capacity samples metadata fits =
      let (ring, empty) = make_queue-IsRing silence 4 capacity in
      let (after, pushed) =
        try_push-fifo_push silence 4 capacity (make_queue silence 4 capacity) samples metadata
          ring in
      let small : leb (length samples) capacity ≡ true = ground arith in
      let e = rw (empty, small) at pushed in (ap (λ p. p.0) e, after, ap (λ p. p.1) e)

  pub push-IsQueued :
      (c : Command) (block : DecodedBlock Sample) (i : ℕ) (w : WorkerState) (s : SessionOf port)
      → decode_command_is_current port c s ≡ true
      → s.decoded_pipeline ≡ some i
      → i < length s.pipeline_slots
      → slot_payload port s i ≡ some (fresh_payload port c.format c.frame_count)
      → length block.samples ≤ c.frame_count * c.format.channel_count
      → (payload : Payload Sample Headroom) × (t : SessionOf port) × (push_block port i c block w s
          ≡ some (t, record w { end_of_stream = block.end_of_stream }))
        × IsQueued c block i payload t
        × (t.decoder_ready ≡ s.decoder_ready)
  unfolding push_block
  push-IsQueued c block i w s current published within held fits =
      let capacity = c.frame_count * c.format.channel_count in
      let r =
        try_push silence (make_queue silence 4 capacity) block.samples
          (block_metadata port c block) in
      let (accepted, ring, one) =
        fresh_push capacity block.samples (block_metadata port c block) fits in
      let payload : Payload Sample Headroom = record (fresh_payload port c.format c.frame_count) {
        queue = r.1;
      } in
      let t : SessionOf port = record s {
        pipeline_slots = set s.pipeline_slots i (some payload);
      } in
      (
        payload,
        t,
        simp (current, held, accepted),
        record {
          published = published;
          within = ground (arith, within, length-set s.pipeline_slots i (some payload));
          of_format = refl;
          of_size = refl;
          ring = ring;
          held = ap join (get_elem?-set_self s.pipeline_slots i (some payload) within);
          one_block = one;
        },
        refl,
      )
