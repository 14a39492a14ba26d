-- ===== src/Session/Render/Heard.antt =====
-- From the decode worker to the buffer: the callback after a round that has delivered a block.
use sonotide.Prelude.{ℕ, ◌*◌, ◌≡◌, inl, inr, true, [], arith}
use sonotide.Format.{formats_match_iff}
use sonotide.AudioQueue.Refinement.{fit}
use sonotide.Session.{EqualizerPort, SessionOf}
use sonotide.Session.Transport.Invariant.{IsCoherent}
use sonotide.Session.Worker.{Command, DecodedBlock, decode_command_is_current}
use sonotide.Session.Worker.Slots.{block_metadata}
use sonotide.Session.Worker.Round.{Outcome}
use sonotide.Session.Worker.Delivery.{IsDelivered}
use sonotide.Session.Render.{RenderBuffer, RenderOutcome, plays, on_render}
use sonotide.Session.Render.Taking.{still, IsWaiting, IsLeft}
use sonotide.Session.Render.Playback.{IsShown, IsHandled, on_render-IsHandled}

module _ (port : EqualizerPort) where
  open port use {Sample, silence}

  -- The buffer that a command has been made for.
  abbrev pub buffer_of : Command → RenderBuffer
  buffer_of c = record { format = c.format; frame_count = c.frame_count }

  -- The callback plays the block of the command, and leaves an empty queue.
  pub record IsHeard (c : Command) (block : DecodedBlock Sample) (i : ℕ) (s : SessionOf port)
      (r : RenderOutcome Sample (SessionOf port)) : Type 0 where
    pub session : SessionOf port
    pub heard :
        r
        ≡ plays i
            (fit silence (c.frame_count * c.format.channel_count) block.samples)
            (block_metadata port c block)
            session
    pub emptied : IsLeft port (c.frame_count * c.format.channel_count) i [] session
    pub is_shown : IsShown port (block_metadata port c block) s session

  handled-IsHeard :
      (c : Command) (block : DecodedBlock Sample) (i : ℕ) (s : SessionOf port)
      (r : RenderOutcome Sample (SessionOf port))
      → c.generation ≡ s.requested_source_generation
      → c.seek_sequence ≡ s.requested_seek_sequence
      → IsHandled port
          (c.frame_count * c.format.channel_count)
          (buffer_of c)
          i
          (record { samples = block.samples; metadata = block_metadata port c block })
          []
          s
          r
      → IsHeard c block i s r
  unfolding IsHandled
  handled-IsHeard c block i s r g q (inl (of_source, of_position, t, heard, emptied, shown)) =
      record { session = t; heard = heard; emptied = emptied; is_shown = shown }
  handled-IsHeard c block i s r g q (inr (inl stale, t, silenced, left, shown)) = absurd (stale g)
  handled-IsHeard c block i s r g q (inr (inr stale, t, silenced, left, shown)) = absurd (stale q)

  -- After a round that has delivered a block, and while its command is current, the next callback
  -- with a buffer of the command's size and format plays just this block, filled with silence up to
  -- the buffer, empties the queue and shows the block: its position as playing, or the end of the
  -- source after the last block. The session must be coherent and mean to play, the callback must
  -- get the lock at its start and its end, and nothing may happen between its steps.
  pub on_render-IsHeard :
      (c : Command) (block : DecodedBlock Sample) (o : Outcome (SessionOf port))
      (d : IsDelivered port c block o)
      → IsCoherent port d.session
      → d.session.playback_intent_playing ≡ true
      → decode_command_is_current port c d.session ≡ true
      → IsHeard c block d.slot d.session
          (on_render port (still port) true true (buffer_of c) d.session)
  unfolding decode_command_is_current
  on_render-IsHeard c block o d coherent intent current =
      let queued = d.queued in
      let waiting : IsWaiting port (c.frame_count * c.format.channel_count) (buffer_of c) d.slot
          d.payload (record { samples = block.samples; metadata = block_metadata port c block }) []
          d.session =
        record {
          published = queued.published;
          within = queued.within;
          held = queued.held;
          sized = queued.of_size;
          formatted = (formats_match_iff d.payload.format c.format).1 queued.of_format;
          ring = queued.ring;
          front = queued.one_block;
        } in
      handled-IsHeard c block d.slot d.session _ (ground (arith, current)) (ground (arith, current))
        (on_render-IsHandled port (c.frame_count * c.format.channel_count) (buffer_of c) d.slot
          d.payload (record { samples = block.samples; metadata = block_metadata port c block }) []
          d.session coherent (ground (arith, current)) intent waiting)
