-- ===== src/Session/Worker/Delivery.antt =====
-- A round of the decode worker that nobody disturbs.
use sonotide.Prelude.{
  ℕ, ◌*◌, ◌≤◌, ◌<◌, ◌≡◌, refl, ap, ◌∙◌, true, false, Option, none, some, join, length, length-set,
  set, get_elem?-set_self, ◌!=◌, arith,
}
use sonotide.Prelude.Int.{ℤ}
use sonotide.Error.{success}
use sonotide.Format.{AudioFormat}
use sonotide.Session.{EqualizerPort, Payload, SessionOf, recompute_equalizer_metadata}
use sonotide.Session.Worker.{
  WorkerState, Command, DecodedBlock, slot_payload, command_in, next_command, needs_open,
  decode_command_is_current,
}
use sonotide.Session.Worker.Reports.{opened, show_opened}
use sonotide.Session.Worker.Slots.{
  slot_size_overflows, fresh_payload, prepare_pipeline_slot, publish_decoded_pipeline, push_block,
}
use sonotide.Session.Worker.Pipelines.{free_slot-IsFree}
use sonotide.Session.Worker.Round.{
  Answers, Outcome, continues, go_on_if_defined, read_block, republish, seek_phase, open_phase,
  round,
}
use sonotide.Session.Worker.Queued.{IsQueued, push-IsQueued}

module _ (port : EqualizerPort) where
  open port use {Sample, silence, Headroom}

  command_in-current :
      (format : Option AudioFormat) (w : WorkerState) (c : Command) (s : SessionOf port)
      → command_in port format w s ≡ some c
      → (decode_command_is_current port c s ≡ true) × (s.shutting_down ≡ false)
  unfolding command_in decode_command_is_current
  command_in-current none w c s h = absurd (ground arith)
  command_in-current (some format) w c s h = ground arith

  next_command-current :
      (w : WorkerState) (c : Command) (s : SessionOf port)
      → next_command port w s ≡ some c
      → (decode_command_is_current port c s ≡ true) × (s.shutting_down ≡ false)
  unfolding next_command
  next_command-current w c s h = command_in-current s.requested_render_format w c s h

  -- Slot `i` has been published for the command, with nothing in it.
  record IsPublished (c : Command) (i : ℕ) (s : SessionOf port) : Type 0 where
    current : decode_command_is_current port c s ≡ true
    published : s.decoded_pipeline ≡ some i
    within : i < length s.pipeline_slots
    held : slot_payload port s i ≡ some (fresh_payload port c.format c.frame_count)

  republish-IsPublished :
      (k : ℕ) (c : Command) (w : WorkerState)
      (continue : ℕ → SessionOf port → Outcome (SessionOf port)) (s : SessionOf port)
      → decode_command_is_current port c s ≡ true
      → length s.pipeline_slots ≡ 3
      → (i : ℕ) × (t : SessionOf port) × (republish port (λ j u. u) k c w continue s ≡ continue i t)
        × IsPublished c i t
  unfolding republish prepare_pipeline_slot publish_decoded_pipeline decode_command_is_current
      recompute_equalizer_metadata
  republish-IsPublished k c w continue s current three =
      let (i, found, free) = free_slot-IsFree port s three in
      let payload = fresh_payload port c.format c.frame_count in
      let within : i < length s.pipeline_slots = ground (arith, free.in_range, three) in
      let s1 : SessionOf port = record s {
        pipeline_slots = set s.pipeline_slots i (some payload);
      } in
      let held : slot_payload port s1 i ≡ some payload =
        ap join (get_elem?-set_self s.pipeline_slots i (some payload) within) in
      let t =
        recompute_equalizer_metadata port c.format.sample_rate (record s1 {
          decoded_pipeline = some i;
          last_known_sample_rate = c.format.sample_rate;
        }) in
      (
        i,
        t,
        simp (found, current, held),
        record {
          current = current;
          published = refl;
          within = ground (arith, within, length-set s.pipeline_slots i (some payload));
          held = held;
        },
      )

  shown-IsPublished :
      (duration : ℤ) (c : Command) (i : ℕ) (s : SessionOf port)
      → IsPublished c i s
      → IsPublished c i (show_opened port duration c s)
        × ((show_opened port duration c s).decoder_ready ≡ true)
  unfolding show_opened decode_command_is_current
  shown-IsPublished duration c i s p =
      let e : show_opened port duration c s
          ≡ record s { decoder_ready = true; state = record (s.state) { duration_ms = duration } } =
        simp (p.current) in
      rw e (
        record { current = p.current; published = p.published; within = p.within; held = p.held },
        refl,
      )

  -- What an undisturbed round of a new source leaves: the worker goes on, the decoder is ready, and
  -- the published pipeline holds the block.
  pub record IsDelivered (c : Command) (block : DecodedBlock Sample) (o : Outcome (SessionOf port))
      : Type 0 where
    pub slot : ℕ
    pub payload : Payload Sample Headroom
    pub session : SessionOf port
    pub worker : WorkerState
    pub goes_on : o ≡ continues session worker
    pub queued : IsQueued port c block slot payload session
    pub is_ready : session.decoder_ready ≡ true

  -- An undisturbed round that takes up a command for a new source, without a seek, of a session with
  -- three slots ends well when the decoder opens the source and reads a block that fits: the worker
  -- goes on, the decoder is ready, and the published pipeline holds that block and nothing else.
  pub round-IsDelivered :
      (a : Answers Sample) (w : WorkerState) (s : SessionOf port) (c : Command) (duration : ℤ)
      (block : DecodedBlock Sample)
      → next_command port w s ≡ some c
      → needs_open port w c ≡ true
      → c.seek_sequence ≡ 0
      → slot_size_overflows port c ≡ false
      → length s.pipeline_slots ≡ 3
      → a.opens ≡ success duration
      → a.reads ≡ success block
      → length block.samples ≤ c.frame_count * c.format.channel_count
      → IsDelivered c block (round port (λ j t. t) a w s)
  unfolding round open_phase seek_phase read_block opened
  round-IsDelivered a w s c duration block asked needs no_seek small three opens reads fits =
      let (current, running) = next_command-current w c s asked in
      let (i, t, republished, p) =
        republish-IsPublished 3 c w
          (λ j u.
            seek_phase port (λ k v. v) a c (some j) (opened port c w)
              (show_opened port duration c u))
          s current three in
      let (shown, ready) = shown-IsPublished duration c i t p in
      let u = show_opened port duration c t in
      let (payload, v, pushed, queued, same) =
        push-IsQueued port c block i (opened port c w) u shown.current shown.published shown.within
          shown.held fits in
      let unmoved : (c.seek_sequence != 0) ≡ false = ground arith in
      let opening : round port (λ j v. v) a w s
          ≡ republish port (λ j v. v) 3 c w
              (λ j v.
                seek_phase port (λ k x. x) a c (some j) (opened port c w)
                  (show_opened port duration c v))
              s =
        simp (running, asked, needs, current, opens, small) in
      let reading : seek_phase port (λ k x. x) a c (some i) (opened port c w) u
          ≡ go_on_if_defined port u (push_block port i c block (opened port c w) u) =
        simp (unmoved, reads) in
      record {
        slot = i;
        payload = payload;
        session = v;
        worker = record (opened port c w) { end_of_stream = block.end_of_stream };
        goes_on = opening ∙ republished ∙ reading ∙ ap (go_on_if_defined port u) pushed;
        queued = queued;
        is_ready = same ∙ ready;
      }
