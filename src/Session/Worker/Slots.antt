-- ===== src/Session/Worker/Slots.antt =====
-- playback_session.cpp: the pipeline slots in which the decode worker hands blocks to the callback:
-- `prepare_pipeline_slot`, `publish_decoded_pipeline_if_current` and the push at the end of a round.
use sonotide.Prelude.{
  ℕ, zero, suc, ◌+◌, ◌*◌, ◌/◌, Bool, true, false, not, ◌&&◌, ◌||◌, Option, none, some, set, length,
  ltb, ◌==◌, if◌then◌else◌,
}
use sonotide.Format.{AudioFormat}
use sonotide.Timing.{u64_max}
use sonotide.AudioQueue.{DecodedMetadata, make_queue, try_push}
use sonotide.Session.{EqualizerPort, Payload, SessionOf, recompute_equalizer_metadata}
use sonotide.Session.Worker.{
  WorkerState, Command, DecodedBlock, slot_payload, decode_command_is_current,
}

abbrev is_pointer : Option ℕ → ℕ → Bool
is_pointer none i = false
is_pointer (some j) i = i == j

-- The scan of `prepare_pipeline_slot` for a slot that nobody else uses.
unfoldable pub free_slot_from : ℕ → ℕ → Option ℕ → Option ℕ → Option ℕ
free_slot_from zero i published hazard = none
free_slot_from (suc left) i published hazard =
    let later = free_slot_from left (i + 1) published hazard in
    if not (is_pointer published i) && not (is_pointer hazard i) then some i else later

module _ (port : EqualizerPort) where
  open port use {Sample, silence, Headroom}

  abbrev St : Type 0
  St = SessionOf port

  unfoldable pub free_slot : St → Option ℕ
  unfolding free_slot_from
  free_slot s = free_slot_from (length s.pipeline_slots) 0 s.decoded_pipeline s.render_hazard

  -- The guard before a slot is sized, which ends the worker by an exception.
  unfoldable pub slot_size_overflows : Command → Bool
  slot_size_overflows c =
      c.format.channel_count == 0 || ltb (u64_max / c.format.channel_count) c.frame_count

  -- `decoded_pipeline::rebuild`: a new queue of four blocks.
  abbrev pub fresh_payload : AudioFormat → ℕ → Payload Sample Headroom
  fresh_payload format frame_count = record {
    queue = make_queue silence 4 (frame_count * format.channel_count);
    format = format;
    frame_count = frame_count;
    applied_equalizer_control_version = none;
    chain_headroom = none;
  }

  abbrev pub rebuild : Command → St → Option ℕ → St × Option ℕ
  rebuild c s none = (s, none)
  rebuild c s (some i) = (
    record s {
      pipeline_slots = set s.pipeline_slots i (some (fresh_payload c.format c.frame_count));
    },
    some i,
  )

  unfoldable pub prepare_pipeline_slot : Command → St → St × Option ℕ
  prepare_pipeline_slot c s = rebuild c s (free_slot s)

  -- `publish_decoded_pipeline_if_current`, for a slot that was found, and whether it published;
  -- `none` is the use of a payload that is null.
  unfoldable pub publish_decoded_pipeline : ℕ → Command → St → Option (St × Bool)
  publish_decoded_pipeline i c s =
      if not (decode_command_is_current port c s)
      then some (s, false)
      else elim (slot_payload port s i) [
        | none ↦ none
        | some payload ↦ some (
          recompute_equalizer_metadata port payload.format.sample_rate (record s {
            decoded_pipeline = some i;
            last_known_sample_rate = payload.format.sample_rate;
          }),
          true,
        )
      ]

  abbrev pub block_metadata : Command → DecodedBlock Sample → DecodedMetadata
  block_metadata c block = record {
    generation = c.generation;
    seek_sequence = c.seek_sequence;
    position_ms = block.position_ms;
    duration_ms = block.duration_ms;
    end_of_stream = block.end_of_stream;
  }

  abbrev pub push_into :
      ℕ
      → Command
      → DecodedBlock Sample
      → Option (Payload Sample Headroom)
      → WorkerState
      → St
      → Option (St × WorkerState)
  push_into i c block none w s = none
  push_into i c block (some payload) w s =
      let (pushed, queue) = try_push silence payload.queue block.samples (block_metadata c block) in
      some (
        record s {
          pipeline_slots = set s.pipeline_slots i (some (record payload { queue = queue }));
        },
        if pushed then record w { end_of_stream = block.end_of_stream } else w,
      )

  -- The last section of a round: a block of a command that still stands goes into the queue;
  -- `none` is the use of a payload that is null.
  unfoldable pub push_block :
      ℕ → Command → DecodedBlock Sample → WorkerState → St → Option (St × WorkerState)
  push_block i c block w s =
      if not (decode_command_is_current port c s)
      then some (s, record w { active_generation = 0 })
      else push_into i c block (slot_payload port s i) w s
