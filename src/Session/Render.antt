-- ===== src/Session/Render.antt =====
-- playback_session.cpp: `on_render`, the callback of the audio thread. Other threads may run between
-- its steps: the first section under `mutex_`, the test of the payload, the pop, the load of the
-- generation, the load of the seek sequence, the processing, the completion, and the end. What they
-- do before each step is the argument `other`, numbered along the callback; a pop of the queue is
-- one step. What the equalizer chain does to the samples is not part of this model: the decoded
-- samples that are handed to it are returned.
pub mod Taking
pub mod Playback
pub mod Races
pub mod Heard
use sonotide.Prelude.{
  ℕ, ◌+◌, ◌*◌, Bool, true, false, not, ◌&&◌, ◌||◌, Option, none, some, List, ◌∷◌, get_elem?, join,
  set, replicate, ◌==◌, ◌!=◌, if◌then◌else◌,
}
use sonotide.Prelude.Int.{pos}
use sonotide.Format.{AudioFormat, formats_match}
use sonotide.AudioQueue.{DecodedMetadata, no_metadata, DecodedAudioQueue, Popped, try_pop}
use sonotide.Session.{
  PlaybackStatus, idle, playing, PlaybackState, EqualizerPort, Payload, Session, SessionOf,
  increase, is_empty,
}

-- `audio_buffer_view`, without its bytes.
pub record RenderBuffer : Type 0 where
  pub format : AudioFormat
  pub frame_count : ℕ

-- The local variables of the callback after its first section. The bands, the gain and the volume
-- go to the equalizer chain together with the headroom.
pub record Snapshot (H : Type 0) : Type 0 where
  pub buffer : RenderBuffer
  pub should_play : Bool
  pub pipeline : Option ℕ
  pub equalizer_headroom : H
  pub equalizer_control_version : ℕ

-- How the callback ends: the buffer stays silent, or it plays samples with their metadata, taken from
-- the slot with this index; `is_undefined` is the use of a payload that is null.
pub data RenderOutcome (A S : Type 0) : Type 0 where
  silent is_undefined : S → RenderOutcome A S
  plays : ℕ → List A → DecodedMetadata → S → RenderOutcome A S

abbrev differs_from : Option ℕ → ℕ → Bool
differs_from none version = true
differs_from (some applied) version = applied != version

module _ (port : EqualizerPort) where
  open port use {Sample, silence, Headroom, headroom, set_headroom}

  abbrev St : Type 0
  St = SessionOf port

  -- The section under the lock, which is skipped when another thread holds it.
  unfoldable pub on_render_begin : Bool → RenderBuffer → St → St × Option (Snapshot Headroom)
  on_render_begin owns_lock buffer s =
      if not owns_lock || s.shutting_down
      then (record s { negotiated_sample_rate = buffer.format.sample_rate }, none)
      else (
        record s {
          negotiated_sample_rate = buffer.format.sample_rate;
          state = record (s.state) { negotiated_format = some buffer.format; device_lost = false };
          last_known_sample_rate = buffer.format.sample_rate;
          requested_render_format = some buffer.format;
          requested_frame_count = buffer.frame_count;
          render_hazard = s.decoded_pipeline;
        },
        some (record {
          buffer = buffer;
          should_play = s.playback_intent_playing && not (is_empty s.requested_source_uri);
          pipeline = s.decoded_pipeline;
          equalizer_headroom = headroom s.equalizer;
          equalizer_control_version = s.equalizer_control_version;
        }),
      )

  -- The payload behind a pipeline pointer.
  abbrev pub payload_at : St → ℕ → Option (Payload Sample Headroom)
  payload_at s i = join (get_elem? s.pipeline_slots i)

  abbrev pub set_payload : ℕ → Payload Sample Headroom → St → St
  set_payload i payload s = record s { pipeline_slots = set s.pipeline_slots i (some payload) }

  -- New settings go to the chain once for each version of the controls.
  abbrev pub apply_controls : Snapshot Headroom → Payload Sample Headroom → Payload Sample Headroom
  apply_controls snapshot payload =
      if differs_from payload.applied_equalizer_control_version snapshot.equalizer_control_version
      then record payload {
        applied_equalizer_control_version = some snapshot.equalizer_control_version;
        chain_headroom = some snapshot.equalizer_headroom;
      }
      else payload

  -- The equalizer takes over new settings and processes the block, which is then converted into the
  -- bytes of the buffer.
  abbrev pub process_block :
      Snapshot Headroom
      → ℕ
      → Popped Sample
      → Option (Payload Sample Headroom)
      → St
      → RenderOutcome Sample St
  process_block snapshot i block none s = is_undefined s
  process_block snapshot i block (some payload) s =
      plays i block.destination block.metadata (set_payload i (apply_controls snapshot payload) s)

  -- The load of the seek sequence: a block of another position is dropped.
  unfoldable pub check_seek_sequence :
      (ℕ → St → St) → Snapshot Headroom → ℕ → Popped Sample → St → RenderOutcome Sample St
  check_seek_sequence other snapshot i block s =
      if block.metadata.seek_sequence != s.requested_seek_sequence_atomic
      then silent s
      else process_block snapshot i block (payload_at (other 4 s) i) (other 4 s)

  -- The load of the generation: a block of another source is dropped.
  unfoldable pub check_generation :
      (ℕ → St → St) → Snapshot Headroom → ℕ → Popped Sample → St → RenderOutcome Sample St
  check_generation other snapshot i block s =
      if block.metadata.generation != s.requested_generation_atomic
      then silent s
      else check_seek_sequence other snapshot i block (other 3 s)

  abbrev pub after_pop :
      (ℕ → St → St)
      → Snapshot Headroom
      → ℕ
      → Payload Sample Headroom
      → Popped Sample
      → St
      → RenderOutcome Sample St
  after_pop other snapshot i payload block s =
      if not block.taken
      then silent s
      else check_generation other snapshot i block
          (other 2 (set_payload i (record payload { queue = block.queue }) s))

  -- `try_pop` into the scratch buffer.
  unfoldable pub pop_block :
      (ℕ → St → St)
      → Snapshot Headroom
      → ℕ
      → Option (Payload Sample Headroom)
      → St
      → RenderOutcome Sample St
  pop_block other snapshot i none s = is_undefined s
  pop_block other snapshot i (some payload) s =
      let sample_count = snapshot.buffer.frame_count * snapshot.buffer.format.channel_count in
      after_pop other snapshot i payload
        (try_pop silence payload.queue (replicate sample_count silence) no_metadata) s

  -- The payload must have been built for the buffer.
  unfoldable pub check_payload :
      (ℕ → St → St)
      → Snapshot Headroom
      → ℕ
      → Option (Payload Sample Headroom)
      → St
      → RenderOutcome Sample St
  check_payload other snapshot i none s = is_undefined s
  check_payload other snapshot i (some payload) s =
      let buffer = snapshot.buffer in
      if payload.frame_count != buffer.frame_count
        || not (formats_match payload.format buffer.format)
      then silent s
      else pop_block other snapshot i (payload_at (other 1 s) i) (other 1 s)

  abbrev pub take_through :
      (ℕ → St → St) → Snapshot Headroom → Option ℕ → St → RenderOutcome Sample St
  take_through other snapshot none s = silent s
  take_through other snapshot (some i) s =
      if not snapshot.should_play
      then silent s
      else check_payload other snapshot i (payload_at (other 0 s) i) (other 0 s)

  -- The part without the lock, from the test of the pipeline to the conversion of the block.
  unfoldable pub on_render_take : (ℕ → St → St) → Snapshot Headroom → St → RenderOutcome Sample St
  on_render_take other snapshot s = take_through other snapshot snapshot.pipeline s

  abbrev pub with_chain_headroom : Option Headroom → port.Equalizer → port.Equalizer
  with_chain_headroom none equalizer = equalizer
  with_chain_headroom (some h) equalizer = set_headroom h equalizer

  abbrev completed : DecodedMetadata → Payload Sample Headroom → St → St
  completed metadata payload s =
      let shown : St = record s {
        state = record (s.state) {
          position_ms = metadata.position_ms;
          duration_ms = metadata.duration_ms;
          status = playing;
          error_message = "";
        };
        last_known_sample_rate = payload.format.sample_rate;
        equalizer = with_chain_headroom payload.chain_headroom s.equalizer;
      } in
      if metadata.end_of_stream
      then record shown {
        playback_intent_playing = false;
        reached_end_of_stream = true;
        state = record (shown.state) {
          status = idle;
          position_ms = metadata.duration_ms;
          completion_token = increase s.state.completion_token;
        };
      }
      else shown

  -- The test of the completion section, which is skipped when another thread holds the lock.
  abbrev pub shows : Bool → DecodedMetadata → St → Bool
  shows owns_lock metadata s =
      owns_lock
      && not s.shutting_down
      && metadata.generation == s.requested_source_generation
      && metadata.seek_sequence == s.requested_seek_sequence

  unfoldable pub on_render_complete : Bool → DecodedMetadata → Payload Sample Headroom → St → St
  on_render_complete owns_lock metadata payload s =
      if shows owns_lock metadata s then completed metadata payload s else s

  -- The destructor of `render_hazard_guard`, on every way out.
  unfoldable pub on_render_end : St → St
  on_render_end s = record s { render_hazard = none }

  -- The completion of a block from slot `i`, which uses the payload only when it shows the block.
  abbrev pub complete_at :
      (ℕ → St → St)
      → Bool
      → ℕ
      → List Sample
      → DecodedMetadata
      → Option (Payload Sample Headroom)
      → St
      → RenderOutcome Sample St
  complete_at other owns_lock i samples metadata none s =
      if shows owns_lock metadata s
      then is_undefined s
      else plays i samples metadata (on_render_end (other 6 s))
  complete_at other owns_lock i samples metadata (some payload) s =
      plays i samples metadata
        (on_render_end (other 6 (on_render_complete owns_lock metadata payload s)))

  abbrev pub finish_render :
      (ℕ → St → St) → Bool → RenderOutcome Sample St → RenderOutcome Sample St
  finish_render other owns_lock (silent s) = silent (on_render_end (other 6 s))
  finish_render other owns_lock (is_undefined s) = is_undefined s
  finish_render other owns_lock (plays i samples metadata s) =
      complete_at other owns_lock i samples metadata (payload_at (other 5 s) i) (other 5 s)

  abbrev pub after_begin :
      (ℕ → St → St) → Bool → St × Option (Snapshot Headroom) → RenderOutcome Sample St
  after_begin other owns_lock (s, none) = silent s
  after_begin other owns_lock (s, some snapshot) =
      finish_render other owns_lock (on_render_take other snapshot s)

  -- The whole callback: whether it gets the lock at its start and at its end is given.
  unfoldable pub on_render :
      (ℕ → St → St) → Bool → Bool → RenderBuffer → St → RenderOutcome Sample St
  on_render other owns_first owns_last buffer s =
      after_begin other owns_last (on_render_begin owns_first buffer s)
