-- ===== src/Session/Worker/Round.antt =====
-- playback_session.cpp: one round of `decode_loop`, from the wait for a command to the push of a
-- block. What the other threads do before a section is the argument `other`, numbered along the
-- round; what the decoder answers is a record.
use sonotide.Prelude.{
  ℕ, ◌+◌, String, Bool, true, false, not, Option, none, some, ◌!=◌, if◌then◌else◌,
}
use sonotide.Prelude.Int.{ℤ}
use sonotide.Error.{Result, VoidResult, success, failure}
use sonotide.Session.{EqualizerPort, SessionOf}
use sonotide.Session.Worker.{
  WorkerState, Command, DecodedBlock, next_command, needs_open, decode_command_is_current,
}
use sonotide.Session.Worker.Reports.{
  open_failed, seek_failed, read_failed, opened, show_opened, sought, show_sought,
}
use sonotide.Session.Worker.Slots.{
  slot_size_overflows, prepare_pipeline_slot, publish_decoded_pipeline, push_block,
}

-- `decoder_->open` with `duration_ms`, `decoder_->seek_to` and `decoder_->read_frames`.
pub record Answers (A : Type 0) : Type 0 where
  pub opens : Result ℤ
  pub seeks : VoidResult
  pub reads : Result (DecodedBlock A)

-- How a round ends: the loop waits, goes on, returns, or is left by an exception; `is_undefined` is
-- the use of a pipeline pointer, or of a payload, that is null.
pub data Outcome (S : Type 0) : Type 0 where
  waits : S → Outcome S
  continues : S → WorkerState → Outcome S
  returns is_undefined : S → Outcome S
  throws : String → S → Outcome S

module _ (port : EqualizerPort) where
  open port use {Sample}

  abbrev St : Type 0
  St = SessionOf port

  abbrev pub renewed : WorkerState → WorkerState
  renewed w = record w { active_generation = 0 }

  abbrev pub go_on : St × WorkerState → Outcome St
  go_on (s, w) = continues s w

  -- A section that may have used a null payload, in the state `s`.
  abbrev pub go_on_if_defined : St → Option (St × WorkerState) → Outcome St
  go_on_if_defined s none = is_undefined s
  go_on_if_defined s (some (t, w)) = continues t w

  abbrev pub go_on_or_return : St → Option (St × WorkerState) → Outcome St
  go_on_or_return s none = returns s
  go_on_or_return s (some (t, w)) = continues t w

  -- The end of a round: the read, and the push.
  unfoldable pub read_block :
      (ℕ → St → St)
      → Result (DecodedBlock Sample)
      → Command
      → Option ℕ
      → WorkerState
      → St
      → Outcome St
  read_block other (failure e) c pipeline w s =
      go_on_or_return (other 10 s) (read_failed port e c w (other 10 s))
  read_block other (success block) c none w s = is_undefined (other 10 s)
  read_block other (success block) c (some i) w s =
      go_on_if_defined (other 10 s) (push_block port i c block w (other 10 s))

  abbrev pub after_publish :
      (ℕ → St → Outcome St) → WorkerState → ℕ → St → Option (St × Bool) → Outcome St
  after_publish continue w i s none = is_undefined s
  after_publish continue w i s (some (t, true)) = continue i t
  after_publish continue w i s (some (t, false)) = continues t (renewed w)

  abbrev pub after_prepare :
      (ℕ → St → St) → ℕ → Command → WorkerState → (ℕ → St → Outcome St) → St × Option ℕ → Outcome St
  after_prepare other k c w continue (s, none) =
      throws "No free decoded pipeline slot is available." s
  after_prepare other k c w continue (s, some i) =
      after_publish continue w i (other (k + 1) s)
        (publish_decoded_pipeline port i c (other (k + 1) s))

  -- A new pipeline is prepared and published, before sections `k` and `k + 1`.
  unfoldable pub republish :
      (ℕ → St → St) → ℕ → Command → WorkerState → (ℕ → St → Outcome St) → St → Outcome St
  republish other k c w continue s =
      after_prepare other k c w continue (prepare_pipeline_slot port c (other k s))

  abbrev pub seek_by :
      (ℕ → St → St) → Answers Sample → VoidResult → Command → WorkerState → St → Outcome St
  seek_by other a (failure e) c w s = go_on (seek_failed port e c w (other 6 s))
  seek_by other a (success u) c w s =
      if not (decode_command_is_current port c (other 6 s))
      then continues (other 6 s) (renewed w)
      else republish other 7 c w
          (λ i t.
            read_block other a.reads c (some i) (sought port c w) (show_sought port c (other 9 t)))
          (other 6 s)

  unfoldable pub seek_phase :
      (ℕ → St → St) → Answers Sample → Command → Option ℕ → WorkerState → St → Outcome St
  seek_phase other a c pipeline w s =
      if c.seek_sequence != w.active_seek_sequence
      then seek_by other a a.seeks c w s
      else read_block other a.reads c pipeline w s

  abbrev pub open_by :
      (ℕ → St → St) → Answers Sample → Result ℤ → Command → WorkerState → St → Outcome St
  open_by other a (failure e) c w s = go_on (open_failed port e c w (other 2 s))
  open_by other a (success duration) c w s =
      if not (decode_command_is_current port c (other 2 s))
      then continues (other 2 s) (renewed w)
      else if slot_size_overflows port c
      then throws "Decoded PCM slot size exceeds addressable memory." (other 2 s)
      else republish other 3 c w
          (λ i t.
            seek_phase other a c (some i) (opened port c w)
              (show_opened port duration c (other 5 t)))
          (other 2 s)

  unfoldable pub open_phase :
      (ℕ → St → St) → Answers Sample → Command → WorkerState → St → Outcome St
  open_phase other a c w s =
      if needs_open port w c
      then if not (decode_command_is_current port c (other 1 s))
        then continues (other 1 s) w
        else open_by other a a.opens c w (other 1 s)
      else seek_phase other a c c.pipeline w s

  abbrev pub round_by :
      (ℕ → St → St) → Answers Sample → Option Command → WorkerState → St → Outcome St
  round_by other a none w s = waits s
  round_by other a (some c) w s = open_phase other a c w s

  abbrev pub has_stopped : St → Bool
  has_stopped s = s.shutting_down

  -- One round from the state `s`, in which the wait has been entered.
  unfoldable pub round : (ℕ → St → St) → Answers Sample → WorkerState → St → Outcome St
  round other a w s =
      if has_stopped (other 0 s)
      then returns (other 0 s)
      else round_by other a (next_command port w (other 0 s)) w (other 0 s)
