-- ===== src/Session/Worker/Currency.antt =====
-- A command of the decode worker that a later call has superseded no longer touches the session.
use sonotide.Prelude.{
  ℕ, ◌≡◌, ◌≢◌, refl, String, Option, none, some, true, false, if◌then◌else◌, arith,
}
use sonotide.Prelude.Int.{ℤ}
use sonotide.Error.{Error, done}
use sonotide.Session.{EqualizerPort, SessionOf, increase, is_empty}
use sonotide.Session.Transport.{load, seek_to, begin_close}
use sonotide.Session.Transport.Device.{select_output_device}
use sonotide.Session.Worker.{WorkerState, Command, DecodedBlock, decode_command_is_current}
use sonotide.Session.Worker.Reports.{
  open_failed, seek_failed, read_failed, show_opened, show_sought,
}
use sonotide.Session.Worker.Slots.{
  free_slot, rebuild, prepare_pipeline_slot, push_block, publish_decoded_pipeline,
}

increase-ne : (x : ℕ) → increase x ≢ x
increase-ne x = λ e. absurd (omega arith)

module _ (port : EqualizerPort) where
  -- What the sections of the worker do with a command that is no longer current: the reports of a
  -- failed open and seek, the push and, unless the session is shutting down and it ends the loop,
  -- the report of a failed read leave the session as it is and make the worker begin anew; the
  -- publication publishes nothing; nothing is shown; and the preparation, which does not test the
  -- command, writes nothing but the slots.
  pub record IsIgnored (c : Command) (s : SessionOf port) : Type 0 where
    pub fails_open :
        (e : Error) (w : WorkerState)
        → open_failed port e c w s ≡ (s, record w { active_generation = 0 })
    pub fails_seek :
        (e : Error) (w : WorkerState)
        → seek_failed port e c w s ≡ (s, record w { active_generation = 0 })
    pub fails_read :
        (e : Error) (w : WorkerState)
        → read_failed port e c w s
          ≡ (if s.shutting_down then none else some (s, record w { active_generation = 0 }))
    pub pushes :
        (i : ℕ) (block : DecodedBlock port.Sample) (w : WorkerState)
        → push_block port i c block w s ≡ some (s, record w { active_generation = 0 })
    pub publishes : (i : ℕ) → publish_decoded_pipeline port i c s ≡ some (s, false)
    pub shows_opened : (duration : ℤ) → show_opened port duration c s ≡ s
    pub shows_sought : show_sought port c s ≡ s
    pub prepares :
        let t = (prepare_pipeline_slot port c s).0 in
        t ≡ record s { pipeline_slots = t.pipeline_slots }

  rebuild-slots :
      (c : Command) (s : SessionOf port) (o : Option ℕ)
      → let t = (rebuild port c s o).0 in t ≡ record s { pipeline_slots = t.pipeline_slots }
  rebuild-slots c s none = refl
  rebuild-slots c s (some i) = refl

  ignored :
      (c : Command) (s : SessionOf port)
      → decode_command_is_current port c s ≡ false
      → IsIgnored c s
  unfolding open_failed seek_failed read_failed push_block publish_decoded_pipeline show_opened
      show_sought prepare_pipeline_slot
  ignored c s h = record {
    fails_open = λ e w. simp h;
    fails_seek = λ e w. simp h;
    fails_read = λ e w. simp h;
    pushes = λ i block w. simp h;
    publishes = λ i. simp h;
    shows_opened = λ duration. simp h;
    shows_sought = simp h;
    prepares = rebuild-slots c s (free_slot port s);
  }

  -- The calls that supersede the command of the worker.
  pub data Superseding : Type 0 where
    loads : String → Superseding
    seeks : ℤ → Superseding
    selects : String → Superseding
    closes : Superseding

  abbrev pub supersede : Superseding → SessionOf port → SessionOf port
  supersede (loads uri) s = (load port uri s).0
  supersede (seeks position) s = (seek_to port position s).0
  supersede (selects device) s = (select_output_device port device s).0
  supersede closes s = begin_close port s

  -- When the call is not refused: a `load` has a URI, and a seek a source.
  abbrev pub IsAccepted : Superseding → SessionOf port → Type 0
  IsAccepted (loads uri) s = is_empty uri ≡ false
  IsAccepted (seeks position) s = is_empty s.requested_source_uri ≡ false
  IsAccepted (selects device) s = s.closed ≡ false
  IsAccepted closes s = s.closed ≡ false

  -- Two states that ask the worker for the same.
  pub record SameRequest (s t : SessionOf port) : Type 0 where
    pub generation : s.requested_source_generation ≡ t.requested_source_generation
    pub seek_sequence : s.requested_seek_sequence ≡ t.requested_seek_sequence
    pub decoder_epoch : s.requested_decoder_epoch ≡ t.requested_decoder_epoch
    pub shutting_down : s.shutting_down ≡ t.shutting_down

  SameRequest-current :
      (c : Command) (s t : SessionOf port)
      → SameRequest s t
      → decode_command_is_current port c s ≡ false
      → decode_command_is_current port c t ≡ false
  unfolding decode_command_is_current
  SameRequest-current c s t same h =
      rw (← same.generation, ← same.seek_sequence, ← same.decoder_epoch, ← same.shutting_down) h

  load-supersedes :
      (c : Command) (uri : String) (s : SessionOf port)
      → decode_command_is_current port c s ≡ true
      → (load port uri s).1 ≡ done
      → decode_command_is_current port c (load port uri s).0 ≡ false
  unfolding decode_command_is_current load
  load-supersedes c uri s h k = ground (arith, increase-ne s.requested_source_generation)

  seek_to-supersedes :
      (c : Command) (position : ℤ) (s : SessionOf port)
      → decode_command_is_current port c s ≡ true
      → (seek_to port position s).1 ≡ done
      → decode_command_is_current port c (seek_to port position s).0 ≡ false
  unfolding decode_command_is_current seek_to
  seek_to-supersedes c position s h k = ground (arith, increase-ne s.requested_seek_sequence)

  select_output_device-supersedes :
      (c : Command) (device : String) (s : SessionOf port)
      → decode_command_is_current port c s ≡ true
      → (select_output_device port device s).1 ≡ done
      → decode_command_is_current port c (select_output_device port device s).0 ≡ false
  unfolding decode_command_is_current select_output_device
  select_output_device-supersedes c device s h k =
      ground (arith, increase-ne s.requested_seek_sequence)

  begin_close-supersedes :
      (c : Command) (s : SessionOf port)
      → s.closed ≡ false
      → decode_command_is_current port c (begin_close port s) ≡ false
  unfolding decode_command_is_current begin_close
  begin_close-supersedes c s h = ground arith

  supersedes :
      (c : Command) (k : Superseding) (s : SessionOf port)
      → decode_command_is_current port c s ≡ true
      → s.closed ≡ false
      → IsAccepted k s
      → decode_command_is_current port c (supersede k s) ≡ false
  unfolding load seek_to select_output_device
  supersedes c (loads uri) s h o a = load-supersedes c uri s h (ground arith)
  supersedes c (seeks position) s h o a = seek_to-supersedes c position s h (ground arith)
  supersedes c (selects device) s h o a =
      select_output_device-supersedes c device s h (ground arith)
  supersedes c closes s h o a = begin_close-supersedes c s o

  -- A command that is current stops being so at a `load` of a URI that is not empty, at a `seek_to`
  -- of a loaded source, at a `select_output_device` and at a `close` of a session that is not
  -- closed. In the state after the call, and in each state that still asks for the same, the
  -- sections of the worker that carry the command ignore it: the reports of a failed open, seek and
  -- read and the push leave the session and make the worker begin anew (a failed read ends the loop
  -- instead when the session is shutting down), nothing is published and nothing shown. Only the
  -- preparation of a slot does not test the command, and it writes nothing but the slots.
  pub superseded-IsIgnored :
      (c : Command) (k : Superseding) (s t : SessionOf port)
      → decode_command_is_current port c s ≡ true
      → s.closed ≡ false
      → IsAccepted k s
      → SameRequest (supersede k s) t
      → IsIgnored c t
  superseded-IsIgnored c k s t h o a same =
      ignored c t (SameRequest-current c (supersede k s) t same (supersedes c k s h o a))
