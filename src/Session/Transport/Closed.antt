-- ===== src/Session/Transport/Closed.antt =====
-- The end of a session.
use sonotide.Prelude.{◌≡◌, String, true, false, arith}
use sonotide.Prelude.Int.{ℤ}
use sonotide.Error.{VoidResult}
use sonotide.Session.{EqualizerPort, SessionOf, is_empty, closed_session_result}
use sonotide.Session.Transport.{load, play, pause, seek_to, set_volume_percent, begin_close}
use sonotide.Session.Transport.Device.{select_output_device}

module _ (port : EqualizerPort) where
  -- What a transport call answers on a closed session: it is refused and changes nothing.
  abbrev pub Refuses : (SessionOf port × VoidResult) → SessionOf port → String → Type 0
  Refuses r s operation = r ≡ (s, closed_session_result operation)

  closed-Refuses :
      (s : SessionOf port) (uri device : String) (position volume : ℤ)
      → is_empty uri ≡ false
      → s.closed ≡ true
      → Refuses (load port uri s) s "playback_session::load"
        × Refuses (play port s) s "playback_session::play"
        × Refuses (pause port s) s "playback_session::pause"
        × Refuses (seek_to port position s) s "playback_session::seek_to"
        × Refuses (set_volume_percent port volume s) s "playback_session::set_volume_percent"
        × Refuses (select_output_device port device s) s "playback_session::select_output_device"
        × (begin_close port s ≡ s)
  unfolding load play pause seek_to set_volume_percent select_output_device begin_close
  closed-Refuses s uri device position volume h c =
      (simp (h, c), simp c, simp c, simp c, simp c, simp c, simp c)

  closed-begin_close : (s : SessionOf port) → (begin_close port s).closed ≡ true
  unfolding begin_close
  closed-begin_close s = ground arith

  -- After the first section of `close` every transport call is refused with the error of the code
  -- `invalid_state`, and changes nothing (a call of `load` with a source URI that is not empty);
  -- closing again changes nothing either.
  pub begin_close-Refuses :
      (s : SessionOf port) (uri device : String) (position volume : ℤ)
      → is_empty uri ≡ false
      → let t = begin_close port s in
        Refuses (load port uri t) t "playback_session::load"
        × Refuses (play port t) t "playback_session::play"
        × Refuses (pause port t) t "playback_session::pause"
        × Refuses (seek_to port position t) t "playback_session::seek_to"
        × Refuses (set_volume_percent port volume t) t "playback_session::set_volume_percent"
        × Refuses (select_output_device port device t) t "playback_session::select_output_device"
        × (begin_close port t ≡ t)
  begin_close-Refuses s uri device position volume h =
      closed-Refuses (begin_close port s) uri device position volume h (closed-begin_close s)
