-- ===== src/Session/Transport/Invariant.antt =====
-- What holds of a session between any two of its calls.
use sonotide.Prelude.{◌≤◌, ◌≡◌, String, Bool, true, false, Option, arith}
use sonotide.Prelude.Int.{ℤ}
use sonotide.Error.{Error, VoidResult}
use sonotide.Session.{playing, paused, EqualizerPort, SessionOf, is_empty}
use sonotide.Session.Transport.{
  load, play, pause, seek_to, set_volume_percent, begin_close, end_close,
}
use sonotide.Session.Transport.Device.{
  select_output_device, on_stream_error, take_recovery, recovery_failed,
  refresh_active_output_device,
}

-- The sections of the transport that run under the lock.
pub data Call : Type 0 where
  loads selects : String → Call
  plays pauses closes takes_recovery : Call
  seeks sets_volume : ℤ → Call
  ends_close : Bool → VoidResult → Call
  refreshes_device : Option (String × String × Bool) → Call
  loses_stream fails_recovery : Error → Call

module _ (port : EqualizerPort) where
  unfoldable pub call : Call → SessionOf port → SessionOf port
  unfolding load play pause seek_to set_volume_percent select_output_device begin_close end_close
      on_stream_error take_recovery recovery_failed refresh_active_output_device
  call (loads uri) s = (load port uri s).0
  call (selects device) s = (select_output_device port device s).0
  call plays s = (play port s).0
  call pauses s = (pause port s).0
  call closes s = begin_close port s
  call takes_recovery s = (take_recovery port s).0
  call (seeks position) s = (seek_to port position s).0
  call (sets_volume volume) s = (set_volume_percent port volume s).0
  call (ends_close timed_out closed) s = (end_close port timed_out closed s).0
  call (refreshes_device found) s = refresh_active_output_device port found s
  call (loses_stream e) s = on_stream_error port e s
  call (fails_recovery e) s = recovery_failed port e s

  -- The two atomics mirror what they copy, the volume is a percentage, a closed session is
  -- shutting down and asks for no recovery, the shown source is the requested one, and a session
  -- that plays, pauses or means to play has a source; one that has reached the end does not mean
  -- to play.
  pub record IsCoherent (s : SessionOf port) : Type 0 where
    pub generation_mirrored : s.requested_generation_atomic ≡ s.requested_source_generation
    pub seek_mirrored : s.requested_seek_sequence_atomic ≡ s.requested_seek_sequence
    pub volume_capped : s.state.volume_percent ≤ 100
    pub closed_shuts_down : s.closed ≡ true → s.shutting_down ≡ true
    pub no_late_recovery : s.shutting_down ≡ true → s.recovery_requested ≡ false
    pub source_shown : s.state.source_uri ≡ s.requested_source_uri
    pub playing_has_source : s.state.status ≡ playing → is_empty s.requested_source_uri ≡ false
    pub paused_has_source : s.state.status ≡ paused → is_empty s.requested_source_uri ≡ false
    pub intent_has_source :
        s.playback_intent_playing ≡ true → is_empty s.requested_source_uri ≡ false
    pub ended_stops : s.reached_end_of_stream ≡ true → s.playback_intent_playing ≡ false

  -- Every section of the transport keeps the session coherent, on all its branches.
  pub call-IsCoherent : (c : Call) (s : SessionOf port) → IsCoherent s → IsCoherent (call c s)
  unfolding call
  call-IsCoherent c s h = ground arith
