-- ===== src/Session/Transport/Recovery.antt =====
-- The status of the equalizer after a lost device has been recovered.
use sonotide.Prelude.{ℕ, ◌≡◌, String, Bool, true, false, Option, none, some, arith}
use sonotide.Prelude.Int.{ℤ}
use sonotide.Error.{Error, VoidResult, success, failure}
use sonotide.Session.{
  EqualizerPort, eq_audio_engine_unavailable, SessionOf, recompute_equalizer_metadata,
}
use sonotide.Session.Transport.{
  load, play, pause, seek_to, set_volume_percent, begin_close, end_close,
}
use sonotide.Session.Transport.Device.{on_stream_error, take_recovery, refresh_active_output_device}
use sonotide.Session.Transport.Invariant.{
  call, Call, loads, plays, pauses, closes, takes_recovery, seeks, sets_volume, ends_close,
  refreshes_device, selects, loses_stream, fails_recovery,
}

-- The calls by which a session recovers a device and goes on playing: all but the selection of a
-- device and the two reports of a failure.
pub data IsRoutine : Call → Type 0 where
  loads_routine : {uri : String} → IsRoutine (loads uri)
  plays_routine : IsRoutine plays
  pauses_routine : IsRoutine pauses
  closes_routine : IsRoutine closes
  takes_recovery_routine : IsRoutine takes_recovery
  seeks_routine : {position : ℤ} → IsRoutine (seeks position)
  sets_volume_routine : {volume : ℤ} → IsRoutine (sets_volume volume)
  ends_close_routine : {late : Bool} {closed : VoidResult} → IsRoutine (ends_close late closed)
  refreshes_device_routine :
      {found : Option (String × String × Bool)} → IsRoutine (refreshes_device found)

module _ (port : EqualizerPort) where
  -- A session whose equalizer is unavailable.
  abbrev pub IsUnavailable : SessionOf port → Type 0
  IsUnavailable s = port.status s.equalizer ≡ eq_audio_engine_unavailable

  call-IsUnavailable :
      (c : Call) (s : SessionOf port)
      → IsRoutine c
      → IsUnavailable s
      → IsUnavailable (call port c s)
  unfolding call load play pause seek_to set_volume_percent begin_close end_close take_recovery
      refresh_active_output_device
  call-IsUnavailable (loads uri) s loads_routine h =
      ground (arith, port.status-set_error_message "" s.equalizer)
  call-IsUnavailable plays s plays_routine h = ground arith
  call-IsUnavailable pauses s pauses_routine h = ground arith
  call-IsUnavailable closes s closes_routine h = ground arith
  call-IsUnavailable takes_recovery s takes_recovery_routine h = ground arith
  call-IsUnavailable (seeks position) s seeks_routine h = ground arith
  call-IsUnavailable (sets_volume volume) s sets_volume_routine h = ground arith
  call-IsUnavailable (ends_close late (success u)) s ends_close_routine h = ground arith
  call-IsUnavailable (ends_close late (failure e)) s ends_close_routine h = ground arith
  call-IsUnavailable (refreshes_device none) s refreshes_device_routine h = h
  call-IsUnavailable (refreshes_device (some found)) s refreshes_device_routine h = h
  call-IsUnavailable (selects device) s routine h = elim routine [ ]
  call-IsUnavailable (loses_stream e) s routine h = elim routine [ ]
  call-IsUnavailable (fails_recovery e) s routine h = elim routine [ ]

  recompute-IsUnavailable :
      (rate : ℕ) (s : SessionOf port)
      → IsUnavailable s
      → IsUnavailable (recompute_equalizer_metadata port rate s)
  unfolding recompute_equalizer_metadata
  recompute-IsUnavailable rate s h =
      ground (arith, port.status-set_headroom (port.target_preamp rate s.equalizer) s.equalizer)

  lost-IsUnavailable :
      (e : Error) (s : SessionOf port)
      → s.shutting_down ≡ false
      → s.config.auto_recover_device_loss ≡ true
      → IsUnavailable (on_stream_error port e s)
  unfolding on_stream_error
  lost-IsUnavailable e s open_session recovers =
      let unavailable = port.set_status eq_audio_engine_unavailable s.equalizer in
      ground (
        arith,
        port.status-set_error_message e.message unavailable,
        port.status-set_status eq_audio_engine_unavailable s.equalizer,
      )

  -- What can follow on a session: any order of routine calls and of recomputations, which every
  -- change of the equalizer and every published pipeline end with.
  pub data Follows (s : SessionOf port) : SessionOf port → Type 0 where
    here : Follows s s
    then_call :
        {t : SessionOf port} (c : Call) → IsRoutine c → Follows s t → Follows s (call port c t)
    then_recompute :
        {t : SessionOf port} (rate : ℕ)
        → Follows s t
        → Follows s (recompute_equalizer_metadata port rate t)

  Follows-IsUnavailable : {s t : SessionOf port} → Follows s t → IsUnavailable s → IsUnavailable t
  Follows-IsUnavailable here h = h
  Follows-IsUnavailable (then_call {t} c routine f) h =
      call-IsUnavailable c t routine (Follows-IsUnavailable f h)
  Follows-IsUnavailable (then_recompute {t} rate f) h =
      recompute-IsUnavailable rate t (Follows-IsUnavailable f h)

  -- After the loss of the device of an open session that recovers by itself, the equalizer is
  -- shown as unavailable, and stays so through every order of the calls that are neither the
  -- selection of a device nor the report of a failure, the recovery among them, and of
  -- recomputations.
  pub on_stream_error-IsUnavailable :
      (e : Error) (s t : SessionOf port)
      → s.shutting_down ≡ false
      → s.config.auto_recover_device_loss ≡ true
      → Follows (on_stream_error port e s) t
      → IsUnavailable t
  on_stream_error-IsUnavailable e s t open_session recovers f =
      Follows-IsUnavailable f (lost-IsUnavailable e s open_session recovers)
