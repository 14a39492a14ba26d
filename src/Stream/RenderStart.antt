-- ===== src/Stream/RenderStart.antt =====
-- internal/win/wasapi_stream_handle.cpp: `worker_main` of the render stream, up to its loop. What
-- `initialize_audio_client` and the system answer is an argument, and so is what other threads do
-- to the handle between two sections.
use sonotide.Prelude.{
  ℕ, ◌≡◌, ◌⊎◌, inl, inr, refl, Bool, true, false, not, ◌&&◌, ◌||◌, none, some, List, [], ◌∷◌, ◌++◌,
  if◌then◌else◌, if_intro, Bool-cases, arith,
}
use sonotide.Prelude.Int.{ℤ}
use sonotide.Error.{Error, ErrorCategory, ErrorCode, VoidResult, done, success, failure, ◌>>◌}
use sonotide.Hresult.{is_failed, map_hresult}
use sonotide.Format.{AudioFormat}
use sonotide.Stream.{Handle}
use sonotide.Stream.Worker.{
  publish_startup_failure, cancel_startup_if_requested, publish_started, set_startup_result,
}
use sonotide.Stream.RenderLoop.{ClientCall, get_buffer, release_buffer, stop_client}

pub record StartAnswers : Type 0 where
  pub apartment : VoidResult
  pub client : VoidResult
  pub service_hr : ℤ
  pub prefill_with_silence : Bool
  pub buffer_frame_count : ℕ
  pub buffer_hr : ℤ
  pub release_hr : ℤ
  pub start_hr : ℤ
  pub public_format : AudioFormat

-- The handle, the calls of the client, and whether the loop is entered.
pub record Started : Type 0 where
  pub handle : Handle
  pub calls : List ClientCall
  pub enters_loop : Bool

-- The publication of the start. A client that was start_client and is then cancelled is stopped.
abbrev publish_start : List ClientCall → Handle × Bool → Started
publish_start calls (h, true) = record {
  handle = h;
  calls = calls ++ stop_client ∷ [];
  enters_loop = false;
}
publish_start calls (h, false) = record { handle = h; calls = calls; enters_loop = true }

abbrev start_client : StartAnswers → List ClientCall → (Handle → Handle) → Handle × Bool → Started
start_client a calls others (h, true) = record { handle = h; calls = calls; enters_loop = false }
start_client a calls others (h, false) =
    if is_failed a.start_hr
    then record {
      handle =
          publish_startup_failure
            (map_hresult "IAudioClient::Start" a.start_hr ErrorCategory.stream
              ErrorCode.stream_start_failed false)
            (others h);
      calls = calls;
      enters_loop = false;
    }
    else publish_start calls (publish_started a.public_format (others h))

abbrev start_after :
    StartAnswers → (Handle → Handle) → Handle → List ClientCall × VoidResult → Started
start_after a others h (calls, failure e) = record {
  handle = publish_startup_failure e h;
  calls = calls;
  enters_loop = false;
}
start_after a others h (calls, success u) =
    start_client a calls others (cancel_startup_if_requested "render_stream::start" h)

-- A startup that has reported: success where the loop is entered, with no stop and no close
-- requested, and an error elsewhere.
pub record IsReported (r : Started) : Type 0 where
  pub is_completed : r.handle.startup_completed ≡ true
  pub outcome :
      ((r.enters_loop ≡ true)
        × (r.handle.startup_error ≡ none)
        × (r.handle.stop_requested ≡ false)
        × (r.handle.closed ≡ false))
      ⊎ ((r.enters_loop ≡ false) × (e : Error) × (r.handle.startup_error ≡ some e))

failure-IsReported :
    (e : Error) (h : Handle) (calls : List ClientCall)
    → IsReported
        (record { handle = publish_startup_failure e h; calls = calls; enters_loop = false })
unfolding publish_startup_failure set_startup_result
failure-IsReported e h calls = record { is_completed = refl; outcome = inr (refl, e, refl) }

publish_start-IsReported :
    (calls : List ClientCall) (format : AudioFormat) (h : Handle)
    → IsReported (publish_start calls (publish_started format h))
unfolding publish_started set_startup_result
publish_start-IsReported calls format h = elim (Bool-cases (h.stop_requested || h.closed)) [
  | inl e ↦ rw e (record { is_completed = refl; outcome = inr (refl, _, refl) })
  | inr e ↦ rw e (record {
    is_completed = refl;
    outcome = inl (refl, refl, ground (arith, e), ground (arith, e));
  })
]

start_client-IsReported :
    (a : StartAnswers) (calls : List ClientCall) (others : Handle → Handle) (h : Handle)
    → IsReported
        (start_client a calls others (cancel_startup_if_requested "render_stream::start" h))
unfolding cancel_startup_if_requested set_startup_result
start_client-IsReported a calls others h =
    elim (Bool-cases (not h.stop_requested && not h.closed)) [
      | inl e ↦ rw e (
          if_intro IsReported (is_failed a.start_hr) (λ _. failure-IsReported _ (others h) calls)
            (λ _. publish_start-IsReported calls a.public_format (others h)))
      | inr e ↦ rw e (record { is_completed = refl; outcome = inr (refl, _, refl) })
    ]

start_after-IsReported :
    (a : StartAnswers) (others : Handle → Handle) (h : Handle) (calls : List ClientCall)
    (r : VoidResult)
    → IsReported (start_after a others h (calls, r))
start_after-IsReported a others h calls (failure e) = failure-IsReported e h calls
start_after-IsReported a others h calls (success u) = start_client-IsReported a calls others h

module _ (is_device_lost_hresult : ℤ → Bool) where
  -- The silence before the start of the client.
  unfoldable pub prefill : StartAnswers → List ClientCall × VoidResult
  prefill a =
      if not a.prefill_with_silence
      then ([], done)
      else if is_failed a.buffer_hr
      then (
        [],
        failure (
            map_hresult "IAudioRenderClient::GetBuffer" a.buffer_hr ErrorCategory.stream
              ErrorCode.stream_open_failed false),
      )
      else (
        get_buffer a.buffer_frame_count ∷ release_buffer a.buffer_frame_count true ∷ [],
        if is_failed a.release_hr
            then failure (
                map_hresult "IAudioRenderClient::ReleaseBuffer" a.release_hr ErrorCategory.stream
                  ErrorCode.stream_start_failed (is_device_lost_hresult a.release_hr))
            else done,
      )

  abbrev service : StartAnswers → VoidResult
  service a =
      if is_failed a.service_hr
      then failure (
          map_hresult "IAudioClient::GetService(IAudioRenderClient)" a.service_hr
            ErrorCategory.stream ErrorCode.stream_open_failed false)
      else done

  -- The calls before the first test of the cancellation.
  abbrev prefill_after : StartAnswers → VoidResult → List ClientCall × VoidResult
  prefill_after a (failure e) = ([], failure e)
  prefill_after a (success u) = prefill a

  unfoldable pub prepare_render : StartAnswers → List ClientCall × VoidResult
  prepare_render a = prefill_after a (a.apartment >> (a.client >> service a))

  -- `others` is what other threads do while the client starts.
  unfoldable pub start_render : StartAnswers → (Handle → Handle) → Handle → Started
  start_render a others h = start_after a others h (prepare_render a)

  -- Whatever the system answers and whatever other threads do meanwhile, the startup of the render
  -- worker reports, so that the waiting `start` wakes up. It enters its loop exactly when the report
  -- has no error, and then no stop and no close was requested at the report; otherwise it reports
  -- an error.
  pub start_render-IsReported :
      (a : StartAnswers) (others : Handle → Handle) (h : Handle)
      → IsReported (start_render a others h)
  unfolding start_render
  start_render-IsReported a others h =
      start_after-IsReported a others h (prepare_render a).0 (prepare_render a).1
