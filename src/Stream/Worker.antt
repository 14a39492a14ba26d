-- ===== src/Stream/Worker.antt =====
-- internal/win/wasapi_stream_handle.cpp: the start of a stream and what its worker thread does to
-- the handle.
use sonotide.Prelude.{
  ℕ, String, Bool, true, false, not, ◌&&◌, ◌||◌, Option, none, some, if◌then◌else◌, value_or, ◌+◌,
}
use sonotide.Prelude.Int.{ℤ, pos}
use sonotide.Error.{Error, Result, VoidResult, done, success, failure}
use sonotide.Format.{AudioFormat}
use sonotide.Timing.{u64}
use sonotide.Lifecycle.{StreamState, running, stopped, faulted, StreamTransition, transition}
use sonotide.Stream.{
  Handle, Progress, returns, waits, make_invalid_state_error, make_callback_exception_error,
  is_state, set_state, move,
}

-- What the system answers to `launch_worker`: whether the handle is shared, whether the event
-- could be made, and the worker's identifier or the message of the exception.
pub record Launch : Type 0 where
  pub is_shared : Bool
  pub event_made : Bool
  pub thread : Result ℕ

unfoldable pub launch_worker : Launch → Handle → Handle × VoidResult
launch_worker l h =
    if not l.is_shared
    then (
      h,
      failure (
          make_invalid_state_error "stream::start"
            "Stream handle is not managed by shared ownership."),
    )
    else if not l.event_made
    then (
      record h { stop_event = false },
      failure (make_invalid_state_error "stream::start" "Failed to allocate stop event."),
    )
    else let ready : Handle = record h {
      stop_event = true;
      stop_requested = false;
      startup_completed = false;
      startup_error = none;
      worker_active = true;
    } in
      elim l.thread [
        | success id ↦ (record ready { worker_id = some id }, done)
        | failure e ↦ (
          record ready { worker_active = false; worker_id = none; stop_event = false },
          failure (make_callback_exception_error "std::thread" e.message),
        )
      ]

abbrev launched : Handle × VoidResult → Handle × Progress
launched (h, success u) = (h, waits)
launched (h, failure e) = (set_state faulted (move StreamTransition.fault h), returns (failure e))

abbrev start_by : Launch → Result StreamState × StreamState → Handle → Handle × Progress
start_by l (failure e, machine) h = (record h { machine = machine }, returns (failure e))
start_by l (success state, machine) h = launched (launch_worker l (record h { machine = machine }))

abbrev start_valid : Launch → VoidResult → Handle → Handle × Progress
start_valid l (failure e) h = (h, returns (failure e))
start_valid l (success u) h = start_by l (transition h.machine StreamTransition.start) h

-- `start` up to its wait for the worker's report, given what the validation of the request says.
unfoldable pub begin_start : Launch → VoidResult → Handle → Handle × Progress
begin_start l validation h =
    if h.closed
    then (
      h,
      returns
          (failure (make_invalid_state_error "render_stream::start" "Stream is already closed.")),
    )
    else if h.worker_active
    then (
      h,
      returns (
          failure (
            make_invalid_state_error "render_stream::start"
              "The previous audio worker has not finished stopping yet.")),
    )
    else start_valid l validation h

-- `start` after the report, and after a failed one after the worker's end.
unfoldable pub end_start : Handle → Handle × VoidResult
end_start h = elim h.startup_error [ none ↦ (set_state running h, done) | some e ↦ (h, failure e) ]

unfoldable pub set_startup_result : Option Error → Handle → Handle
set_startup_result outcome h = record h { startup_error = outcome; startup_completed = true }

-- The section of the worker that follows the start of the audio client; whether it was cancelled.
unfoldable pub publish_started : AudioFormat → Handle → Handle × Bool
publish_started format h =
    if h.stop_requested || h.closed
    then (
      set_startup_result
          (some (
            make_invalid_state_error "render_stream::start"
              "Stream startup was cancelled by a concurrent stop or close."))
          h,
      true,
    )
    else (
      set_startup_result none (record h {
        status = record (h.status) { negotiated_format = some format; state = running };
      }),
      false,
    )

unfoldable pub publish_startup_failure : Error → Handle → Handle
publish_startup_failure e h = set_startup_result (some e) (
    if not h.closed && is_state h.machine running
    then set_state faulted (move StreamTransition.fault h)
    else h)

unfoldable pub cancel_startup_if_requested : String → Handle → Handle × Bool
cancel_startup_if_requested operation h =
    if not h.stop_requested && not h.closed then (h, false) else (
      set_startup_result
          (some (
            make_invalid_state_error operation
              "Stream startup was cancelled by a concurrent stop or close."))
          h,
      true,
    )

-- The counters after one callback.
unfoldable pub count_callback : ℕ → Handle → Handle
count_callback frames h = record h {
  counters = record (h.counters) {
    callback_count = u64 (h.counters.callback_count + 1);
    frames_processed = u64 (h.counters.frames_processed + frames);
  };
}

-- The tail of `worker_entry`.
unfoldable pub finish_worker : Handle → Handle
finish_worker h =
    let reported : Handle =
      if not h.startup_completed
      then set_startup_result
          (some (
            make_callback_exception_error "stream::worker"
              "Audio worker exited before completing startup."))
          h
      else h in
    let ended : Handle = record reported {
      worker_active = false;
      worker_id = none;
      stop_event = false;
    } in
    if not ended.closed && not (is_state ended.status.state faulted)
    then set_state stopped ended
    else ended

unfoldable pub publish_emergency_worker_failure : Handle → Handle
publish_emergency_worker_failure h =
    record (if not h.closed then set_state faulted (move StreamTransition.fault h) else h) {
      startup_completed = true;
    }

-- `is_device_lost_hresult` compares with the codes of the Windows SDK, so it is a parameter.
module _ (is_device_lost_hresult : ℤ → Bool) where
  abbrev note_loss : Error → Handle → Handle
  note_loss e h =
      if is_device_lost_hresult (value_or e.native_code (pos 0))
      then record h { status = record (h.status) { device_lost = true } }
      else h

  -- `record_runtime_error`, and whether the callback is told.
  unfoldable pub record_runtime_error : Error → Handle → Handle × Bool
  record_runtime_error e h =
      if not h.closed
      then (set_state faulted (move StreamTransition.fault (note_loss e h)), true)
      else (note_loss e h, false)

  unfoldable pub publish_unhandled_worker_exception : String → Handle → Handle
  unfolding publish_startup_failure record_runtime_error
  publish_unhandled_worker_exception message h =
      let e = make_callback_exception_error "stream::worker" message in
      if not h.startup_completed then publish_startup_failure e h else (record_runtime_error e h).0
