-- ===== src/Stream.antt =====
-- internal/win/wasapi_stream_handle.cpp: `wasapi_stream_handle_base`, the lifecycle of one stream
-- and its worker thread, and `start` of the render stream, which the other two repeat.
-- Each section of the code that runs under `mutex_` is one function here.
pub mod Request
pub mod Worker
pub mod RenderLoop
pub mod Rendering
pub mod RenderStart
pub mod CaptureLoop
pub mod Capturing
pub mod Invariant
use sonotide.Prelude.{
  ℕ, String, Bool, true, false, not, ◌&&◌, ◌||◌, Option, none, some, ◌==◌, if◌then◌else◌, is_some,
  value_or,
}
use sonotide.Prelude.Int.{ℤ, pos}
use sonotide.Error.{
  Error, ErrorCategory, ErrorCode, make_error, Result, VoidResult, done, success, failure,
}
use sonotide.Format.{AudioFormat}
use sonotide.Lifecycle.{
  StreamState, created, prepared, running, stopped, faulted, closed, StreamTransition, transition,
}

pub record StreamStatistics : Type 0 where
  pub callback_count : ℕ
  pub frames_processed : ℕ
  pub discontinuity_count : ℕ

abbrev pub no_statistics : StreamStatistics
no_statistics = record { callback_count = 0; frames_processed = 0; discontinuity_count = 0 }

pub record StreamStatus : Type 0 where
  pub state : StreamState
  pub requested_format : AudioFormat
  pub negotiated_format : Option AudioFormat
  pub statistics : StreamStatistics
  pub device_lost : Bool

-- The members of `wasapi_stream_handle_base` that `mutex_` guards, and the three counters.
pub record Handle : Type 0 where
  pub machine : StreamState
  pub status : StreamStatus
  pub counters : StreamStatistics
  pub stop_event : Bool
  pub worker_id : Option ℕ
  pub worker_active : Bool
  pub stop_requested : Bool
  pub startup_completed : Bool
  pub startup_error : Option Error
  pub closed : Bool

-- What a section that may have to wait for the worker does: it returns, or it waits.
pub data Progress : Type 0 where
  returns : VoidResult → Progress
  waits : Progress

abbrev pub make_invalid_state_error : String → String → Error
make_invalid_state_error = make_error ErrorCategory.stream ErrorCode.invalid_state

abbrev pub make_callback_exception_error : String → String → Error
make_callback_exception_error = make_error ErrorCategory.callback ErrorCode.callback_failed

abbrev pub is_state : StreamState → StreamState → Bool
is_state created created = true
is_state prepared prepared = true
is_state running running = true
is_state stopped stopped = true
is_state faulted faulted = true
is_state StreamState.closed StreamState.closed = true
is_state _ _ = false

abbrev pub set_state : StreamState → Handle → Handle
set_state state h = record h { status = record (h.status) { state = state } }

-- `(void)state_machine_.transition(event)`.
abbrev pub move : StreamTransition → Handle → Handle
move event h = record h { machine = (transition h.machine event).1 }

abbrev is_named : Option ℕ → ℕ → Bool
is_named none caller = false
is_named (some id) caller = id == caller

-- The constructor.
unfoldable pub make_handle : AudioFormat → Handle
make_handle requested = record {
  machine = (transition created StreamTransition.prepare).1;
  status = record {
    state = prepared;
    requested_format = requested;
    negotiated_format = none;
    statistics = no_statistics;
    device_lost = false;
  };
  counters = no_statistics;
  stop_event = false;
  worker_id = none;
  worker_active = false;
  stop_requested = false;
  startup_completed = false;
  startup_error = none;
  closed = false;
}

unfoldable pub is_worker_thread : ℕ → Handle → Bool
is_worker_thread caller h = h.worker_active && is_named h.worker_id caller

-- `stop` up to its wait for the worker.
unfoldable pub begin_stop : ℕ → Handle → Handle × Progress
begin_stop caller h =
    if h.closed
    then (
      h,
      returns (failure (make_invalid_state_error "stream::stop" "Stream is already closed.")),
    )
    else if not h.worker_active
        && (is_state h.status.state prepared || is_state h.status.state stopped)
    then (h, returns done)
    else if not h.worker_active && not (is_state h.status.state faulted)
    then (h, returns (failure (make_invalid_state_error "stream::stop" "Stream is not running.")))
    else let moved = if is_state h.machine running then move StreamTransition.stop h else h in
      (
        record moved { stop_requested = true },
        if is_worker_thread caller h
            then returns (
                failure (
                  make_invalid_state_error "stream::stop"
                    "Stop was requested from the audio callback and cannot complete synchronously; retry from a non-callback thread."))
            else waits,
      )

-- `stop` after the worker has finished.
unfoldable pub end_stop : Handle → Handle × VoidResult
end_stop h =
    (if not h.closed && not (is_state h.status.state faulted) then set_state stopped h else h, done)

-- The first section of `reset`; `none` goes on to `stop`.
unfoldable pub begin_reset : ℕ → Handle → Option VoidResult
begin_reset caller h =
    if is_worker_thread caller h
    then some (
        failure (
          make_invalid_state_error "stream::reset"
            "A stream cannot be reset from its own audio callback."))
    else none

abbrev is_invalid_state : ErrorCode → Bool
is_invalid_state ErrorCode.invalid_state = true
is_invalid_state _ = false

abbrev reset_prepared : Handle → Handle
reset_prepared h = record h {
  status = record (h.status) {
    state = prepared;
    negotiated_format = none;
    statistics = no_statistics;
    device_lost = false;
  };
  counters = no_statistics;
}

abbrev reset_by : Result StreamState × StreamState → Handle → Handle × VoidResult
reset_by (failure e, machine) h = (record h { machine = machine }, failure e)
reset_by (success state, machine) h = (reset_prepared (record h { machine = machine }), done)

abbrev reset_stopped : Handle → Handle × VoidResult
reset_stopped h =
    if h.closed
    then (h, failure (make_invalid_state_error "stream::reset" "Stream is already closed."))
    else reset_by (transition h.machine StreamTransition.reset) h

-- The last section of `reset`, after `stop` has returned its result.
unfoldable pub end_reset : VoidResult → Handle → Handle × VoidResult
end_reset (success u) h = reset_stopped h
end_reset (failure e) h = if is_invalid_state e.code then reset_stopped h else (h, failure e)

-- `close` up to its wait for the worker; after the wait it returns success.
unfoldable pub begin_close : ℕ → Handle → Handle × Progress
begin_close caller h =
    if h.closed
    then (h, returns done)
    else if is_worker_thread caller h
    then (
      record h { stop_requested = true },
      returns (
          failure (
            make_invalid_state_error "stream::close"
              "Close was requested from the audio callback and cannot complete synchronously; retry from a non-callback thread before destroying the callback.")),
    )
    else (
      record (move StreamTransition.close h) {
        stop_requested = true;
        closed = true;
        status = record (h.status) { state = StreamState.closed; negotiated_format = none };
      },
      waits,
    )

-- `status`: the snapshot, with the counters as they are.
unfoldable pub status_snapshot : Handle → StreamStatus
status_snapshot h = record (h.status) { statistics = h.counters }
