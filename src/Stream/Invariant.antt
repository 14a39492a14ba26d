-- ===== src/Stream/Invariant.antt =====
-- The state of a stream handle between its sections, whatever the callers and the worker do.
use sonotide.Prelude.{ℕ, ◌≡◌, String, Bool, true, false, none, arith}
use sonotide.Prelude.Int.{ℤ}
use sonotide.Error.{Error, VoidResult, done, success, failure}
use sonotide.Format.{AudioFormat}
use sonotide.Lifecycle.{running, faulted, closed, transition}
use sonotide.Stream.{
  Handle, returns, make_invalid_state_error, make_handle, is_worker_thread, begin_stop, end_stop,
  end_reset, begin_close,
}
use sonotide.Stream.Worker.{
  Launch, launch_worker, begin_start, end_start, set_startup_result, publish_started,
  publish_startup_failure, cancel_startup_if_requested, count_callback, finish_worker,
  publish_emergency_worker_failure, record_runtime_error, publish_unhandled_worker_exception,
}

-- The machine and the status agree on a closed and on a faulted stream, a worker has its stop
-- event, and one that is starting and not asked to stop finds the machine running.
pub record IsSound (h : Handle) : Type 0 where
  pub closed_machine : h.closed ≡ true → h.machine ≡ closed
  pub machine_closed : h.machine ≡ closed → h.closed ≡ true
  pub closed_status : h.closed ≡ true → h.status.state ≡ closed
  pub status_closed : h.status.state ≡ closed → h.closed ≡ true
  pub faulted_machine : h.status.state ≡ faulted → h.machine ≡ faulted
  pub machine_faulted : h.machine ≡ faulted → h.status.state ≡ faulted
  pub has_event : h.worker_active ≡ true → h.stop_event ≡ true
  pub starting :
      h.worker_active ≡ true
      → h.startup_completed ≡ false
      → h.stop_requested ≡ false
      → h.closed ≡ false
      → h.machine ≡ running

module _ (is_device_lost_hresult : ℤ → Bool) where
  -- One section of a caller or of the worker, which runs only while it is active. The end of
  -- `start` is not among them.
  pub data Step : Handle → Handle → Type 0 where
    stops : {h : Handle} (caller : ℕ) → Step h (begin_stop caller h).0
    ends_stop : {h : Handle} → h.worker_active ≡ false → Step h (end_stop h).0
    resets : {h : Handle} (outcome : VoidResult) → Step h (end_reset outcome h).0
    closes : {h : Handle} (caller : ℕ) → Step h (begin_close caller h).0
    starts :
        {h : Handle} (l : Launch) (validation : VoidResult) → Step h (begin_start l validation h).0
    reports :
        {h : Handle} (format : AudioFormat)
        → h.worker_active ≡ true
        → h.startup_completed ≡ false
        → Step h (publish_started format h).0
    fails :
        {h : Handle} (e : Error)
        → h.worker_active ≡ true
        → h.startup_completed ≡ false
        → Step h (publish_startup_failure e h)
    cancels :
        {h : Handle} (operation : String)
        → h.worker_active ≡ true
        → h.startup_completed ≡ false
        → Step h (cancel_startup_if_requested operation h).0
    counts : {h : Handle} (frames : ℕ) → h.worker_active ≡ true → Step h (count_callback frames h)
    errs :
        {h : Handle} (e : Error)
        → h.worker_active ≡ true
        → h.startup_completed ≡ true
        → Step h (record_runtime_error is_device_lost_hresult e h).0
    throws :
        {h : Handle} (message : String)
        → h.worker_active ≡ true
        → Step h (publish_unhandled_worker_exception is_device_lost_hresult message h)
    gives_up : {h : Handle} → h.worker_active ≡ true → Step h (publish_emergency_worker_failure h)
    finishes : {h : Handle} → h.worker_active ≡ true → Step h (finish_worker h)

  pub Step-IsSound : {h t : Handle} → Step h t → IsSound h → IsSound t
  unfolding begin_stop end_stop end_reset begin_close begin_start launch_worker publish_started
      publish_startup_failure set_startup_result cancel_startup_if_requested count_callback
      record_runtime_error publish_unhandled_worker_exception publish_emergency_worker_failure
      finish_worker transition
  Step-IsSound (stops {h} caller) s = ground arith
  Step-IsSound (ends_stop {h} idle) s = ground arith
  Step-IsSound (resets {h} (success u)) s = ground arith
  Step-IsSound (resets {h} (failure e)) s = ground arith
  Step-IsSound (closes {h} caller) s = ground arith
  Step-IsSound (starts {h} l (failure e)) s = ground arith
  Step-IsSound (starts {h} l (success u)) s = ground arith
  Step-IsSound (reports {h} format active pending) s = ground arith
  Step-IsSound (fails {h} e active pending) s = ground arith
  Step-IsSound (cancels {h} operation active pending) s = ground arith
  Step-IsSound (counts {h} frames active) s = ground arith
  Step-IsSound (errs {h} e active reported) s = ground arith
  Step-IsSound (throws {h} message active) s = ground arith
  Step-IsSound (gives_up {h} active) s = ground arith
  Step-IsSound (finishes {h} active) s = ground arith

  -- What the sections can make of a new handle.
  pub data Reachable : Handle → Type 0 where
    is_made : (requested : AudioFormat) → Reachable (make_handle requested)
    after_step : {h t : Handle} → Reachable h → Step h t → Reachable t

  make_handle-IsSound : (requested : AudioFormat) → IsSound (make_handle requested)
  unfolding make_handle transition
  make_handle-IsSound requested = ground arith

  -- A handle stays sound from its construction on, through every order in which the sections of
  -- the callers and of the worker can come, as long as the end of `start` is not among them.
  pub Reachable-IsSound : {h : Handle} → Reachable h → IsSound h
  Reachable-IsSound (is_made requested) = make_handle-IsSound requested
  Reachable-IsSound (after_step r step) = Step-IsSound step (Reachable-IsSound r)

  -- The end of `start` can hide a fault: when the worker has reported its start, and then fails
  -- and finishes before the caller of `start` wakes, `start` reports success and the status says
  -- `running`, with no worker and the machine in `faulted`; a `stop` is then refused.
  pub end_start-record_runtime_error :
      (caller : ℕ) (e : Error) (h : Handle)
      → h.closed ≡ false
      → h.startup_completed ≡ true
      → h.startup_error ≡ none
      → IsSound h
      → let t = end_start (finish_worker (record_runtime_error is_device_lost_hresult e h).0) in
        (t.1 ≡ done)
        × (t.0.status.state ≡ running)
        × (t.0.machine ≡ faulted)
        × (t.0.worker_active ≡ false)
        × ((begin_stop caller t.0).1
            ≡ returns (failure (make_invalid_state_error "stream::stop" "Stream is not running.")))
  unfolding end_start finish_worker record_runtime_error begin_stop transition
  end_start-record_runtime_error caller e h c q n s =
      (ground arith, ground arith, ground arith, ground arith, ground arith)

  -- The same way it can reopen a closed handle in its status: a `close` from another thread that
  -- comes before the caller of `start` wakes leaves the status `running` on a closed handle.
  pub end_start-begin_close :
      (caller : ℕ) (h : Handle)
      → h.closed ≡ false
      → h.startup_error ≡ none
      → is_worker_thread caller h ≡ false
      → let t = end_start (begin_close caller h).0 in
        (t.1 ≡ done) × (t.0.status.state ≡ running) × (t.0.closed ≡ true)
  unfolding end_start begin_close
  end_start-begin_close caller h c n w = (ground arith, ground arith, ground arith)
