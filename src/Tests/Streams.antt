-- ===== src/Tests/Streams.antt =====
-- The lifecycle automaton and the stream handle.
use sonotide.Prelude.{◌≡◌, ◌↔◌, refl, Bool, true, false, [], ◌∷◌, ◌++◌, arith}
use sonotide.Prelude.Int.{ℤ}
use sonotide.Error.{done, success, failure}
use sonotide.Format.{no_format}
use sonotide.Lifecycle.{prepared, running, faulted, start, fault, transition}
use sonotide.Lifecycle.Graph.{Edge, transition-success_iff, after, after-recovery, recovery}
use sonotide.Stream.{
  Handle, returns, make_invalid_state_error, make_handle, begin_stop, begin_close, is_worker_thread,
}
use sonotide.Stream.Worker.{
  Launch, launch_worker, begin_start, end_start, set_startup_result, publish_started, finish_worker,
  record_runtime_error,
}
use sonotide.Stream.Invariant.{
  IsSound, starts, reports, Reachable, is_made, after_step, Reachable-IsSound,
  end_start-record_runtime_error, end_start-begin_close,
}
use sonotide.Tests.Samples.{stereo, a_fault}

transition-success_iff_example :
    (transition running fault ≡ (success faulted, faulted)) ↔ Edge running fault faulted
transition-success_iff_example = transition-success_iff running faulted fault

after-recovery_example :
    (after faulted (recovery faulted) ≡ prepared)
    × (after faulted (recovery faulted ++ start ∷ []) ≡ running)
after-recovery_example = after-recovery faulted (λ e. absurd (ground arith))

-- No error of the tests is a loss of the device.
abbrev never_lost : ℤ → Bool
never_lost code = false

abbrev a_launch : Launch
a_launch = record { is_shared = true; event_made = true; thread = success 7 }

-- A handle whose worker has been a_launch, and one whose worker has reported its start.
abbrev starting : Handle
starting = (begin_start a_launch done (make_handle no_format)).0

abbrev started : Handle
started = (publish_started stereo starting).0

started-Reachable : Reachable never_lost started
unfolding begin_start launch_worker make_handle transition
started-Reachable =
    after_step (after_step (is_made no_format) (starts a_launch done)) (reports stereo refl refl)

Reachable-IsSound_example : IsSound started
Reachable-IsSound_example = Reachable-IsSound never_lost started-Reachable

end_start-record_runtime_error_example :
    let t = end_start (finish_worker (record_runtime_error never_lost a_fault started).0) in
    (t.1 ≡ done)
    × (t.0.status.state ≡ running)
    × (t.0.machine ≡ faulted)
    × (t.0.worker_active ≡ false)
    × ((begin_stop 1 t.0).1
        ≡ returns (failure (make_invalid_state_error "stream::stop" "Stream is not running.")))
unfolding begin_start launch_worker make_handle transition publish_started set_startup_result
end_start-record_runtime_error_example =
    end_start-record_runtime_error never_lost 1 a_fault started refl refl refl
      (Reachable-IsSound never_lost started-Reachable)

end_start-begin_close_example :
    let t = end_start (begin_close 1 started).0 in
    (t.1 ≡ done) × (t.0.status.state ≡ running) × (t.0.closed ≡ true)
unfolding begin_start launch_worker make_handle transition publish_started set_startup_result
    is_worker_thread
end_start-begin_close_example = end_start-begin_close never_lost 1 started refl refl refl

-- A stream that has started shows its format and is running.
started-running : started.status.state ≡ running
unfolding begin_start launch_worker make_handle transition publish_started set_startup_result
started-running = refl
