-- ===== src/Lifecycle.antt =====
-- internal/state_machine.h, internal/state_machine.cpp and include/sonotide/stream_state.h: the
-- lifecycle automaton of one audio stream.
pub mod Graph
use sonotide.Prelude.{String, Bool, true, false, if◌then◌else◌, ◌==◌, ℕ}
use sonotide.Error.{Result, success, failure, Error, ErrorCategory, ErrorCode, make_error}
use Prim.Native.String.{◌++◌}

pub data StreamState : Type 0 where
  created prepared running stopped faulted closed : StreamState

pub data StreamTransition : Type 0 where
  prepare start stop reset fault close : StreamTransition

-- `static_cast<int>` of an enumerator, printed by `std::to_string`.
abbrev state_number : StreamState → String
state_number created = "0"
state_number prepared = "1"
state_number running = "2"
state_number stopped = "3"
state_number faulted = "4"
state_number closed = "5"

abbrev transition_number : StreamTransition → String
transition_number prepare = "0"
transition_number start = "1"
transition_number stop = "2"
transition_number reset = "3"
transition_number fault = "4"
transition_number close = "5"

pub make_invalid_transition_error : StreamState → StreamTransition → Error
make_invalid_transition_error state event =
    make_error ErrorCategory.stream ErrorCode.invalid_state "stream_state_machine::transition" (
      "Illegal stream transition from state "
      ++ state_number state
      ++ " using transition "
      ++ transition_number event
      ++ ".")

pub next_state : StreamState → StreamTransition → StreamState
next_state current prepare = prepared
next_state current start = running
next_state current stop = stopped
next_state current reset = prepared
next_state current fault = faulted
next_state current close = closed

unfoldable pub can_transition : StreamState → StreamTransition → Bool
can_transition created prepare = true
can_transition created fault = true
can_transition created close = true
can_transition prepared start = true
can_transition prepared reset = true
can_transition prepared fault = true
can_transition prepared close = true
can_transition running stop = true
can_transition running fault = true
can_transition running close = true
can_transition stopped start = true
can_transition stopped reset = true
can_transition stopped fault = true
can_transition stopped close = true
can_transition faulted reset = true
can_transition faulted close = true
can_transition _ _ = false

-- The method returns its result and the state that the machine has after the call.
unfoldable pub transition : StreamState → StreamTransition → Result StreamState × StreamState
unfolding next_state make_invalid_transition_error can_transition
transition state event =
    if can_transition state event
    then (success (next_state state event), next_state state event)
    else (failure (make_invalid_transition_error state event), state)
