-- ===== src/Lifecycle/Graph.antt =====
-- The transition diagram of internal/state_machine.h, as a relation, and the automaton against it.
use sonotide.Prelude.{
  ◌≡◌, refl, ap, ◌≢◌, ◌↔◌, ◌⊎◌, inl, inr, List, [], ◌∷◌, ◌++◌, Bool-cases, arith,
}
use sonotide.Error.{Error, ErrorCode, success, failure}
use sonotide.Lifecycle.{
  StreamState, created, prepared, running, stopped, faulted, closed, StreamTransition, prepare,
  start, stop, reset, fault, close, can_transition, next_state, transition,
  make_invalid_transition_error,
}

-- The states from which a worker can be started.
pub data IsStartable : StreamState → Type 0 where
  prepared_startable : IsStartable prepared
  stopped_startable : IsStartable stopped

-- The edges of the diagram: an event leads from one state to another.
pub data Edge : StreamState → StreamTransition → StreamState → Type 0 where
  prepares : Edge created prepare prepared
  starts : {s : StreamState} → IsStartable s → Edge s start running
  stops : Edge running stop stopped
  resets : {s : StreamState} → IsStartable s → Edge s reset prepared
  recovers : Edge faulted reset prepared
  faults : {s : StreamState} → s ≢ faulted → s ≢ closed → Edge s fault faulted
  closes : {s : StreamState} → s ≢ closed → Edge s close closed

Edge-transition :
    {s t : StreamState} {e : StreamTransition} → Edge s e t → transition s e ≡ (success t, t)
unfolding transition
Edge-transition prepares = refl
Edge-transition (starts prepared_startable) = refl
Edge-transition (starts stopped_startable) = refl
Edge-transition stops = refl
Edge-transition (resets prepared_startable) = refl
Edge-transition (resets stopped_startable) = refl
Edge-transition recovers = refl
Edge-transition (faults sound unclosed) = ground arith
Edge-transition (closes unclosed) = ground arith

transition-Edge :
    (s t : StreamState) (e : StreamTransition) → (transition s e).0 ≡ success t → Edge s e t
unfolding transition
transition-Edge s t e h = grind (
  arith, prepares, starts, stops, resets, recovers, faults, closes, prepared_startable,
  stopped_startable,
)

-- The automaton accepts an event exactly when the diagram has an edge for it, and then it reports
-- and keeps the state that the edge leads to.
pub transition-success_iff :
    (s t : StreamState) (e : StreamTransition) → (transition s e ≡ (success t, t)) ↔ Edge s e t
transition-success_iff s t e = ((λ h. transition-Edge s t e (ap (λ r. r.0) h)), Edge-transition)

-- Every event either follows an edge of the diagram, or is refused with the error of the code
-- `invalid_state`, and then the state stays.
pub transition_total :
    (s : StreamState) (e : StreamTransition)
    → ((t : StreamState) × Edge s e t × (transition s e ≡ (success t, t)))
      ⊎ ((x : Error) × (x.code ≡ ErrorCode.invalid_state) × (transition s e ≡ (failure x, s)))
unfolding transition can_transition
transition_total s e = elim (Bool-cases (can_transition s e)) [
  | inl yes_edge ↦
      let r : transition s e ≡ (success (next_state s e), next_state s e) = rw yes_edge in
      inl (next_state s e, transition-Edge s (next_state s e) e (ap (λ r. r.0) r), r)
  | inr no_edge ↦ inr (make_invalid_transition_error s e, refl, rw no_edge)
]

-- The state after a sequence of events, the refused ones included.
pub after : StreamState → List StreamTransition → StreamState
after s [] = s
after s (e ∷ es) = after (transition s e).1 es

-- A closed stream stays closed, whatever is asked of it.
pub after-closed : (es : List StreamTransition) → after closed es ≡ closed
unfolding after transition
after-closed [] = refl
after-closed (prepare ∷ es) = after-closed es
after-closed (start ∷ es) = after-closed es
after-closed (stop ∷ es) = after-closed es
after-closed (reset ∷ es) = after-closed es
after-closed (fault ∷ es) = after-closed es
after-closed (close ∷ es) = after-closed es

-- The events that bring a stream back to `prepared`.
abbrev pub recovery : StreamState → List StreamTransition
recovery created = prepare ∷ []
recovery running = stop ∷ reset ∷ []
recovery s = reset ∷ []

-- Any stream that is not closed can be brought to `prepared`, and from there to `running`.
pub after-recovery :
    (s : StreamState)
    → s ≢ closed
    → (after s (recovery s) ≡ prepared) × (after s (recovery s ++ start ∷ []) ≡ running)
unfolding after transition
after-recovery created h = (refl, refl)
after-recovery prepared h = (refl, refl)
after-recovery running h = (refl, refl)
after-recovery stopped h = (refl, refl)
after-recovery faulted h = (refl, refl)
after-recovery closed h = absurd (h refl)
