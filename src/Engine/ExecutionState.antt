-- ===== src/Engine/ExecutionState.antt =====
-- The life cycle of a sequence: cpp/include/infersched/engine/execution_state.hpp and
-- cpp/src/execution_state.cpp.
use infer_sched_distributed.Base.{
  ◌≡◌, ◌↔◌, refl, arith, Bool, true, false, ◌||◌, String, if◌then◌else◌, List, [], ◌∷◌,
}

pub data ExecutionState : Type 0 where
  waiting_admission prefill decode preempted completed failed : ExecutionState

-- `==` of the enumeration.
abbrev pub same_state : ExecutionState → ExecutionState → Bool
same_state waiting_admission waiting_admission = true
same_state prefill prefill = true
same_state decode decode = true
same_state preempted preempted = true
same_state completed completed = true
same_state failed failed = true
same_state _ _ = false

-- The `switch` of `CanTransition`.
abbrev can_leave : ExecutionState → ExecutionState → Bool
can_leave waiting_admission to = same_state to prefill
can_leave prefill to = same_state to decode || same_state to preempted
can_leave decode to = same_state to completed || same_state to preempted
can_leave preempted to = same_state to waiting_admission
can_leave completed to = false
can_leave failed to = false

unfoldable pub can_transition : ExecutionState → ExecutionState → Bool
can_transition from to =
    if same_state from completed || same_state from failed
    then false
    else if same_state to failed
    then true
    else can_leave from to

unfoldable pub is_terminal : ExecutionState → Bool
is_terminal state = same_state state completed || same_state state failed

unfoldable pub to_string : ExecutionState → String
to_string waiting_admission = "WAITING_ADMISSION"
to_string prefill = "PREFILL"
to_string decode = "DECODE"
to_string preempted = "PREEMPTED"
to_string completed = "COMPLETED"
to_string failed = "FAILED"

-- `ExecutionStateMachine::TransitionTo`: the answer and the new state.
unfoldable pub transition_to : ExecutionState → ExecutionState → Bool × ExecutionState
transition_to state next = if can_transition state next then (true, next) else (false, state)

-- The documented life cycle, as a relation.
pub data Step : ExecutionState → ExecutionState → Type 0 where
  admit : Step waiting_admission prefill
  prefilled : Step prefill decode
  finish : Step decode completed
  evict_prefill : Step prefill preempted
  evict_decode : Step decode preempted
  requeue : Step preempted waiting_admission
  fail : {s : ExecutionState} → is_terminal s ≡ false → Step s failed

-- The machine run over a list of requested states; a refused request leaves it where it is.
unfoldable pub run : ExecutionState → List ExecutionState → ExecutionState
unfolding transition_to can_transition
run state [] = state
run state (next ∷ later) = run (transition_to state next).1 later

Step-sound : (s t : ExecutionState) → Step s t → can_transition s t ≡ true
unfolding can_transition is_terminal
Step-sound _ _ admit = refl
Step-sound _ _ prefilled = refl
Step-sound _ _ finish = refl
Step-sound _ _ evict_prefill = refl
Step-sound _ _ evict_decode = refl
Step-sound _ _ requeue = refl
Step-sound s _ (fail h) = ground arith

Step-complete : (s t : ExecutionState) → can_transition s t ≡ true → Step s t
unfolding can_transition is_terminal
Step-complete waiting_admission prefill h = admit
Step-complete prefill decode h = prefilled
Step-complete decode completed h = finish
Step-complete prefill preempted h = evict_prefill
Step-complete decode preempted h = evict_decode
Step-complete preempted waiting_admission h = requeue
Step-complete waiting_admission failed h = fail refl
Step-complete prefill failed h = fail refl
Step-complete decode failed h = fail refl
Step-complete preempted failed h = fail refl
Step-complete _ _ h = absurd (ground arith)

-- `CanTransition` decides the documented life cycle: exactly its steps are allowed.
can_transition-Step : (s t : ExecutionState) → (can_transition s t ≡ true) ↔ Step s t
can_transition-Step s t = (Step-complete s t, Step-sound s t)

-- A terminal state is never left, whatever is requested.
machine_terminal :
    (s : ExecutionState) (requests : List ExecutionState)
    → is_terminal s ≡ true
    → run s requests ≡ s
unfolding run is_terminal
machine_terminal s [] h = refl
machine_terminal s (t ∷ later) h = ground (arith, machine_terminal s later)
