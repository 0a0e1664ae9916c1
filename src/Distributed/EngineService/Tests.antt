-- ===== src/Distributed/EngineService/Tests.antt =====
-- The engine service (engine_service.cpp) on two requests of one partition.
use infer_sched_distributed.Base.{
  ℕ, ◌≡◌, refl, arith, true, false, List, [], ◌∷◌, none, String, lookup, erase, insert_or_assign,
  text_discrete, ℕ_discrete,
}
use infer_sched_distributed.Distributed.Messages.{DispatchRequest, InferenceRequest, rejected}
use infer_sched_distributed.Distributed.EngineService.{
  EngineService, init, expired, stale_epoch, stale_attempt, in_flight, reserve,
  validate_and_reserve, acknowledge, dispatch, cancel, supersede, drain, drained, collect, execute,
  finish_jobs, finished_cell, result_for, forget_live, retire, respond,
}
use infer_sched_distributed.Distributed.EngineService.Flights.{
  Action, dispatches, drains, collects, executes, retires, step, run, IsValid, single_flight,
}
use infer_sched_distributed.Distributed.EngineService.Attempts.{
  accepted_attempts, accepted_attempts-Rising, is_accepted, Rising,
}
use infer_sched_distributed.Distributed.EngineService.Fences.{
  older_owner_refused, refused_retry_fences, IsQuiet, drained-IsQuiet,
}

program : Unit {0}
unfolding init expired stale_epoch stale_attempt in_flight reserve validate_and_reserve acknowledge
    dispatch cancel supersede drain drained collect execute finish_jobs finished_cell result_for
    forget_live retire respond step run lookup erase insert_or_assign text_discrete ℕ_discrete
    accepted_attempts
program = tt

abbrev request : String → InferenceRequest
request id = record {
  request_id = id;
  model_revision = "m";
  tokenizer_revision = "t";
  prompt_tokens = 4;
  prompt_hash = "h";
  priority = 0;
  sampling = record { max_output_tokens = 2; temperature = 0; top_p = 1000000; seed = 1 };
  trace_id = "";
  span_id = "";
}

abbrev attempt : String → ℕ → ℕ → DispatchRequest
attempt id epoch n = record {
  request = request id;
  fence = record { partition_id = 0; ownership_epoch = epoch; attempt_id = n };
}

-- The first attempt runs and is retired before the third; the second overlaps with it.
abbrev overlapping : List Action
overlapping =
    dispatches (attempt "r" 1 1) true
    ∷ dispatches (attempt "r" 2 2) true
    ∷ dispatches (attempt "s" 2 1) true
    ∷ collects
    ∷ executes [] 4
    ∷ retires
    ∷ dispatches (attempt "r" 2 3) true
    ∷ []

overlapping_attempts : accepted_attempts "r" (init 2 4) overlapping ≡ 1 ∷ 3 ∷ []
unfolding program
overlapping_attempts = refl

abbrev busy : EngineService
busy = (dispatch (init 2 4) (attempt "r" 1 1) true).1

retry_refused : (dispatch busy (attempt "r" 2 2) true).0 ≡ rejected "request_already_in_flight"
unfolding program
retry_refused = refl

single_flight_example : IsValid (run (init 2 4) overlapping)
single_flight_example = single_flight 2 4 overlapping

accepted_attempts-Rising_example : Rising none (accepted_attempts "r" (init 2 4) overlapping)
accepted_attempts-Rising_example = accepted_attempts-Rising 2 4 overlapping "r"

first_accepted : is_accepted (dispatch (init 2 4) (attempt "r" 2 1) true).0 ≡ true
unfolding program
first_accepted = refl

older_owner_refused_example :
    is_accepted
      (dispatch
        (run (dispatch (init 2 4) (attempt "r" 2 1) true).1 (collects ∷ []))
        (attempt "s" 1 1)
        true).0
    ≡ false
older_owner_refused_example =
    older_owner_refused (init 2 4) (attempt "r" 2 1) (attempt "s" 1 1) true true (collects ∷ [])
      first_accepted refl (omega arith)

refused_retry_fences_example :
    is_accepted
      (dispatch
        (run (dispatch busy (attempt "r" 2 2) true).1 (collects ∷ []))
        (attempt "s" 1 3)
        true).0
    ≡ false
refused_retry_fences_example =
    refused_retry_fences busy (attempt "r" 2 2) (attempt "s" 1 3) true true (collects ∷ [])
      retry_refused refl (omega arith)

abbrev closing : EngineService
closing =
    run (init 2 4)
      (dispatches (attempt "r" 1 1) true ∷ drains ∷ collects ∷ executes [] 4 ∷ retires ∷ [])

closing_drains : closing.draining ≡ true
unfolding program
closing_drains = refl

closing-drained : drained closing ≡ true
unfolding program
closing-drained = refl

drained-IsQuiet_example : IsQuiet (run closing overlapping)
drained-IsQuiet_example =
    drained-IsQuiet closing overlapping
      (single_flight 2 4
        (dispatches (attempt "r" 1 1) true ∷ drains ∷ collects ∷ executes [] 4 ∷ retires ∷ []))
      closing_drains closing-drained
