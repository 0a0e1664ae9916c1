-- ===== src/Engine/StaticBatchPolicy/Tests.antt =====
-- Witnesses for the batch policy (static_batch_policy.cpp): four requests, two of which fit.
use infer_sched_distributed.Base.{ℕ, ◌≡◌, refl, List, [], ◌∷◌, String, All, ok}
use infer_sched_distributed.Engine.StaticBatchPolicy.{
  PendingRequest, StaticBatchPolicy, init, text_before, earlier, indexed, insert_stable,
  sort_stable, oversized, consider, consider_all, selection, select,
}
use infer_sched_distributed.Engine.StaticBatchPolicy.Admission.{
  IsAdmissible, Fate, selection-IsAdmissible,
}

abbrev request : String → ℕ → ℕ → ℕ → PendingRequest
request id prompt output arrival = record {
  request_id = id;
  prompt_tokens = prompt;
  max_output_tokens = output;
  priority = 0;
  arrival_time = arrival;
}

abbrev policy : StaticBatchPolicy
policy = record { max_batch_sequences = 2; max_batch_tokens = 100 }

-- The third is too large, the first has not arrived at 10.
abbrev pending : List PendingRequest
pending =
    request "late" 1 1 11 ∷ request "b" 40 10 3 ∷ request "big" 90 20 0 ∷ request "a" 40 10 3 ∷ []

init-policy : init 2 100 ≡ ok policy
unfolding init
init-policy = refl

select-pending : select policy pending 10 ≡ 3 ∷ 1 ∷ []
unfolding select selection consider_all consider oversized sort_stable insert_stable indexed earlier
    text_before
select-pending = refl

selection-IsAdmissible_example :
    IsAdmissible policy 10 (selection policy pending 10)
    × All (Fate policy 10 (selection policy pending 10)) (indexed 0 pending)
selection-IsAdmissible_example = selection-IsAdmissible policy 10 pending
