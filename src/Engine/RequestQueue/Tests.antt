-- ===== src/Engine/RequestQueue/Tests.antt =====
-- Witnesses for the request queue (request_queue.cpp).
use infer_sched_distributed.Base.{ℕ, ◌≡◌, refl, List, [], some, String}
use infer_sched_distributed.Engine.RequestQueue.{
  EngineRequest, push, pop_ready, extract, later, next_arrival,
}
use infer_sched_distributed.Engine.StaticBatchPolicy.{text_before}
use infer_sched_distributed.Engine.RequestQueue.Order.{Pops, pop_ready-Pops}

abbrev request : String → ℕ → EngineRequest
request id arrival = record {
  request_id = id;
  model_revision = "m";
  tokenizer_revision = "t";
  prompt_hash = "h";
  prompt_block_hashes = [];
  prompt_tokens = 1;
  max_output_tokens = 1;
  priority = 0;
  sampling_seed = 0;
  temperature_micros = 0;
  top_p_micros = 1000000;
  arrival_time = arrival;
}

abbrev three : List EngineRequest
three = push (push (push [] (request "b" 5)) (request "c" 9)) (request "a" 5)

first_popped : (pop_ready three 7).0 ≡ some (request "a" 5)
unfolding pop_ready extract later text_before
first_popped = refl

first_arrival : next_arrival three ≡ some 5
unfolding next_arrival extract later text_before
first_arrival = refl

pop_ready-Pops_example : Pops three 7 (pop_ready three 7)
pop_ready-Pops_example = pop_ready-Pops three 7
