-- ===== src/Engine/RequestQueue.antt =====
-- `RequestQueue`: cpp/include/infersched/engine/request_queue.hpp and cpp/src/request_queue.cpp.
-- The `std::priority_queue` is the list of what it holds; its `top` is an element that comes later
-- than no other, which `pop` takes out. Times are counted from the start of `FakeClock`.
pub mod Order
mod Tests
use infer_sched_distributed.Base.{
  ℕ, Bool, not, List, [], ◌∷◌, Option, none, some, String, ltb, ◌==◌, if◌then◌else◌,
}
use infer_sched_distributed.Engine.StaticBatchPolicy.{text_before}

pub record EngineRequest : Type 0 where
  pub request_id : String
  pub model_revision : String
  pub tokenizer_revision : String
  pub prompt_hash : String
  pub prompt_block_hashes : List String
  pub prompt_tokens : ℕ
  pub max_output_tokens : ℕ
  pub priority : ℕ
  pub sampling_seed : ℕ
  pub temperature_micros : ℕ
  pub top_p_micros : ℕ
  pub arrival_time : ℕ

-- `Later`.
unfoldable pub later : EngineRequest → EngineRequest → Bool
later lhs rhs =
    if not (lhs.arrival_time == rhs.arrival_time)
    then ltb rhs.arrival_time lhs.arrival_time
    else text_before rhs.request_id lhs.request_id

abbrev pub push : List EngineRequest → EngineRequest → List EngineRequest
push queue request = request ∷ queue

-- The top, and the queue without it.
unfoldable pub extract : List EngineRequest → Option (EngineRequest × List EngineRequest)
extract [] = none
extract (r ∷ rs) = elim (extract rs) [
  | none ↦ some (r, [])
  | some (top, rest) ↦ if later r top then some (top, r ∷ rest) else some (r, rs)
]

unfoldable pub pop_ready : List EngineRequest → ℕ → Option EngineRequest × List EngineRequest
pop_ready queue now = elim (extract queue) [
  | none ↦ (none, queue)
  | some (request, rest) ↦
      if ltb now request.arrival_time then (none, queue) else (some request, rest)
]

unfoldable pub next_arrival : List EngineRequest → Option ℕ
next_arrival queue = elim (extract queue) [
  | none ↦ none
  | some (request, rest) ↦ some request.arrival_time
]
