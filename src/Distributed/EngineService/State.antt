-- ===== src/Distributed/EngineService/State.antt =====
-- The fields of `EngineService` (engine_service.hpp) and the tests that its handlers make of them
-- (engine_service.cpp).
use infer_sched_distributed.Base.{
  ℕ, Bool, true, false, not, ◌||◌, List, [], ◌∷◌, none, some, String, ltb, leb, ◌==◌, if◌then◌else◌,
  lookup, text_discrete, ℕ_discrete,
}
use infer_sched_distributed.Engine.EngineConfig.{EngineResult}
use infer_sched_distributed.Distributed.Messages.{DispatchRequest}

pub record Job : Type 0 where
  pub job_id : ℕ
  pub dispatch : DispatchRequest

pub record Cell : Type 0 where
  pub is_done : Bool
  pub superseded : Bool
  pub result : EngineResult

-- Where the worker stands: at its wait, with a batch, or with a batch that has run.
pub data Phase : Type 0 where
  waiting collected executed : Phase

pub record EngineService : Type 0 where
  pub queue_capacity : ℕ
  pub queue : List Job
  pub partition_epochs : List (ℕ × ℕ)
  pub request_attempts : List (String × ℕ)
  pub live_jobs : List (String × Job)
  pub draining : Bool
  pub running_jobs : ℕ
  pub total_kv_blocks : ℕ
  pub free_kv_blocks : ℕ
  -- The worker's place and its batch, the handlers that wait, and the heap.
  pub phase : Phase
  pub batch : List Job
  pub handlers : List Job
  pub cells : List Cell

abbrev pub request_id_of : Job → String
request_id_of job = job.dispatch.request.request_id

abbrev pub attempt_of : DispatchRequest → ℕ
attempt_of d = d.fence.attempt_id

-- A result before the engine has set one.
abbrev pub no_result : EngineResult
no_result = record {
  request_id = "";
  output = "";
  completed_at = 0;
  first_token_at = 0;
  result_cache_hit = false;
  prefix_cache_hit = false;
  succeeded = true;
  failure_reason = "";
}

abbrev pub new_cell : Cell
new_cell = record { is_done = false; superseded = false; result = no_result }

unfoldable pub init : ℕ → ℕ → EngineService
init queue_capacity kv_blocks = record {
  queue_capacity = queue_capacity;
  queue = [];
  partition_epochs = [];
  request_attempts = [];
  live_jobs = [];
  draining = false;
  running_jobs = 0;
  total_kv_blocks = kv_blocks;
  free_kv_blocks = kv_blocks;
  phase = waiting;
  batch = [];
  handlers = [];
  cells = [];
}

abbrev pub holds : ℕ → List Job → Bool
holds id [] = false
holds id (job ∷ jobs) = if job.job_id == id then true else holds id jobs

unfoldable pub expired : EngineService → Job → Bool
expired s job =
    not (holds job.job_id s.queue || (holds job.job_id s.batch || holds job.job_id s.handlers))

-- The tests of `ValidateAndReserve`, in their order.
unfoldable pub stale_epoch : EngineService → DispatchRequest → Bool
stale_epoch s d = elim (lookup ℕ_discrete d.fence.partition_id s.partition_epochs) [
  | none ↦ false
  | some current ↦ ltb d.fence.ownership_epoch current
]

unfoldable pub stale_attempt : EngineService → DispatchRequest → Bool
stale_attempt s d = elim (lookup text_discrete d.request.request_id s.request_attempts) [
  | none ↦ false
  | some current ↦ leb d.fence.attempt_id current
]

unfoldable pub in_flight : EngineService → DispatchRequest → Bool
in_flight s d = elim (lookup text_discrete d.request.request_id s.live_jobs) [
  | none ↦ false
  | some job ↦ not (expired s job)
]
