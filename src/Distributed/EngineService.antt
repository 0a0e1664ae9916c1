-- ===== src/Distributed/EngineService.antt =====
-- `EngineService`: cpp/include/infersched/distributed/engine_service.hpp and
-- cpp/src/engine_service.cpp. The mutex makes each critical section one step: a call of a handler,
-- and the three parts of a turn of the worker. A `shared_ptr` to a job is the job's number beside
-- the fields that never change; `cells` holds the others, by number. A `weak_ptr` has expired
-- when no queue, batch or handler holds the job.
mod State
pub mod Flights
pub mod Attempts
pub mod Fences
mod Tests
unfoldable pub use State.*
use infer_sched_distributed.Base.{
  ℕ, suc, ◌+◌, ◌-◌, ◌%◌, Bool, true, false, not, ◌&&◌, ◌||◌, List, [], ◌∷◌, ◌++◌, Option, none,
  some, String, map, ltb, leb, ◌==◌, if◌then◌else◌, same_text, u32_mod, length, get_or, set, lookup,
  erase, insert_or_assign, text_discrete, ℕ_discrete,
}
use infer_sched_distributed.Engine.RequestQueue.{EngineRequest}
use infer_sched_distributed.Engine.EngineConfig.{EngineResult}
use infer_sched_distributed.Distributed.Messages.{
  InferenceRequest, DispatchRequest, ProgressEvent, prefill_done, completed, failed, DispatchEvent,
  accepted, rejected, progress, EngineCapacity,
}

-- `partition_epochs_[partition] = epoch`.
abbrev pub with_epoch : EngineService → DispatchRequest → EngineService
with_epoch s d = record s {
  partition_epochs =
      insert_or_assign ℕ_discrete d.fence.partition_id d.fence.ownership_epoch s.partition_epochs;
}

-- What an accepted dispatch does.
unfoldable pub reserve : EngineService → DispatchRequest → Job → EngineService
reserve s d job = record s {
  request_attempts =
      insert_or_assign text_discrete d.request.request_id d.fence.attempt_id s.request_attempts;
  live_jobs = insert_or_assign text_discrete d.request.request_id job s.live_jobs;
  queue = s.queue ++ job ∷ [];
}

-- The empty text is an acceptance.
unfoldable pub validate_and_reserve : EngineService → DispatchRequest → Job → String × EngineService
validate_and_reserve s d job =
    if s.draining
    then ("draining", s)
    else if leb s.queue_capacity (length s.queue)
    then ("queue_full", s)
    else if stale_epoch s d
    then ("stale_ownership_epoch", s)
    else if stale_attempt s d
    then ("stale_or_duplicate_attempt", with_epoch s d)
    else if in_flight s d
    then ("request_already_in_flight", with_epoch s d)
    else ("", reserve (with_epoch s d) d job)

-- The acknowledgement, and the handler that waits after it and holds its job. Where the stream does
-- not take it, the handler ends and the job stays in the queue.
unfoldable pub acknowledge : Job → Bool → String × EngineService → DispatchEvent × EngineService
acknowledge job written (rejection, s) =
    let made = record s { cells = s.cells ++ new_cell ∷ [] } in
    if not (same_text rejection "")
    then (rejected rejection, made)
    else (accepted, if written then record made { handlers = job ∷ made.handlers } else made)

-- `Dispatch` up to its wait. `written` is the stream's answer to an acceptance.
unfoldable pub dispatch : EngineService → DispatchRequest → Bool → DispatchEvent × EngineService
dispatch s d written =
    let job : Job = record { job_id = length s.cells; dispatch = d } in
    acknowledge job written (validate_and_reserve s d job)

abbrev pub cell_of : EngineService → Job → Cell
cell_of s job = get_or s.cells job.job_id new_cell

abbrev pub same_fence : DispatchRequest → DispatchRequest → Bool
same_fence a b =
    a.fence.ownership_epoch == b.fence.ownership_epoch && a.fence.attempt_id == b.fence.attempt_id

unfoldable pub supersede : EngineService → Job → EngineService
supersede s job = record s {
  cells = set s.cells job.job_id (record (cell_of s job) { superseded = true });
}

-- `Cancel`, of a request id and a fence.
unfoldable pub cancel : EngineService → DispatchRequest → Bool × EngineService
cancel s d = elim (lookup text_discrete d.request.request_id s.live_jobs) [
  | none ↦ (false, s)
  | some job ↦
      if not (expired s job) && same_fence job.dispatch d
      then (true, supersede s job)
      else (false, s)
]

-- `Drain` up to its wait, and the condition that it waits for.
unfoldable pub drain : EngineService → EngineService
drain s = record s { draining = true }

unfoldable pub drained : EngineService → Bool
drained s = length s.queue == 0 && s.running_jobs == 0

unfoldable pub capacity : EngineService → EngineCapacity
capacity s = record {
  total_kv_blocks = s.total_kv_blocks % u32_mod;
  free_kv_blocks = s.free_kv_blocks % u32_mod;
  running_seqs = s.running_jobs % u32_mod;
  waiting_seqs = length s.queue % u32_mod;
  batch_headroom =
      (if ltb (length s.queue) s.queue_capacity then s.queue_capacity - length s.queue else 0)
      % u32_mod;
}

-- The worker takes the whole queue.
unfoldable pub collect : EngineService → EngineService
collect s = elim s.phase [
  | waiting ↦ if length s.queue == 0 then s else record s {
    phase = collected;
    batch = s.queue;
    queue = [];
    running_jobs = s.running_jobs + length s.queue;
  }
  | collected ↦ s
  | executed ↦ s
]

unfoldable pub to_engine_request : InferenceRequest → EngineRequest
to_engine_request r = record {
  request_id = r.request_id;
  model_revision = r.model_revision;
  tokenizer_revision = r.tokenizer_revision;
  prompt_hash = r.prompt_hash;
  prompt_block_hashes = [];
  prompt_tokens = r.prompt_tokens;
  max_output_tokens = r.sampling.max_output_tokens;
  priority = r.priority;
  sampling_seed = r.sampling.seed;
  temperature_micros = r.sampling.temperature;
  top_p_micros = r.sampling.top_p;
  arrival_time = 0;
}

-- `new_results`: a later result of a request replaces an earlier one.
unfoldable pub result_for : String → List EngineResult → Option EngineResult
result_for id [] = none
result_for id (r ∷ rs) = elim (result_for id rs) [
  | some later ↦ some later
  | none ↦ if same_text r.request_id id then some r else none
]

unfoldable pub finished_cell : List EngineResult → Job → Cell → Cell
finished_cell results job cell =
    let result : EngineResult = elim (result_for (request_id_of job) results) [
      | some r ↦ r
      | none ↦ record no_result {
        request_id = request_id_of job;
        succeeded = false;
        failure_reason = "missing_engine_result";
      }
    ] in
    record cell {
      is_done = true;
      result =
          if cell.superseded
          then record result { succeeded = false; failure_reason = "superseded" }
          else result;
    }

-- The results given to the jobs of the batch, one after the other.
unfoldable pub finish_jobs : List EngineResult → List Job → List Cell → List Cell
finish_jobs results [] cells = cells
finish_jobs results (job ∷ jobs) cells =
    finish_jobs results jobs
      (set cells job.job_id (finished_cell results job (get_or cells job.job_id new_cell)))

-- The batch has run: `results` are those that the engine added, and `free` its free blocks.
unfoldable pub execute : EngineService → List EngineResult → ℕ → EngineService
execute s results free = elim s.phase [
  | waiting ↦ s
  | collected ↦ record s {
    phase = executed;
    free_kv_blocks = free;
    cells = finish_jobs results s.batch s.cells;
  }
  | executed ↦ s
]

-- `iterator->second.lock() == job`, for each job of the batch.
unfoldable pub forget_live : List Job → List (String × Job) → List (String × Job)
forget_live [] live = live
forget_live (job ∷ jobs) live =
    forget_live jobs (elim (lookup text_discrete (request_id_of job) live) [
      | none ↦ live
      | some other ↦
          if other.job_id == job.job_id then erase text_discrete (request_id_of job) live else live
    ])

unfoldable pub retire : EngineService → EngineService
retire s = elim s.phase [
  | waiting ↦ s
  | collected ↦ s
  | executed ↦ record s {
    phase = waiting;
    running_jobs = s.running_jobs - length s.batch;
    live_jobs = forget_live s.batch s.live_jobs;
    batch = [];
  }
]

-- The events after the acknowledgement.
unfoldable pub write_progress : Job → EngineResult → List ProgressEvent
write_progress job result =
    let event : ProgressEvent = record {
      kind = prefill_done;
      request_id = request_id_of job;
      fence = job.dispatch.fence;
      tokens_generated = 0;
      result_ref = "";
      prefix_cache_hit = false;
      result_cache_hit = false;
      failure_reason = "";
      retryable = false;
      trace_id = job.dispatch.request.trace_id;
      span_id = job.dispatch.request.span_id;
    } in
    event
    ∷ (if result.succeeded
        then record event {
          kind = completed;
          tokens_generated = job.dispatch.request.sampling.max_output_tokens;
          result_ref = result.output;
          prefix_cache_hit = result.prefix_cache_hit;
          result_cache_hit = result.result_cache_hit;
        }
        else record event {
          kind = failed;
          failure_reason = result.failure_reason;
          retryable = same_text result.failure_reason "superseded";
        })
    ∷ []

abbrev pub without : ℕ → List Job → List Job
without id [] = []
without id (job ∷ jobs) = if job.job_id == id then jobs else job ∷ without id jobs

-- A handler whose job is done writes its events and ends; `none` while it waits.
unfoldable pub respond : EngineService → Job → Option (List ProgressEvent) × EngineService
respond s job =
    if (cell_of s job).is_done
    then (
      some (write_progress job (cell_of s job).result),
      record s { handlers = without job.job_id s.handlers },
    )
    else (none, s)
