-- ===== src/Durable/DurableRouter.antt =====
-- The durable router: cpp/src/durable_router_main.cpp. Its main thread runs in stages, each of
-- which takes the poller's mutex once, makes one transaction, or waits for the engine or Kafka; what
-- other threads and routers do comes between the stages. Not modelled: the command line, the
-- set-up, and the readiness marker, a file that nothing reads.
pub mod Loop
pub mod System
pub mod Posted
pub mod Sound
pub mod Committed
pub mod Stored
pub mod Held
pub mod Dropped
pub mod Progress
mod Tests
use infer_sched_distributed.Base.{
  ℕ, Bool, true, false, List, [], ◌∷◌, Option, none, some, String, concat, to_string, if◌then◌else◌,
}
use infer_sched_distributed.Distributed.Messages
use infer_sched_distributed.Distributed.Messages.{
  InferenceRequest, DispatchRequest, DispatchEvent, accepted, rejected, progress, Kind, admitted,
  prefill_done, decode_step, preempted, completed, failed,
}
use infer_sched_distributed.Durable.Store.{Fence, Request, OutboxRow}
use infer_sched_distributed.Durable.RequestIngestor
use infer_sched_distributed.Durable.RequestIngestor.{RequestIngestor}
use infer_sched_distributed.Durable.KafkaPoller.{KafkaPoller, KafkaMessage, empty_poller, start}

-- What `Dispatch` sends: the fence without the engine's id.
unfoldable pub dispatch_request : InferenceRequest → Fence → DispatchRequest
dispatch_request request fence = record {
  request = request;
  fence = record {
    partition_id = fence.partition_id;
    ownership_epoch = fence.ownership_epoch;
    attempt_id = fence.attempt_id;
  };
}

abbrev is_completed : Kind → Bool
is_completed completed = true
is_completed _ = false

-- The loop over the events that the engine streams; `none` when one is a rejection.
unfoldable pub read_events : List DispatchEvent → String → Option String
read_events [] result = some result
read_events (accepted ∷ events) result = read_events events result
read_events (rejected reason ∷ events) result = none
read_events (progress event ∷ events) result =
    read_events events (if is_completed event.kind then event.result_ref else result)

-- `Dispatch`, given the events of the stream and whether it finishes well.
unfoldable pub dispatch : List DispatchEvent → Bool → String
dispatch events finished = elim (read_events events "") [
  | none ↦ ""
  | some result ↦ if finished then result else ""
]

unfoldable pub result_envelope : InferenceRequest → Fence → String → String
result_envelope request fence output =
    let field : String → String → String = λ name value. concat name value in
    concat (field "{\"request_id\":\"" request.request_id) (
      concat (field "\",\"trace_id\":\"" request.trace_id) (
        concat (field "\",\"span_id\":\"" request.span_id) (
          concat (field "\",\"ownership_epoch\":" (to_string fence.ownership_epoch)) (
            concat (field ",\"attempt_id\":" (to_string fence.attempt_id))
              (concat (field ",\"output\":\"" output) "\"}")))))

-- What a batch of the relay is for: a request that was recovered, with the rows after it; a
-- message just executed; a message whose request is poison or was terminal before.
pub data Work : Type 0 where
  recovered : List (String × Request) → Work
  executed settled : KafkaMessage → Work

pub data Stage : Type 0 where
  -- `while (…)`, with `PopOwnershipEvent`; `Pop`; the loop has ended; an exception was thrown
  looping popping stopped crashed : Stage
  -- `AcquirePartition` for each partition; `RecoverUnresolved`; the loop over its rows
  acquiring : List ℕ → Stage
  recovering : Stage
  redispatching : List (String × Request) → Stage
  -- `Owns`, `Handle` and `IsTerminal` on a message
  owning handling : KafkaMessage → Stage
  checking_terminal : KafkaMessage → InferenceRequest → Stage
  -- `execute`: `epochs.find` and `Owns`, `AssignAttempt`, `Dispatch`, `Finalize`
  executing : Work → InferenceRequest → (partition : ℕ) → Stage
  assigning : Work → InferenceRequest → (partition epoch : ℕ) → Stage
  dispatching : Work → InferenceRequest → Fence → Stage
  finalizing : Work → InferenceRequest → Fence → (result : String) → Stage
  -- `PublishBatch`: `FetchUnpublished`, the loop over its rows
  publishing : Work → Stage
  relaying : Work → List OutboxRow → Stage
  -- `IsSourcePublished` and `MarkPublishComplete`; the flag says whether `++completed` follows
  checking_published marking : KafkaMessage → (counts : Bool) → Stage

-- The poll thread: under way, with commits that it has taken to send, or ended.
pub data PollStage : Type 0 where
  polling closed : PollStage
  committing : (should_stop : Bool) → List (ℕ × ℕ) → PollStage

pub record Router : Type 0 where
  pub poller : KafkaPoller
  pub poll_stage : PollStage
  pub ingestor : RequestIngestor
  pub epochs : List (ℕ × ℕ)
  pub completed : ℕ
  pub stage : Stage

-- A router whose threads start; the ingestor's bound has its default.
unfoldable pub started : Router
unfolding start
started = record {
  poller = start false empty_poller;
  poll_stage = polling;
  ingestor = RequestIngestor.init 3;
  epochs = [];
  completed = 0;
  stage = looping;
}
