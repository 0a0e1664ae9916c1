-- ===== src/Durable/DurableRouter/Loop.antt =====
-- The main loop of the durable router (durable_router_main.cpp), one stage at a time. `parse` is
-- the generated `ParseFromString`, `hex` PostgreSQL's `encode`; `router_id`, `engine_id` and
-- `expected` are the router's.
use infer_sched_distributed.Base.{
  ℕ, ◌+◌, Bool, true, false, not, ◌||◌, List, [], ◌∷◌, Option, none, some, String, ltb,
  if◌then◌else◌, same_text, is_some, lookup, insert_or_assign, erase, ℕ_discrete,
}
use infer_sched_distributed.Distributed.Messages.{InferenceRequest, DispatchEvent}
use infer_sched_distributed.Durable.Store.{
  Tables, Request, Fence, done, threw, acquire_partition, assign_attempt, finalize,
}
use infer_sched_distributed.Durable.Store.Queries.{
  recover_unresolved, is_terminal, fetch_unpublished, mark_published, is_source_published,
}
use infer_sched_distributed.Durable.RequestIngestor.{
  SourcePosition, IngestOutcome, retry_parse, poison_recorded, handle,
}
use infer_sched_distributed.Durable.OutboxRelay.Publisher.{
  Sending, created, publish, reported_during,
}
use infer_sched_distributed.Durable.KafkaPoller.{
  KafkaMessage, assigned, revoked, pop, pop_ownership_event, owns, mark_publish_complete,
  request_stop,
}
use infer_sched_distributed.Durable.DurableRouter.{
  Work, recovered, executed, settled, Stage, looping, popping, stopped, crashed, acquiring,
  recovering, redispatching, owning, handling, checking_terminal, executing, assigning, dispatching,
  finalizing, publishing, relaying, checking_published, marking, Router, dispatch, result_envelope,
}

-- What the clock, the engine and the publisher answer in a stage that asks them: `sending` is
-- what librdkafka does during a `Publish`.
pub record Answer : Type 0 where
  pub past_deadline : Bool
  pub events : List DispatchEvent
  pub finished : Bool
  pub sending : Sending

-- `epochs.erase` for each partition.
unfoldable pub forget_epochs : List ℕ → List (ℕ × ℕ) → List (ℕ × ℕ)
forget_epochs [] epochs = epochs
forget_epochs (partition ∷ partitions) epochs =
    forget_epochs partitions (erase ℕ_discrete partition epochs)

-- Where the loop goes on when `execute` fails.
abbrev pub after_failure : Work → Stage
after_failure (recovered rows) = redispatching rows
after_failure _ = looping

-- Where it goes on after `PublishBatch`.
unfoldable pub after_publish : Router → Work → Router
after_publish r (recovered rows) = record r {
  completed = r.completed + 1;
  stage = redispatching rows;
}
after_publish r (executed message) = record r { stage = checking_published message true }
after_publish r (settled message) = record r { stage = checking_published message false }

abbrev pub at : Router → Stage → Router
at r stage = record r { stage = stage }

-- The answer of `Publish` for a row. The flags that the publisher held before make no difference
-- to it; they are a new publisher's here.
unfoldable pub delivered : Answer → Bool
delivered a = (publish created a.sending).0

-- The ids of the rows for which `Publish` has answered true, after a stage.
unfoldable pub report : Answer → Stage → List ℕ → List ℕ
report a (relaying work (row ∷ rows)) ids = if delivered a then row.id ∷ ids else ids
report a _ ids = ids

-- The ids of the rows whose messages Kafka has reported as delivered, after a stage.
unfoldable pub store : Answer → Stage → List ℕ → List ℕ
store a (relaying work (row ∷ rows)) ids =
    if reported_during row.id a.sending.polls then row.id ∷ ids else ids
store a _ ids = ids

module _ (parse : String → Option InferenceRequest) (hex : String → String)
    (router_id engine_id : String) (expected : ℕ) where
  abbrev pub parse_id : String → Option String
  parse_id payload = elim (parse payload) [ none ↦ none | some request ↦ some request.request_id ]

  unfoldable pub loop : Router → Bool → Router
  loop r past_deadline =
      if not (ltb r.completed expected) || past_deadline
      then record r { poller = request_stop r.poller; stage = stopped }
      else (let (ownership, poller) = pop_ownership_event r.poller in
          elim ownership [
            | none ↦ at r popping
            | some event ↦ elim event.kind [
              | revoked ↦ record r {
                poller = poller;
                epochs = forget_epochs event.partitions r.epochs;
              }
              | assigned ↦ record r { poller = poller; stage = acquiring event.partitions }
            ]
          ])

  unfoldable pub acquire : Router → Tables → ℕ → List ℕ → Router × Tables
  acquire r t partition partitions =
      let (outcome, t') = acquire_partition t partition router_id in
      elim outcome [
        | threw failure ↦ (at r crashed, t')
        | done epoch ↦ (
          record r {
            epochs = insert_or_assign ℕ_discrete partition epoch r.epochs;
            stage = acquiring partitions;
          },
          t',
        )
      ]

  unfoldable pub redispatch : Router → String × Request → List (String × Request) → Stage
  redispatch r row rows =
      if is_some (lookup ℕ_discrete row.1.source_partition r.epochs)
      then (elim (parse row.1.raw_payload) [
        | none ↦ redispatching rows
        | some request ↦ executing (recovered rows) request row.1.source_partition
      ])
      else redispatching rows

  unfoldable pub pop_message : Router → Router
  pop_message r =
      let (message, poller) = pop r.poller in
      elim message [ none ↦ at r looping | some m ↦ record r { poller = poller; stage = owning m } ]

  -- The stage after `Handle`.
  unfoldable pub after_handle : KafkaMessage → IngestOutcome → Stage
  after_handle message retry_parse = looping
  after_handle message poison_recorded = publishing (settled message)
  after_handle message _ = elim (parse message.payload) [
    | none ↦ looping
    | some request ↦ checking_terminal message request
  ]

  unfoldable pub handle_message : Router → Tables → KafkaMessage → Router × Tables
  handle_message r t message =
      let position : SourcePosition = record {
        partition = message.partition;
        offset = message.offset;
      } in
      let (outcome, ingestor, t') = handle parse_id hex r.ingestor t position message.payload in
      (record r { ingestor = ingestor; stage = after_handle message outcome }, t')

  -- The first lines of `execute`.
  unfoldable pub execute : Router → Work → InferenceRequest → ℕ → Stage
  execute r work request partition = elim (lookup ℕ_discrete partition r.epochs) [
    | none ↦ after_failure work
    | some epoch ↦
        if owns r.poller partition
        then assigning work request partition epoch
        else after_failure work
  ]

  unfoldable pub assign : Router → Tables → Work → InferenceRequest → ℕ → ℕ → Router × Tables
  assign r t work request partition epoch =
      let (outcome, t') = assign_attempt t request.request_id partition epoch engine_id in
      elim outcome [
        | threw failure ↦ (at r crashed, t')
        | done assignment ↦ elim assignment [
          | none ↦ (at r (after_failure work), t')
          | some a ↦ (at r (dispatching work request a.fence), t')
        ]
      ]

  unfoldable pub finish :
      Router → Tables → Work → InferenceRequest → Fence → String → Router × Tables
  finish r t work request fence result =
      let (outcome, t') =
        finalize t request.request_id fence (result_envelope request fence result) in
      elim outcome [
        | threw failure ↦ (at r crashed, t')
        | done accepted ↦ (at r (if accepted then publishing work else after_failure work), t')
      ]

  unfoldable pub proceed : Router → Tables → Answer → Stage → Router × Tables
  proceed r t a looping = (loop r a.past_deadline, t)
  proceed r t a popping = (pop_message r, t)
  proceed r t a stopped = (r, t)
  proceed r t a crashed = (r, t)
  proceed r t a (acquiring []) = (at r recovering, t)
  proceed r t a (acquiring (partition ∷ partitions)) = acquire r t partition partitions
  proceed r t a recovering = (at r (redispatching (recover_unresolved t)), t)
  proceed r t a (redispatching []) = (at r looping, t)
  proceed r t a (redispatching (row ∷ rows)) = (at r (redispatch r row rows), t)
  proceed r t a (owning message) =
      (at r (if owns r.poller message.partition then handling message else looping), t)
  proceed r t a (handling message) = handle_message r t message
  proceed r t a (checking_terminal message request) = (
    at r (
        if is_terminal t request.request_id
        then publishing (settled message)
        else executing (executed message) request message.partition),
    t,
  )
  proceed r t a (executing work request partition) = (at r (execute r work request partition), t)
  proceed r t a (assigning work request partition epoch) = assign r t work request partition epoch
  proceed r t a (dispatching work request fence) =
      let result = dispatch a.events a.finished in
      (
        at r (
            if same_text result ""
            then after_failure work
            else finalizing work request fence result),
        t,
      )
  proceed r t a (finalizing work request fence result) = finish r t work request fence result
  proceed r t a (publishing work) = (at r (relaying work (fetch_unpublished t 1000)), t)
  proceed r t a (relaying work []) = (after_publish r work, t)
  proceed r t a (relaying work (row ∷ rows)) =
      if delivered a
      then (at r (relaying work rows), mark_published t row.id)
      else (after_publish r work, t)
  proceed r t a (checking_published message counts) = (
    at r (
        if is_source_published t message.partition message.offset
        then marking message counts
        else looping),
    t,
  )
  proceed r t a (marking message counts) = (
    record r {
      poller = mark_publish_complete r.poller message.partition message.offset;
      completed = r.completed + (if counts then 1 else 0);
      stage = looping;
    },
    t,
  )
