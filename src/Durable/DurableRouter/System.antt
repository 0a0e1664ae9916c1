-- ===== src/Durable/DurableRouter/System.antt =====
-- Several durable routers on one store and one consumer group: both threads of each of them
-- (durable_router_main.cpp, and `PollLoop` of kafka_poller.cpp), interleaved in any order.
use infer_sched_distributed.Base.{
  ℕ, Bool, List, [], ◌∷◌, Option, none, some, String, lookup, insert_or_assign, text_discrete,
  if◌then◌else◌,
}
use infer_sched_distributed.Distributed.Messages.{InferenceRequest}
use infer_sched_distributed.Durable.Store.{Tables, migrated}
use infer_sched_distributed.Durable.KafkaPoller.{
  KafkaMessage, rebalance_cb, receive, take_commits, commit_sync,
}
use infer_sched_distributed.Durable.DurableRouter.{
  PollStage, polling, closed, committing, Router, started,
}
use infer_sched_distributed.Durable.DurableRouter.Loop.{Answer, proceed, report, store}

-- `committed` is Kafka's: the next offset of the group in each partition. `reported` has the ids of
-- the outbox rows for which a router's `Publish` has answered true, and
-- `stored` those of the rows whose messages Kafka has reported to it as delivered.
pub record System : Type 0 where
  pub tables : Tables
  pub committed : List (ℕ × ℕ)
  pub reported : List ℕ
  pub stored : List ℕ
  pub routers : List (String × Router)

-- Before any router has started.
unfoldable pub initial : System
initial = record { tables = migrated; committed = []; reported = []; stored = []; routers = [] }

-- What a router does next, in more orders than the two threads allow. Its poll thread goes round
-- (the flag: whether Kafka accepts a commit), is given a message, or is called back; its main
-- thread proceeds.
pub data Action : Type 0 where
  polls : (accepted : Bool) → Action
  receives : KafkaMessage → Action
  rebalances : (assign : Bool) → List ℕ → Action
  proceeds : Answer → Action

-- A router starts, also again after a crash at any point, or acts.
pub data Event : Type 0 where
  starts : String → Event
  acts : String → Action → Event

-- A turn of `PollLoop` up to `consume`: the commits are taken, sent one by one, and then the loop
-- ends or goes on.
unfoldable pub poll : Router → List (ℕ × ℕ) → Bool → PollStage → Router × List (ℕ × ℕ)
poll r committed accepted polling =
    let (should_stop, commits, poller) = take_commits r.poller in
    (record r { poller = poller; poll_stage = committing should_stop commits }, committed)
poll r committed accepted (committing should_stop []) =
    (record r { poll_stage = if should_stop then closed else polling }, committed)
poll r committed accepted (committing should_stop ((partition, offset) ∷ commits)) = (
  record r { poll_stage = committing should_stop commits },
  commit_sync accepted committed partition offset,
)
poll r committed accepted closed = (r, committed)

module _ (parse : String → Option InferenceRequest) (hex : String → String) (engine_id : String)
    (expected : ℕ) where
  unfoldable pub act : String → Action → Router → System → System
  act id (polls accepted) r s =
      let (r', committed) = poll r s.committed accepted r.poll_stage in
      record s { committed = committed; routers = insert_or_assign text_discrete id r' s.routers }
  act id (receives message) r s = record s {
    routers =
        insert_or_assign text_discrete id (record r { poller = receive r.poller message })
          s.routers;
  }
  act id (rebalances assign partitions) r s = record s {
    routers =
        insert_or_assign text_discrete id
          (record r { poller = rebalance_cb r.poller assign partitions }) s.routers;
  }
  act id (proceeds answer) r s =
      let (r', t) = proceed parse hex id engine_id expected r s.tables answer r.stage in
      record s {
        tables = t;
        reported = report answer r.stage s.reported;
        stored = store answer r.stage s.stored;
        routers = insert_or_assign text_discrete id r' s.routers;
      }

  unfoldable pub step : System → Event → System
  step s (starts id) = record s { routers = insert_or_assign text_discrete id started s.routers }
  step s (acts id action) = elim (lookup text_discrete id s.routers) [
    | none ↦ s
    | some r ↦ act id action r s
  ]

  unfoldable pub run : System → List Event → System
  run s [] = s
  run s (event ∷ events) = run (step s event) events
