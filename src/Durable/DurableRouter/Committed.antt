-- ===== src/Durable/DurableRouter/Committed.antt =====
-- What the consumer group has committed is published (durable_router_main.cpp, kafka_poller.cpp).
use infer_sched_distributed.Base.{
  mem, ℕ, ◌≤◌, ◌<◌, ◌≡◌, arith, Bool, true, List, [], ◌∷◌, Option, none, some, String, All, All-imp,
  if_elim, lookup, insert_or_assign, ℕ_discrete, text_discrete, lookup-Each, insert_or_assign-Each,
  Option-cases, inl, inr,
}
use infer_sched_distributed.Distributed.Messages.{InferenceRequest}
use infer_sched_distributed.Durable.Store.{Tables, OutboxRow, migrated}
use infer_sched_distributed.Durable.Store.Published.{
  OnlyMarked, Posted-OnlyMarked, was_reported, was_published-was_reported,
}
use infer_sched_distributed.Durable.KafkaPoller.{take_commits}
use infer_sched_distributed.Durable.KafkaPoller.Sound.{
  SoundCommitted, receive-SoundPoller, rebalance_cb-SoundPoller, commit_sync-SoundCommitted,
}
use infer_sched_distributed.Durable.DurableRouter.{
  Stage, Router, started, PollStage, polling, committing, closed,
}
use infer_sched_distributed.Durable.DurableRouter.Loop.{Answer, report}
use infer_sched_distributed.Durable.DurableRouter.Posted.{proceed-Keeps, proceed-Posted}
use infer_sched_distributed.Durable.DurableRouter.Sound.{
  Done, SoundRouter, SoundRouter-Keeps, started-SoundRouter, proceed-SoundRouter, taken,
}
use infer_sched_distributed.Durable.DurableRouter.System.{
  System, initial, Action, polls, receives, rebalances, proceeds, Event, starts, acts, poll, act,
  step, run,
}

-- Where a consumer of the group starts in a partition under the `earliest` policy: at the
-- committed offset, or at the first one.
unfoldable pub start_offset : List (ℕ × ℕ) → ℕ → ℕ
start_offset committed partition = elim (lookup ℕ_discrete partition committed) [
  | none ↦ 0
  | some next ↦ next
]

-- Kafka skips nothing: the first message of a partition that a router is given since it owns it
-- is not past the place where the group is to start.
unfoldable pub IsContiguous : System → Event → Type 0
IsContiguous s (acts id (receives message)) =
    (r : Router)
    → lookup text_discrete id s.routers ≡ some r
    → lookup ℕ_discrete message.partition r.poller.trackers ≡ none
    → message.offset ≤ start_offset s.committed message.partition
IsContiguous s _ = Unit

record SoundSystem (s : System) : Type 0 where
  committed : SoundCommitted (Done s.tables) s.committed
  routers : All (λ e. SoundRouter s.tables e.1) s.routers
  marked : OnlyMarked s.reported s.tables.outbox

start_offset-Done :
    (t : Tables) (committed : List (ℕ × ℕ)) (partition k : ℕ)
    → SoundCommitted (Done t) committed
    → k < start_offset committed partition
    → Done t partition k
unfolding start_offset
start_offset-Done t committed partition k sound low =
    elim (Option-cases (lookup ℕ_discrete partition committed)) [
      | inl e ↦ absurd (ground arith)
      | inr (n, e) ↦
          lookup-Each ℕ_discrete (λ x. (j : ℕ) → j < x.1 → Done t x.0 j) partition n committed e
            sound k (ground arith)
    ]

mem-report :
    (a : Answer) (stage : Stage) (ids : List ℕ) (id : ℕ)
    → mem id ids ≡ true
    → mem id (report a stage ids) ≡ true
unfolding report
mem-report a stage ids id m = ground arith

report-OnlyMarked :
    (a : Answer) (stage : Stage) (ids : List ℕ) (rows : List OutboxRow)
    → OnlyMarked ids rows
    → OnlyMarked (report a stage ids) rows
report-OnlyMarked a stage ids rows h =
    All-imp _ _ rows (λ row only p. mem-report a stage ids row.id (only p)) h

-- A turn of the poll thread, from a stage of its own.
poll-SoundRouter :
    (t : Tables) (r : Router) (committed : List (ℕ × ℕ)) (accepted : Bool) (stage : PollStage)
    → SoundRouter t r
    → All (λ e. (k : ℕ) → k ≤ e.1 → Done t e.0 k) (taken stage)
    → SoundCommitted (Done t) committed
    → SoundRouter t (poll r committed accepted stage).0
      × SoundCommitted (Done t) (poll r committed accepted stage).1
unfolding poll take_commits
poll-SoundRouter t r committed accepted polling sound sending ok = (
  record {
    poller = record { trackers = sound.poller.trackers; commits = tt };
    sending = sound.poller.commits;
    stage = sound.stage;
  },
  ok,
)
poll-SoundRouter t r committed accepted (committing should_stop []) sound sending ok = (
  record {
    poller = sound.poller;
    sending =
        if_elim (λ x. All (λ e. (k : ℕ) → k ≤ e.1 → Done t e.0 k) (taken x)) should_stop (λ _. tt)
          (λ _. tt);
    stage = sound.stage;
  },
  ok,
)
poll-SoundRouter t r committed accepted (committing should_stop ((partition, offset) ∷ commits))
      sound sending ok =
    (
      record { poller = sound.poller; sending = sending.1; stage = sound.stage },
      commit_sync-SoundCommitted (Done t) accepted committed partition offset sending.0 ok,
    )
poll-SoundRouter t r committed accepted closed sound sending ok = (sound, ok)

module _ (parse : String → Option InferenceRequest) (hex : String → String) (engine_id : String)
    (expected : ℕ) where
  -- Every event of a run is as Kafka delivers.
  unfoldable pub AreContiguous : System → List Event → Type 0
  AreContiguous s [] = Unit
  AreContiguous s (event ∷ events) =
      IsContiguous s event × AreContiguous (step parse hex engine_id expected s event) events

  assigned :
      (s : System) (id : String) (r : Router)
      → SoundSystem s
      → SoundRouter s.tables r
      → All (λ e. SoundRouter s.tables e.1) (insert_or_assign text_discrete id r s.routers)
  assigned s id r sound ok =
      insert_or_assign-Each text_discrete (λ e. SoundRouter s.tables e.1) id r s.routers ok
        sound.routers

  act-SoundSystem :
      (s : System) (id : String) (action : Action) (r : Router)
      → SoundSystem s
      → lookup text_discrete id s.routers ≡ some r
      → SoundRouter s.tables r
      → IsContiguous s (acts id action)
      → SoundSystem (act parse hex engine_id expected id action r s)
  unfolding act IsContiguous
  act-SoundSystem s id (polls accepted) r sound found ok c =
      let p =
        poll-SoundRouter s.tables r s.committed accepted r.poll_stage ok ok.sending
          sound.committed in
      record { committed = p.1; routers = assigned s id _ sound p.0; marked = sound.marked }
  act-SoundSystem s id (receives message) r sound found ok c = record {
    committed = sound.committed;
    marked = sound.marked;
    routers = assigned s id _ sound (record {
      poller =
          receive-SoundPoller (Done s.tables) r.poller message
            (λ fresh k low.
              start_offset-Done s.tables s.committed message.partition k sound.committed
                (omega (arith, low, c r found fresh)))
            ok.poller;
      sending = ok.sending;
      stage = ok.stage;
    });
  }
  act-SoundSystem s id (rebalances assign partitions) r sound found ok c = record {
    committed = sound.committed;
    marked = sound.marked;
    routers = assigned s id _ sound (record {
      poller = rebalance_cb-SoundPoller (Done s.tables) r.poller assign partitions ok.poller;
      sending = ok.sending;
      stage = ok.stage;
    });
  }
  act-SoundSystem s id (proceeds answer) r sound found ok c =
      let keeps = proceed-Keeps parse hex id engine_id expected r s.tables answer r.stage in
      record {
        marked =
            Posted-OnlyMarked (report answer r.stage s.reported) s.tables.outbox _
              (proceed-Posted parse hex id engine_id expected s.reported r s.tables answer r.stage)
              (report-OnlyMarked answer r.stage s.reported s.tables.outbox sound.marked);
        committed = All-imp _ _ s.committed (λ e h k low. keeps e.0 k (h k low)) sound.committed;
        routers =
            insert_or_assign-Each text_discrete _ id _ s.routers
              (proceed-SoundRouter parse hex id engine_id expected r s.tables answer ok)
              (All-imp _ _ s.routers (λ e h. SoundRouter-Keeps s.tables _ e.1 keeps h)
                sound.routers);
      }

  step-SoundSystem :
      (s : System) (event : Event)
      → IsContiguous s event
      → SoundSystem s
      → SoundSystem (step parse hex engine_id expected s event)
  unfolding step
  step-SoundSystem s (starts id) c sound = record {
    committed = sound.committed;
    marked = sound.marked;
    routers = assigned s id started sound (started-SoundRouter s.tables);
  }
  step-SoundSystem s (acts id action) c sound =
      elim (Option-cases (lookup text_discrete id s.routers)) [
        | inl e ↦ rw (step, e) sound
        | inr (r, e) ↦
            rw (step, e)
              (act-SoundSystem s id action r sound e
                (lookup-Each text_discrete (λ x. SoundRouter s.tables x.1) id r s.routers e
                  sound.routers)
                c)
      ]

  run-SoundSystem :
      (s : System) (events : List Event)
      → AreContiguous s events
      → SoundSystem s
      → SoundSystem (run parse hex engine_id expected s events)
  unfolding run AreContiguous
  run-SoundSystem s [] c sound = sound
  run-SoundSystem s (event ∷ events) c sound =
      run-SoundSystem (step parse hex engine_id expected s event) events c.1
        (step-SoundSystem s event c.0 sound)

  -- Take routers that start, crash and start again, with all their threads interleaved in any
  -- order, on the tables that `Migrate` creates and in a consumer group that has committed nothing
  -- yet. If Kafka skips nothing when a router begins a partition, then at every offset below what
  -- the group has committed in a partition there is an outbox row for that position which is
  -- marked as published and for which a router's `Publish` has answered true: no commit leaves out
  -- a message whose result, or dead letter, has not been handed to the publisher with success.
  pub committed_published :
      (events : List Event) (partition next k : ℕ)
      → AreContiguous initial events
      → lookup ℕ_discrete partition (run parse hex engine_id expected initial events).committed
        ≡ some next
      → k < next
      → let s = run parse hex engine_id expected initial events in
        was_reported s.reported partition k s.tables.outbox ≡ true
  unfolding initial migrated
  committed_published events partition next k c h low =
      let sound =
        run-SoundSystem initial events c (record { committed = tt; routers = tt; marked = tt }) in
      was_published-was_reported _ partition k _ sound.marked
        (lookup-Each ℕ_discrete _ partition next _ h sound.committed k low)
