-- ===== src/Durable/DurableRouter/Stored.antt =====
-- What the group has committed, against the delivery reports that Kafka gives the publishers of the
-- routers (durable_router_main.cpp, and `KafkaOutboxPublisher` of outbox_relay.cpp).
use infer_sched_distributed.Base.{
  ℕ, ◌≡◌, ◌<◌, subst, arith, true, List, [], ◌∷◌, Option, none, some, Option-cases, inl, inr,
  String, lookup, text_discrete, ℕ_discrete, mem,
}
use infer_sched_distributed.Distributed.Messages.{InferenceRequest}
use infer_sched_distributed.Durable.Store.{OutboxRow}
use infer_sched_distributed.Durable.Store.Published.{was_reported}
use infer_sched_distributed.Durable.OutboxRelay.Publisher.{AreAbout, created, publish-reported}
use infer_sched_distributed.Durable.DurableRouter.{Stage, relaying, Router}
use infer_sched_distributed.Durable.DurableRouter.Loop.{Answer, delivered, report, store}
use infer_sched_distributed.Durable.DurableRouter.System.{
  System, initial, Action, polls, receives, rebalances, proceeds, Event, starts, acts, act, step,
  run,
}
use infer_sched_distributed.Durable.DurableRouter.Committed.{AreContiguous, committed_published}

-- Each id of the one list is in the other.
Within : List ℕ → List ℕ → Type 0
Within ids stored = (id : ℕ) → mem id ids ≡ true → mem id stored ≡ true

was_reported-Within :
    (ids stored : List ℕ) (partition offset : ℕ) (rows : List OutboxRow)
    → Within ids stored
    → was_reported ids partition offset rows ≡ true
    → was_reported stored partition offset rows ≡ true
unfolding was_reported Within
was_reported-Within ids stored partition offset [] within h = absurd (ground arith)
was_reported-Within ids stored partition offset (row ∷ rows) within h =
    ground (arith, h, within row.id, was_reported-Within ids stored partition offset rows within)

-- The reports that arrive while a row is published are about its message.
abbrev pub Punctual : Answer → Stage → Type 0
Punctual a (relaying work (row ∷ rows)) = AreAbout row.id a.sending.polls
Punctual a _ = Unit

report-Within :
    (a : Answer) (stage : Stage) (ids stored : List ℕ)
    → Punctual a stage
    → Within ids stored
    → Within (report a stage ids) (store a stage stored)
unfolding Within report store delivered
report-Within a (relaying work (row ∷ rows)) ids stored own within id m =
    ground (arith, m, within id, publish-reported created a.sending row.id own)
report-Within a _ ids stored own within id m = within id m

-- That, where the action of a router is to proceed.
abbrev pub IsReady : Action → Router → Type 0
IsReady (proceeds a) r = Punctual a r.stage
IsReady _ r = Unit

abbrev pub IsReadyIfUp : Action → Option Router → Type 0
IsReadyIfUp action none = Unit
IsReadyIfUp action (some r) = IsReady action r

unfoldable pub IsPunctual : System → Event → Type 0
IsPunctual s (acts id action) = IsReadyIfUp action (lookup text_discrete id s.routers)
IsPunctual s _ = Unit

module _ (parse : String → Option InferenceRequest) (hex : String → String) (engine_id : String)
    (expected : ℕ) where
  unfoldable pub ArePunctual : System → List Event → Type 0
  ArePunctual s [] = Unit
  ArePunctual s (event ∷ events) =
      IsPunctual s event × ArePunctual (step parse hex engine_id expected s event) events

  act-Within :
      (s : System) (id : String) (r : Router) (action : Action)
      → IsReady action r
      → Within s.reported s.stored
      → Within
          (act parse hex engine_id expected id action r s).reported
          (act parse hex engine_id expected id action r s).stored
  unfolding act
  act-Within s id r (polls accepted) own within = within
  act-Within s id r (receives message) own within = within
  act-Within s id r (rebalances assign partitions) own within = within
  act-Within s id r (proceeds a) own within = report-Within a r.stage s.reported s.stored own within

  step-Within :
      (s : System) (event : Event)
      → IsPunctual s event
      → Within s.reported s.stored
      → Within
          (step parse hex engine_id expected s event).reported
          (step parse hex engine_id expected s event).stored
  unfolding step act IsPunctual
  step-Within s (starts id) own within = within
  step-Within s (acts id action) own within =
      elim (Option-cases (lookup text_discrete id s.routers)) [
        | inl e ↦ rw (step, e) within
        | inr (r, e) ↦
            rw (step, e) (act-Within s id r action (subst (IsReadyIfUp action) e own) within)
      ]

  run-Within :
      (s : System) (events : List Event)
      → ArePunctual s events
      → Within s.reported s.stored
      → Within
          (run parse hex engine_id expected s events).reported
          (run parse hex engine_id expected s events).stored
  unfolding run ArePunctual
  run-Within s [] own within = within
  run-Within s (event ∷ events) own within =
      run-Within (step parse hex engine_id expected s event) events own.1
        (step-Within s event own.0 within)

  -- Routers that start, crash and start again, with all their threads interleaved in any order, on
  -- the tables that `Migrate` creates and in a consumer group that has committed nothing yet. If
  -- Kafka skips nothing when a router begins a partition, and no delivery report of another
  -- message arrives during the `Publish` of a row, then at every offset below what the group has
  -- committed in a partition there is an outbox row for that position which is marked as published
  -- and whose message Kafka has reported as delivered: no commit loses a message's result, or its
  -- dead letter.
  pub committed_stored :
      (events : List Event) (partition next k : ℕ)
      → AreContiguous parse hex engine_id expected initial events
      → ArePunctual initial events
      → lookup ℕ_discrete partition (run parse hex engine_id expected initial events).committed
        ≡ some next
      → k < next
      → let s = run parse hex engine_id expected initial events in
        was_reported s.stored partition k s.tables.outbox ≡ true
  unfolding initial Within
  committed_stored events partition next k c own h low =
      let s = run parse hex engine_id expected initial events in
      was_reported-Within s.reported s.stored partition k s.tables.outbox
        (run-Within initial events own (λ id m. absurd (ground (arith, m))))
        (committed_published parse hex engine_id expected events partition next k c h low)
