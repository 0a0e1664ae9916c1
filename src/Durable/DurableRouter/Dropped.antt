-- ===== src/Durable/DurableRouter/Dropped.antt =====
-- Messages that the main loop (durable_router_main.cpp) leaves with `continue`: nothing puts them
-- back into the poller's queue.
use infer_sched_distributed.Base.{
  true, false, same_text, same_text_iff, ℕ, ◌<◌, ◌≡◌, ◌≢◌, refl, ◌∙◌, Bool, List, [], ◌∷◌, Option,
  none, some, String, All, All-append_one, sym, if_elim, lookup, text_discrete,
  lookup-insert_or_assign_self, lookup-insert_or_assign_ne, Option-cases, inl, inr, subst,
}
use infer_sched_distributed.Distributed.Messages.{InferenceRequest}
use infer_sched_distributed.Durable.Store.{Tables, Fence}
use infer_sched_distributed.Durable.Store.Queries.{is_source_published}
use infer_sched_distributed.Durable.RequestIngestor.{SourcePosition, request_id_of, next_attempt}
use infer_sched_distributed.Durable.RequestIngestor.Deliveries.{handle_retry}
use infer_sched_distributed.Durable.KafkaPoller.{KafkaMessage, take_commits, receive}
use infer_sched_distributed.Durable.KafkaPoller.Waits.{Waits, Short, Elsewhere, receive-Waits}
use infer_sched_distributed.Durable.DurableRouter.{
  dispatch, dispatching, executed, checking_published, Router, handling, PollStage, polling,
  committing, closed,
}
use infer_sched_distributed.Durable.DurableRouter.Loop.{
  Answer, proceed, parse_id, handle_message, after_handle,
}
use infer_sched_distributed.Durable.DurableRouter.Sound.{taken, proceed-poll_stage}
use infer_sched_distributed.Durable.DurableRouter.Held.{Stuck, proceed-Stuck}
use infer_sched_distributed.Durable.DurableRouter.System.{
  System, Action, polls, receives, rebalances, proceeds, Event, starts, acts, poll, act, step, run,
}

-- The router is not started again, no rebalance is made, and the message at the position is not
-- given to it: Kafka gives a consumer each message once, as long as it keeps the partition.
unfoldable pub IsOnward : String → ℕ → ℕ → Event → Type 0
IsOnward id p k (starts other) = other ≢ id
IsOnward id p k (acts other (receives message)) = other ≡ id → Elsewhere p k message
IsOnward id p k (acts other (rebalances assign partitions)) = other ≢ id
IsOnward id p k (acts other (polls accepted)) = Unit
IsOnward id p k (acts other (proceeds answer)) = Unit

module _ (p k : ℕ) where
  -- Nothing that the router has committed or is to commit reaches the offset.
  pub record Stalls (r : Router) : Type 0 where
    pub stuck : Stuck p k r
    pub sending : All (Short p k) (taken r.poll_stage)

  poll-Stalls :
      (r : Router) (committed : List (ℕ × ℕ)) (accepted : Bool) (stage : PollStage)
      → Stuck p k r
      → All (Short p k) (taken stage)
      → Stalls r
      → Stalls (poll r committed accepted stage).0
  unfolding poll take_commits
  poll-Stalls r committed accepted polling stuck sending all = record {
    stuck = record {
      poller = record {
        tracker = stuck.poller.tracker;
        tracked = stuck.poller.tracked;
        waits = stuck.poller.waits;
        commits = tt;
      };
      queued = stuck.queued;
      working = stuck.working;
    };
    sending = stuck.poller.commits;
  }
  poll-Stalls r committed accepted (committing should_stop []) stuck sending all = record {
    stuck = record { poller = stuck.poller; queued = stuck.queued; working = stuck.working };
    sending = if_elim (λ x. All (Short p k) (taken x)) should_stop (λ _. tt) (λ _. tt);
  }
  poll-Stalls r committed accepted (committing should_stop ((partition, offset) ∷ commits)) stuck
        sending all =
      record {
        stuck = record { poller = stuck.poller; queued = stuck.queued; working = stuck.working };
        sending = sending.1;
      }
  poll-Stalls r committed accepted closed stuck sending all = all

  module _ (parse : String → Option InferenceRequest) (hex : String → String) (engine_id : String)
      (expected : ℕ) where
    -- The router stands in the system, and stalls.
    abbrev StallsIn : String → System → Type 0
    StallsIn id s = (r : Router) × (lookup text_discrete id s.routers ≡ some r) × Stalls r

    act-Stalls :
        (s : System) (id : String) (action : Action) (r : Router)
        → IsOnward id p k (acts id action)
        → Stalls r
        → StallsIn id (act parse hex engine_id expected id action r s)
    unfolding act IsOnward
    act-Stalls s id (polls accepted) r onward all = (
      (poll r s.committed accepted r.poll_stage).0,
      lookup-insert_or_assign_self text_discrete id _ s.routers,
      poll-Stalls r s.committed accepted r.poll_stage all.stuck all.sending all,
    )
    act-Stalls s id (receives message) r onward all = (
      record r { poller = receive r.poller message },
      lookup-insert_or_assign_self text_discrete id _ s.routers,
      record {
        stuck = record {
          poller = receive-Waits p k r.poller message all.stuck.poller;
          queued =
              unfold receive in
              All-append_one (Elsewhere p k) r.poller.messages message all.stuck.queued
                (onward refl);
          working = all.stuck.working;
        };
        sending = all.sending;
      },
    )
    act-Stalls s id (rebalances assign partitions) r onward all = absurd (onward refl)
    act-Stalls s id (proceeds answer) r onward all =
        let (r', t) = proceed parse hex id engine_id expected r s.tables answer r.stage in
        (
          r',
          lookup-insert_or_assign_self text_discrete id r' s.routers,
          record {
            stuck =
                proceed-Stuck p k parse hex id engine_id expected r s.tables answer r.stage refl
                  all.stuck;
            sending =
                rw (proceed-poll_stage parse hex id engine_id expected r s.tables answer r.stage)
                  all.sending;
          },
        )

    other_router :
        (s : System) (id other : String) (action : Action) (r : Router)
        → other ≢ id
        → lookup text_discrete id (act parse hex engine_id expected other action r s).routers
          ≡ lookup text_discrete id s.routers
    unfolding act
    other_router s id other (polls accepted) r ne =
        lookup-insert_or_assign_ne text_discrete other id _ s.routers ne
    other_router s id other (receives message) r ne =
        lookup-insert_or_assign_ne text_discrete other id _ s.routers ne
    other_router s id other (rebalances assign partitions) r ne =
        lookup-insert_or_assign_ne text_discrete other id _ s.routers ne
    other_router s id other (proceeds answer) r ne =
        lookup-insert_or_assign_ne text_discrete other id _ s.routers ne

    step-Stalls :
        (s : System) (id : String) (event : Event)
        → IsOnward id p k event
        → StallsIn id s
        → StallsIn id (step parse hex engine_id expected s event)
    unfolding step IsOnward
    step-Stalls s id (starts other) onward (r, found, all) =
        (r, lookup-insert_or_assign_ne text_discrete other id _ s.routers onward ∙ found, all)
    step-Stalls s id (acts other action) onward (r, found, all) = elim (text_discrete other id) [
      | yes e ↦
          subst
            (λ x.
              IsOnward id p k (acts x action)
              → StallsIn id (step parse hex engine_id expected s (acts x action)))
            (sym e) (λ here. rw (step, found) (act-Stalls s id action r here all)) onward
      | no n ↦ elim (Option-cases (lookup text_discrete other s.routers)) [
        | inl e ↦ rw (step, e) (r, found, all)
        | inr (r', e) ↦ rw (step, e) (r, other_router s id other action r' n ∙ found, all)
      ]
    ]

    run-Stalls :
        (s : System) (id : String) (events : List Event)
        → All (IsOnward id p k) events
        → StallsIn id s
        → StallsIn id (run parse hex engine_id expected s events)
    unfolding run
    run-Stalls s id [] onward h = h
    run-Stalls s id (event ∷ events) onward h =
        run-Stalls (step parse hex engine_id expected s event) id events onward.1
          (step-Stalls s id event onward.0 h)

abbrev pub position_of : KafkaMessage → SourcePosition
position_of message = record { partition = message.partition; offset = message.offset }

module _ (parse : String → Option InferenceRequest) (hex : String → String) (engine_id : String)
    (expected : ℕ) where
  -- The main thread is about to leave the message with `continue`: it does not parse and has
  -- attempts left; the engine rejects it, or its stream fails; its row is not published after the
  -- batch, because `Publish` answered false or the batch did not reach it.
  pub data IsDropped (id : String) (t : Tables) (a : Answer) (message : KafkaMessage) (r : Router)
      : Type 0 where
    unreadable :
        r.stage ≡ handling message
        → request_id_of (parse_id parse hex id engine_id expected) message.payload ≡ none
        → next_attempt r.ingestor (position_of message) < r.ingestor.max_parse_retries
        → IsDropped id t a message r
    refused :
        (request : InferenceRequest) (fence : Fence)
        → r.stage ≡ dispatching (executed message) request fence
        → dispatch a.events a.finished ≡ ""
        → IsDropped id t a message r
    not_published :
        (counts : Bool)
        → r.stage ≡ checking_published message counts
        → is_source_published t message.partition message.offset ≡ false
        → IsDropped id t a message r

  -- The stage after it has nothing at work.
  drops :
      (id : String) (r : Router) (t : Tables) (a : Answer) (message : KafkaMessage)
      → IsDropped id t a message r
      → Waits message.partition message.offset r.poller
      → All (Elsewhere message.partition message.offset) r.poller.messages
      → Stuck message.partition message.offset
          (proceed parse hex id engine_id expected r t a r.stage).0
  unfolding proceed handle_message after_handle
  drops id r t a message (unreadable at bad few) waits queued =
      let again =
        handle_retry (parse_id parse hex id engine_id expected) hex r.ingestor t
          (position_of message) message.payload bad few in
      rw at (record { poller = waits; queued = queued; working = rw again tt })
  drops id r t a message (refused request fence at empty) waits queued =
      let same : same_text (dispatch a.events a.finished) "" ≡ true =
        (same_text_iff (dispatch a.events a.finished) "").1 empty in
      rw at (record { poller = waits; queued = queued; working = rw same tt })
  drops id r t a message (not_published counts at no_row) waits queued =
      rw at (record { poller = waits; queued = queued; working = rw no_row tt })

  -- A router leaves a message with `continue`, in one of the three ways of `IsDropped`. At that time
  -- its tracker waits for the offset, the router has no second copy of the message, and no commit of
  -- the partition that is queued in its poller or already taken by its poll thread reaches the
  -- offset (a commit queued before a rebalance is sent after it). Then whatever
  -- comes after, of this router and of others, as long as the router is not started again or
  -- rebalanced and Kafka does not give it that message again: its tracker never passes the offset,
  -- and it never queues or sends a commit of the partition that reaches the offset, even when the
  -- row is published later. So the partition's commits wait for the next rebalance or start.
  pub dropped_blocks :
      (s : System) (events : List Event) (id : String) (r : Router) (message : KafkaMessage)
      (a : Answer)
      → lookup text_discrete id s.routers ≡ some r
      → IsDropped id s.tables a message r
      → Waits message.partition message.offset r.poller
      → All (Elsewhere message.partition message.offset) r.poller.messages
      → All (Short message.partition message.offset) (taken r.poll_stage)
      → All (IsOnward id message.partition message.offset) events
      → (r' : Router) × (lookup text_discrete id
            (run parse hex engine_id expected s (acts id (proceeds a) ∷ events)).routers
          ≡ some r')
        × Stalls message.partition message.offset r'
  unfolding run step act
  dropped_blocks s events id r message a found dropped waits queued sending onward =
      let p = message.partition in
      let k = message.offset in
      let after = proceed parse hex id engine_id expected r s.tables a r.stage in
      let stuck : Stuck p k after.0 = drops id r s.tables a message dropped waits queued in
      let same = proceed-poll_stage parse hex id engine_id expected r s.tables a r.stage in
      run-Stalls p k parse hex engine_id expected
        (step parse hex engine_id expected s (acts id (proceeds a))) id events onward
        (
          after.0,
          rw (step, found) (lookup-insert_or_assign_self text_discrete id after.0 s.routers),
          record { stuck = stuck; sending = rw same sending },
        )
