-- ===== src/Durable/DurableRouter/Held.antt =====
-- The messages in a router's hands (durable_router_main.cpp): those queued, and the one at work.
mod AtWork
unfoldable pub use AtWork.*
use infer_sched_distributed.Base.{
  ℕ, ◌≡◌, refl, arith, Bool, List, [], ◌∷◌, Option, none, some, String, All, ◌⊎◌, if_elim, ap,
  subst, Option-cases, inl, inr,
}
use infer_sched_distributed.Distributed.Messages.{InferenceRequest}
use infer_sched_distributed.Durable.Store.{Tables, Fence, Request}
use infer_sched_distributed.Durable.RequestIngestor.{
  IngestOutcome, inserted, duplicate, retry_parse, poison_recorded,
}
use infer_sched_distributed.Durable.KafkaPoller.{
  KafkaMessage, KafkaPoller, request_stop, pop, pop_ownership_event, mark_publish_complete,
}
use infer_sched_distributed.Durable.KafkaPoller.Waits.{
  Waits, Waits-same, Elsewhere, mark_publish_complete-Waits,
}
use infer_sched_distributed.Durable.DurableRouter.{
  Work, recovered, executed, settled, Stage, Router, acquiring, handling, assigning, finalizing,
  relaying, looping, popping, stopped, crashed, recovering, redispatching, owning,
  checking_terminal, executing, dispatching, publishing, checking_published, marking,
}
use infer_sched_distributed.Durable.DurableRouter.Loop.{
  delivered, Answer, proceed, acquire, handle_message, assign, finish, loop, pop_message,
  redispatch, execute, after_failure, after_handle, after_publish,
}

module _ (p k : ℕ) where
  module _ (parse : String → Option InferenceRequest) (hex : String → String)
      (router_id engine_id : String) (expected : ℕ) where
    at_stage :
        (r : Router) (stage : Stage)
        → r.stage ≡ stage
        → Stuck p k r
        → All (Elsewhere p k) (at_work stage)
    at_stage r stage e stuck = subst (λ x. All (Elsewhere p k) (at_work x)) e stuck.working

    loop-Stuck :
        (r : Router) (late : Bool)
        → at_work r.stage ≡ []
        → Stuck p k r
        → Stuck p k (loop parse hex router_id engine_id expected r late)
    unfolding loop pop_ownership_event request_stop
    loop-Stuck r late idle stuck =
        let queue : (loop parse hex router_id engine_id expected r late).poller.messages
            ≡ r.poller.messages =
          ground arith in
        let none_at_work : at_work (loop parse hex router_id engine_id expected r late).stage ≡ [] =
          ground (arith, idle) in
        record {
          poller = Waits-same p k r.poller _ (ground arith) (ground arith) stuck.poller;
          queued = rw queue stuck.queued;
          working = rw none_at_work tt;
        }

    pop_message-Stuck :
        (r : Router)
        → Stuck p k r
        → Stuck p k (pop_message parse hex router_id engine_id expected r)
    unfolding pop_message pop
    pop_message-Stuck r stuck =
        let waits =
          Waits-same p k r.poller (pop_message parse hex router_id engine_id expected r).poller
            (ground arith) (ground arith) stuck.poller in
        let (queue, at) = popped r.poller.messages refl in
        record { poller = waits; queued = queue; working = at }
      where
        popped :
            (messages : List KafkaMessage)
            → r.poller.messages ≡ messages
            → All
                (Elsewhere p k)
                (pop_message parse hex router_id engine_id expected r).poller.messages
              × All
                  (Elsewhere p k)
                  (at_work (pop_message parse hex router_id engine_id expected r).stage)
        popped [] e = rw (pop_message, pop_empty r.poller e) (rw e tt, tt)
        popped (m ∷ ms) e =
            let h : All (Elsewhere p k) (m ∷ ms) = subst (All (Elsewhere p k)) e stuck.queued in
            let first = pop_first r.poller m ms e in
            let queue : (pop_message parse hex router_id engine_id expected r).poller.messages
                ≡ ms =
              ground (arith, first) in
            let taken : at_work (pop_message parse hex router_id engine_id expected r).stage
                ≡ m ∷ [] =
              ground (arith, first) in
            (rw queue h.1, rw taken (h.0, tt))

    acquire-Stuck :
        (r : Router) (t : Tables) (partition : ℕ) (partitions : List ℕ)
        → Stuck p k r
        → Stuck p k (acquire parse hex router_id engine_id expected r t partition partitions).0
    unfolding acquire
    acquire-Stuck r t partition partitions = idles p k r _ (ground arith) (ground arith)

    redispatch_idle :
        (r : Router) (row : String × Request) (rows : List (String × Request))
        → at_work (redispatch parse hex router_id engine_id expected r row rows) ≡ []
    unfolding redispatch
    redispatch_idle r row rows = ground arith

    -- What is at work after a stage was at work before it.
    after_handle-Stuck :
        (message : KafkaMessage) (outcome : IngestOutcome)
        → Elsewhere p k message
        → All
            (Elsewhere p k)
            (at_work (after_handle parse hex router_id engine_id expected message outcome))
    unfolding after_handle
    after_handle-Stuck message inserted h = elim (Option-cases (parse message.payload)) [
      | inl e ↦ rw (after_handle, e) tt
      | inr (request, e) ↦ rw (after_handle, e) (h, tt)
    ]
    after_handle-Stuck message duplicate h = elim (Option-cases (parse message.payload)) [
      | inl e ↦ rw (after_handle, e) tt
      | inr (request, e) ↦ rw (after_handle, e) (h, tt)
    ]
    after_handle-Stuck message retry_parse h = tt
    after_handle-Stuck message poison_recorded h = (h, tt)

    -- The other stages pass on what is at work, or drop it.
    keeps :
        (r r' : Router) (before : List KafkaMessage)
        → r'.poller ≡ r.poller
        → (at_work r'.stage ≡ before) ⊎ (at_work r'.stage ≡ [])
        → All (Elsewhere p k) before
        → Stuck p k r
        → Stuck p k r'
    keeps r r' before e (inl same) h stuck = record {
      poller = rw e stuck.poller;
      queued = rw e stuck.queued;
      working = rw same h;
    }
    keeps r r' before e (inr none_left) h stuck = idles p k r r' e none_left stuck

    execute-keeps :
        (r : Router) (work : Work) (request : InferenceRequest) (partition : ℕ)
        → (at_work (execute parse hex router_id engine_id expected r work request partition)
            ≡ of_work work)
          ⊎ (at_work (execute parse hex router_id engine_id expected r work request partition) ≡ [])
    unfolding execute
    execute-keeps r work request partition = ground (arith, at_work-after_failure work)

    assign-keeps :
        (r : Router) (t : Tables) (work : Work) (request : InferenceRequest) (partition epoch : ℕ)
        → let r' =
            (assign parse hex router_id engine_id expected r t work request partition epoch).0 in
          (at_work r'.stage ≡ of_work work) ⊎ (at_work r'.stage ≡ [])
    unfolding assign
    assign-keeps r t work request partition epoch = ground (arith, at_work-after_failure work)

    finish-keeps :
        (r : Router) (t : Tables) (work : Work) (request : InferenceRequest) (fence : Fence)
        (result : String)
        → let r' =
            (finish parse hex router_id engine_id expected r t work request fence result).0 in
          (at_work r'.stage ≡ of_work work) ⊎ (at_work r'.stage ≡ [])
    unfolding finish
    finish-keeps r t work request fence result = ground (arith, at_work-after_failure work)

    pub proceed-Stuck :
        (r : Router) (t : Tables) (a : Answer) (stage : Stage)
        → r.stage ≡ stage
        → Stuck p k r
        → Stuck p k (proceed parse hex router_id engine_id expected r t a stage).0
    unfolding proceed
    proceed-Stuck r t a looping e = loop-Stuck r a.past_deadline (ap at_work e)
    proceed-Stuck r t a popping e = pop_message-Stuck r
    proceed-Stuck r t a stopped e = λ stuck. stuck
    proceed-Stuck r t a crashed e = λ stuck. stuck
    proceed-Stuck r t a (acquiring []) e = idles p k r _ refl refl
    proceed-Stuck r t a (acquiring (partition ∷ partitions)) e =
        acquire-Stuck r t partition partitions
    proceed-Stuck r t a recovering e = idles p k r _ refl refl
    proceed-Stuck r t a (redispatching []) e = idles p k r _ refl refl
    proceed-Stuck r t a (redispatching (row ∷ rows)) e =
        idles p k r _ refl (redispatch_idle r row rows)
    proceed-Stuck r t a (owning message) e =
        λ stuck. keeps r _ (message ∷ []) refl (ground arith) (at_stage r _ e stuck) stuck
    proceed-Stuck r t a (handling message) e = λ stuck. record {
      poller = unfold handle_message in stuck.poller;
      queued = unfold handle_message in stuck.queued;
      working = unfold handle_message in (after_handle-Stuck message _ (at_stage r _ e stuck).0);
    }
    proceed-Stuck r t a (checking_terminal message request) e =
        λ stuck. keeps r _ (message ∷ []) refl (ground arith) (at_stage r _ e stuck) stuck
    proceed-Stuck r t a (executing work request partition) e = λ stuck.
        keeps r _ (of_work work) refl (execute-keeps r work request partition)
          (at_stage r _ e stuck) stuck
    proceed-Stuck r t a (assigning work request partition epoch) e = λ stuck.
        keeps r _ (of_work work) (unfold assign in ground arith)
          (assign-keeps r t work request partition epoch) (at_stage r _ e stuck) stuck
    proceed-Stuck r t a (dispatching work request fence) e = λ stuck.
        keeps r _ (of_work work) refl (ground (arith, at_work-after_failure work))
          (at_stage r _ e stuck) stuck
    proceed-Stuck r t a (finalizing work request fence result) e = λ stuck.
        keeps r _ (of_work work) (unfold finish in ground arith)
          (finish-keeps r t work request fence result) (at_stage r _ e stuck) stuck
    proceed-Stuck r t a (publishing work) e =
        λ stuck. keeps r _ (of_work work) refl (inl refl) (at_stage r _ e stuck) stuck
    proceed-Stuck r t a (relaying work []) e =
        λ stuck. after_publish-Stuck p k r work (at_stage r _ e stuck) stuck
    proceed-Stuck r t a (relaying work (row ∷ rows)) e = λ stuck.
        if_elim (λ (x : Router × Tables). Stuck p k x.0) (delivered a)
          (λ _. keeps r _ (of_work work) refl (inl refl) (at_stage r _ e stuck) stuck)
          (λ _. after_publish-Stuck p k r work (at_stage r _ e stuck) stuck)
    proceed-Stuck r t a (checking_published message counts) e =
        λ stuck. keeps r _ (message ∷ []) refl (ground arith) (at_stage r _ e stuck) stuck
    proceed-Stuck r t a (marking message counts) e = λ stuck. record {
      poller =
          mark_publish_complete-Waits p k r.poller message (at_stage r _ e stuck).0 stuck.poller;
      queued =
          rw (messages-mark_publish_complete r.poller message.partition message.offset)
            stuck.queued;
      working = tt;
    }
