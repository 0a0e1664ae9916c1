-- ===== src/Durable/DurableRouter/Sound.antt =====
-- What a durable router (durable_router_main.cpp) counts on is published: the offsets that its
-- poller has been told of, those that its poll thread is about to commit, and the one that its main
-- thread is about to mark.
mod Counted
unfoldable pub use Counted.*
use infer_sched_distributed.Base.{
  ℕ, ◌≤◌, ◌≡◌, refl, arith, Bool, true, List, [], ◌∷◌, Option, none, some, String, All, All-imp,
  if_elim,
}
use infer_sched_distributed.Distributed.Messages.{InferenceRequest}
use infer_sched_distributed.Durable.Store.{Tables, Fence, Request}
use infer_sched_distributed.Durable.Store.Published.{
  was_published, Keeps, is_source_published-was_published,
}
use infer_sched_distributed.Durable.RequestIngestor.{
  IngestOutcome, inserted, duplicate, retry_parse, poison_recorded,
}
use infer_sched_distributed.Durable.KafkaPoller.{
  KafkaMessage, request_stop, pop, pop_ownership_event,
}
use infer_sched_distributed.Durable.KafkaPoller.Sound.{
  SoundPoller, SoundPoller-same, SoundPoller-imp, mark_publish_complete-SoundPoller,
}
use infer_sched_distributed.Durable.DurableRouter.{
  Work, recovered, executed, settled, Stage, Router, started, PollStage, committing, acquiring,
  handling, assigning, finalizing, relaying, looping, popping, stopped, crashed, recovering,
  redispatching, owning, checking_terminal, executing, dispatching, publishing, checking_published,
  marking,
}
use infer_sched_distributed.Durable.DurableRouter.Loop.{
  delivered, Answer, proceed, acquire, handle_message, assign, finish, loop, pop_message,
  redispatch, execute, after_failure, after_handle, after_publish,
}
use infer_sched_distributed.Durable.DurableRouter.Posted.{proceed-Keeps}

module _ (parse : String → Option InferenceRequest) (hex : String → String)
    (router_id engine_id : String) (expected : ℕ) where
  loop-Proceeds :
      (r : Router) (t : Tables) (late : Bool)
      → Proceeds t r (loop parse hex router_id engine_id expected r late)
  unfolding loop pop_ownership_event request_stop
  loop-Proceeds r t late = record {
    poller = λ sound. SoundPoller-same (Done t) r.poller _ (ground arith) (ground arith) sound;
    poll_stage = ground arith;
    stage = λ sound m h. ground (arith, sound m);
  }

  pop_message-Proceeds :
      (r : Router) (t : Tables)
      → Proceeds t r (pop_message parse hex router_id engine_id expected r)
  unfolding pop_message pop
  pop_message-Proceeds r t = record {
    poller = λ sound. SoundPoller-same (Done t) r.poller _ (ground arith) (ground arith) sound;
    poll_stage = ground arith;
    stage = λ sound m h. absurd (ground arith);
  }

  acquire-Proceeds :
      (r : Router) (t : Tables) (partition : ℕ) (partitions : List ℕ)
      → Proceeds t r (acquire parse hex router_id engine_id expected r t partition partitions).0
  unfolding acquire
  acquire-Proceeds r t partition partitions =
      moves t r _ (ground arith) (ground arith) (ground arith)

  redispatch_quiet :
      (r : Router) (row : String × Request) (rows : List (String × Request))
      → marks (redispatch parse hex router_id engine_id expected r row rows) ≡ none
  unfolding redispatch
  redispatch_quiet r row rows = ground arith

  after_handle_quiet :
      (message : KafkaMessage) (outcome : IngestOutcome)
      → marks (after_handle parse hex router_id engine_id expected message outcome) ≡ none
  unfolding after_handle
  after_handle_quiet message inserted = ground arith
  after_handle_quiet message duplicate = ground arith
  after_handle_quiet message retry_parse = refl
  after_handle_quiet message poison_recorded = refl

  execute_quiet :
      (r : Router) (work : Work) (request : InferenceRequest) (partition : ℕ)
      → marks (execute parse hex router_id engine_id expected r work request partition) ≡ none
  unfolding execute
  execute_quiet r work request partition = ground (arith, marks-after_failure work)

  assign-Proceeds :
      (r : Router) (t : Tables) (work : Work) (request : InferenceRequest) (partition epoch : ℕ)
      → Proceeds t r
          (assign parse hex router_id engine_id expected r t work request partition epoch).0
  unfolding assign
  assign-Proceeds r t work request partition epoch =
      moves t r _ (ground arith) (ground arith) (ground (arith, marks-after_failure work))

  finish-Proceeds :
      (r : Router) (t : Tables) (work : Work) (request : InferenceRequest) (fence : Fence)
      (result : String)
      → Proceeds t r (finish parse hex router_id engine_id expected r t work request fence result).0
  unfolding finish
  finish-Proceeds r t work request fence result =
      moves t r _ (ground arith) (ground arith) (ground (arith, marks-after_failure work))

  proceed-Proceeds :
      (r : Router) (t : Tables) (a : Answer) (stage : Stage)
      → SoundStage t stage
      → Proceeds t r (proceed parse hex router_id engine_id expected r t a stage).0
  unfolding proceed
  proceed-Proceeds r t a looping sound = loop-Proceeds r t a.past_deadline
  proceed-Proceeds r t a popping sound = pop_message-Proceeds r t
  proceed-Proceeds r t a stopped sound = still t r
  proceed-Proceeds r t a crashed sound = still t r
  proceed-Proceeds r t a (acquiring []) sound = moves t r _ refl refl refl
  proceed-Proceeds r t a (acquiring (partition ∷ partitions)) sound =
      acquire-Proceeds r t partition partitions
  proceed-Proceeds r t a recovering sound = moves t r _ refl refl refl
  proceed-Proceeds r t a (redispatching []) sound = moves t r _ refl refl refl
  proceed-Proceeds r t a (redispatching (row ∷ rows)) sound =
      moves t r _ refl refl (redispatch_quiet r row rows)
  proceed-Proceeds r t a (owning message) sound = moves t r _ refl refl (ground arith)
  proceed-Proceeds r t a (handling message) sound =
      moves t r _ (unfold handle_message in refl) (unfold handle_message in refl)
        (unfold handle_message in after_handle_quiet message _)
  proceed-Proceeds r t a (checking_terminal message request) sound =
      moves t r _ refl refl (ground arith)
  proceed-Proceeds r t a (executing work request partition) sound =
      moves t r _ refl refl (execute_quiet r work request partition)
  proceed-Proceeds r t a (assigning work request partition epoch) sound =
      assign-Proceeds r t work request partition epoch
  proceed-Proceeds r t a (dispatching work request fence) sound =
      moves t r _ refl refl (ground (arith, marks-after_failure work))
  proceed-Proceeds r t a (finalizing work request fence result) sound =
      finish-Proceeds r t work request fence result
  proceed-Proceeds r t a (publishing work) sound = moves t r _ refl refl refl
  proceed-Proceeds r t a (relaying work []) sound = after_publish-Proceeds t r work
  proceed-Proceeds r t a (relaying work (row ∷ rows)) sound =
      if_elim (λ (x : Router × Tables). Proceeds t r x.0) (delivered a)
        (λ _. moves t r _ refl refl refl) (λ _. after_publish-Proceeds t r work)
  proceed-Proceeds r t a (checking_published message counts) sound = record {
    poller = λ p. p;
    poll_stage = refl;
    stage = λ _ m h. is_source_published-was_published t m.partition m.offset (ground arith);
  }
  proceed-Proceeds r t a (marking message counts) sound = record {
    poller =
        mark_publish_complete-SoundPoller (Done t) r.poller message.partition message.offset
          (sound message refl);
    poll_stage = refl;
    stage = λ _ m h. absurd (ground arith);
  }

  pub proceed-poll_stage :
      (r : Router) (t : Tables) (a : Answer) (stage : Stage)
      → (proceed parse hex router_id engine_id expected r t a stage).0.poll_stage ≡ r.poll_stage
  unfolding proceed loop pop_message acquire handle_message assign finish
  proceed-poll_stage r t a looping = ground arith
  proceed-poll_stage r t a popping = ground arith
  proceed-poll_stage r t a stopped = refl
  proceed-poll_stage r t a crashed = refl
  proceed-poll_stage r t a recovering = refl
  proceed-poll_stage r t a (acquiring []) = refl
  proceed-poll_stage r t a (acquiring (partition ∷ partitions)) = ground arith
  proceed-poll_stage r t a (redispatching []) = refl
  proceed-poll_stage r t a (redispatching (row ∷ rows)) = refl
  proceed-poll_stage r t a (owning message) = refl
  proceed-poll_stage r t a (handling message) = ground arith
  proceed-poll_stage r t a (checking_terminal message request) = refl
  proceed-poll_stage r t a (executing work request partition) = refl
  proceed-poll_stage r t a (assigning work request partition epoch) = ground arith
  proceed-poll_stage r t a (dispatching work request fence) = refl
  proceed-poll_stage r t a (finalizing work request fence result) = ground arith
  proceed-poll_stage r t a (publishing work) = refl
  proceed-poll_stage r t a (relaying work []) = ground (arith, poll_stage-after_publish r work)
  proceed-poll_stage r t a (relaying work (row ∷ rows)) =
      ground (arith, poll_stage-after_publish r work)
  proceed-poll_stage r t a (checking_published message counts) = refl
  proceed-poll_stage r t a (marking message counts) = refl

  pub proceed-SoundRouter :
      (r : Router) (t : Tables) (a : Answer)
      → SoundRouter t r
      → let (r', t') = proceed parse hex router_id engine_id expected r t a r.stage in
        SoundRouter t' r'
  proceed-SoundRouter r t a sound =
      let (r', t') = proceed parse hex router_id engine_id expected r t a r.stage in
      let kept = proceed-Proceeds r t a r.stage sound.stage in
      SoundRouter-Keeps t t' r' (proceed-Keeps parse hex router_id engine_id expected r t a r.stage)
        (record {
          poller = kept.poller sound.poller;
          sending = rw kept.poll_stage sound.sending;
          stage = kept.stage sound.stage;
        })
