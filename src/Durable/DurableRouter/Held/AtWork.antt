-- ===== src/Durable/DurableRouter/Held/AtWork.antt =====
-- What is at work in a stage of a durable router (durable_router_main.cpp).
use infer_sched_distributed.Base.{ℕ, ◌≡◌, refl, arith, List, [], ◌∷◌, none, some, All}
use infer_sched_distributed.Durable.RequestIngestor.{}
use infer_sched_distributed.Durable.KafkaPoller.{
  KafkaMessage, KafkaPoller, pop, mark_publish_complete,
}
use infer_sched_distributed.Durable.KafkaPoller.Waits.{Waits, Elsewhere}
use infer_sched_distributed.Durable.DurableRouter.{
  Work, recovered, executed, settled, Stage, Router, handling, assigning, finalizing, relaying,
  owning, checking_terminal, executing, dispatching, publishing, checking_published, marking,
}
use infer_sched_distributed.Durable.DurableRouter.Loop.{after_failure, after_publish}

abbrev pub of_work : Work → List KafkaMessage
of_work (recovered rows) = []
of_work (executed message) = message ∷ []
of_work (settled message) = message ∷ []

abbrev pub at_work : Stage → List KafkaMessage
at_work (owning message) = message ∷ []
at_work (handling message) = message ∷ []
at_work (checking_terminal message request) = message ∷ []
at_work (executing work request partition) = of_work work
at_work (assigning work request partition epoch) = of_work work
at_work (dispatching work request fence) = of_work work
at_work (finalizing work request fence result) = of_work work
at_work (publishing work) = of_work work
at_work (relaying work rows) = of_work work
at_work (checking_published message counts) = message ∷ []
at_work (marking message counts) = message ∷ []
at_work _ = []

pub at_work-after_failure : (work : Work) → at_work (after_failure work) ≡ []
at_work-after_failure (recovered rows) = refl
at_work-after_failure (executed message) = refl
at_work-after_failure (settled message) = refl

pub pop_empty : (p : KafkaPoller) → p.messages ≡ [] → pop p ≡ (none, p)
unfolding pop
pop_empty p e = ground arith

pub pop_first :
    (p : KafkaPoller) (m : KafkaMessage) (ms : List KafkaMessage)
    → p.messages ≡ m ∷ ms
    → pop p ≡ (some m, record p { messages = ms })
unfolding pop
pop_first p m ms e = ground arith

pub messages-mark_publish_complete :
    (p : KafkaPoller) (partition offset : ℕ)
    → (mark_publish_complete p partition offset).messages ≡ p.messages
unfolding mark_publish_complete
messages-mark_publish_complete p partition offset = ground arith

module _ (p k : ℕ) where
  -- The router cannot complete the offset: its tracker waits for it, and no message in the
  -- router's hands has the position.
  pub record Stuck (r : Router) : Type 0 where
    pub poller : Waits p k r.poller
    pub queued : All (Elsewhere p k) r.poller.messages
    pub working : All (Elsewhere p k) (at_work r.stage)

  -- A stage with nothing at work after it.
  pub idles : (r r' : Router) → r'.poller ≡ r.poller → at_work r'.stage ≡ [] → Stuck r → Stuck r'
  idles r r' e h stuck = record {
    poller = rw e stuck.poller;
    queued = rw e stuck.queued;
    working = rw h tt;
  }

  pub after_publish-Stuck :
      (r : Router) (work : Work)
      → All (Elsewhere p k) (of_work work)
      → Stuck r
      → Stuck (after_publish r work)
  unfolding after_publish
  after_publish-Stuck r (recovered rows) h stuck = idles r _ refl refl stuck
  after_publish-Stuck r (executed message) h stuck = record {
    poller = stuck.poller;
    queued = stuck.queued;
    working = h;
  }
  after_publish-Stuck r (settled message) h stuck = record {
    poller = stuck.poller;
    queued = stuck.queued;
    working = h;
  }
