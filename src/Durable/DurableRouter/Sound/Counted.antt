-- ===== src/Durable/DurableRouter/Sound/Counted.antt =====
-- What a durable router (durable_router_main.cpp) counts on, and a stage that only moves on.
use infer_sched_distributed.Base.{
  ℕ, ◌≤◌, ◌≡◌, refl, arith, true, List, [], Option, none, some, All, All-imp,
}
use infer_sched_distributed.Durable.Store.{Tables}
use infer_sched_distributed.Durable.Store.Published.{was_published, Keeps}
use infer_sched_distributed.Durable.RequestIngestor.{}
use infer_sched_distributed.Durable.KafkaPoller.{KafkaMessage}
use infer_sched_distributed.Durable.KafkaPoller.Sound.{SoundPoller, SoundPoller-imp}
use infer_sched_distributed.Durable.DurableRouter.{
  Work, recovered, executed, settled, Stage, Router, started, PollStage, committing, marking,
}
use infer_sched_distributed.Durable.DurableRouter.Loop.{after_failure, after_publish}

abbrev pub Done : Tables → ℕ → ℕ → Type 0
Done t partition offset = was_published partition offset t.outbox ≡ true

-- The message that the main thread is about to mark.
abbrev pub marks : Stage → Option KafkaMessage
marks (marking message counts) = some message
marks _ = none

abbrev pub SoundStage : Tables → Stage → Type 0
SoundStage t stage =
    (message : KafkaMessage) → marks stage ≡ some message → Done t message.partition message.offset

-- The commits that the poll thread has taken.
abbrev pub taken : PollStage → List (ℕ × ℕ)
taken (committing should_stop commits) = commits
taken _ = []

pub record SoundRouter (t : Tables) (r : Router) : Type 0 where
  pub poller : SoundPoller (Done t) r.poller
  pub sending : All (λ e. (k : ℕ) → k ≤ e.1 → Done t e.0 k) (taken r.poll_stage)
  pub stage : SoundStage t r.stage

pub SoundRouter-Keeps :
    (t t' : Tables) (r : Router) → Keeps t t' → SoundRouter t r → SoundRouter t' r
SoundRouter-Keeps t t' r keeps sound = record {
  poller = SoundPoller-imp (Done t) (Done t') r.poller keeps sound.poller;
  sending = All-imp _ _ (taken r.poll_stage) (λ e c k h. keeps e.0 k (c k h)) sound.sending;
  stage = λ m h. keeps m.partition m.offset (sound.stage m h);
}

pub started-SoundRouter : (t : Tables) → SoundRouter t started
unfolding started
started-SoundRouter t = record {
  poller = record { trackers = tt; commits = tt };
  sending = tt;
  stage = λ m h. absurd (ground arith);
}

pub marks-after_failure : (work : Work) → marks (after_failure work) ≡ none
marks-after_failure (recovered rows) = refl
marks-after_failure (executed message) = refl
marks-after_failure (settled message) = refl

-- What one stage keeps, of the tables before it.
pub record Proceeds (t : Tables) (r r' : Router) : Type 0 where
  pub poller : SoundPoller (Done t) r.poller → SoundPoller (Done t) r'.poller
  pub poll_stage : r'.poll_stage ≡ r.poll_stage
  pub stage : SoundStage t r.stage → SoundStage t r'.stage

-- A stage that only moves on, and not to `marking`.
pub moves :
    (t : Tables) (r r' : Router)
    → r'.poller ≡ r.poller
    → r'.poll_stage ≡ r.poll_stage
    → marks r'.stage ≡ none
    → Proceeds t r r'
moves t r r' e f g = record {
  poller = λ sound. rw e sound;
  poll_stage = f;
  stage = λ sound m h. absurd (ground (arith, g, h));
}

pub still : (t : Tables) (r : Router) → Proceeds t r r
still t r = record { poller = λ sound. sound; poll_stage = refl; stage = λ sound. sound }

pub after_publish-Proceeds :
    (t : Tables) (r : Router) (work : Work) → Proceeds t r (after_publish r work)
unfolding after_publish
after_publish-Proceeds t r (recovered rows) = moves t r _ refl refl refl
after_publish-Proceeds t r (executed message) = moves t r _ refl refl refl
after_publish-Proceeds t r (settled message) = moves t r _ refl refl refl

pub poll_stage-after_publish :
    (r : Router) (work : Work) → (after_publish r work).poll_stage ≡ r.poll_stage
unfolding after_publish
poll_stage-after_publish r (recovered rows) = refl
poll_stage-after_publish r (executed message) = refl
poll_stage-after_publish r (settled message) = refl
