-- ===== src/Durable/KafkaPoller.antt =====
-- `KafkaPoller`: cpp/include/infersched/durable/kafka_poller.hpp and cpp/src/kafka_poller.cpp.
-- Each function is what one thread does under the mutex. librdkafka is not modelled: what it
-- delivers and accepts are arguments. A wait is its condition, asked once.
pub mod Sound
pub mod Waits
mod Tests
use infer_sched_distributed.Base.{
  ℕ, ◌+◌, ◌-◌, Bool, true, false, not, List, [], ◌∷◌, ◌++◌, Option, none, some, String, ltb, ◌==◌,
  if◌then◌else◌, same_text, ◌||◌, mem, is_some, lookup, insert_or_assign, erase, ℕ_discrete,
}
use infer_sched_distributed.Durable.OffsetTracker
use infer_sched_distributed.Durable.OffsetTracker.{OffsetTracker, set_insert, set_erase}

pub record KafkaMessage : Type 0 where
  pub payload : String
  pub key : String
  pub partition : ℕ
  pub offset : ℕ

pub data OwnershipEventKind : Type 0 where
  assigned revoked : OwnershipEventKind

pub record OwnershipEvent : Type 0 where
  pub kind : OwnershipEventKind
  pub partitions : List ℕ

-- The first message, event and commit of a queue is the oldest.
pub record KafkaPoller : Type 0 where
  pub messages : List KafkaMessage
  pub ownership_events : List OwnershipEvent
  pub commits : List (ℕ × ℕ)
  pub trackers : List (ℕ × OffsetTracker)
  pub assigned_partitions : List ℕ
  pub stop : Bool

abbrev pub empty_poller : KafkaPoller
empty_poller = record {
  messages = [];
  ownership_events = [];
  commits = [];
  trackers = [];
  assigned_partitions = [];
  stop = false;
}

-- The constructor, which throws on another policy.
unfoldable pub create : String → Option KafkaPoller
create offset_reset =
    if same_text offset_reset "earliest" || same_text offset_reset "latest"
    then some empty_poller
    else none

-- `joinable`: whether the poll thread has been started and not joined.
unfoldable pub start : Bool → KafkaPoller → KafkaPoller
start joinable p = if joinable then p else record p { stop = false }

unfoldable pub request_stop : KafkaPoller → KafkaPoller
request_stop p = record p { stop = true }

unfoldable pub pop : KafkaPoller → Option KafkaMessage × KafkaPoller
pop p = elim p.messages [
  | [] ↦ (none, p)
  | message ∷ messages ↦ (some message, record p { messages = messages })
]

unfoldable pub pop_ownership_event : KafkaPoller → Option OwnershipEvent × KafkaPoller
pop_ownership_event p = elim p.ownership_events [
  | [] ↦ (none, p)
  | event ∷ events ↦ (some event, record p { ownership_events = events })
]

unfoldable pub owns : KafkaPoller → ℕ → Bool
owns p partition = mem partition p.assigned_partitions

-- `assigned_partitions_.insert(ids.begin(), ids.end())`.
unfoldable pub insert_all : List ℕ → List ℕ → List ℕ
insert_all [] set = set
insert_all (id ∷ ids) set = insert_all ids (set_insert id set)

-- `std::erase_if` on the messages of a partition.
unfoldable pub drop_messages : ℕ → List KafkaMessage → List KafkaMessage
drop_messages partition [] = []
drop_messages partition (message ∷ messages) =
    let rest = drop_messages partition messages in
    if message.partition == partition then rest else message ∷ rest

unfoldable pub revoke : KafkaPoller → ℕ → KafkaPoller
revoke p partition = record p {
  assigned_partitions = set_erase partition p.assigned_partitions;
  trackers = erase ℕ_discrete partition p.trackers;
  messages = drop_messages partition p.messages;
}

unfoldable pub revoke_all : KafkaPoller → List ℕ → KafkaPoller
revoke_all p [] = p
revoke_all p (id ∷ ids) = revoke_all (revoke p id) ids

-- The callback, for an assignment or for any other error code.
unfoldable pub rebalance_cb : KafkaPoller → (assign : Bool) → List ℕ → KafkaPoller
rebalance_cb p assign ids =
    if assign
    then record p {
      assigned_partitions = insert_all ids p.assigned_partitions;
      ownership_events = p.ownership_events ++ record { kind = assigned; partitions = ids } ∷ [];
    }
    else (let q = revoke_all p ids in
        record q {
          ownership_events = q.ownership_events ++ record { kind = revoked; partitions = ids } ∷ [];
        })

-- A commit that is queued is the offset itself, one below the tracker's `next_offset`.
unfoldable pub mark_publish_complete : KafkaPoller → ℕ → ℕ → KafkaPoller
mark_publish_complete p partition offset = elim (lookup ℕ_discrete partition p.trackers) [
  | none ↦ p
  | some tracker ↦
      let tracker' = OffsetTracker.mark_publish_complete tracker offset in
      let q = record p { trackers = insert_or_assign ℕ_discrete partition tracker' p.trackers } in
      if ltb tracker.next_offset tracker'.next_offset
      then record q { commits = p.commits ++ (partition, tracker'.next_offset - 1) ∷ [] }
      else q
]

-- `commits.swap(commits_)`, and the flag that the loop reads with it.
unfoldable pub take_commits : KafkaPoller → Bool × List (ℕ × ℕ) × KafkaPoller
take_commits p = (p.stop, p.commits, record p { commits = [] })

-- A message that `consume` delivers. `try_emplace` keeps a tracker that is there.
unfoldable pub receive : KafkaPoller → KafkaMessage → KafkaPoller
receive p message = record p {
  trackers =
      if is_some (lookup ℕ_discrete message.partition p.trackers)
      then p.trackers
      else (message.partition, OffsetTracker.init message.offset) ∷ p.trackers;
  messages = p.messages ++ message ∷ [];
}

-- Kafka's offsets of the group after it accepts `commitSync` of `offset + 1`, or does not.
unfoldable pub commit_sync : Bool → List (ℕ × ℕ) → ℕ → ℕ → List (ℕ × ℕ)
commit_sync accepted committed partition offset =
    if accepted then insert_or_assign ℕ_discrete partition (offset + 1) committed else committed
