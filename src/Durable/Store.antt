-- ===== src/Durable/Store.antt =====
-- `DurableStore`: cpp/include/infersched/durable/durable_store.hpp and cpp/src/durable_store.cpp.
-- Each member is one PostgreSQL transaction; its SQL is modelled row by row over the tables that
-- `Migrate` declares. A table with a primary key is a map from the key. A statement that raises
-- aborts its transaction, which leaves the tables as they were. Partition ids, offsets and BIGINT
-- counters are never negative. `now()` timestamps are not modelled, but that `published_at` is set.
mod Schema
pub mod Queries
pub mod Lifecycle
pub mod Accepted
pub mod Fencing
pub mod Epochs
pub mod Publication
pub mod Published
mod Tests
unfoldable pub use Schema.*
use infer_sched_distributed.Base.{
  ℕ, suc, ◌+◌, ◌-◌, ◌^◌, Bool, true, false, not, ◌&&◌, ◌||◌, List, [], ◌∷◌, ◌++◌, Option, none,
  some, String, concat, to_string, ltb, leb, ◌==◌, if◌then◌else◌, same_text, is_some, lookup,
  insert_or_assign, text_discrete, ℕ_discrete, take,
}

unfoldable pub acquire_partition : Tables → ℕ → String → Outcome ℕ × Tables
acquire_partition t partition_id router_id =
    elim (lookup ℕ_discrete partition_id t.partition_ownership) [
      | none ↦ (
        done 1,
        record t {
          partition_ownership =
              (partition_id, record { ownership_epoch = 1; router_id = router_id })
              ∷ t.partition_ownership;
        },
      )
      | some owner ↦ if leb bigint_max owner.ownership_epoch then (threw out_of_range, t) else (
        done (owner.ownership_epoch + 1),
        record t {
          partition_ownership =
              insert_or_assign ℕ_discrete partition_id
                (record { ownership_epoch = owner.ownership_epoch + 1; router_id = router_id })
                t.partition_ownership;
        },
      )
    ]

-- Whether a row has the source position: `UNIQUE (source_partition, source_offset)`.
unfoldable pub position_taken : ℕ → ℕ → List (String × Request) → Bool
position_taken partition offset [] = false
position_taken partition offset (row ∷ rows) =
    (row.1.source_partition == partition && row.1.source_offset == offset)
    || position_taken partition offset rows

abbrev pub received : ℕ → ℕ → String → Request
received source_partition source_offset raw_payload = record {
  state = "RECEIVED";
  state_version = 0;
  source_partition = source_partition;
  source_offset = source_offset;
  raw_payload = raw_payload;
  ownership_epoch = none;
  engine_id = none;
  attempt_id = 0;
  terminal_result = none;
}

unfoldable pub ingest : Tables → String → ℕ → ℕ → String → Bool × Tables
ingest t request_id source_partition source_offset raw_payload =
    if is_some (lookup text_discrete request_id t.inference_requests)
      || position_taken source_partition source_offset t.inference_requests
    then (false, t)
    else (
      true,
      record t {
        inference_requests =
            (request_id, received source_partition source_offset raw_payload)
            ∷ t.inference_requests;
      },
    )

abbrev pub with_request : Tables → String → Request → Tables
with_request t request_id r = record t {
  inference_requests = insert_or_assign text_discrete request_id r t.inference_requests;
}

-- `owner.partition_id = $2 AND owner.ownership_epoch = $3`.
unfoldable pub is_current_epoch : Tables → ℕ → ℕ → Bool
is_current_epoch t partition_id epoch =
    elim (lookup ℕ_discrete partition_id t.partition_ownership) [
      | none ↦ false
      | some owner ↦ owner.ownership_epoch == epoch
    ]

-- The WHERE clause of `AssignAttempt`.
unfoldable pub may_assign : Tables → Request → ℕ → ℕ → Bool
may_assign t r partition_id epoch =
    r.source_partition == partition_id
    && is_current_epoch t partition_id epoch
    && not (is_terminal_state r.state)

-- The row after `AssignAttempt` has updated it.
abbrev pub dispatched : Request → ℕ → String → Request
dispatched r epoch engine_id = record r {
  state = "DISPATCHED";
  state_version = r.state_version + 1;
  ownership_epoch = some epoch;
  engine_id = some engine_id;
  attempt_id = r.attempt_id + 1;
}

abbrev pub assignment : Request → ℕ → ℕ → String → Assignment
assignment r partition_id epoch engine_id = record {
  fence = record {
    partition_id = partition_id;
    ownership_epoch = epoch;
    attempt_id = r.attempt_id + 1;
    engine_id = engine_id;
  };
  state_version = r.state_version + 1;
}

unfoldable pub assign_attempt :
    Tables → String → ℕ → ℕ → String → Outcome (Option Assignment) × Tables
assign_attempt t request_id partition_id ownership_epoch engine_id =
    if ltb bigint_max ownership_epoch
    then (threw overflow_error, t)
    else (elim (lookup text_discrete request_id t.inference_requests) [
      | none ↦ (done none, t)
      | some r ↦
          if not (may_assign t r partition_id ownership_epoch)
          then (done none, t)
          else if leb bigint_max r.state_version || leb bigint_max r.attempt_id
          then (threw out_of_range, t)
          else (
            done (some (assignment r partition_id ownership_epoch engine_id)),
            with_request t request_id (dispatched r ownership_epoch engine_id),
          )
    ])

-- The WHERE clause of `Transition`.
unfoldable pub may_transition : Request → ℕ → String → Bool
may_transition r expected_state_version expected_state =
    r.state_version == expected_state_version
    && same_text r.state expected_state
    && not (is_terminal_state r.state)

unfoldable pub transition : Tables → String → ℕ → String → String → Outcome Bool × Tables
transition t request_id expected_state_version expected_state next_state =
    if ltb bigint_max expected_state_version
    then (threw overflow_error, t)
    else (elim (lookup text_discrete request_id t.inference_requests) [
      | none ↦ (done false, t)
      | some r ↦
          if not (may_transition r expected_state_version expected_state)
          then (done false, t)
          else if leb bigint_max r.state_version
          then (threw out_of_range, t)
          else (
            done true,
            with_request t request_id
                (record r { state = next_state; state_version = r.state_version + 1 }),
          )
    ])

-- `UNIQUE (topic, message_key)`.
unfoldable pub outbox_has : String → String → List OutboxRow → Bool
outbox_has topic key [] = false
outbox_has topic key (row ∷ rows) =
    (same_text row.topic topic && same_text row.message_key key) || outbox_has topic key rows

-- `INSERT INTO outbox … ON CONFLICT DO NOTHING`: the sequence advances even on a conflict.
unfoldable pub outbox_insert : Tables → String → String → String → ℕ → ℕ → Tables
outbox_insert t topic key payload source_partition source_offset = record t {
  outbox =
      if outbox_has topic key t.outbox
      then t.outbox
      else t.outbox
        ++ record {
          id = t.next_outbox_id;
          topic = topic;
          message_key = key;
          payload = payload;
          source_partition = source_partition;
          source_offset = source_offset;
          published = false;
        }
          ∷ [];
  next_outbox_id = t.next_outbox_id + 1;
}

-- The WHERE clause of `Finalize`.
unfoldable pub fence_matches : Request → Fence → Bool
fence_matches r fence =
    r.source_partition == fence.partition_id
    && holds_number r.ownership_epoch fence.ownership_epoch
    && r.attempt_id == fence.attempt_id
    && holds_text r.engine_id fence.engine_id
    && same_text r.state "DISPATCHED"

abbrev pub completed : Request → String → Request
completed r result = record r {
  state = "COMPLETED";
  state_version = r.state_version + 1;
  terminal_result = some result;
}

unfoldable pub finalize : Tables → String → Fence → String → Outcome Bool × Tables
finalize t request_id fence result_payload =
    if ltb bigint_max fence.ownership_epoch || ltb bigint_max fence.attempt_id
    then (threw overflow_error, t)
    else (elim (lookup text_discrete request_id t.inference_requests) [
      | none ↦ (done false, t)
      | some r ↦
          if not (fence_matches r fence)
          then (done false, t)
          else if leb bigint_max r.state_version
          then (threw out_of_range, t)
          else (
            done true,
            outbox_insert (with_request t request_id (completed r result_payload))
                "inference.results" request_id result_payload r.source_partition r.source_offset,
          )
    ])
