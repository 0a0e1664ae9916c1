-- ===== src/Durable/Store/Schema.antt =====
-- The tables and what `DurableStore` answers: cpp/include/infersched/durable/durable_store.hpp, and
-- `Migrate` of cpp/src/durable_store.cpp.
use infer_sched_distributed.Base.{
  ℕ, ◌-◌, ◌^◌, Bool, false, ◌||◌, List, [], Option, none, some, String, ◌==◌, same_text,
}

-- `std::numeric_limits<std::int64_t>::max()`, also the largest BIGINT.
abbrev pub bigint_max : ℕ
bigint_max = 2 ^ 63 - 1

pub data Failure : Type 0 where
  overflow_error out_of_range : Failure

pub data Outcome {ℓ} (A : Type ℓ) : Type ℓ where
  done : A → Outcome A
  threw : Failure → Outcome A

pub record Fence : Type 0 where
  pub partition_id : ℕ
  pub ownership_epoch : ℕ
  pub attempt_id : ℕ
  pub engine_id : String

pub record Assignment : Type 0 where
  pub fence : Fence
  pub state_version : ℕ

-- A row of `partition_ownership`, of `inference_requests`, and of `outbox`.
pub record Owner : Type 0 where
  pub ownership_epoch : ℕ
  pub router_id : String

pub record Request : Type 0 where
  pub state : String
  pub state_version : ℕ
  pub source_partition : ℕ
  pub source_offset : ℕ
  pub raw_payload : String
  pub ownership_epoch : Option ℕ
  pub engine_id : Option String
  pub attempt_id : ℕ
  pub terminal_result : Option String

pub record OutboxRow : Type 0 where
  pub id : ℕ
  pub topic : String
  pub message_key : String
  pub payload : String
  pub source_partition : ℕ
  pub source_offset : ℕ
  pub published : Bool

pub record PoisonRow : Type 0 where
  pub source_partition : ℕ
  pub source_offset : ℕ
  pub raw_payload : String
  pub error : String

-- `next_outbox_id` is the sequence behind `BIGSERIAL`.
pub record Tables : Type 0 where
  pub partition_ownership : List (ℕ × Owner)
  pub inference_requests : List (String × Request)
  pub poison_messages : List PoisonRow
  pub outbox : List OutboxRow
  pub next_outbox_id : ℕ

-- The tables that `Migrate` creates.
unfoldable pub migrated : Tables
migrated = record {
  partition_ownership = [];
  inference_requests = [];
  poison_messages = [];
  outbox = [];
  next_outbox_id = 1;
}

-- `state IN ('COMPLETED', 'FAILED_TERMINAL', 'CANCELLED', 'TIMED_OUT')`.
unfoldable pub is_terminal_state : String → Bool
is_terminal_state state =
    same_text state "COMPLETED"
    || same_text state "FAILED_TERMINAL"
    || same_text state "CANCELLED"
    || same_text state "TIMED_OUT"

-- `column = value` where the column may be NULL.
abbrev pub holds_number : Option ℕ → ℕ → Bool
holds_number none n = false
holds_number (some m) n = m == n

abbrev pub holds_text : Option String → String → Bool
holds_text none s = false
holds_text (some t) s = same_text t s
