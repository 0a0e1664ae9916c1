-- ===== src/Durable/RequestIngestor.antt =====
-- `RequestIngestor`: cpp/include/infersched/durable/request_ingestor.hpp and
-- cpp/src/request_ingestor.cpp. `parse` stands for the generated protobuf code: the request id of
-- a payload that `ParseFromArray` reads, `none` for another; `hex` is PostgreSQL's `encode`.
pub mod Deliveries
mod Tests
use infer_sched_distributed.Base.{
  ℕ, ◌+◌, ◌%◌, Bool, List, [], Option, none, some, String, ltb, if◌then◌else◌, same_text, u64_mod,
  lookup, erase, insert_or_assign, ℕ_discrete, ap,
}
use infer_sched_distributed.Durable.Store.{Tables, ingest}
use infer_sched_distributed.Durable.Store.Queries.{record_poison}

pub data IngestOutcome : Type 0 where
  inserted duplicate retry_parse poison_recorded : IngestOutcome

pub record SourcePosition : Type 0 where
  pub partition : ℕ
  pub offset : ℕ

-- The source hashes the position; the map is one from positions whatever the hash.
pub position_discrete : Discrete SourcePosition
position_discrete p q = elim (ℕ_discrete p.partition q.partition) [
  | no n ↦ no (λ e. n (ap (λ r. r.partition) e))
  | yes same ↦ elim (ℕ_discrete p.offset q.offset) [
    | no n ↦ no (λ e. n (ap (λ r. r.offset) e))
    | yes at ↦ yes (λ i. record { partition = same i; offset = at i })
  ]
]

pub record RequestIngestor : Type 0 where
  pub max_parse_retries : ℕ
  pub parse_attempts : List (SourcePosition × ℕ)

unfoldable pub init : ℕ → RequestIngestor
init max_parse_retries = record { max_parse_retries = max_parse_retries; parse_attempts = [] }

-- `++parse_attempts_[position]`.
unfoldable pub next_attempt : RequestIngestor → SourcePosition → ℕ
next_attempt ingestor position = elim (lookup position_discrete position ingestor.parse_attempts) [
  | none ↦ 1
  | some attempts ↦ (attempts + 1) % u64_mod
]

unfoldable pub forget : RequestIngestor → SourcePosition → RequestIngestor
forget ingestor position = record ingestor {
  parse_attempts = erase position_discrete position ingestor.parse_attempts;
}

-- The payload's request id, unless it does not parse or has an empty one.
unfoldable pub request_id_of : (String → Option String) → String → Option String
request_id_of parse payload = elim (parse payload) [
  | none ↦ none
  | some id ↦ if same_text id "" then none else some id
]

unfoldable pub handle :
    (parse : String → Option String) (hex : String → String)
    → RequestIngestor
    → Tables
    → SourcePosition
    → String
    → IngestOutcome × RequestIngestor × Tables
handle parse hex ingestor t position payload = elim (request_id_of parse payload) [
  | none ↦
      let attempts = next_attempt ingestor position in
      if ltb attempts ingestor.max_parse_retries
      then (
        retry_parse,
        record ingestor {
          parse_attempts =
              insert_or_assign position_discrete position attempts ingestor.parse_attempts;
        },
        t,
      )
      else (
        poison_recorded,
        record ingestor {
          parse_attempts =
              erase position_discrete position
                (insert_or_assign position_discrete position attempts ingestor.parse_attempts);
        },
        (record_poison hex t position.partition position.offset payload
            "invalid_inference_request").1,
      )
  | some id ↦
      let (new, t') = ingest t id position.partition position.offset payload in
      (if new then inserted else duplicate, forget ingestor position, t')
]
