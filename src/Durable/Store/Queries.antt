-- ===== src/Durable/Store/Queries.antt =====
-- The other members of `DurableStore` (cpp/src/durable_store.cpp): poison messages, the outbox
-- and the reads. `hex` is PostgreSQL's `encode(…, 'hex')`.
use infer_sched_distributed.Base.{
  ℕ, Bool, true, false, ◌&&◌, ◌||◌, List, [], ◌∷◌, Option, none, some, String, concat, to_string,
  ltb, leb, ◌==◌, if◌then◌else◌, lookup, text_discrete, take,
}
use infer_sched_distributed.Durable.Store.{
  Tables, Request, OutboxRow, PoisonRow, outbox_insert, is_terminal_state,
}

-- `PRIMARY KEY (source_partition, source_offset)` of `poison_messages`.
unfoldable pub poison_has : ℕ → ℕ → List PoisonRow → Bool
poison_has partition offset [] = false
poison_has partition offset (row ∷ rows) =
    (row.source_partition == partition && row.source_offset == offset)
    || poison_has partition offset rows

unfoldable pub record_poison : (String → String) → Tables → ℕ → ℕ → String → String → Bool × Tables
record_poison hex t source_partition source_offset raw_payload error =
    if poison_has source_partition source_offset t.poison_messages then (false, t) else (
      true,
      outbox_insert
          (record t {
            poison_messages =
                record {
                  source_partition = source_partition;
                  source_offset = source_offset;
                  raw_payload = raw_payload;
                  error = error;
                }
                ∷ t.poison_messages;
          })
          "inference.dlq"
          (concat (to_string source_partition) (concat ":" (to_string source_offset)))
          (hex raw_payload) source_partition source_offset,
    )

-- `ORDER BY id`, by insertion.
unfoldable pub insert_by_id : OutboxRow → List OutboxRow → List OutboxRow
insert_by_id row [] = row ∷ []
insert_by_id row (first ∷ rows) =
    if leb row.id first.id then row ∷ first ∷ rows else first ∷ insert_by_id row rows

unfoldable pub unpublished : List OutboxRow → List OutboxRow
unfolding insert_by_id
unpublished [] = []
unpublished (row ∷ rows) =
    let rest = unpublished rows in if row.published then rest else insert_by_id row rest

unfoldable pub fetch_unpublished : Tables → ℕ → List OutboxRow
unfolding unpublished
fetch_unpublished t limit = take limit (unpublished t.outbox)

unfoldable pub mark_rows : ℕ → List OutboxRow → List OutboxRow
mark_rows outbox_id [] = []
mark_rows outbox_id (row ∷ rows) =
    (if row.id == outbox_id then record row { published = true } else row)
    ∷ mark_rows outbox_id rows

unfoldable pub mark_published : Tables → ℕ → Tables
unfolding mark_rows
mark_published t outbox_id = record t { outbox = mark_rows outbox_id t.outbox }

-- Rows ordered by source position.
abbrev earlier : Request → Request → Bool
earlier r s =
    ltb r.source_partition s.source_partition
    || (r.source_partition == s.source_partition && leb r.source_offset s.source_offset)

unfoldable pub insert_by_position :
    String × Request → List (String × Request) → List (String × Request)
insert_by_position row [] = row ∷ []
insert_by_position row (first ∷ rows) =
    if earlier row.1 first.1 then row ∷ first ∷ rows else first ∷ insert_by_position row rows

-- The columns that the source copies into `RecoveredRequest` are those of the row.
unfoldable pub unresolved : List (String × Request) → List (String × Request)
unfolding insert_by_position
unresolved [] = []
unresolved (row ∷ rows) =
    let rest = unresolved rows in
    if is_terminal_state row.1.state then rest else insert_by_position row rest

unfoldable pub recover_unresolved : Tables → List (String × Request)
unfolding unresolved
recover_unresolved t = unresolved t.inference_requests

unfoldable pub is_terminal : Tables → String → Bool
is_terminal t request_id = elim (lookup text_discrete request_id t.inference_requests) [
  | none ↦ false
  | some r ↦ is_terminal_state r.state
]

-- `bool_and(published_at IS NOT NULL)` over the rows of a source position; NULL, hence `none`,
-- where there is no row.
unfoldable pub all_published : ℕ → ℕ → List OutboxRow → Option Bool
all_published partition offset [] = none
all_published partition offset (row ∷ rows) =
    let rest = all_published partition offset rows in
    if row.source_partition == partition && row.source_offset == offset
    then (elim rest [ none ↦ some row.published | some b ↦ some (row.published && b) ])
    else rest

unfoldable pub is_source_published : Tables → ℕ → ℕ → Bool
unfolding all_published
is_source_published t source_partition source_offset =
    elim (all_published source_partition source_offset t.outbox) [ none ↦ false | some b ↦ b ]
