-- ===== src/Durable/Store/Published.antt =====
-- Source positions whose result or dead letter is published (cpp/src/durable_store.cpp): one that
-- has a published row of the outbox keeps it, whatever transactions follow.
use infer_sched_distributed.Base.{
  ℕ, ◌≡◌, ap, ◌∙◌, arith, Bool, true, false, ◌&&◌, ◌||◌, List, [], ◌∷◌, ◌++◌, some, String, ◌==◌,
  if_elim, Option-cases, Bool-cases, inl, inr, All, All-append_one, mem, subst, sym, refl,
}
use infer_sched_distributed.Durable.Store.{
  Tables, OutboxRow, outbox_insert, outbox_has, acquire_partition, ingest, assign_attempt, finalize,
  Fence, with_request, completed,
}
use infer_sched_distributed.Durable.Store.Queries.{
  mark_rows, mark_published, record_poison, all_published, is_source_published, poison_has,
}
use infer_sched_distributed.Durable.Store.Accepted.{finalize-Accepted, is_done_true}
use infer_sched_distributed.Durable.Store.Publication.{finalize_refused, is_done_true-done}

unfoldable pub was_published : ℕ → ℕ → List OutboxRow → Bool
was_published partition offset [] = false
was_published partition offset (row ∷ rows) =
    (row.source_partition == partition && row.source_offset == offset && row.published)
    || was_published partition offset rows

-- Every position that is published in the first tables is published in the second.
abbrev pub Keeps : Tables → Tables → Type 0
Keeps t t' =
    (partition offset : ℕ)
    → was_published partition offset t.outbox ≡ true
    → was_published partition offset t'.outbox ≡ true

was_published-append :
    (partition offset : ℕ) (rows : List OutboxRow) (row : OutboxRow)
    → was_published partition offset rows ≡ true
    → was_published partition offset (rows ++ row ∷ []) ≡ true
unfolding was_published
was_published-append partition offset [] row h = absurd (ground arith)
was_published-append partition offset (r ∷ rows) row h =
    ground (arith, was_published-append partition offset rows row)

was_published-mark_rows :
    (id partition offset : ℕ) (rows : List OutboxRow)
    → was_published partition offset rows ≡ true
    → was_published partition offset (mark_rows id rows) ≡ true
unfolding was_published mark_rows
was_published-mark_rows id partition offset [] h = absurd (ground arith)
was_published-mark_rows id partition offset (row ∷ rows) h =
    ground (arith, was_published-mark_rows id partition offset rows)

-- What one transaction does to the outbox: nothing; a row that is to be published is added; the
-- row of one of the given ids is marked.
pub data Posted (ids : List ℕ) (rows rows' : List OutboxRow) : Type 0 where
  kept : rows' ≡ rows → Posted ids rows rows'
  added :
      (new : OutboxRow) → new.published ≡ false → rows' ≡ rows ++ new ∷ [] → Posted ids rows rows'
  marked : (id : ℕ) → mem id ids ≡ true → rows' ≡ mark_rows id rows → Posted ids rows rows'

pub Posted-Keeps : (ids : List ℕ) (t t' : Tables) → Posted ids t.outbox t'.outbox → Keeps t t'
Posted-Keeps ids t t' (kept e) p k h = rw e h
Posted-Keeps ids t t' (added new open_row e) p k h = rw e (was_published-append p k t.outbox new h)
Posted-Keeps ids t t' (marked id m e) p k h = rw e (was_published-mark_rows id p k t.outbox h)

-- Every row that is marked as published has one of the ids.
abbrev pub OnlyMarked : List ℕ → List OutboxRow → Type 0
OnlyMarked ids = All (λ row. row.published ≡ true → mem row.id ids ≡ true)

OnlyMarked-mark_rows :
    (ids : List ℕ) (id : ℕ) (rows : List OutboxRow)
    → mem id ids ≡ true
    → OnlyMarked ids rows
    → OnlyMarked ids (mark_rows id rows)
unfolding mark_rows
OnlyMarked-mark_rows ids id [] m h = tt
OnlyMarked-mark_rows ids id (row ∷ rows) m h =
    (λ e. ground (arith, h.0, m), OnlyMarked-mark_rows ids id rows m h.1)

pub Posted-OnlyMarked :
    (ids : List ℕ) (rows rows' : List OutboxRow)
    → Posted ids rows rows'
    → OnlyMarked ids rows
    → OnlyMarked ids rows'
Posted-OnlyMarked ids rows rows' (kept e) h = rw e h
Posted-OnlyMarked ids rows rows' (added new open_row e) h =
    rw e (All-append_one _ rows new h (λ p. absurd (ground arith)))
Posted-OnlyMarked ids rows rows' (marked id m e) h = rw e (OnlyMarked-mark_rows ids id rows m h)

-- A published row of the position whose id is among the given ones.
unfoldable pub was_reported : List ℕ → ℕ → ℕ → List OutboxRow → Bool
was_reported ids partition offset [] = false
was_reported ids partition offset (row ∷ rows) =
    (row.source_partition == partition
      && row.source_offset == offset
      && row.published
      && mem row.id ids)
    || was_reported ids partition offset rows

pub was_published-was_reported :
    (ids : List ℕ) (partition offset : ℕ) (rows : List OutboxRow)
    → OnlyMarked ids rows
    → was_published partition offset rows ≡ true
    → was_reported ids partition offset rows ≡ true
unfolding was_published was_reported
was_published-was_reported ids partition offset [] only h = absurd (ground arith)
was_published-was_reported ids partition offset (row ∷ rows) only h =
    ground (arith, only.0, was_published-was_reported ids partition offset rows only.1)

module _ (ids : List ℕ) where
  pub mark_published-Posted :
      (t : Tables) (id : ℕ) → mem id ids ≡ true → Posted ids t.outbox (mark_published t id).outbox
  unfolding mark_published
  mark_published-Posted t id m = marked id m refl

  outbox_insert-Posted :
      (t : Tables) (topic key payload : String) (partition offset : ℕ)
      → Posted ids t.outbox (outbox_insert t topic key payload partition offset).outbox
  unfolding outbox_insert
  outbox_insert-Posted t topic key payload partition offset =
      elim (Bool-cases (outbox_has topic key t.outbox)) [
        | inl e ↦ kept (ground arith)
        | inr e ↦
            added
              (record {
                id = t.next_outbox_id;
                topic = topic;
                message_key = key;
                payload = payload;
                source_partition = partition;
                source_offset = offset;
                published = false;
              })
              refl (ground arith)
      ]

  pub acquire_partition-Posted :
      (t : Tables) (partition : ℕ) (router : String)
      → Posted ids t.outbox (acquire_partition t partition router).1.outbox
  unfolding acquire_partition
  acquire_partition-Posted t partition router = kept (ground arith)

  pub ingest-Posted :
      (t : Tables) (id : String) (partition offset : ℕ) (payload : String)
      → Posted ids t.outbox (ingest t id partition offset payload).1.outbox
  unfolding ingest
  ingest-Posted t id partition offset payload = kept (ground arith)

  pub assign_attempt-Posted :
      (t : Tables) (id : String) (partition epoch : ℕ) (engine : String)
      → Posted ids t.outbox (assign_attempt t id partition epoch engine).1.outbox
  unfolding assign_attempt
  assign_attempt-Posted t id partition epoch engine = kept (ground arith)

  pub finalize-Posted :
      (t : Tables) (id : String) (fence : Fence) (result : String)
      → Posted ids t.outbox (finalize t id fence result).1.outbox
  finalize-Posted t id fence result =
      elim (Bool-cases (is_done_true (finalize t id fence result).0)) [
        | inr e ↦ kept (ap (λ x. x.outbox) (finalize_refused t id fence result e))
        | inl e ↦
            let (r, a) = finalize-Accepted t id fence result (is_done_true-done _ e) in
            let new =
              outbox_insert-Posted (with_request t id (completed r result)) "inference.results" id
                result r.source_partition r.source_offset in
            subst (λ x. Posted ids t.outbox x.outbox) (sym a.after) new
      ]

  pub record_poison-Posted :
      (hex : String → String) (t : Tables) (partition offset : ℕ) (payload error : String)
      → Posted ids t.outbox (record_poison hex t partition offset payload error).1.outbox
  unfolding record_poison
  record_poison-Posted hex t partition offset payload error =
      if_elim (λ (answer : Bool × Tables). Posted ids t.outbox answer.1.outbox)
        (poison_has partition offset t.poison_messages) (λ _. kept refl)
        (λ _. outbox_insert-Posted _ _ _ _ _ _)

all_published-was_published :
    (partition offset : ℕ) (rows : List OutboxRow)
    → all_published partition offset rows ≡ some true
    → was_published partition offset rows ≡ true
unfolding all_published was_published
all_published-was_published partition offset [] h = absurd (ground arith)
all_published-was_published partition offset (row ∷ rows) h =
    elim (Option-cases (all_published partition offset rows)) [
      | inl e ↦ ground arith
      | inr (b, e) ↦ ground (arith, all_published-was_published partition offset rows)
    ]

pub is_source_published-was_published :
    (t : Tables) (partition offset : ℕ)
    → is_source_published t partition offset ≡ true
    → was_published partition offset t.outbox ≡ true
unfolding is_source_published
is_source_published-was_published t partition offset h =
    elim (Option-cases (all_published partition offset t.outbox)) [
      | inl e ↦ absurd (ground arith)
      | inr (b, e) ↦
          all_published-was_published partition offset t.outbox (e ∙ ap some (ground arith))
    ]
