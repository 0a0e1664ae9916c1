-- ===== src/Durable/OutboxRelay/Batches.antt =====
-- What a batch of the relay (outbox_relay.cpp) publishes and marks.
use infer_sched_distributed.Base.{
  ℕ, suc, ◌≤◌, ◌≡◌, refl, ap, arith, Bool, true, false, List, [], ◌∷◌, if◌then◌else◌, mem, length,
  take, map, if_elim, Bool-cases, inl, inr, ◌∙◌, take_of_length-le,
}
use infer_sched_distributed.Durable.Store.{Tables, OutboxRow}
use infer_sched_distributed.Durable.Store.Queries.{
  fetch_unpublished, mark_published, mark_rows, unpublished, insert_by_id,
}
use infer_sched_distributed.Durable.OutboxRelay.{publish_rows, publish_batch}

abbrev pub ids : List OutboxRow → List ℕ
ids = map (λ row. row.id)

-- The rows with those of the given ids published.
unfoldable pub settled : List ℕ → List OutboxRow → List OutboxRow
settled done [] = []
settled done (row ∷ rows) =
    (if mem row.id done then record row { published = true } else row) ∷ settled done rows

pub settled_none : (rows : List OutboxRow) → settled [] rows ≡ rows
unfolding settled
settled_none [] = refl
settled_none (row ∷ rows) = ap (λ rest. row ∷ rest) (settled_none rows)

pub settled-mark_rows :
    (i : ℕ) (done : List ℕ) (rows : List OutboxRow)
    → settled done (mark_rows i rows) ≡ settled (i ∷ done) rows
unfolding settled mark_rows
settled-mark_rows i done [] = refl
settled-mark_rows i done (row ∷ rows) = ground (arith, settled-mark_rows i done rows)

module _ {ℓ} {W : Type ℓ} (publish : W → OutboxRow → Bool × W) where
  -- The publisher, given the rows in order, answers true for the first `n` and then false for one or
  -- has seen them all.
  pub data Delivers : List OutboxRow → W → ℕ → W → Type ℓ where
    all_sent : {w : W} → Delivers [] w 0 w
    refused :
        {row : OutboxRow} {rows : List OutboxRow} {w : W}
        → (publish w row).0 ≡ false
        → Delivers (row ∷ rows) w 0 (publish w row).1
    sent :
        {row : OutboxRow} {rows : List OutboxRow} {w u : W} {n : ℕ}
        → (publish w row).0 ≡ true
        → Delivers rows (publish w row).1 n u
        → Delivers (row ∷ rows) w (suc n) u

  pub record IsBatch (rows : List OutboxRow) (w : W) (t : Tables) (r : ℕ × W × Tables)
      : Type ℓ where
    pub delivered : Delivers rows w r.0 r.1
    pub marked : r.2 ≡ record t { outbox = settled (ids (take r.0 rows)) t.outbox }
    pub bounded : r.0 ≤ length rows

  publish_rows-IsBatch :
      (rows : List OutboxRow) (w : W) (t : Tables)
      → IsBatch rows w t (publish_rows publish rows w t)
  unfolding publish_rows mark_published
  publish_rows-IsBatch [] w t = record {
    delivered = all_sent;
    marked = rw (settled_none t.outbox) refl;
    bounded = omega arith;
  }
  publish_rows-IsBatch (row ∷ rows) w t =
      if_elim (IsBatch (row ∷ rows) w t) (publish w row).0
        (λ took.
          one_more took (publish_rows-IsBatch rows (publish w row).1 (mark_published t row.id)))
        (λ not. record {
          delivered = refused not;
          marked = rw (settled_none t.outbox) refl;
          bounded = omega arith;
        })
    where
      one_more :
          {r : ℕ × W × Tables}
          → (publish w row).0 ≡ true
          → IsBatch rows (publish w row).1 (mark_published t row.id) r
          → IsBatch (row ∷ rows) w t (suc r.0, r.1, r.2)
      one_more {r} took b = record {
        delivered = sent took b.delivered;
        marked =
            b.marked
            ∙ ap (λ o. record t { outbox = o })
                (settled-mark_rows row.id (ids (take r.0 rows)) t.outbox);
        bounded = omega (arith, b.bounded);
      }

  -- A batch publishes some first rows of those that `FetchUnpublished` returns, in their order, as
  -- far as the publisher answers true for them and no further; it answers their number and sets the
  -- published mark on these rows and on no other, changing nothing else in the tables.
  pub publish_batch-IsBatch :
      (limit : ℕ) (w : W) (t : Tables)
      → IsBatch (fetch_unpublished t limit) w t (publish_batch publish limit w t)
  unfolding publish_batch
  publish_batch-IsBatch limit w t = publish_rows-IsBatch (fetch_unpublished t limit) w t

  Delivers-length :
      (rows : List OutboxRow) (w u : W) (n : ℕ)
      → ((v : W) (row : OutboxRow) → (publish v row).0 ≡ true)
      → Delivers rows w n u
      → n ≡ length rows
  Delivers-length [] w u n up all_sent = refl
  Delivers-length (row ∷ rows) w u n up (refused left) = absurd (ground (arith, left, up w row))
  Delivers-length (row ∷ rows) w u n up (sent took later) =
      ap suc (Delivers-length rows (publish w row).1 u _ up later)

-- Marking the ids of a list's unpublished rows leaves none.
unfoldable pub UnpublishedIds : (done : List ℕ) (rows : List OutboxRow) → Type 0
UnpublishedIds done [] = Unit
UnpublishedIds done (row ∷ rows) =
    (row.published ≡ false → mem row.id done ≡ true) × UnpublishedIds done rows

unpublished-settled :
    (done : List ℕ) (rows : List OutboxRow)
    → UnpublishedIds done rows
    → unpublished (settled done rows) ≡ []
unfolding UnpublishedIds unpublished settled
unpublished-settled done [] h = refl
unpublished-settled done (row ∷ rows) h = elim (Bool-cases row.published) [
  | inl done_before ↦ ground (arith, done_before, unpublished-settled done rows h.1)
  | inr waiting ↦ ground (arith, h.0 waiting, unpublished-settled done rows h.1)
]

mem-insert_by_id :
    (i : ℕ) (row : OutboxRow) (rows : List OutboxRow)
    → mem i (ids (insert_by_id row rows)) ≡ mem i (row.id ∷ ids rows)
unfolding insert_by_id
mem-insert_by_id i row [] = refl
mem-insert_by_id i row (first ∷ rows) = ground (arith, mem-insert_by_id i row rows)

pub UnpublishedIds-unpublished :
    (done : List ℕ) (rows : List OutboxRow)
    → ((i : ℕ) → mem i (ids (unpublished rows)) ≡ true → mem i done ≡ true)
    → UnpublishedIds done rows
unfolding UnpublishedIds unpublished
UnpublishedIds-unpublished done [] h = tt
UnpublishedIds-unpublished done (row ∷ rows) h = elim (Bool-cases row.published) [
  | inl before ↦ (
    λ e. absurd (ground (arith, e, before)),
    UnpublishedIds-unpublished done rows (λ i m. h i (ground (arith, m, before))),
  )
  | inr waiting ↦ (
    λ e. h row.id (ground (arith, waiting, mem-insert_by_id row.id row (unpublished rows))),
    UnpublishedIds-unpublished done rows
        (λ i m. h i (ground (arith, m, waiting, mem-insert_by_id i row (unpublished rows)))),
  )
]

-- If the publisher answers true for every row, one batch whose limit is at least the number of
-- unpublished rows leaves none, for any later limit.
pub publish_batch_drains {ℓ} :
    {W : Type ℓ} (publish : W → OutboxRow → Bool × W) (limit later : ℕ) (w : W) (t : Tables)
    → ((v : W) (row : OutboxRow) → (publish v row).0 ≡ true)
    → length (unpublished t.outbox) ≤ limit
    → fetch_unpublished (publish_batch publish limit w t).2 later ≡ []
unfolding fetch_unpublished
publish_batch_drains publish limit later w t up enough =
    let b = publish_batch-IsBatch publish limit w t in
    let all : fetch_unpublished t limit ≡ unpublished t.outbox =
      take_of_length-le limit (unpublished t.outbox) enough in
    let n = Delivers-length publish (fetch_unpublished t limit) w _ _ up b.delivered in
    rw
      (
        b.marked,
        n,
        take_of_length-le (length (fetch_unpublished t limit)) (fetch_unpublished t limit)
            (omega arith),
        all,
        unpublished-settled (ids (unpublished t.outbox)) t.outbox
            (UnpublishedIds-unpublished (ids (unpublished t.outbox)) t.outbox (λ i m. m)),
      )
      (take_of_length-le later [] (omega arith))
