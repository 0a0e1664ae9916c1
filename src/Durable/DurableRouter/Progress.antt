-- ===== src/Durable/DurableRouter/Progress.antt =====
-- A durable router that is not disturbed (durable_router_main.cpp): its main thread completes a
-- message whose row is to be published.
use infer_sched_distributed.Base.{
  ℕ, zero, suc, ◌+◌, ◌≤◌, ◌≡◌, refl, ap, ◌∙◌, arith, true, List, [], ◌∷◌, Option, none, some,
  String, length, is_some, take_of_length-le, if◌then◌else◌, Option-cases, inl, inr,
}
use infer_sched_distributed.Distributed.Messages.{InferenceRequest}
use infer_sched_distributed.Durable.Store.{Tables, OutboxRow}
use infer_sched_distributed.Durable.Store.Queries.{
  fetch_unpublished, unpublished, mark_published, all_published, is_source_published,
}
use infer_sched_distributed.Durable.OutboxRelay.Batches.{
  ids, settled, settled_none, settled-mark_rows, UnpublishedIds, UnpublishedIds-unpublished,
}
use infer_sched_distributed.Durable.KafkaPoller.{KafkaMessage, mark_publish_complete}
use infer_sched_distributed.Durable.DurableRouter.{
  Work, recovered, Stage, executed, settled as settled_work, Router, looping, publishing, relaying,
  checking_published, marking,
}
use infer_sched_distributed.Durable.DurableRouter.Loop.{
  delivered, Answer, proceed, after_publish, at,
}

-- Once every row is published, a position that has rows is published.
all_published-settled :
    (done : List ℕ) (partition offset : ℕ) (rows : List OutboxRow)
    → UnpublishedIds done rows
    → all_published partition offset (settled done rows)
      ≡ elim (all_published partition offset rows) [ none ↦ none | some b ↦ some true ]
unfolding all_published settled UnpublishedIds
all_published-settled done partition offset [] h = refl
all_published-settled done partition offset (row ∷ rows) h =
    let rest = all_published-settled done partition offset rows h.1 in
    elim (Option-cases (all_published partition offset rows)) [
      | inl e ↦ ground (arith, rest, h.0, e)
      | inr (b, e) ↦ ground (arith, rest, h.0, e)
    ]

after_publish-at :
    (r : Router) (stage : Stage) (work : Work)
    → after_publish (at r stage) work ≡ after_publish r work
unfolding after_publish
after_publish-at r stage (recovered rows) = refl
after_publish-at r stage (executed message) = refl
after_publish-at r stage (settled_work message) = refl

module _ (parse : String → Option InferenceRequest) (hex : String → String)
    (router_id engine_id : String) (expected : ℕ) (a : Answer) where
  -- Turns of the main thread alone.
  unfoldable pub turns : ℕ → Router × Tables → Router × Tables
  turns zero s = s
  turns (suc n) (r, t) = turns n (proceed parse hex router_id engine_id expected r t a r.stage)

  turns_add : (m n : ℕ) (s : Router × Tables) → turns (m + n) s ≡ turns n (turns m s)
  unfolding turns
  turns_add zero n s = let same : 0 + n ≡ n = omega arith in ap (λ k. turns k s) same
  turns_add (suc m) n (r, t) =
      let same : suc m + n ≡ suc (m + n) = omega arith in
      ap (λ k. turns k (r, t)) same
      ∙ turns_add m n (proceed parse hex router_id engine_id expected r t a r.stage)

  relaying_step :
      (r : Router) (work : Work) (row : OutboxRow) (rows : List OutboxRow) (t : Tables)
      → delivered a ≡ true
      → proceed parse hex router_id engine_id expected r t a (relaying work (row ∷ rows))
        ≡ (at r (relaying work rows), mark_published t row.id)
  unfolding proceed
  relaying_step r work row rows t up = ground (arith, up)

  relaying_turns :
      (r : Router) (work : Work) (rows : List OutboxRow) (t : Tables)
      → delivered a ≡ true
      → turns (suc (length rows)) (at r (relaying work rows), t)
        ≡ (after_publish r work, record t { outbox = settled (ids rows) t.outbox })
  unfolding turns proceed mark_published
  relaying_turns r work [] t up =
      rw (after_publish-at r (relaying work []) work, settled_none t.outbox) refl
  relaying_turns r work (row ∷ rows) t up =
      ap (turns (suc (length rows)))
        (relaying_step (at r (relaying work (row ∷ rows))) work row rows t up)
      ∙ relaying_turns r work rows (mark_published t row.id) up
      ∙ ap (λ o. (after_publish r work, record t { outbox = o }))
          (settled-mark_rows row.id (ids rows) t.outbox)

  fetches :
      (r : Router) (work : Work) (t : Tables)
      → length (unpublished t.outbox) ≤ 1000
      → proceed parse hex router_id engine_id expected r t a (publishing work)
        ≡ (at r (relaying work (unpublished t.outbox)), t)
  unfolding proceed fetch_unpublished
  fetches r work t few =
      ap (λ rows. (at r (relaying work rows), t))
        (take_of_length-le 1000 (unpublished t.outbox) few)

  marks_published :
      (r : Router) (t : Tables) (message : KafkaMessage)
      → is_source_published t message.partition message.offset ≡ true
      → turns 2 (at r (checking_published message true), t) ≡ (
        record r {
          poller = mark_publish_complete r.poller message.partition message.offset;
          completed = r.completed + 1;
          stage = looping;
        },
        t,
      )
  unfolding turns proceed
  marks_published r t message here =
      ap (λ b. turns 1 (at r (if b then marking message true else looping), t)) here

  -- A router whose main thread is about to publish for a message that it has just executed, and
  -- that runs undisturbed while `Publish` answers true for every row. If at most 1000 rows are unpublished
  -- and the position has a row, then in four turns more than there are unpublished rows it has
  -- published all of them, has told the poller that the offset is complete, and has counted the
  -- message.
  pub publishing_completes :
      (r : Router) (t : Tables) (message : KafkaMessage)
      → delivered a ≡ true
      → length (unpublished t.outbox) ≤ 1000
      → is_some (all_published message.partition message.offset t.outbox) ≡ true
      → turns (length (unpublished t.outbox) + 4) (at r (publishing (executed message)), t) ≡ (
        record r {
          poller = mark_publish_complete r.poller message.partition message.offset;
          completed = r.completed + 1;
          stage = looping;
        },
        record t { outbox = settled (ids (unpublished t.outbox)) t.outbox },
      )
  unfolding turns after_publish is_source_published
  publishing_completes r t message up few there =
      let rows = unpublished t.outbox in
      let start = at r (publishing (executed message)) in
      let after = record t { outbox = settled (ids rows) t.outbox } in
      let count : length rows + 4 ≡ suc (suc (length rows) + 2) = omega arith in
      let published =
        all_published-settled (ids rows) message.partition message.offset t.outbox
          (UnpublishedIds-unpublished (ids rows) t.outbox (λ i m. m)) in
      ap (λ k. turns k (start, t)) count
      ∙ ap (turns (suc (length rows) + 2)) (fetches start (executed message) t few)
      ∙ turns_add (suc (length rows)) 2 (at r (relaying (executed message) rows), t)
      ∙ ap (turns 2) (relaying_turns r (executed message) rows t up)
      ∙ marks_published r after message (ground (arith, published, there))
