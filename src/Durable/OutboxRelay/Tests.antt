-- ===== src/Durable/OutboxRelay/Tests.antt =====
-- Witnesses for the relay (outbox_relay.cpp), with publishers that count their calls, and with
-- `KafkaOutboxPublisher`.
use infer_sched_distributed.Base.{
  ℕ, ◌+◌, ◌≤◌, ◌≡◌, refl, arith, Bool, true, false, [], ◌∷◌, zero, suc, ◌&&◌, length, ltb,
  text_discrete, if◌then◌else◌,
}
use infer_sched_distributed.Durable.Store.{Tables, OutboxRow, migrated, outbox_insert, outbox_has}
use infer_sched_distributed.Durable.Store.Queries.{
  fetch_unpublished, unpublished, insert_by_id, mark_published, mark_rows,
}
use infer_sched_distributed.Durable.OutboxRelay.{publish_batch, publish_rows}
use infer_sched_distributed.Durable.OutboxRelay.Batches.{
  IsBatch, publish_batch-IsBatch, publish_batch_drains,
}
use infer_sched_distributed.Durable.OutboxRelay.Publisher.{
  Sending, KafkaOutboxPublisher, created, dr_cb, poll_producer, await_report, publish, publish_row,
  first_reports, last_or, reported, reported_during, publish-last_or,
}

program : Unit {0}
unfolding migrated outbox_insert outbox_has fetch_unpublished unpublished insert_by_id
    mark_published mark_rows publish_batch publish_rows text_discrete dr_cb poll_producer
    await_report publish publish_row first_reports last_or reported reported_during
program = tt

-- Two results wait.
abbrev waiting : Tables
waiting =
    outbox_insert (outbox_insert migrated "inference.results" "r" "first" 0 7) "inference.results"
      "s" "second" 0 8

-- A publisher that answers true once only, and one that always does.
abbrev one_then_none : ℕ → OutboxRow → Bool × ℕ
one_then_none sent row = if ltb sent 1 then (true, sent + 1) else (false, sent)

abbrev always : ℕ → OutboxRow → Bool × ℕ
always sent row = (true, sent + 1)

partly : (publish_batch one_then_none 10 0 waiting).0 ≡ 1
unfolding program
partly = refl

publish_batch-IsBatch_example :
    IsBatch one_then_none
      (fetch_unpublished waiting 10)
      0
      waiting
      (publish_batch one_then_none 10 0 waiting)
publish_batch-IsBatch_example = publish_batch-IsBatch one_then_none 10 0 waiting

two_wait : length (unpublished waiting.outbox) ≤ 10
unfolding program
two_wait = omega arith

publish_batch_drains_example : fetch_unpublished (publish_batch always 10 0 waiting).2 5 ≡ []
publish_batch_drains_example = publish_batch_drains always 10 5 0 waiting (λ v row. refl) two_wait

-- The message of a row is reported as delivered in the second poll.
abbrev stores : ℕ → Sending
stores id = record {
  produced = true;
  polls = [] ∷ (record { about = id; no_error = true } ∷ []) ∷ [];
}

publish-last_or_example :
    (publish created (stores 1)).0
    ≡ ((stores 1).produced && last_or false (first_reports (stores 1).polls))
publish-last_or_example = publish-last_or created (stores 1)

-- The first row is not reported in time and is sent again; the report of its first message comes
-- then, and that of its second during the `Publish` of the other row.
abbrev late : ℕ → Sending
late zero = record { produced = true; polls = [] ∷ [] }
late _ = stores 1

abbrev timed_out : ℕ × (KafkaOutboxPublisher × ℕ) × Tables
timed_out = publish_batch (publish_row late) 10 (created, 0) waiting

timed_out_published : timed_out.0 ≡ 0
unfolding program
timed_out_published = refl

-- The next batch marks both rows, and no message of the second has been reported.
second_marked : (publish_batch (publish_row late) 10 timed_out.1 timed_out.2).0 ≡ 2
unfolding program
second_marked = refl

second_not_reported : (n : ℕ) → reported_during 2 (late n).polls ≡ false
unfolding program
second_not_reported zero = refl
second_not_reported (suc n) = refl
