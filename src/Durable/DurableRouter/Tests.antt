-- ===== src/Durable/DurableRouter/Tests.antt =====
-- A run of the durable router (durable_router_main.cpp): one message, from Kafka to its commit.
use infer_sched_distributed.Base.{
  ◌≡◌, refl, arith, true, false, List, [], ◌∷◌, ◌++◌, replicate, Option, none, some, String,
  if◌then◌else◌, same_text, lookup, erase, insert_or_assign, ℕ_discrete, text_discrete,
}
use infer_sched_distributed.Distributed.Messages.{InferenceRequest, accepted, progress, completed}
use infer_sched_distributed.Durable.Store.{
  Tables, OutboxRow, migrated, acquire_partition, ingest, assign_attempt, finalize, position_taken,
  may_assign, is_current_epoch, is_terminal_state, fence_matches, outbox_insert, outbox_has,
}
use infer_sched_distributed.Durable.Store.Queries.{
  recover_unresolved, unresolved, insert_by_position, is_terminal, fetch_unpublished, unpublished,
  insert_by_id, mark_published, mark_rows, is_source_published, all_published,
}
use infer_sched_distributed.Durable.OffsetTracker
use infer_sched_distributed.Durable.OffsetTracker.{set_erase, advance}
use infer_sched_distributed.Durable.RequestIngestor
use infer_sched_distributed.Durable.RequestIngestor.{handle, request_id_of, forget, next_attempt}
use infer_sched_distributed.Durable.Store.Published.{was_reported}
use infer_sched_distributed.Durable.OutboxRelay.Publisher.{
  dr_cb, poll_producer, await_report, publish, reported, reported_during,
}
use infer_sched_distributed.Durable.KafkaPoller.{
  KafkaMessage, pop, pop_ownership_event, owns, insert_all, rebalance_cb, take_commits, receive,
  mark_publish_complete, commit_sync, start,
}
use infer_sched_distributed.Durable.DurableRouter.{
  Router, looping, executed, publishing, started, polling, handling, dispatch, read_events,
  result_envelope,
}
use infer_sched_distributed.Durable.DurableRouter.Loop.{
  delivered, store, Answer, at, report, proceed, loop, acquire, redispatch, pop_message,
  after_handle, handle_message, execute, assign, finish, after_publish, forget_epochs,
}
use infer_sched_distributed.Durable.DurableRouter.System.{
  System, initial, Event, starts, acts, polls, receives, rebalances, proceeds, run, step, act, poll,
}
use infer_sched_distributed.Durable.DurableRouter.Committed.{
  committed_published, AreContiguous, IsContiguous, start_offset,
}
use infer_sched_distributed.Durable.DurableRouter.Stored.{IsPunctual, ArePunctual, committed_stored}
use infer_sched_distributed.Durable.OutboxRelay.Batches.{settled}
use infer_sched_distributed.Durable.DurableRouter.Progress.{turns, publishing_completes}
use infer_sched_distributed.Durable.DurableRouter.Dropped.{
  IsDropped, Stalls, dropped_blocks, IsOnward,
}

abbrev request : InferenceRequest
request = record {
  request_id = "a";
  model_revision = "m";
  tokenizer_revision = "t";
  prompt_tokens = 4;
  prompt_hash = "h";
  priority = 0;
  sampling = record { max_output_tokens = 1; temperature = 0; top_p = 1; seed = 0 };
  trace_id = "";
  span_id = "";
}

abbrev parse : String → Option InferenceRequest
parse payload = if same_text payload "a" then some request else none

abbrev hex : String → String
hex text = text

-- The engine's answer, whenever a stage asks for it.
abbrev answer : Answer
answer = record {
  past_deadline = false;
  events =
      accepted
      ∷ progress (record {
        kind = completed;
        request_id = "a";
        fence = record { partition_id = 0; ownership_epoch = 1; attempt_id = 1 };
        tokens_generated = 1;
        result_ref = "output";
        prefix_cache_hit = false;
        result_cache_hit = false;
        failure_reason = "";
        retryable = false;
        trace_id = "";
        span_id = "";
      })
      ∷ [];
  finished = true;
  sending = record { produced = true; polls = (record { about = 1; no_error = true } ∷ []) ∷ [] };
}

abbrev message : KafkaMessage
message = record { payload = "a"; key = ""; partition = 0; offset = 0 }

abbrev one_message : List Event
one_message =
    starts "r"
      ∷ acts "r" (rebalances true (0 ∷ []))
      ∷ acts "r" (receives message)
      ∷ replicate 20 (acts "r" (proceeds answer))
    ++ acts "r" (polls true) ∷ acts "r" (polls true) ∷ []

abbrev after : System
after = run parse hex "e" 5 initial one_message

program : Unit {0}
unfolding run step act poll started proceed loop acquire redispatch pop_message after_handle
    handle_message execute assign finish after_publish forget_epochs dispatch read_events
    result_envelope pop pop_ownership_event owns insert_all rebalance_cb take_commits receive
    mark_publish_complete commit_sync OffsetTracker.init OffsetTracker.mark_publish_complete
    set_erase advance acquire_partition ingest assign_attempt finalize position_taken may_assign
    is_current_epoch is_terminal_state fence_matches outbox_insert outbox_has recover_unresolved
    unresolved insert_by_position is_terminal fetch_unpublished unpublished insert_by_id
    mark_published mark_rows is_source_published all_published handle request_id_of forget
    RequestIngestor.init lookup erase insert_or_assign text_discrete ℕ_discrete was_reported
    IsContiguous AreContiguous start_offset migrated IsOnward next_attempt initial report store
    IsPunctual ArePunctual start delivered publish await_report poll_producer dr_cb reported
    reported_during
program = tt

one_message_committed : after.committed ≡ (0, 1) ∷ []
unfolding program
one_message_committed = refl

contiguous : AreContiguous parse hex "e" 5 initial one_message
unfolding program
contiguous = (
  tt,
  (
    tt,
    (
      (λ r found fresh. omega arith),
      (
        tt,
        (
          tt,
          (
            tt,
            (
              tt,
              (
                tt,
                (
                  tt,
                  (
                    tt,
                    (
                      tt,
                      (
                        tt,
                        (
                          tt,
                          (
                            tt,
                            (tt, (tt, (tt, (tt, (tt, (tt, (tt, (tt, (tt, (tt, (tt, tt))))))))))),
                          ),
                        ),
                      ),
                    ),
                  ),
                ),
              ),
            ),
          ),
        ),
      ),
    ),
  ),
)

committed : lookup ℕ_discrete 0 after.committed ≡ some 1
unfolding program
committed = refl

committed_published_example : was_reported after.reported 0 0 after.tables.outbox ≡ true
committed_published_example =
    committed_published parse hex "e" 5 one_message 0 1 0 contiguous committed (omega arith)

punctual : ArePunctual parse hex "e" 5 initial one_message
unfolding program
punctual = (
  tt,
  (
    tt,
    (
      tt,
      (
        tt,
        (
          tt,
          (
            tt,
            (
              tt,
              (
                tt,
                (
                  tt,
                  (
                    tt,
                    (
                      tt,
                      (
                        tt,
                        (
                          tt,
                          (
                            tt,
                            (
                              tt,
                              (
                                tt,
                                (
                                  tt,
                                  (tt, (((refl, tt), tt), (tt, (tt, (tt, (tt, (tt, (tt, tt)))))))),
                                ),
                              ),
                            ),
                          ),
                        ),
                      ),
                    ),
                  ),
                ),
              ),
            ),
          ),
        ),
      ),
    ),
  ),
)

committed_stored_example : was_reported after.stored 0 0 after.tables.outbox ≡ true
committed_stored_example =
    committed_stored parse hex "e" 5 one_message 0 1 0 contiguous punctual committed (omega arith)

-- A message that does not parse, up to `Handle`.
abbrev unreadable : KafkaMessage
unreadable = record { payload = "?"; key = ""; partition = 0; offset = 0 }

abbrev until_handled : List Event
until_handled =
    starts "r"
    ∷ acts "r" (rebalances true (0 ∷ []))
    ∷ acts "r" (receives unreadable)
    ∷ replicate 8 (acts "r" (proceeds answer))

abbrev waiting : System
waiting = run parse hex "e" 5 initial until_handled

abbrev handler : Router
handler = record {
  poller = record {
    messages = [];
    ownership_events = [];
    commits = [];
    trackers = (0, record { next_offset = 0; completed = [] }) ∷ [];
    assigned_partitions = 0 ∷ [];
    stop = false;
  };
  poll_stage = polling;
  ingestor = record { max_parse_retries = 3; parse_attempts = [] };
  epochs = (0, 1) ∷ [];
  completed = 0;
  stage = handling unreadable;
}

-- Afterwards the next message is given, executed and its result published, and the poll thread
-- goes round.
abbrev afterwards : List Event
afterwards =
    acts "r" (receives (record { payload = "a"; key = ""; partition = 0; offset = 1 }))
      ∷ replicate 14 (acts "r" (proceeds answer))
    ++ acts "r" (polls true) ∷ acts "r" (polls true) ∷ []

dropped_blocks_example :
    (r : Router) × (lookup text_discrete "r"
        (run parse hex "e" 5 waiting (acts "r" (proceeds answer) ∷ afterwards)).routers
      ≡ some r)
    × Stalls 0 0 r
unfolding program
dropped_blocks_example =
    dropped_blocks parse hex "e" 5 waiting afterwards "r" handler unreadable answer refl
      (IsDropped.unreadable refl refl (omega arith))
      (record {
        tracker = record { next_offset = 0; completed = [] };
        tracked = refl;
        waits = record { ahead = omega arith; open_offset = refl };
        commits = tt;
      })
      tt tt
      (
        (λ e f. ground arith),
        (
          tt,
          (
            tt,
            (tt, (tt, (tt, (tt, (tt, (tt, (tt, (tt, (tt, (tt, (tt, (tt, (tt, (tt, tt)))))))))))))),
          ),
        ),
      )

-- The next offset waits above the first, and nothing is committed.
stalled_router :
    (run parse hex "e" 5 waiting (acts "r" (proceeds answer) ∷ afterwards)).committed ≡ []
unfolding program
stalled_router = refl

-- The row that `Finalize` has left.
abbrev result_row : OutboxRow
result_row = record {
  id = 1;
  topic = "inference.results";
  message_key = "a";
  payload = "output";
  source_partition = 0;
  source_offset = 0;
  published = false;
}

abbrev finalized : Tables
finalized = record {
  partition_ownership = [];
  inference_requests = [];
  poison_messages = [];
  outbox = result_row ∷ [];
  next_outbox_id = 2;
}

publishing_completes_example :
    turns parse hex "r" "e" 5 answer 5 (at handler (publishing (executed message)), finalized) ≡ (
      record handler {
        poller = mark_publish_complete handler.poller 0 0;
        completed = 1;
        stage = looping;
      },
      record finalized { outbox = record result_row { published = true } ∷ [] },
    )
unfolding unpublished insert_by_id all_published settled delivered publish await_report
    poll_producer dr_cb
publishing_completes_example =
    publishing_completes parse hex "r" "e" 5 answer handler finalized message refl (omega arith)
      refl
