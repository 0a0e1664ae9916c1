-- ===== src/Durable/Store/Tests.antt =====
-- The durable store on concrete inputs (durable_store.cpp): two routers, one request.
use infer_sched_distributed.Base.{
  ◌≡◌, ◌≤◌, ◌<◌, ◌++◌, refl, arith, true, false, List, [], ◌∷◌, none, some, String, lookup,
  insert_or_assign, text_discrete, ℕ_discrete, to_string,
}
use infer_sched_distributed.Durable.Store.{
  Tables, Request, Fence, Assignment, done, migrated, is_terminal_state, acquire_partition,
  position_taken, ingest, is_current_epoch, may_assign, assign_attempt, may_transition, transition,
  outbox_has, outbox_insert, fence_matches, finalize, completed,
}
use infer_sched_distributed.Durable.Store.Queries.{
  record_poison, mark_published, mark_rows, poison_has,
}
use infer_sched_distributed.Durable.Store.Lifecycle.{
  Call, acquires, ingests, assigns, transitions, finalizes, publishes, step, run, row, Terminal,
  run-Terminal,
}
use infer_sched_distributed.Durable.Store.Accepted.{
  count_accepted, count_accepted-le-one, is_done_true,
}
use infer_sched_distributed.Durable.Store.Fencing.{finalize_superseded}
use infer_sched_distributed.Durable.Store.Epochs.{
  EpochFrom, assign_attempt_superseded, finalize_after_takeover,
}
use infer_sched_distributed.Durable.Store.Publication.{finalize_publishes}

program : Unit {0}
unfolding migrated is_terminal_state acquire_partition position_taken ingest is_current_epoch
    may_assign assign_attempt may_transition transition outbox_has outbox_insert fence_matches
    finalize record_poison mark_published mark_rows poison_has step run lookup insert_or_assign
    text_discrete ℕ_discrete to_string
program = tt

abbrev hex : String → String
hex s = s

abbrev opening : List Call
opening = acquires 0 "router-a" ∷ ingests "r" 0 7 "payload" ∷ []

abbrev first_fence : Fence
first_fence = record { partition_id = 0; ownership_epoch = 1; attempt_id = 1; engine_id = "e1" }

abbrev first : Assignment
first = record { fence = first_fence; state_version = 1 }

abbrev second : Assignment
second = record {
  fence = record { partition_id = 0; ownership_epoch = 2; attempt_id = 2; engine_id = "e2" };
  state_version = 2;
}

abbrev opened : Tables
opened = run hex migrated opening

assign_first : (assign_attempt opened "r" 0 1 "e1").0 ≡ done (some first)
unfolding program
assign_first = refl

abbrev taken_over : Tables
taken_over = run hex (assign_attempt opened "r" 0 1 "e1").1 (acquires 0 "router-b" ∷ [])

assign_second : (assign_attempt taken_over "r" 0 2 "e2").0 ≡ done (some second)
unfolding program
assign_second = refl

finalize_superseded_example :
    let t = run hex (assign_attempt taken_over "r" 0 2 "e2").1 (publishes 3 ∷ []) in
    finalize t "r" first_fence "late" ≡ (done false, t)
finalize_superseded_example =
    finalize_superseded hex opened "r" first second 0 1 0 2 "e1" "e2" "late"
      (acquires 0 "router-b" ∷ []) (publishes 3 ∷ []) assign_first assign_second

abbrev busy : List Call
busy =
    acquires 0 "router-a"
    ∷ ingests "r" 0 7 "payload"
    ∷ assigns "r" 0 1 "e1"
    ∷ finalizes "r" first_fence "done"
    ∷ finalizes "r" first_fence "done"
    ∷ []

count_accepted-le-one_example : count_accepted hex migrated busy "r" ≤ 1
count_accepted-le-one_example = count_accepted-le-one hex migrated busy "r"

abbrev finished : Request
finished = record {
  state = "COMPLETED";
  state_version = 2;
  source_partition = 0;
  source_offset = 7;
  raw_payload = "payload";
  ownership_epoch = some 1;
  engine_id = some "e1";
  attempt_id = 1;
  terminal_result = some "done";
}

finished-row : row (run hex migrated busy) "r" ≡ some finished
unfolding program
finished-row = refl

finished-Terminal : Terminal finished
unfolding program
finished-Terminal = refl

run-Terminal_example :
    row
      (run hex
        (run hex migrated busy)
        (assigns "r" 0 1 "e2" ∷ transitions "r" 2 "COMPLETED" "RECEIVED" ∷ []))
      "r"
    ≡ some finished
run-Terminal_example =
    run-Terminal hex (run hex migrated busy)
      (assigns "r" 0 1 "e2" ∷ transitions "r" 2 "COMPLETED" "RECEIVED" ∷ []) "r" finished
      finished-row finished-Terminal

opened-EpochFrom : EpochFrom 0 opened 1
unfolding program
opened-EpochFrom = (record { ownership_epoch = 1; router_id = "router-a" }, refl, omega arith)

acquire_second : (acquire_partition opened 0 "router-b").0 ≡ done 2
unfolding program
acquire_second = refl

assign_attempt_superseded_example :
    let t = run hex (acquire_partition opened 0 "router-b").1 (ingests "s" 0 8 "other" ∷ []) in
    (1 < 2) × (1 ≤ 1 → assign_attempt t "r" 0 1 "e1" ≡ (done none, t))
assign_attempt_superseded_example =
    assign_attempt_superseded hex opened 0 1 2 1 "router-b" "r" "e1" (ingests "s" 0 8 "other" ∷ [])
      opened-EpochFrom (omega arith) acquire_second

acquire_after : (acquire_partition (assign_attempt opened "r" 0 1 "e1").1 0 "router-b").0 ≡ done 2
unfolding program
acquire_after = refl

finalize_after_takeover_example :
    let t = (acquire_partition (assign_attempt opened "r" 0 1 "e1").1 0 "router-b").1 in
    (is_current_epoch t 0 1 ≡ false) × ((finalize t "r" first_fence "zombie").0 ≡ done true)
finalize_after_takeover_example =
    finalize_after_takeover opened "r" "e1" "router-b" "zombie" 0 1 2 first opened-EpochFrom
      assign_first (omega arith) acquire_after

abbrev dispatched_calls : List Call
dispatched_calls = acquires 0 "router-a" ∷ ingests "r" 0 7 "payload" ∷ assigns "r" 0 1 "e1" ∷ []

finalize_publishes_example :
    let t = run hex migrated dispatched_calls in
    let t' = (finalize t "r" first_fence "done").1 in
    ((finalize t "r" first_fence "done").0 ≡ done true
      → (r : Request) × (row t "r" ≡ some r)
        × (row t' "r" ≡ some (completed r "done"))
        × (t'.outbox
            ≡ t.outbox
              ++ record {
                id = t.next_outbox_id;
                topic = "inference.results";
                message_key = "r";
                payload = "done";
                source_partition = r.source_partition;
                source_offset = r.source_offset;
                published = false;
              }
                ∷ []))
    × (is_done_true (finalize t "r" first_fence "done").0 ≡ false → t' ≡ t)
finalize_publishes_example = finalize_publishes hex dispatched_calls "r" first_fence "done"
