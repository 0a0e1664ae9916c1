-- ===== src/Distributed/RouterService/Tests.antt =====
-- Witnesses for the Router's leases (router_service.cpp): a lease of 1000 milliseconds.
use infer_sched_distributed.Base.{
  ◌≡◌, refl, arith, true, false, List, [], ◌∷◌, none, String, lookup, insert_or_assign,
  text_discrete,
}
use infer_sched_distributed.Distributed.Messages.{EngineCapacity, RegisterRequest, HeartbeatRequest}
use infer_sched_distributed.Distributed.RouterService.{
  init, register, keep_live, heartbeat, wait_for_engine, new_incarnation, wait_for_new_incarnation,
}
use infer_sched_distributed.Distributed.RouterService.Leases.{
  Event, registers, beats, waits, step, run, holds, lease_of_history,
}
use infer_sched_distributed.Distributed.RouterService.Answers.{heartbeat-holds}

program : Unit {0}
unfolding register keep_live heartbeat wait_for_engine new_incarnation wait_for_new_incarnation step
    run lookup insert_or_assign text_discrete
program = tt

abbrev idle : EngineCapacity
idle = record {
  free_kv_blocks = 4;
  total_kv_blocks = 4;
  batch_headroom = 2;
  running_seqs = 0;
  waiting_seqs = 0;
}

abbrev joining : String → RegisterRequest
joining incarnation = record {
  engine_id = "e";
  incarnation_id = incarnation;
  models = [];
  capacity = idle;
  endpoint = "localhost";
}

abbrev beating : String → HeartbeatRequest
beating incarnation = record { engine_id = "e"; incarnation_id = incarnation; capacity = idle }

abbrev events : List Event
events = registers 0 (joining "i1") ∷ beats 900 902 (beating "i1") ∷ waits 1500 ∷ []

-- Renewed at 902, the lease is good at 1800 and has lapsed at 1902; another incarnation has none.
good_then_lapsed :
    ((heartbeat (run (init 1000) events) 1800 1801 (beating "i1")).0.lease_ok ≡ true)
    × ((heartbeat (run (init 1000) events) 1902 1902 (beating "i1")).0.lease_ok ≡ false)
    × ((heartbeat (run (init 1000) events) 1800 1801 (beating "i2")).0.lease_ok ≡ false)
unfolding program
good_then_lapsed = (refl, refl, refl)

-- The new incarnation has taken the place of the one before.
restarted :
    (wait_for_new_incarnation
      (run (init 1000) (registers 0 (joining "i1") ∷ registers 5 (joining "i2") ∷ []))
      "i2"
      10).0
    ≡ none
unfolding program
restarted = refl

heartbeat-holds_example :
    (heartbeat (run (init 1000) events) 1800 1801 (beating "i1")).0.lease_ok
    ≡ holds 1000 1800 "i1" (lease_of_history 1000 "e" none events)
heartbeat-holds_example =
    heartbeat-holds 1000 1800 1801 events (beating "i1") (
      omega arith,
      omega arith,
      (omega arith, omega arith, (omega arith, omega arith, omega arith)),
    )
