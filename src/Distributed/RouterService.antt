-- ===== src/Distributed/RouterService.antt =====
-- `RouterService`: cpp/include/infersched/distributed/router_service.hpp and
-- cpp/src/router_service.cpp. Each handler runs under the mutex; `now` is what
-- `std::chrono::steady_clock` says then, in milliseconds. A wait is its condition, asked once.
pub mod Leases
pub mod Answers
mod Tests
use infer_sched_distributed.Base.{
  ℕ, ◌-◌, Bool, true, false, not, ◌||◌, List, [], ◌∷◌, Option, none, some, String, leb, same_text,
  if◌then◌else◌, lookup, insert_or_assign, text_discrete,
}
use infer_sched_distributed.Distributed.Messages.{
  EngineCapacity, RegisterRequest, RegisterReply, HeartbeatRequest, HeartbeatReply,
}

pub record EngineRecord : Type 0 where
  pub engine_id : String
  pub incarnation_id : String
  pub endpoint : String
  pub capacity : EngineCapacity
  pub last_heartbeat : ℕ

pub record RouterService : Type 0 where
  pub lease_ttl : ℕ
  pub engines : List (String × EngineRecord)

abbrev pub init : ℕ → RouterService
init lease_ttl = record { lease_ttl = lease_ttl; engines = [] }

abbrev pub refused : RegisterRequest → Bool
refused request =
    same_text request.engine_id ""
    || same_text request.incarnation_id ""
    || same_text request.endpoint ""

-- `Register`: a reply that is not accepted grants no lease.
unfoldable pub register : RouterService → ℕ → RegisterRequest → RegisterReply × RouterService
register s now request =
    if refused request then (record { accepted = false; assigned_lease_ttl_ms = 0 }, s) else (
      record { accepted = true; assigned_lease_ttl_ms = s.lease_ttl },
      record s {
        engines =
            insert_or_assign text_discrete request.engine_id
              (record {
                engine_id = request.engine_id;
                incarnation_id = request.incarnation_id;
                endpoint = request.endpoint;
                capacity = request.capacity;
                last_heartbeat = now;
              })
              s.engines;
      },
    )

-- The condition of `std::erase_if`; the clock does not go back.
abbrev pub lapsed : ℕ → ℕ → ℕ → Bool
lapsed lease_ttl now last_heartbeat = leb lease_ttl (now - last_heartbeat)

-- `std::erase_if`.
unfoldable pub keep_live : ℕ → ℕ → List (String × EngineRecord) → List (String × EngineRecord)
keep_live lease_ttl now [] = []
keep_live lease_ttl now ((id, engine) ∷ engines) =
    let rest = keep_live lease_ttl now engines in
    if lapsed lease_ttl now engine.last_heartbeat then rest else (id, engine) ∷ rest

abbrev pub prune_expired : RouterService → ℕ → RouterService
prune_expired s now = record s { engines = keep_live s.lease_ttl now s.engines }

-- The clock is read twice: `now` for `PruneExpiredLocked`, and `renewed` for `last_heartbeat`.
unfoldable pub heartbeat : RouterService → ℕ → ℕ → HeartbeatRequest → HeartbeatReply × RouterService
heartbeat s now renewed request =
    let pruned = prune_expired s now in
    elim (lookup text_discrete request.engine_id pruned.engines) [
      | none ↦ (record { lease_ok = false }, pruned)
      | some engine ↦
          if same_text engine.incarnation_id request.incarnation_id
          then (
            record { lease_ok = true },
            record pruned {
              engines =
                  insert_or_assign text_discrete request.engine_id
                    (record engine { capacity = request.capacity; last_heartbeat = renewed })
                    pruned.engines;
            },
          )
          else (record { lease_ok = false }, pruned)
    ]

abbrev pub first_engine : List (String × EngineRecord) → Option EngineRecord
first_engine [] = none
first_engine ((id, engine) ∷ engines) = some engine

-- `WaitForEngine`: none while the condition does not hold.
unfoldable pub wait_for_engine : RouterService → ℕ → Option EngineRecord × RouterService
wait_for_engine s now = let pruned = prune_expired s now in (first_engine pruned.engines, pruned)

unfoldable pub new_incarnation : String → List (String × EngineRecord) → Option EngineRecord
new_incarnation previous [] = none
new_incarnation previous ((id, engine) ∷ engines) =
    let rest = new_incarnation previous engines in
    if not (same_text engine.incarnation_id previous) then some engine else rest

-- `WaitForNewIncarnation`: none while the condition does not hold.
unfoldable pub wait_for_new_incarnation :
    RouterService → String → ℕ → Option EngineRecord × RouterService
wait_for_new_incarnation s previous now =
    let pruned = prune_expired s now in (new_incarnation previous pruned.engines, pruned)
