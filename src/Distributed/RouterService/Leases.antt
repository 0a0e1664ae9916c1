-- ===== src/Distributed/RouterService/Leases.antt =====
-- The leases of router_service.cpp against a description with one lease for each engine.
use infer_sched_distributed.Base.{
  ℕ, ◌≤◌, ◌≡◌, refl, ◌∙◌, ap, arith, Bool, false, ◌&&◌, not, List, [], ◌∷◌, Option, none, some,
  String, same_text, if◌then◌else◌, lookup, text_discrete, lookup-insert_or_assign,
  insert_or_assign-Unique, Unique, Option-cases, inl, inr,
}
use infer_sched_distributed.Distributed.Messages.{RegisterRequest, HeartbeatRequest}
use infer_sched_distributed.Distributed.RouterService.{
  EngineRecord, RouterService, refused, register, lapsed, keep_live, heartbeat, wait_for_engine,
  wait_for_new_incarnation,
}

-- A call and what the clock says; `Heartbeat` reads it twice.
pub data Event : Type 0 where
  registers : ℕ → RegisterRequest → Event
  beats : ℕ → ℕ → HeartbeatRequest → Event
  waits : ℕ → Event
  waits_for_new : ℕ → String → Event

abbrev pub time_of : Event → ℕ
time_of (registers now r) = now
time_of (beats now later r) = now
time_of (waits now) = now
time_of (waits_for_new now previous) = now

-- What it says at the last reading.
abbrev pub end_of : Event → ℕ
end_of (beats now later r) = later
end_of e = time_of e

unfoldable pub step : RouterService → Event → RouterService
step s (registers now r) = (register s now r).1
step s (beats now later r) = (heartbeat s now later r).1
step s (waits now) = (wait_for_engine s now).1
step s (waits_for_new now previous) = (wait_for_new_incarnation s previous now).1

unfoldable pub run : RouterService → List Event → RouterService
run s [] = s
run s (e ∷ es) = run (step s e) es

-- The clock does not go back, from `now` on, and ends at `end` at the latest.
abbrev pub Ordered : ℕ → List Event → ℕ → Type 0
Ordered now [] end = now ≤ end
Ordered now (e ∷ es) end = (now ≤ time_of e) × (time_of e ≤ end_of e) × Ordered (end_of e) es end

-- A lease: the incarnation that holds it, and when it was last renewed.
abbrev pub Lease : Type 0
Lease = Option (String × ℕ)

-- What is left of a lease at a time.
abbrev pub live : ℕ → ℕ → Lease → Lease
live ttl now none = none
live ttl now (some (incarnation, renewed)) =
    if lapsed ttl now renewed then none else some (incarnation, renewed)

abbrev pub holds : ℕ → ℕ → String → Lease → Bool
holds ttl now incarnation l = elim (live ttl now l) [
  | none ↦ false
  | some (holder, renewed) ↦ same_text holder incarnation
]

-- The lease of one engine after an event: nothing is pruned here.
abbrev pub lease_after : ℕ → String → Lease → Event → Lease
lease_after ttl id l (registers now r) =
    if not (refused r) && same_text r.engine_id id then some (r.incarnation_id, now) else l
lease_after ttl id l (beats now later r) =
    if same_text r.engine_id id && holds ttl now r.incarnation_id l
    then some (r.incarnation_id, later)
    else l
lease_after ttl id l (waits now) = l
lease_after ttl id l (waits_for_new now previous) = l

abbrev pub lease_of_history : ℕ → String → Lease → List Event → Lease
lease_of_history ttl id l [] = l
lease_of_history ttl id l (e ∷ es) = lease_of_history ttl id (lease_after ttl id l e) es

abbrev pub lease_of : Option EngineRecord → Lease
lease_of none = none
lease_of (some engine) = some (engine.incarnation_id, engine.last_heartbeat)

keep_live_absent :
    (ttl now : ℕ) (id : String) (m : List (String × EngineRecord))
    → lookup text_discrete id m ≡ none
    → lookup text_discrete id (keep_live ttl now m) ≡ none
unfolding keep_live lookup
keep_live_absent ttl now id [] h = refl
keep_live_absent ttl now id ((j, e) ∷ m) h = ground (arith, h, keep_live_absent ttl now id m)

keep_live-Unique :
    (ttl now : ℕ) (m : List (String × EngineRecord))
    → Unique text_discrete m
    → Unique text_discrete (keep_live ttl now m)
unfolding keep_live
keep_live-Unique ttl now [] u = tt
keep_live-Unique ttl now ((j, e) ∷ m) u =
    ground (arith, keep_live-Unique ttl now m u.1, keep_live_absent ttl now j m u.0)

lookup-keep_live :
    (ttl now : ℕ) (id : String) (m : List (String × EngineRecord))
    → Unique text_discrete m
    → lease_of (lookup text_discrete id (keep_live ttl now m))
      ≡ live ttl now (lease_of (lookup text_discrete id m))
unfolding keep_live lookup
lookup-keep_live ttl now id [] u = refl
lookup-keep_live ttl now id ((j, e) ∷ m) u =
    ground (arith, u.0, lookup-keep_live ttl now id m u.1, keep_live_absent ttl now id m)

live-live : (ttl now t : ℕ) (l : Lease) → now ≤ t → live ttl t (live ttl now l) ≡ live ttl t l
live-live ttl now t none h = refl
live-live ttl now t (some (i, r)) h = ground (arith, h)

-- The records are the leases, up to those that have lapsed by `now`.
pub record Agrees (ttl now : ℕ) (m : List (String × EngineRecord)) (leases : String → Lease)
    : Type 0 where
  pub unique : Unique text_discrete m
  pub same :
      (id : String) (t : ℕ)
      → now ≤ t
      → live ttl t (lease_of (lookup text_discrete id m)) ≡ live ttl t (leases id)

module _ (ttl now t : ℕ) (m : List (String × EngineRecord)) (leases : String → Lease)
    (v : Agrees ttl now m leases) (later : now ≤ t) where
  pub pruned-lease :
      (id : String)
      → lease_of (lookup text_discrete id (keep_live ttl t m)) ≡ live ttl t (leases id)
  pruned-lease id = lookup-keep_live ttl t id m v.unique ∙ v.same id t later

  prune-Agrees : Agrees ttl t (keep_live ttl t m) leases
  prune-Agrees = record {
    unique = keep_live-Unique ttl t m v.unique;
    same = λ id u h. ap (live ttl u) (pruned-lease id) ∙ live-live ttl t u (leases id) h;
  }

  abbrev service : RouterService
  service = record { lease_ttl = ttl; engines = m }

  abbrev entry : RegisterRequest → EngineRecord
  entry r = record {
    engine_id = r.engine_id;
    incarnation_id = r.incarnation_id;
    endpoint = r.endpoint;
    capacity = r.capacity;
    last_heartbeat = t;
  }

  register-Agrees :
      (r : RegisterRequest)
      → Agrees ttl t
          (register service t r).1.engines
          (λ id. lease_after ttl id (leases id) (registers t r))
  unfolding register
  register-Agrees r = record {
    unique =
        ground
          (arith, v.unique, insert_or_assign-Unique text_discrete r.engine_id (entry r) m v.unique);
    same = λ id u h. ground (
      arith,
      h,
      later,
      v.same id u,
      lookup-insert_or_assign text_discrete r.engine_id id (entry r) m,
    );
  }

  pub heartbeat-answer :
      (done : ℕ) (r : HeartbeatRequest)
      → (heartbeat service t done r).0.lease_ok ≡ holds ttl t r.incarnation_id (leases r.engine_id)
  unfolding heartbeat
  heartbeat-answer done r =
      let found = lookup text_discrete r.engine_id (keep_live ttl t m) in
      elim (Option-cases found) [
        | inl h ↦ rw (h, heartbeat) (ground (arith, h, pruned-lease r.engine_id))
        | inr (engine, h) ↦ rw (h, heartbeat) (ground (arith, h, pruned-lease r.engine_id))
      ]

  abbrev renewed : ℕ → HeartbeatRequest → EngineRecord → EngineRecord
  renewed done r engine = record engine { capacity = r.capacity; last_heartbeat = done }

  heartbeat-Agrees :
      (done : ℕ) (r : HeartbeatRequest)
      → t ≤ done
      → Agrees ttl done
          (heartbeat service t done r).1.engines
          (λ id. lease_after ttl id (leases id) (beats t done r))
  unfolding heartbeat
  heartbeat-Agrees done r le =
      let pruned = keep_live ttl t m in
      let found = lookup text_discrete r.engine_id pruned in
      let p = prune-Agrees in
      elim (Option-cases found) [
        | inl h ↦
            rw (h, heartbeat)
              (record {
                unique = p.unique;
                same = λ id u k. ground (
                  arith,
                  h,
                  k,
                  p.same id u (omega (arith, le, k)),
                  pruned-lease r.engine_id,
                  pruned-lease id,
                );
              })
        | inr (engine, h) ↦
            rw (h, heartbeat)
              (record {
                unique = ground (
                  arith,
                  p.unique,
                  insert_or_assign-Unique text_discrete r.engine_id (renewed done r engine) pruned
                      p.unique,
                );
                same = λ id u k. ground (
                  arith,
                  h,
                  k,
                  p.same id u (omega (arith, le, k)),
                  pruned-lease r.engine_id,
                  lookup-insert_or_assign text_discrete r.engine_id id (renewed done r engine)
                      pruned,
                );
              })
      ]

pub step-Agrees :
    (s : RouterService) (now : ℕ) (leases : String → Lease) (e : Event)
    → Agrees s.lease_ttl now s.engines leases
    → now ≤ time_of e
    → time_of e ≤ end_of e
    → Agrees s.lease_ttl
        (end_of e)
        (step s e).engines
        (λ id. lease_after s.lease_ttl id (leases id) e)
unfolding step wait_for_engine wait_for_new_incarnation
step-Agrees s now leases (registers t r) v h le =
    register-Agrees s.lease_ttl now t s.engines leases v h r
step-Agrees s now leases (beats t done r) v h le =
    heartbeat-Agrees s.lease_ttl now t s.engines leases v h done r le
step-Agrees s now leases (waits t) v h le = prune-Agrees s.lease_ttl now t s.engines leases v h
step-Agrees s now leases (waits_for_new t previous) v h le =
    prune-Agrees s.lease_ttl now t s.engines leases v h

pub step-lease_ttl : (s : RouterService) (e : Event) → (step s e).lease_ttl ≡ s.lease_ttl
unfolding step register heartbeat wait_for_engine wait_for_new_incarnation
step-lease_ttl s (registers t r) = ground arith
step-lease_ttl s (beats t done r) = ground arith
step-lease_ttl s (waits t) = refl
step-lease_ttl s (waits_for_new t previous) = refl
