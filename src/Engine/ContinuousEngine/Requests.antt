-- ===== src/Engine/ContinuousEngine/Requests.antt =====
-- Where the requests of `ContinuousEngine` (continuous_engine.cpp) are: waiting, active, answered.
use infer_sched_distributed.Base.{
  ℕ, zero, suc, ◌+◌, ◌≡◌, refl, arith, Bool, false, List, [], ◌∷◌, ◌++◌, Option, none, some, String,
  ite, text_discrete, if_elim, is_some, ap, Option-cases, inl, inr, ltb, length, if◌then◌else◌,
}
use infer_sched_distributed.Engine.EngineConfig.{EngineResult, build_result_cache_key}
use infer_sched_distributed.Engine.RequestQueue.{EngineRequest, pop_ready}
use infer_sched_distributed.Engine.ResultCache.{get as cached_result}
use infer_sched_distributed.Engine.RequestQueue.Order.{
  Takes, here, there, Pops, nothing_ready, ready, pop_ready-Pops,
}
use infer_sched_distributed.Engine.ContinuousEngine.State.{
  ContinuousEngine, ActiveRequest, impossible_reason,
}
use infer_sched_distributed.Engine.ContinuousEngine.Admission.{
  Admission, Reservation, active_of, defer, cached_answer, failed_result, is_allocated,
}
use infer_sched_distributed.Engine.ContinuousEngine.Frames.{start-Starts}
use infer_sched_distributed.Engine.ContinuousEngine.Scan.{
  start, settle, admit, serve, consider, scan, push_all, admit_ready,
}

-- How many elements of a list carry an id.
module _ {ℓ} {A : Type ℓ} (id_of : A → String) (id : String) where
  abbrev pub tally : List A → ℕ
  tally [] = 0
  tally (x ∷ xs) = ite (text_discrete (id_of x) id) 1 0 + tally xs

  pub tally-append : (xs ys : List A) → tally (xs ++ ys) ≡ tally xs + tally ys
  tally-append [] ys = omega arith
  tally-append (x ∷ xs) ys = omega (arith, tally-append xs ys)

abbrev pub in_queue : String → List EngineRequest → ℕ
in_queue = tally (λ r. r.request_id)

abbrev pub in_active : String → List ActiveRequest → ℕ
in_active = tally (λ a. a.request.request_id)

abbrev pub in_results : String → List EngineResult → ℕ
in_results = tally (λ r. r.request_id)

abbrev pub same_id : String → EngineRequest → ℕ
same_id id r = ite (text_discrete r.request_id id) 1 0

-- How often an engine has a request of that id: waiting, active or answered.
abbrev pub held {ℓ} : {G : Type ℓ} → String → ContinuousEngine G → ℕ
held id e = in_queue id e.pending + in_active id e.active + in_results id e.results

in_queue-Takes :
    (id : String) (r : EngineRequest) (queue rest : List EngineRequest)
    → Takes r queue rest
    → in_queue id queue ≡ same_id id r + in_queue id rest
in_queue-Takes id r _ rest here = refl
in_queue-Takes id r (s ∷ queue) (_ ∷ rest) (there t) =
    omega (arith, in_queue-Takes id r queue rest t)

module _ {ℓ} {G : Type ℓ} (draw : G → ℕ → Bool × ℕ × G) (id : String) where
  abbrev held_by : Admission G → ℕ
  held_by a = held id a.engine + in_queue id a.deferred

  start-held :
      (a : Admission G) (candidate : EngineRequest) (blocks : ℕ) (r : Reservation)
      → held_by (start draw a candidate blocks r) ≡ held_by a + same_id id candidate
  start-held a candidate blocks r =
      let s = start-Starts draw a candidate blocks r in
      omega (
        arith,
        ap (in_queue id) s.pending,
        ap (in_active id) s.active,
        ap (in_results id) s.results,
        ap (in_queue id) s.deferred,
        tally-append (λ (x : ActiveRequest). x.request.request_id) id a.engine.active
            (active_of candidate (is_some r.found) ∷ []),
      )

  defer-held :
      (a : Admission G) (candidate : EngineRequest)
      → held_by (defer a candidate) ≡ held_by a + same_id id candidate
  defer-held a candidate =
      omega
        (arith, tally-append (λ (x : EngineRequest). x.request_id) id a.deferred (candidate ∷ []))

  settle-held :
      (a : Admission G) (candidate : EngineRequest) (blocks : ℕ) (r : Reservation)
      → held_by (settle draw a candidate blocks r) ≡ held_by a + same_id id candidate
  unfolding settle
  settle-held a candidate blocks r =
      if_elim (λ (b : Admission G). held_by b ≡ held_by a + same_id id candidate)
        (is_allocated r.status) (λ h. start-held a candidate blocks r)
        (λ h.
          defer-held
            (record a { engine = record a.engine { prefix_cache = r.prefixes; kv_cache = r.kv } })
            candidate)

  serve-held :
      (a : Admission G) (candidate : EngineRequest)
      → held_by (serve draw a candidate) ≡ held_by a + same_id id candidate
  unfolding serve admit
  serve-held a candidate =
      let key = build_result_cache_key candidate in
      elim (Option-cases (cached_result a.engine.result_cache key).0) [
        | inl e ↦ rw (e, serve) (settle-held _ candidate _ _)
        | inr (cached, e) ↦
            rw (e, serve)
              (omega (
                arith,
                tally-append (λ (x : EngineResult). x.request_id) id a.engine.results
                    (cached_answer candidate cached a.engine.now ∷ []),
              ))
      ]

  consider-held :
      (a : Admission G) (candidate : EngineRequest)
      → held_by (consider draw a candidate).1 ≡ held_by a + same_id id candidate
  unfolding consider
  consider-held a candidate =
      elim (Option-cases (impossible_reason a.engine.config a.engine.kv_cache candidate)) [
        | inl e ↦ rw (e, consider) (ground (arith, serve-held a candidate, defer-held a candidate))
        | inr (reason, e) ↦
            rw (e, consider)
              (omega (
                arith,
                tally-append (λ (x : EngineResult). x.request_id) id a.engine.results
                    (failed_result candidate reason a.engine.now ∷ []),
              ))
      ]

  -- `PopReady` and the loop body together.
  scan_turn :
      (limit : ℕ) (a : Admission G) (popped : Option EngineRequest × List EngineRequest)
      → ((b : Admission G) → held_by (scan draw limit b) ≡ held_by b)
      → Pops a.engine.pending a.engine.now popped
      → held_by (elim popped.0 [
        | none ↦ a
        | some candidate ↦
            let (more, a') =
              consider draw
                (record a { engine = record a.engine { pending = popped.1 } })
                candidate in
            if more then scan draw limit a' else a'
      ])
        ≡ held_by a
  scan_turn limit a (none, _) rest (nothing_ready late) = refl
  scan_turn limit a (some _, _) rest (ready candidate queue earliest due) =
      let popped : Admission G = record a { engine = record a.engine { pending = queue } } in
      let after = (consider draw popped candidate).1 in
      if_elim (λ (b : Admission G). held_by b ≡ held_by a) (consider draw popped candidate).0
        (λ h. omega (
          arith,
          rest after,
          consider-held popped candidate,
          in_queue-Takes id candidate a.engine.pending queue earliest.takes,
        ))
        (λ h. omega (
          arith,
          consider-held popped candidate,
          in_queue-Takes id candidate a.engine.pending queue earliest.takes,
        ))

  scan-held : (limit : ℕ) (a : Admission G) → held_by (scan draw limit a) ≡ held_by a
  unfolding scan
  scan-held zero a = refl
  scan-held (suc limit) a =
      if_elim (λ (b : Admission G). held_by b ≡ held_by a)
        (ltb (length a.engine.active) a.engine.config.max_batch_sequences)
        (λ h.
          scan_turn limit a (pop_ready a.engine.pending a.engine.now) (scan-held limit)
            (pop_ready-Pops a.engine.pending a.engine.now))
        (λ h. refl)

  in_queue-push_all :
      (queue requests : List EngineRequest)
      → in_queue id (push_all draw queue requests) ≡ in_queue id queue + in_queue id requests
  in_queue-push_all queue [] = omega arith
  in_queue-push_all queue (r ∷ requests) = omega (arith, in_queue-push_all (r ∷ queue) requests)

  pub admit_ready-held : (e : ContinuousEngine G) → held id (admit_ready draw e).1 ≡ held id e
  unfolding admit_ready
  admit_ready-held e =
      let a : Admission G = record {
        engine = e;
        deferred = [];
        prefill_budget = 0;
        prefill_sequences = 0;
        admitted_any = false;
      } in
      let b = scan draw (length e.pending) a in
      omega (arith, scan-held (length e.pending) a, in_queue-push_all b.engine.pending b.deferred)
