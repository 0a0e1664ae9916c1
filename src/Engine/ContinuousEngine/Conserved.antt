-- ===== src/Engine/ContinuousEngine/Conserved.antt =====
-- No request of `ContinuousEngine` (continuous_engine.cpp) is lost or answered twice: the decode
-- half of an iteration, whole iterations and histories.
use infer_sched_distributed.Base.{
  ℕ, zero, suc, ◌+◌, ◌≡◌, refl, arith, Bool, true, false, List, [], ◌∷◌, some, String, length,
  get_elem?, map, if_elim, Option-cases, inl, inr, ltb, ◌==◌, ◌&&◌, ok, ap, ◌∙◌,
}
use infer_sched_distributed.Engine.EngineConfig.{EngineConfig, EngineResult}
use infer_sched_distributed.Engine.RequestQueue.{next_arrival}
use infer_sched_distributed.Engine.ContinuousEngine.State.{
  ContinuousEngine, ActiveRequest, submit, init, clear_caches,
}
use infer_sched_distributed.Engine.ContinuousEngine.Scan.{admit_ready}
use infer_sched_distributed.Engine.ContinuousEngine.Decoding.{
  prepare_pass, select_victim, remove_at, preempt, prepare, prepare_decode_blocks, finish, complete,
  complete_finished, completed_result,
}
use infer_sched_distributed.Engine.ContinuousEngine.Iterations.{
  generate, decode_all, forget_preempted, run_one_iteration, wake, run_until_idle, Call,
  submit_request, iterate, run_to_idle, drop_caches, call, calls,
}
use infer_sched_distributed.Engine.ContinuousEngine.Requests.{
  tally-append, in_queue, in_active, in_results, same_id, held, admit_ready-held,
}

module _ (id : String) where
  in_active-remove_at :
      (active : List ActiveRequest) (index : ℕ) (a : ActiveRequest)
      → get_elem? active index ≡ some a
      → in_active id active ≡ same_id id a.request + in_active id (remove_at active index)
  in_active-remove_at [] index a h = absurd (ground (arith, h))
  in_active-remove_at (b ∷ active) zero a h = ground (arith, h)
  in_active-remove_at (b ∷ active) (suc index) a h =
      omega (arith, in_active-remove_at active index a h)

  in_active-map :
      (now : ℕ) (active : List ActiveRequest)
      → in_active id (map (generate now) active) ≡ in_active id active
  in_active-map now [] = refl
  in_active-map now (a ∷ active) = omega (arith, in_active-map now active)

module _ {ℓ} {G : Type ℓ} (id : String) where
  preempt-held : (e : ContinuousEngine G) (index : ℕ) → held id (preempt e index) ≡ held id e
  unfolding preempt
  preempt-held e index = elim (Option-cases (get_elem? e.active index)) [
    | inl h ↦ rw (h, preempt) refl
    | inr (a, h) ↦ rw (h, preempt) (omega (arith, in_active-remove_at id e.active index a h))
  ]

  prepare-held : (fuel : ℕ) (e : ContinuousEngine G) → held id (prepare fuel e).1 ≡ held id e
  unfolding prepare
  prepare-held zero e = refl
  prepare-held (suc fuel) e =
      let b = prepare_pass e.config.kv_block_size_tokens e.active e.prefix_cache e.kv_cache in
      let e' : ContinuousEngine G = record e { prefix_cache = b.prefixes; kv_cache = b.kv } in
      if_elim (λ (x : ContinuousEngine G). held id x ≡ held id e) b.enough (λ h. refl)
        (λ h.
          prepare-held fuel (preempt e' (select_victim e.active))
          ∙ preempt-held e' (select_victim e.active))

  complete-held :
      (active : List ActiveRequest) (e : ContinuousEngine G)
      → in_active id (complete active e).0 + in_results id (complete active e).1.results
        ≡ in_active id active + in_results id e.results
  unfolding complete finish
  complete-held [] e = refl
  complete-held (a ∷ active) e = ground (
    arith,
    complete-held active e,
    complete-held active (finish e a),
    tally-append (λ (r : EngineResult). r.request_id) id e.results (completed_result a e.now ∷ []),
  )

  complete-pending :
      (active : List ActiveRequest) (e : ContinuousEngine G)
      → (complete active e).1.pending ≡ e.pending
  unfolding complete finish
  complete-pending [] e = refl
  complete-pending (a ∷ active) e =
      ground (arith, complete-pending active e, complete-pending active (finish e a))

  complete_finished-held : (e : ContinuousEngine G) → held id (complete_finished e) ≡ held id e
  unfolding complete_finished
  complete_finished-held e =
      omega (arith, complete-held e.active e, ap (in_queue id) (complete-pending e.active e))

-- The requests of an id that a history submits.
abbrev submitted_by : String → Call → ℕ
submitted_by id (submit_request r) = same_id id r
submitted_by id iterate = 0
submitted_by id (run_to_idle fuel) = 0
submitted_by id drop_caches = 0

abbrev pub submitted : String → List Call → ℕ
submitted id [] = 0
submitted id (c ∷ cs) = submitted_by id c + submitted id cs

module _ {ℓ} {G : Type ℓ} (draw : G → ℕ → Bool × ℕ × G) (id : String) where
  decode_all-held : (e : ContinuousEngine G) → held id (decode_all draw e) ≡ held id e
  unfolding decode_all
  decode_all-held e = omega (arith, in_active-map id (decode_all draw e).now e.active)

  run_one_iteration-held :
      (e : ContinuousEngine G) → held id (run_one_iteration draw e).1 ≡ held id e
  unfolding run_one_iteration prepare_decode_blocks
  run_one_iteration-held e =
      let admitted = (admit_ready draw (forget_preempted draw e)).1 in
      let completed = complete_finished admitted in
      let prepared = (prepare (suc (length completed.active)) completed).1 in
      let same : held id completed ≡ held id e =
        complete_finished-held id admitted ∙ admit_ready-held draw id (forget_preempted draw e) in
      if_elim (λ (x : Bool × ContinuousEngine G). held id x.1 ≡ held id e)
        (length completed.active == 0) (λ h. same)
        (λ h.
          if_elim (λ (x : Bool × ContinuousEngine G). held id x.1 ≡ held id e)
            (ltb 0 (length prepared.active))
            (λ k.
              complete_finished-held id (decode_all draw prepared)
              ∙ decode_all-held prepared
              ∙ prepare-held id (suc (length completed.active)) completed
              ∙ same)
            (λ k. prepare-held id (suc (length completed.active)) completed ∙ same))

  wake-held :
      (progressed : Bool) (e : ContinuousEngine G) (x : ContinuousEngine G)
      → wake draw progressed e ≡ some x
      → held id x ≡ held id e
  wake-held true e x h = ground (arith, h)
  wake-held false e x h = elim (Option-cases (next_arrival e.pending)) [
    | inl k ↦ absurd (ground (arith, h, k))
    | inr (t, k) ↦ ground (arith, h, k)
  ]

  run_until_idle-held :
      (fuel : ℕ) (e : ContinuousEngine G) → held id (run_until_idle draw fuel e) ≡ held id e
  unfolding run_until_idle
  run_until_idle-held zero e = refl
  run_until_idle-held (suc fuel) e =
      let (progressed, e') = run_one_iteration draw e in
      if_elim (λ (x : ContinuousEngine G). held id x ≡ held id e)
        (length e.pending == 0 && length e.active == 0) (λ h. refl)
        (λ h. elim (Option-cases (wake draw progressed e')) [
          | inl k ↦ rw k (run_one_iteration-held e)
          | inr (awake, k) ↦ rw k (
              run_until_idle-held fuel awake
              ∙ wake-held progressed e' awake k
              ∙ run_one_iteration-held e)
        ])

  call-held :
      (e : ContinuousEngine G) (c : Call) → held id (call draw e c) ≡ submitted_by id c + held id e
  unfolding call submit clear_caches
  call-held e (submit_request r) = omega arith
  call-held e iterate = omega (arith, run_one_iteration-held e)
  call-held e (run_to_idle fuel) = omega (arith, run_until_idle-held fuel e)
  call-held e drop_caches = omega arith

  calls-held :
      (e : ContinuousEngine G) (cs : List Call)
      → held id (calls draw e cs) ≡ submitted id cs + held id e
  unfolding calls
  calls-held e [] = omega arith
  calls-held e (c ∷ cs) = omega (arith, calls-held (call draw e c) cs, call-held e c)

  init-empty :
      (config : EngineConfig) (seeded : G) (e : ContinuousEngine G)
      → init draw config seeded ≡ ok e
      → held id e ≡ 0
  unfolding init
  init-empty config seeded e h = ground (arith, h)

  -- After any calls of a new engine, each request id that was submitted some number of times
  -- stands exactly that number of times among the waiting requests, the active sequences and the
  -- results: no request is lost, and none is answered twice.
  pub calls-submitted :
      (config : EngineConfig) (seeded : G) (e : ContinuousEngine G) (cs : List Call)
      → init draw config seeded ≡ ok e
      → held id (calls draw e cs) ≡ submitted id cs
  calls-submitted config seeded e cs h =
      omega (arith, calls-held e cs, init-empty config seeded e h)
