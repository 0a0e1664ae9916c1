-- ===== src/Engine/ContinuousEngine/BatchSize.antt =====
-- How many sequences are active in a history of `ContinuousEngine` (continuous_engine.cpp).
use infer_sched_distributed.Base.{
  ℕ, zero, suc, ◌≤◌, ◌<◌, ◌≡◌, refl, ap, arith, Bool, true, false, List, [], ◌∷◌, some, length, map,
  get_elem?, if_elim, Option-cases, inl, inr, ltb, ◌==◌, ◌&&◌, ok, u64_mod, ◌∙◌,
}
use infer_sched_distributed.Engine.EngineConfig.{EngineConfig}
use infer_sched_distributed.Engine.RequestQueue.{next_arrival}
use infer_sched_distributed.Engine.ContinuousEngine.State.{
  ContinuousEngine, ActiveRequest, submit, init, clear_caches,
}
use infer_sched_distributed.Engine.ContinuousEngine.Scan.{admit_ready}
use infer_sched_distributed.Engine.ContinuousEngine.Decoding.{
  prepare_pass, select_victim, remove_at, preempt, prepare, prepare_decode_blocks, finish, complete,
  complete_finished,
}
use infer_sched_distributed.Engine.ContinuousEngine.Iterations.{
  generate, decode_all, forget_preempted, run_one_iteration, wake, run_until_idle, Call,
  submit_request, iterate, run_to_idle, drop_caches, call, calls,
}
use infer_sched_distributed.Engine.ContinuousEngine.Limits.{admit_ready-AdmitsWithin}

-- Within the limit of a configuration `c`, which the engine has.
pub record IsWithin {ℓ} {G : Type ℓ} (c : EngineConfig) (e : ContinuousEngine G) : Type ℓ where
  pub config : e.config ≡ c
  pub batch : length e.active ≤ c.max_batch_sequences

length-remove_at :
    (active : List ActiveRequest) (index : ℕ) → length (remove_at active index) ≤ length active
length-remove_at [] index = omega arith
length-remove_at (a ∷ active) zero = omega arith
length-remove_at (a ∷ active) (suc index) = omega (arith, length-remove_at active index)

length-map :
    (now : ℕ) (active : List ActiveRequest) → length (map (generate now) active) ≡ length active
length-map now [] = refl
length-map now (a ∷ active) = ap suc (length-map now active)

module _ {ℓ} {G : Type ℓ} (c : EngineConfig) where
  preempt-IsWithin :
      (e : ContinuousEngine G) (index : ℕ) → IsWithin c e → IsWithin c (preempt e index)
  unfolding preempt
  preempt-IsWithin e index w = elim (Option-cases (get_elem? e.active index)) [
    | inl h ↦ rw (h, preempt) w
    | inr (a, h) ↦
        rw (h, preempt)
          (record {
            config = w.config;
            batch = omega (arith, w.batch, length-remove_at e.active index);
          })
  ]

  prepare-IsWithin :
      (fuel : ℕ) (e : ContinuousEngine G) → IsWithin c e → IsWithin c (prepare fuel e).1
  unfolding prepare
  prepare-IsWithin zero e w = w
  prepare-IsWithin (suc fuel) e w =
      let b = prepare_pass e.config.kv_block_size_tokens e.active e.prefix_cache e.kv_cache in
      let e' : ContinuousEngine G = record e { prefix_cache = b.prefixes; kv_cache = b.kv } in
      let w' : IsWithin c e' = record { config = w.config; batch = w.batch } in
      if_elim (IsWithin c) b.enough (λ h. w')
        (λ h.
          prepare-IsWithin fuel (preempt e' (select_victim e.active))
            (preempt-IsWithin e' (select_victim e.active) w'))

  length-complete :
      (active : List ActiveRequest) (e : ContinuousEngine G)
      → length (complete active e).0 ≤ length active
  unfolding complete
  length-complete [] e = omega arith
  length-complete (a ∷ active) e =
      ground (arith, length-complete active e, length-complete active (finish e a))

  complete-config :
      (active : List ActiveRequest) (e : ContinuousEngine G)
      → (complete active e).1.config ≡ e.config
  unfolding complete finish
  complete-config [] e = refl
  complete-config (a ∷ active) e =
      if_elim (λ (x : ContinuousEngine G). (complete active x).1.config ≡ e.config)
        (ltb a.generated_tokens a.request.max_output_tokens) (λ h. complete-config active e)
        (λ h. complete-config active (finish e a))

  complete_finished-IsWithin :
      (e : ContinuousEngine G) → IsWithin c e → IsWithin c (complete_finished e)
  unfolding complete_finished
  complete_finished-IsWithin e w = record {
    config = complete-config e.active e ∙ w.config;
    batch = omega (arith, w.batch, length-complete e.active e);
  }

module _ {ℓ} {G : Type ℓ} (draw : G → ℕ → Bool × ℕ × G) (c : EngineConfig)
    (wide : c.max_batch_tokens < u64_mod) where
  admit_ready-IsWithin : (e : ContinuousEngine G) → IsWithin c e → IsWithin c (admit_ready draw e).1
  admit_ready-IsWithin e w =
      let seqs = ap (λ (x : EngineConfig). x.max_batch_sequences) w.config in
      let toks = ap (λ (x : EngineConfig). x.max_batch_tokens) w.config in
      let f =
        admit_ready-AdmitsWithin draw e (omega (arith, w.batch, seqs))
          (omega (arith, wide, toks)) in
      record { config = f.config ∙ w.config; batch = omega (arith, f.batch_fits, seqs) }

  decode_all-IsWithin : (e : ContinuousEngine G) → IsWithin c e → IsWithin c (decode_all draw e)
  unfolding decode_all
  decode_all-IsWithin e w = record {
    config = w.config;
    batch = omega (arith, w.batch, length-map (decode_all draw e).now e.active);
  }

  run_one_iteration-IsWithin :
      (e : ContinuousEngine G) → IsWithin c e → IsWithin c (run_one_iteration draw e).1
  unfolding run_one_iteration prepare_decode_blocks
  run_one_iteration-IsWithin e w =
      let admitted = (admit_ready draw (forget_preempted draw e)).1 in
      let completed = complete_finished admitted in
      let prepared = (prepare (suc (length completed.active)) completed).1 in
      let done = complete_finished-IsWithin c admitted (
        admit_ready-IsWithin (forget_preempted draw e)
          (record { config = w.config; batch = w.batch })) in
      let ready = prepare-IsWithin c (suc (length completed.active)) completed done in
      if_elim (λ (x : Bool × ContinuousEngine G). IsWithin c x.1) (length completed.active == 0)
        (λ h. done)
        (λ h.
          if_elim (λ (x : Bool × ContinuousEngine G). IsWithin c x.1)
            (ltb 0 (length prepared.active))
            (λ k.
              complete_finished-IsWithin c (decode_all draw prepared)
                (decode_all-IsWithin prepared ready))
            (λ k. ready))

  wake-IsWithin :
      (progressed : Bool) (e : ContinuousEngine G) (x : ContinuousEngine G)
      → wake draw progressed e ≡ some x
      → IsWithin c e
      → IsWithin c x
  wake-IsWithin true e x h w = ground (arith, h, w)
  wake-IsWithin false e x h w = elim (Option-cases (next_arrival e.pending)) [
    | inl k ↦ absurd (ground (arith, h, k))
    | inr (t, k) ↦ ground (arith, h, k, w)
  ]

  run_until_idle-IsWithin :
      (fuel : ℕ) (e : ContinuousEngine G) → IsWithin c e → IsWithin c (run_until_idle draw fuel e)
  unfolding run_until_idle
  run_until_idle-IsWithin zero e w = w
  run_until_idle-IsWithin (suc fuel) e w =
      let (progressed, e') = run_one_iteration draw e in
      let w' = run_one_iteration-IsWithin e w in
      if_elim (IsWithin c) (length e.pending == 0 && length e.active == 0) (λ h. w)
        (λ h. elim (Option-cases (wake draw progressed e')) [
          | inl k ↦ rw k w'
          | inr (awake, k) ↦
              rw k (run_until_idle-IsWithin fuel awake (wake-IsWithin progressed e' awake k w'))
        ])

  call-IsWithin : (e : ContinuousEngine G) (x : Call) → IsWithin c e → IsWithin c (call draw e x)
  unfolding call submit clear_caches
  call-IsWithin e (submit_request r) w = record { config = w.config; batch = w.batch }
  call-IsWithin e iterate w = run_one_iteration-IsWithin e w
  call-IsWithin e (run_to_idle fuel) w = run_until_idle-IsWithin fuel e w
  call-IsWithin e drop_caches w = record { config = w.config; batch = w.batch }

  calls_from-IsWithin :
      (e : ContinuousEngine G) (xs : List Call) → IsWithin c e → IsWithin c (calls draw e xs)
  unfolding calls
  calls_from-IsWithin e [] w = w
  calls_from-IsWithin e (x ∷ xs) w = calls_from-IsWithin (call draw e x) xs (call-IsWithin e x w)

  -- After any calls of a new engine, its configuration is the one that it was built with, and at
  -- most `max_batch_sequences` sequences are active; `max_batch_tokens` fits `std::size_t`.
  pub calls-IsWithin :
      (seeded : G) (e : ContinuousEngine G) (xs : List Call)
      → init draw c seeded ≡ ok e
      → IsWithin c (calls draw e xs)
  calls-IsWithin seeded e xs h = calls_from-IsWithin e xs (unfold init in ground (arith, h))
