-- ===== src/Engine/ContinuousEngine/PrefixNodes.antt =====
-- The tree of prefixes in a history of `ContinuousEngine` (continuous_engine.cpp): its node count
-- is right, as the fuel of the loops over it asks, and within its capacity.
use infer_sched_distributed.Base.{
  ℕ, zero, suc, ◌≡◌, refl, arith, Bool, true, false, List, [], ◌∷◌, some, length, get_elem?,
  if_elim, Option-cases, inl, inr, ltb, ◌==◌, ◌&&◌, ok, subst, sym, is_some,
}
use infer_sched_distributed.Engine.EngineConfig.{EngineConfig, build_result_cache_key}
use infer_sched_distributed.Engine.RequestQueue.{EngineRequest, next_arrival, pop_ready}
use infer_sched_distributed.Engine.ResultCache.{get as cached_result}
use infer_sched_distributed.Engine.RadixPrefixCache.{
  RadixPrefixCache, init as prefix_init, clear as prefix_clear,
}
use infer_sched_distributed.Engine.RadixPrefixCache.Capacity.{}
use infer_sched_distributed.Engine.RadixPrefixCache.Touched.{clear-IsCounted}
use infer_sched_distributed.Engine.ContinuousEngine.NodeCount.{
  IsSound, reserve_prompt-IsSound, find_match-IsSound, prepare_pass-IsSound,
  account_prefix-prefixes, remember_prefix-IsSound,
}
use infer_sched_distributed.Engine.ContinuousEngine.Iterations.{
  decode_all, forget_preempted, run_one_iteration, wake, run_until_idle, Call, submit_request,
  iterate, run_to_idle, drop_caches, call, calls,
}
use infer_sched_distributed.Engine.ContinuousEngine.State.{
  ContinuousEngine, ActiveRequest, init, submit, clear_caches, impossible_reason,
}
use infer_sched_distributed.Engine.ContinuousEngine.Admission.{
  Admission, Reservation, find_match, is_allocated, candidate_hashes,
}
use infer_sched_distributed.Engine.ContinuousEngine.Scan.{
  start, settle, admit, serve, consider, scan, admit_ready, reservation, prompt_blocks_of,
}
use infer_sched_distributed.Engine.ContinuousEngine.Decoding.{
  prepare_pass, preempt, prepare, select_victim, prepare_decode_blocks, finish, complete,
  complete_finished,
}

module _ {ℓ} {G : Type ℓ} (draw : G → ℕ → Bool × ℕ × G) (n : ℕ) where
  abbrev Sound : ContinuousEngine G → Type 0
  Sound e = IsSound n e.prefix_cache

  start-Sound :
      (a : Admission G) (r : EngineRequest) (blocks : ℕ) (res : Reservation)
      → IsSound n res.prefixes
      → Sound (start draw a r blocks res).engine
  unfolding start
  start-Sound a r blocks res s =
      let reserved : ContinuousEngine G = record a.engine {
        prefix_cache = res.prefixes;
        kv_cache = res.kv;
      } in
      remember_prefix-IsSound n _ r blocks (
        subst (IsSound n)
          (sym
            (account_prefix-prefixes n reserved r (candidate_hashes r blocks) (is_some res.found)))
          s)

  settle-Sound :
      (a : Admission G) (r : EngineRequest) (blocks : ℕ) (res : Reservation)
      → IsSound n res.prefixes
      → Sound (settle draw a r blocks res).engine
  unfolding settle
  settle-Sound a r blocks res s =
      if_elim (λ (b : Admission G). Sound b.engine) (is_allocated res.status)
        (λ h. start-Sound a r blocks res s) (λ h. s)

  admit-Sound :
      (a : Admission G) (r : EngineRequest) → Sound a.engine → Sound (admit draw a r).engine
  unfolding admit
  admit-Sound a r s =
      let blocks = prompt_blocks_of draw a r in
      let hashes = candidate_hashes r blocks in
      let (found, prefixes) = find_match a.engine.prefix_cache r hashes in
      settle-Sound a r blocks (reservation draw a r) (
        reserve_prompt-IsSound n (suc prefixes.node_count) r blocks hashes found prefixes
          a.engine.kv_cache (find_match-IsSound n a.engine.prefix_cache r hashes s))

  serve-Sound :
      (a : Admission G) (r : EngineRequest) → Sound a.engine → Sound (serve draw a r).engine
  unfolding serve
  serve-Sound a r s =
      elim (Option-cases (cached_result a.engine.result_cache (build_result_cache_key r)).0) [
        | inl e ↦ rw (e, serve) (admit-Sound _ r s)
        | inr (cached, e) ↦ rw (e, serve) s
      ]

  consider-Sound :
      (a : Admission G) (r : EngineRequest) → Sound a.engine → Sound (consider draw a r).1.engine
  unfolding consider
  consider-Sound a r s =
      elim (Option-cases (impossible_reason a.engine.config a.engine.kv_cache r)) [
        | inl e ↦ rw (e, consider) (ground (arith, s, serve-Sound a r s))
        | inr (reason, e) ↦ rw (e, consider) s
      ]

  scan-Sound : (limit : ℕ) (a : Admission G) → Sound a.engine → Sound (scan draw limit a).engine
  unfolding scan
  scan-Sound zero a s = s
  scan-Sound (suc limit) a s =
      let popped = pop_ready a.engine.pending a.engine.now in
      if_elim (λ (b : Admission G). Sound b.engine)
        (ltb (length a.engine.active) a.engine.config.max_batch_sequences)
        (λ h. elim (Option-cases popped.0) [
          | inl e ↦ rw e s
          | inr (r, e) ↦
              let b : Admission G = record a { engine = record a.engine { pending = popped.1 } } in
              let s' = consider-Sound b r s in
              rw e (
                if_elim (λ (x : Admission G). Sound x.engine) (consider draw b r).0
                  (λ k. scan-Sound limit (consider draw b r).1 s') (λ k. s'))
        ])
        (λ h. s)

  admit_ready-Sound : (e : ContinuousEngine G) → Sound e → Sound (admit_ready draw e).1
  unfolding admit_ready
  admit_ready-Sound e s =
      scan-Sound (length e.pending)
        (record {
          engine = e;
          deferred = [];
          prefill_budget = 0;
          prefill_sequences = 0;
          admitted_any = false;
        })
        s

  preempt-Sound : (e : ContinuousEngine G) (index : ℕ) → Sound e → Sound (preempt e index)
  unfolding preempt
  preempt-Sound e index s = elim (Option-cases (get_elem? e.active index)) [
    | inl h ↦ rw (h, preempt) s
    | inr (a, h) ↦ rw (h, preempt) s
  ]

  prepare-Sound : (fuel : ℕ) (e : ContinuousEngine G) → Sound e → Sound (prepare fuel e).1
  unfolding prepare
  prepare-Sound zero e s = s
  prepare-Sound (suc fuel) e s =
      let b = prepare_pass e.config.kv_block_size_tokens e.active e.prefix_cache e.kv_cache in
      let e' : ContinuousEngine G = record e { prefix_cache = b.prefixes; kv_cache = b.kv } in
      let s' =
        prepare_pass-IsSound n e.config.kv_block_size_tokens e.active e.prefix_cache e.kv_cache s in
      if_elim Sound b.enough (λ h. s')
        (λ h.
          prepare-Sound fuel (preempt e' (select_victim e.active))
            (preempt-Sound e' (select_victim e.active) s'))

  complete-prefixes :
      (active : List ActiveRequest) (e : ContinuousEngine G)
      → (complete active e).1.prefix_cache ≡ e.prefix_cache
  unfolding complete finish
  complete-prefixes [] e = refl
  complete-prefixes (a ∷ active) e =
      if_elim (λ (x : ContinuousEngine G). (complete active x).1.prefix_cache ≡ e.prefix_cache)
        (ltb a.generated_tokens a.request.max_output_tokens) (λ h. complete-prefixes active e)
        (λ h. complete-prefixes active (finish e a))

  complete_finished-Sound : (e : ContinuousEngine G) → Sound e → Sound (complete_finished e)
  unfolding complete_finished
  complete_finished-Sound e s = subst (IsSound n) (sym (complete-prefixes e.active e)) s

  run_one_iteration-Sound : (e : ContinuousEngine G) → Sound e → Sound (run_one_iteration draw e).1
  unfolding run_one_iteration prepare_decode_blocks decode_all
  run_one_iteration-Sound e s =
      let admitted = (admit_ready draw (forget_preempted draw e)).1 in
      let completed = complete_finished admitted in
      let prepared = (prepare (suc (length completed.active)) completed).1 in
      let done = complete_finished-Sound admitted (admit_ready-Sound (forget_preempted draw e) s) in
      let ready = prepare-Sound (suc (length completed.active)) completed done in
      if_elim (λ (x : Bool × ContinuousEngine G). Sound x.1) (length completed.active == 0)
        (λ h. done)
        (λ h.
          if_elim (λ (x : Bool × ContinuousEngine G). Sound x.1) (ltb 0 (length prepared.active))
            (λ k. complete_finished-Sound (decode_all draw prepared) ready) (λ k. ready))

  wake-prefixes :
      (progressed : Bool) (e : ContinuousEngine G) (x : ContinuousEngine G)
      → wake draw progressed e ≡ some x
      → x.prefix_cache ≡ e.prefix_cache
  wake-prefixes true e x h = ground (arith, h)
  wake-prefixes false e x h = elim (Option-cases (next_arrival e.pending)) [
    | inl k ↦ absurd (ground (arith, h, k))
    | inr (t, k) ↦ ground (arith, h, k)
  ]

  run_until_idle-Sound :
      (fuel : ℕ) (e : ContinuousEngine G) → Sound e → Sound (run_until_idle draw fuel e)
  unfolding run_until_idle
  run_until_idle-Sound zero e s = s
  run_until_idle-Sound (suc fuel) e s =
      let (progressed, e') = run_one_iteration draw e in
      let s' = run_one_iteration-Sound e s in
      if_elim Sound (length e.pending == 0 && length e.active == 0) (λ h. s)
        (λ h. elim (Option-cases (wake draw progressed e')) [
          | inl k ↦ rw k s'
          | inr (awake, k) ↦ rw k (
              run_until_idle-Sound fuel awake
                (subst (IsSound n) (sym (wake-prefixes progressed e' awake k)) s'))
        ])

  call-Sound : (e : ContinuousEngine G) (x : Call) → Sound e → Sound (call draw e x)
  unfolding call submit clear_caches
  call-Sound e (submit_request r) s = s
  call-Sound e iterate s = run_one_iteration-Sound e s
  call-Sound e (run_to_idle fuel) s = run_until_idle-Sound fuel e s
  call-Sound e drop_caches s = record {
    counted = clear-IsCounted e.prefix_cache e.kv_cache;
    fits = unfold prefix_clear in omega arith;
    same_capacity = unfold prefix_clear in s.same_capacity;
  }

  calls_from-Sound : (e : ContinuousEngine G) (xs : List Call) → Sound e → Sound (calls draw e xs)
  unfolding calls
  calls_from-Sound e [] s = s
  calls_from-Sound e (x ∷ xs) s = calls_from-Sound (call draw e x) xs (call-Sound e x s)

abbrev no_nodes : ℕ → RadixPrefixCache
no_nodes capacity = record {
  capacity = capacity;
  roots = [];
  node_count = 0;
  access_clock = 0;
  next_pin_id = 0;
}

init-prefixes {ℓ} :
    {G : Type ℓ} (draw : G → ℕ → Bool × ℕ × G) (config : EngineConfig) (seeded : G)
    (e : ContinuousEngine G)
    → init draw config seeded ≡ ok e
    → e.prefix_cache ≡ no_nodes config.prefix_cache_entries
unfolding init prefix_init
init-prefixes draw config seeded e h = ground (arith, h)

-- After any calls of a new engine the tree of prefixes has exactly as many nodes as its counter
-- says, with distinct keys in each map, and no more than `prefix_cache_entries`, its capacity.
pub calls-IsSound {ℓ} :
    {G : Type ℓ} (draw : G → ℕ → Bool × ℕ × G) (config : EngineConfig) (seeded : G)
    (e : ContinuousEngine G) (xs : List Call)
    → init draw config seeded ≡ ok e
    → IsSound config.prefix_cache_entries (calls draw e xs).prefix_cache
calls-IsSound draw config seeded e xs h = calls_from-Sound draw config.prefix_cache_entries e xs (
    subst (IsSound config.prefix_cache_entries) (sym (init-prefixes draw config seeded e h))
      (record {
        counted = record { counted = refl; distinct = tt; unique = tt };
        fits = omega arith;
        same_capacity = refl;
      }))
