-- ===== src/Engine/ContinuousEngine/NodeCount.antt =====
-- What the loops of continuous_engine.cpp do to the tree of prefixes: its node count stays right,
-- as their fuel asks, and within its capacity.
use infer_sched_distributed.Base.{
  ℕ, zero, suc, ◌≤◌, ◌≡◌, refl, arith, Bool, List, [], ◌∷◌, Option, String, length, if_elim, ◌∙◌,
  leb, ◌-◌, take, min,
}
use infer_sched_distributed.Engine.KvCache.{PagedKvCache, allocate, append_blocks, blocks_for}
use infer_sched_distributed.Engine.RequestQueue.{EngineRequest}
use infer_sched_distributed.Engine.RadixPrefixCache.{RadixPrefixCache, Match, evict_oldest}
use infer_sched_distributed.Engine.RadixPrefixCache.Counted.{IsCounted}
use infer_sched_distributed.Engine.RadixPrefixCache.Evicted.{evict_oldest-EvictsOne}
use infer_sched_distributed.Engine.RadixPrefixCache.Capacity.{
  put_block_prefixes-IsCounted, put_block_prefixes-capacity,
}
use infer_sched_distributed.Engine.ContinuousEngine.State.{
  ContinuousEngine, ActiveRequest, prefix_namespace,
}
use infer_sched_distributed.Engine.ContinuousEngine.Admission.{
  Reservation, find_match, reserve_prompt, shared_blocks, is_insufficient, account_prefix,
  remember_prefix, candidate_hashes, no_match,
}
use infer_sched_distributed.Engine.ContinuousEngine.Fuel.{find_match-StaysCounted}
use infer_sched_distributed.Engine.ContinuousEngine.Decoding.{
  Blocks, append_evicting, prepare_one, prepare_pass, blocks_needed,
}

-- The capacity of `PutBlockPrefixes` stays what it was.
pub record IsSound (capacity : ℕ) (c : RadixPrefixCache) : Type 0 where
  pub counted : IsCounted c
  pub fits : c.node_count ≤ capacity
  pub same_capacity : c.capacity ≡ capacity

module _ (n : ℕ) where
  evict_oldest-IsSound :
      (c : RadixPrefixCache) (kv : PagedKvCache) → IsSound n c → IsSound n (evict_oldest c kv).1
  evict_oldest-IsSound c kv s =
      let e = evict_oldest-EvictsOne c kv s.counted in
      record {
        counted = e.counted;
        fits = omega (arith, e.one_less, s.fits);
        same_capacity = e.capacity ∙ s.same_capacity;
      }

  pub find_match-IsSound :
      (c : RadixPrefixCache) (r : EngineRequest) (hashes : List String)
      → IsSound n c
      → IsSound n (find_match c r hashes).1
  find_match-IsSound c r hashes s =
      let k = find_match-StaysCounted c r hashes s.counted in
      record {
        counted = k.counted;
        fits = omega (arith, k.same_count, s.fits);
        same_capacity = k.same_capacity ∙ s.same_capacity;
      }

  pub reserve_prompt-IsSound :
      (fuel : ℕ) (r : EngineRequest) (blocks : ℕ) (hashes : List String) (found : Option Match)
      (c : RadixPrefixCache) (kv : PagedKvCache)
      → IsSound n c
      → IsSound n (reserve_prompt fuel r blocks hashes found c kv).prefixes
  unfolding reserve_prompt
  reserve_prompt-IsSound zero r blocks hashes found c kv s = s
  reserve_prompt-IsSound (suc fuel) r blocks hashes found c kv s =
      let (status, kv') = allocate kv r.request_id blocks (shared_blocks found) in
      let (evicted, c', kv'') = evict_oldest c kv' in
      let (found', c'') = find_match c' r hashes in
      let s' = evict_oldest-IsSound c kv' s in
      if_elim (λ (x : Reservation). IsSound n x.prefixes) (is_insufficient status)
        (λ h.
          if_elim (λ (x : Reservation). IsSound n x.prefixes) evicted
            (λ k.
              reserve_prompt-IsSound fuel r blocks hashes found' c'' kv''
                (find_match-IsSound c' r hashes s'))
            (λ k. s'))
        (λ h. s)

  append_evicting-IsSound :
      (fuel : ℕ) (a : ActiveRequest) (missing : ℕ) (c : RadixPrefixCache) (kv : PagedKvCache)
      → IsSound n c
      → IsSound n (append_evicting fuel a missing c kv).prefixes
  unfolding append_evicting
  append_evicting-IsSound zero a missing c kv s = s
  append_evicting-IsSound (suc fuel) a missing c kv s =
      let (status, kv') = append_blocks kv a.request.request_id missing in
      let (evicted, c', kv'') = evict_oldest c kv' in
      let s' = evict_oldest-IsSound c kv' s in
      if_elim (λ (x : Blocks). IsSound n x.prefixes) (is_insufficient status)
        (λ h.
          if_elim (λ (x : Blocks). IsSound n x.prefixes) evicted
            (λ k. append_evicting-IsSound fuel a missing c' kv'' s') (λ k. s'))
        (λ h. s)

  prepare_one-IsSound :
      (size : ℕ) (a : ActiveRequest) (c : RadixPrefixCache) (kv : PagedKvCache)
      → IsSound n c
      → IsSound n (prepare_one size a c kv).prefixes
  unfolding prepare_one
  prepare_one-IsSound size a c kv s =
      let current = length (blocks_for kv a.request.request_id) in
      if_elim (λ (x : Blocks). IsSound n x.prefixes) (leb (blocks_needed size a) current) (λ h. s)
        (λ h. append_evicting-IsSound (suc c.node_count) a (blocks_needed size a - current) c kv s)

  pub prepare_pass-IsSound :
      (size : ℕ) (active : List ActiveRequest) (c : RadixPrefixCache) (kv : PagedKvCache)
      → IsSound n c
      → IsSound n (prepare_pass size active c kv).prefixes
  unfolding prepare_pass
  prepare_pass-IsSound size [] c kv s = s
  prepare_pass-IsSound size (a ∷ active) c kv s =
      let b = prepare_one size a c kv in
      let s' = prepare_one-IsSound size a c kv s in
      if_elim (λ (x : Blocks). IsSound n x.prefixes) b.enough
        (λ h. prepare_pass-IsSound size active b.prefixes b.kv s') (λ h. s')

module _ {ℓ} {G : Type ℓ} (n : ℕ) where
  pub account_prefix-prefixes :
      (e : ContinuousEngine G) (r : EngineRequest) (hashes : List String) (hit : Bool)
      → (account_prefix e r hashes hit).prefix_cache ≡ e.prefix_cache
  unfolding account_prefix
  account_prefix-prefixes e r hashes hit =
      if_elim (λ (x : ContinuousEngine G). x.prefix_cache ≡ e.prefix_cache) _ (λ h. refl)
        (λ h. refl)

  pub remember_prefix-IsSound :
      (e : ContinuousEngine G) (r : EngineRequest) (blocks : ℕ)
      → IsSound n e.prefix_cache
      → IsSound n (remember_prefix e r blocks).prefix_cache
  unfolding remember_prefix
  remember_prefix-IsSound e r blocks s =
      let own = blocks_for e.kv_cache r.request_id in
      let p =
        put_block_prefixes-IsCounted e.prefix_cache e.kv_cache (prefix_namespace r)
          (candidate_hashes r blocks) (take (min (length own) blocks) own) s.counted in
      if_elim (λ (x : ContinuousEngine G). IsSound n x.prefix_cache)
        (no_match r.prompt_block_hashes) (λ h. s)
        (λ h. record {
          counted = p.0;
          fits = omega (arith, p.1, s.same_capacity);
          same_capacity =
              put_block_prefixes-capacity e.prefix_cache e.kv_cache (prefix_namespace r)
                (candidate_hashes r blocks) (take (min (length own) blocks) own) s.counted
              ∙ s.same_capacity;
        })
