-- ===== src/Engine/ContinuousEngine/Fuel.antt =====
-- The loops of continuous_engine.cpp on fuel end by themselves: their fuel is enough.
use infer_sched_distributed.Base.{
  ℕ, zero, suc, ◌-◌, ◌<◌, ◌≡◌, refl, sym, ap, subst, arith, Bool, true, List, [], ◌∷◌, Option,
  String, if_elim, Bool-cases, Option-cases, inl, inr, length, leb, get_elem?,
}
use infer_sched_distributed.Engine.KvCache.{PagedKvCache, allocate, append_blocks, blocks_for}
use infer_sched_distributed.Engine.RequestQueue.{EngineRequest}
use infer_sched_distributed.Engine.RadixPrefixCache.{RadixPrefixCache, Match, evict_oldest}
use infer_sched_distributed.Engine.RadixPrefixCache.Counted.{IsCounted}
use infer_sched_distributed.Engine.RadixPrefixCache.Evicted.{evict_oldest-EvictsOne}
use infer_sched_distributed.Engine.RadixPrefixCache.Touched.{StaysCounted, get_longest-StaysCounted}
use infer_sched_distributed.Engine.ContinuousEngine.State.{
  ActiveRequest, ContinuousEngine, prefix_namespace,
}
use infer_sched_distributed.Engine.ContinuousEngine.Admission.{
  Reservation, find_match, reserve_prompt, shared_blocks, no_match, is_insufficient,
}
use infer_sched_distributed.Engine.ContinuousEngine.Decoding.{
  Blocks, append_evicting, blocks_needed, prepare_one, prepare_pass, preempt, prepare,
  prepare_decode_blocks, select_victim,
}
use infer_sched_distributed.Engine.ContinuousEngine.Preparation.{
  enough_passes, passed, pass, preempted, length-preempted,
}

pub find_match-StaysCounted :
    (c : RadixPrefixCache) (r : EngineRequest) (hashes : List String)
    → IsCounted c
    → StaysCounted c (find_match c r hashes).1
unfolding find_match
find_match-StaysCounted c r hashes v =
    if_elim (λ (x : Option Match × RadixPrefixCache). StaysCounted c x.1) (no_match hashes)
      (λ h. record { counted = v; same_count = refl; same_capacity = refl })
      (λ h. get_longest-StaysCounted c (prefix_namespace r) hashes v)

-- What is left when no loop has run out of fuel, of a tree whose node count is right.
record Ends (b : Blocks) : Type 0 where
  ended : b.ended ≡ true
  counted : IsCounted b.prefixes

append_evicting-Ends :
    (n : ℕ) (a : ActiveRequest) (missing : ℕ) (c : RadixPrefixCache) (kv : PagedKvCache)
    → IsCounted c
    → c.node_count < n
    → Ends (append_evicting n a missing c kv)
unfolding append_evicting
append_evicting-Ends zero a missing c kv v h = absurd (omega (arith, h))
append_evicting-Ends (suc n) a missing c kv v h =
    let (status, kv') = append_blocks kv a.request.request_id missing in
    let e = evict_oldest-EvictsOne c kv' v in
    let (evicted, c', kv'') = evict_oldest c kv' in
    if_elim Ends (is_insufficient status)
      (λ more.
        if_elim Ends evicted
          (λ k.
            append_evicting-Ends n a missing c' kv'' e.counted (ground (arith, h, k, e.one_less)))
          (λ k. record { ended = refl; counted = e.counted }))
      (λ enough. record { ended = refl; counted = v })

prepare_one-Ends :
    (size : ℕ) (a : ActiveRequest) (c : RadixPrefixCache) (kv : PagedKvCache)
    → IsCounted c
    → Ends (prepare_one size a c kv)
unfolding prepare_one
prepare_one-Ends size a c kv v =
    let current = length (blocks_for kv a.request.request_id) in
    if_elim Ends (leb (blocks_needed size a) current) (λ h. record { ended = refl; counted = v })
      (λ h.
        append_evicting-Ends (suc c.node_count) a (blocks_needed size a - current) c kv v
          (omega arith))

prepare_pass-Ends :
    (size : ℕ) (active : List ActiveRequest) (c : RadixPrefixCache) (kv : PagedKvCache)
    → IsCounted c
    → Ends (prepare_pass size active c kv)
unfolding prepare_pass
prepare_pass-Ends size [] c kv v = record { ended = refl; counted = v }
prepare_pass-Ends size (a ∷ active) c kv v =
    let b = prepare_one size a c kv in
    let one = prepare_one-Ends size a c kv v in
    if_elim Ends b.enough (λ h. prepare_pass-Ends size active b.prefixes b.kv one.counted)
      (λ h. one)

module _ {ℓ} {G : Type ℓ} where
  preempt-prefixes :
      (e : ContinuousEngine G) (index : ℕ) → (preempt e index).prefix_cache ≡ e.prefix_cache
  unfolding preempt
  preempt-prefixes e index = elim (Option-cases (get_elem? e.active index)) [
    | inl k ↦ rw (k, preempt) refl
    | inr (a, k) ↦ rw (k, preempt) refl
  ]

  prepare_ended :
      (fuel : ℕ) (e : ContinuousEngine G)
      → IsCounted e.prefix_cache
      → length e.active < fuel
      → (prepare fuel e).0 ≡ true
  unfolding prepare
  prepare_ended zero e v h = absurd (omega (arith, h))
  prepare_ended (suc fuel) e v h =
      let one =
        prepare_pass-Ends e.config.kv_block_size_tokens e.active e.prefix_cache e.kv_cache v in
      elim (Bool-cases (pass e).enough) [
        | inl g ↦ ground (arith, one.ended, g)
        | inr g ↦
            let counted : IsCounted (preempted e).prefix_cache =
              subst IsCounted (sym (preempt-prefixes (passed e (pass e)) (select_victim e.active)))
                one.counted in
            let rest =
              prepare_ended fuel (preempted e) counted (omega (arith, h, length-preempted e g)) in
            ground (arith, one.ended, g, rest)
      ]

  -- `PrepareDecodeBlocks` ends, of a tree whose node count is right: none of its loops, those that
  -- evict cached prefixes included, runs out of fuel, and the outer one starts at the index 0 at
  -- most once more than there are active sequences, so that any larger number of turns gives the
  -- same engine.
  pub prepare_decode_blocks_ends :
      (fuel : ℕ) (e : ContinuousEngine G)
      → IsCounted e.prefix_cache
      → length e.active < fuel
      → ((prepare fuel e).0 ≡ true) × ((prepare fuel e).1 ≡ (prepare_decode_blocks e).1)
  unfolding prepare_decode_blocks
  prepare_decode_blocks_ends fuel e v h = (
    prepare_ended fuel e v h,
    ap (λ (x : Bool × ContinuousEngine G). x.1)
        (enough_passes fuel (suc (length e.active)) e h (omega arith)),
  )

reserve_prompt_ended :
    (n : ℕ) (r : EngineRequest) (blocks : ℕ) (hashes : List String) (found : Option Match)
    (c : RadixPrefixCache) (kv : PagedKvCache)
    → IsCounted c
    → c.node_count < n
    → (reserve_prompt n r blocks hashes found c kv).ended ≡ true
unfolding reserve_prompt
reserve_prompt_ended zero r blocks hashes found c kv v h = absurd (omega (arith, h))
reserve_prompt_ended (suc n) r blocks hashes found c kv v h =
    let (status, kv') = allocate kv r.request_id blocks (shared_blocks found) in
    let e = evict_oldest-EvictsOne c kv' v in
    let (evicted, c', kv'') = evict_oldest c kv' in
    let (found', c'') = find_match c' r hashes in
    let s = find_match-StaysCounted c' r hashes e.counted in
    if_elim (λ (x : Reservation). x.ended ≡ true) (is_insufficient status)
      (λ more.
        if_elim (λ (x : Reservation). x.ended ≡ true) evicted
          (λ k.
            reserve_prompt_ended n r blocks hashes found' c'' kv'' s.counted
              (ground (arith, h, k, e.one_less, s.same_count)))
          (λ k. refl))
      (λ enough. refl)

reserve_prompt_enough :
    (n m : ℕ) (r : EngineRequest) (blocks : ℕ) (hashes : List String) (found : Option Match)
    (c : RadixPrefixCache) (kv : PagedKvCache)
    → IsCounted c
    → c.node_count < n
    → c.node_count < m
    → reserve_prompt n r blocks hashes found c kv ≡ reserve_prompt m r blocks hashes found c kv
unfolding reserve_prompt
reserve_prompt_enough zero m r blocks hashes found c kv v h k = absurd (omega (arith, h))
reserve_prompt_enough (suc n) zero r blocks hashes found c kv v h k = absurd (omega (arith, k))
reserve_prompt_enough (suc n) (suc m) r blocks hashes found c kv v h k =
    let (status, kv') = allocate kv r.request_id blocks (shared_blocks found) in
    let e = evict_oldest-EvictsOne c kv' v in
    let (evicted, c', kv'') = evict_oldest c kv' in
    let (found', c'') = find_match c' r hashes in
    let s = find_match-StaysCounted c' r hashes e.counted in
    ground (
      arith,
      h,
      k,
      e.one_less,
      s.same_count,
      reserve_prompt_enough n m r blocks hashes found' c'' kv'' s.counted,
    )

-- The loop of `AdmitReady` that allocates the blocks of a prompt and evicts cached prefixes ends:
-- of a tree whose node count is right, it ends by itself within one turn more than there are
-- nodes, and any larger number of turns gives the same reservation.
pub reserve_prompt_ends :
    (n : ℕ) (r : EngineRequest) (blocks : ℕ) (hashes : List String) (found : Option Match)
    (c : RadixPrefixCache) (kv : PagedKvCache)
    → IsCounted c
    → c.node_count < n
    → let least = reserve_prompt (suc c.node_count) r blocks hashes found c kv in
      (least.ended ≡ true) × (reserve_prompt n r blocks hashes found c kv ≡ least)
reserve_prompt_ends n r blocks hashes found c kv v h = (
  reserve_prompt_ended (suc c.node_count) r blocks hashes found c kv v (omega arith),
  reserve_prompt_enough n (suc c.node_count) r blocks hashes found c kv v h (omega arith),
)
