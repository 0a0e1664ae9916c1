-- ===== src/Engine/ContinuousEngine/Preparation.antt =====
-- `PrepareDecodeBlocks` (continuous_engine.cpp): after it no sequence lacks a block.
use infer_sched_distributed.Base.{
  ℕ, zero, suc, ◌+◌, ◌≤◌, ◌<◌, ◌≡◌, refl, ap, ◌∙◌, arith, Bool, false, ◌&&◌, List, [], ◌∷◌, none,
  length, get_elem?, if◌then◌else◌, if_elim, Bool-cases, subst, Option-cases, inl, inr, ltb, All,
}
use infer_sched_distributed.Engine.EngineConfig.{EngineConfig}
use infer_sched_distributed.Engine.KvCache.{PagedKvCache}
use infer_sched_distributed.Engine.RadixPrefixCache.{RadixPrefixCache}
use infer_sched_distributed.Engine.RadixPrefixCache.Eviction.{}
use infer_sched_distributed.Engine.ContinuousEngine.Growth.{HasBlocks, prepare_pass-enough}
use infer_sched_distributed.Engine.ContinuousEngine.State.{ContinuousEngine, ActiveRequest}
use infer_sched_distributed.Engine.ContinuousEngine.Decoding.{
  Blocks, prepare_pass, select_victim, victim_from, yields_before, remove_at, preempt, prepare,
  prepare_decode_blocks,
}

victim_from-lt :
    (active : List ActiveRequest) (index victim : ℕ) (selected : ActiveRequest)
    → victim < index
    → victim_from active index victim selected < index + length active
unfolding victim_from
victim_from-lt [] index victim selected h = omega (arith, h)
victim_from-lt (a ∷ active) index victim selected h =
    let better = yields_before a selected in
    omega (
      arith,
      victim_from-lt active (suc index) (if better then index else victim)
          (if better then a else selected)
          (if_elim (λ (v : ℕ). v < suc index) better (λ k. omega arith) (λ k. omega (arith, h))),
    )

select_victim-lt :
    (active : List ActiveRequest) → 0 < length active → select_victim active < length active
unfolding select_victim
select_victim-lt [] h = absurd (omega (arith, h))
select_victim-lt (a ∷ active) h = omega (arith, victim_from-lt active 1 0 a (omega arith))

length-remove_at :
    (active : List ActiveRequest) (index : ℕ)
    → index < length active
    → length (remove_at active index) + 1 ≡ length active
length-remove_at [] index h = absurd (omega (arith, h))
length-remove_at (a ∷ active) zero h = omega arith
length-remove_at (a ∷ active) (suc index) h =
    omega (arith, length-remove_at active index (omega (arith, h)))

get_elem?-none :
    (active : List ActiveRequest) (index : ℕ)
    → get_elem? active index ≡ none
    → length active ≤ index
get_elem?-none [] index h = omega arith
get_elem?-none (a ∷ active) zero h = absurd (ground (arith, h))
get_elem?-none (a ∷ active) (suc index) h = omega (arith, get_elem?-none active index h)

some_active :
    (n : ℕ) (active : List ActiveRequest) (c : RadixPrefixCache) (kv : PagedKvCache)
    → (prepare_pass n active c kv).enough ≡ false
    → 0 < length active
unfolding prepare_pass
some_active n [] c kv k = absurd (ground (arith, k))
some_active n (a ∷ active) c kv k = omega arith

module _ {ℓ} {G : Type ℓ} where
  length-preempt :
      (e : ContinuousEngine G) (index : ℕ)
      → index < length e.active
      → length (preempt e index).active + 1 ≡ length e.active
  unfolding preempt
  length-preempt e index h = elim (Option-cases (get_elem? e.active index)) [
    | inl k ↦ absurd (omega (arith, h, get_elem?-none e.active index k))
    | inr (a, k) ↦ rw (k, preempt) (length-remove_at e.active index h)
  ]

  preempt-config : (e : ContinuousEngine G) (index : ℕ) → (preempt e index).config ≡ e.config
  unfolding preempt
  preempt-config e index = elim (Option-cases (get_elem? e.active index)) [
    | inl k ↦ rw (k, preempt) refl
    | inr (a, k) ↦ rw (k, preempt) refl
  ]

  -- The engine after one pass of the loop.
  abbrev pub passed : ContinuousEngine G → Blocks → ContinuousEngine G
  passed e b = record e { prefix_cache = b.prefixes; kv_cache = b.kv }

  abbrev pub pass : ContinuousEngine G → Blocks
  pass e = prepare_pass e.config.kv_block_size_tokens e.active e.prefix_cache e.kv_cache

  abbrev pub preempted : ContinuousEngine G → ContinuousEngine G
  preempted e = preempt (passed e (pass e)) (select_victim e.active)

  pub length-preempted :
      (e : ContinuousEngine G)
      → (pass e).enough ≡ false
      → length (preempted e).active + 1 ≡ length e.active
  length-preempted e h = length-preempt (passed e (pass e)) (select_victim e.active) (
      select_victim-lt e.active
        (some_active e.config.kv_block_size_tokens e.active e.prefix_cache e.kv_cache h))

  -- Each active sequence has its blocks.
  abbrev pub Prepared : ℕ → ContinuousEngine G → Type 0
  Prepared block_size e = All (HasBlocks block_size e.kv_cache) e.active

  prepare-Prepared :
      (fuel : ℕ) (e : ContinuousEngine G) (block_size : ℕ)
      → length e.active < fuel
      → e.config.kv_block_size_tokens ≡ block_size
      → Prepared block_size (prepare fuel e).1
  unfolding prepare
  prepare-Prepared zero e block_size h k = absurd (omega (arith, h))
  prepare-Prepared (suc fuel) e block_size h k =
      if_elim (Prepared block_size) (pass e).enough
        (λ g.
          subst (λ (n : ℕ). All (HasBlocks n (pass e).kv) e.active) k
            (prepare_pass-enough e.config.kv_block_size_tokens e.active e.prefix_cache e.kv_cache
              g))
        (λ g.
          prepare-Prepared fuel (preempted e) block_size (omega (arith, h, length-preempted e g)) (
            ap (λ (c : EngineConfig). c.kv_block_size_tokens)
              (preempt-config (passed e (pass e)) (select_victim e.active))
            ∙ k))

  pub enough_passes :
      (n m : ℕ) (e : ContinuousEngine G)
      → length e.active < n
      → length e.active < m
      → prepare n e ≡ prepare m e
  unfolding prepare
  enough_passes zero m e h k = absurd (omega (arith, h))
  enough_passes (suc n) zero e h k = absurd (omega (arith, k))
  enough_passes (suc n) (suc m) e h k = elim (Bool-cases (pass e).enough) [
    | inl g ↦ rw (g, prepare) refl
    | inr g ↦
        let rest =
          enough_passes n m (preempted e) (omega (arith, h, length-preempted e g))
            (omega (arith, k, length-preempted e g)) in
        rw (g, prepare) (ap (λ (x : Bool × ContinuousEngine G). ((pass e).ended && x.0, x.1)) rest)
  ]

  -- After `PrepareDecodeBlocks` each sequence that is still active holds all the blocks that its
  -- prompt, the tokens that it has and one more token need; the answer says whether one is left.
  pub prepare_decode_blocks-Prepared :
      (e : ContinuousEngine G)
      → Prepared e.config.kv_block_size_tokens (prepare_decode_blocks e).1
        × ((prepare_decode_blocks e).0 ≡ ltb 0 (length (prepare_decode_blocks e).1.active))
  unfolding prepare_decode_blocks
  prepare_decode_blocks-Prepared e = (
    prepare-Prepared (suc (length e.active)) e e.config.kv_block_size_tokens (omega arith) refl,
    refl,
  )
