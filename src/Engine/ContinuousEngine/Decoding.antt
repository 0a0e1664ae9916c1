-- ===== src/Engine/ContinuousEngine/Decoding.antt =====
-- The decode half of an iteration of `ContinuousEngine` (continuous_engine.cpp): blocks for the
-- next token, preemption and completion.
use infer_sched_distributed.Base.{
  ℕ, zero, suc, ◌+◌, ◌-◌, Bool, true, false, ◌&&◌, ◌||◌, List, [], ◌∷◌, ◌++◌, none, some, ltb, leb,
  ◌==◌, if◌then◌else◌, length, get_elem?,
}
use infer_sched_distributed.Engine.EngineConfig.{
  EngineResult, blocks_for_tokens, build_result_cache_key, simulated_output,
}
use infer_sched_distributed.Engine.KvCache.{PagedKvCache, append_blocks, blocks_for, free}
use infer_sched_distributed.Engine.RadixPrefixCache.{RadixPrefixCache, evict_oldest}
use infer_sched_distributed.Engine.RequestQueue.{push}
use infer_sched_distributed.Engine.ResultCache.{put as put_result}
use infer_sched_distributed.Engine.ContinuousEngine.State.{
  ContinuousEngine, ActiveRequest, size_minus, insert_name,
}
use infer_sched_distributed.Engine.ContinuousEngine.Admission.{is_insufficient, is_allocated}

-- What one sequence after another may leave behind; `ended` is false where a loop has run out of
-- fuel.
pub record Blocks : Type 0 where
  pub enough : Bool
  pub prefixes : RadixPrefixCache
  pub kv : PagedKvCache
  pub ended : Bool

-- `AppendBlocks`, with evictions while blocks are missing, on fuel.
unfoldable pub append_evicting : ℕ → ActiveRequest → ℕ → RadixPrefixCache → PagedKvCache → Blocks
append_evicting zero a missing prefixes kv = record {
  enough = false;
  prefixes = prefixes;
  kv = kv;
  ended = false;
}
append_evicting (suc fuel) a missing prefixes kv =
    let (status, kv') = append_blocks kv a.request.request_id missing in
    let (evicted, prefixes', kv'') = evict_oldest prefixes kv' in
    let rest = append_evicting fuel a missing prefixes' kv'' in
    if is_insufficient status
    then (if evicted
        then rest
        else record { enough = false; prefixes = prefixes'; kv = kv''; ended = true })
    else record { enough = is_allocated status; prefixes = prefixes; kv = kv'; ended = true }

abbrev pub blocks_needed : ℕ → ActiveRequest → ℕ
blocks_needed block_size a =
    blocks_for_tokens (a.request.prompt_tokens + a.generated_tokens + 1) block_size

-- The body of the loop of `PrepareDecodeBlocks` up to the preemption; one turn of the eviction
-- loop for each node of the tree, and one more.
unfoldable pub prepare_one : ℕ → ActiveRequest → RadixPrefixCache → PagedKvCache → Blocks
prepare_one block_size a prefixes kv =
    let needed = blocks_needed block_size a in
    let current = length (blocks_for kv a.request.request_id) in
    if leb needed current
    then record { enough = true; prefixes = prefixes; kv = kv; ended = true }
    else append_evicting (suc prefixes.node_count) a (needed - current) prefixes kv

-- The turns of that loop from an index on, up to the first sequence that lacks blocks.
unfoldable pub prepare_pass : ℕ → List ActiveRequest → RadixPrefixCache → PagedKvCache → Blocks
prepare_pass block_size [] prefixes kv = record {
  enough = true;
  prefixes = prefixes;
  kv = kv;
  ended = true;
}
prepare_pass block_size (a ∷ active) prefixes kv =
    let b = prepare_one block_size a prefixes kv in
    let rest = prepare_pass block_size active b.prefixes b.kv in if b.enough then rest else b

abbrev pub remaining : ActiveRequest → ℕ
remaining a = size_minus a.request.max_output_tokens a.generated_tokens

-- The test of `SelectVictim`.
abbrev pub yields_before : ActiveRequest → ActiveRequest → Bool
yields_before candidate selected =
    ltb candidate.request.priority selected.request.priority
    || (candidate.request.priority == selected.request.priority
        && ltb (remaining selected) (remaining candidate))

-- The loop of `SelectVictim` from `index` on.
unfoldable pub victim_from : List ActiveRequest → ℕ → ℕ → ActiveRequest → ℕ
victim_from [] index victim selected = victim
victim_from (candidate ∷ active) index victim selected =
    let better = yields_before candidate selected in
    victim_from active (suc index) (if better then index else victim)
      (if better then candidate else selected)

unfoldable pub select_victim : List ActiveRequest → ℕ
select_victim [] = 0
select_victim (a ∷ active) = victim_from active 1 0 a

abbrev pub remove_at : List ActiveRequest → ℕ → List ActiveRequest
remove_at [] index = []
remove_at (a ∷ active) zero = active
remove_at (a ∷ active) (suc index) = a ∷ remove_at active index

-- The state of the victim goes with it: a request that is admitted again starts anew.
unfoldable pub preempt {ℓ} : {G : Type ℓ} → ContinuousEngine G → ℕ → ContinuousEngine G
preempt e active_index = elim (get_elem? e.active active_index) [
  | none ↦ e
  | some victim ↦ record e {
    kv_cache = (free e.kv_cache victim.request.request_id).1;
    preempted_requests = insert_name victim.request.request_id e.preempted_requests;
    pending = push e.pending (record victim.request { arrival_time = e.now });
    active = remove_at e.active active_index;
    stats = record e.stats { preemptions = e.stats.preemptions + 1 };
  }
]

-- `PrepareDecodeBlocks`, on fuel: a turn is one pass that starts at the index 0. The flag says that
-- this loop and all loops inside it have ended by themselves.
unfoldable pub prepare {ℓ} : {G : Type ℓ} → ℕ → ContinuousEngine G → Bool × ContinuousEngine G
prepare zero e = (false, e)
prepare (suc fuel) e =
    let b = prepare_pass e.config.kv_block_size_tokens e.active e.prefix_cache e.kv_cache in
    let e' = record e { prefix_cache = b.prefixes; kv_cache = b.kv } in
    let rest = prepare fuel (preempt e' (select_victim e'.active)) in
    (b.ended && (b.enough || rest.0), if b.enough then e' else rest.1)

-- Each preemption removes a sequence, so one pass more than there are sequences is enough.
unfoldable pub prepare_decode_blocks {ℓ} :
    {G : Type ℓ} → ContinuousEngine G → Bool × ContinuousEngine G
prepare_decode_blocks e =
    let (ended, e') = prepare (suc (length e.active)) e in (ltb 0 (length e'.active), e')

abbrev pub completed_result : ActiveRequest → ℕ → EngineResult
completed_result a now = record {
  request_id = a.request.request_id;
  output = simulated_output a.request;
  completed_at = now;
  first_token_at = if a.generated_tokens == 0 then now else a.first_token_at;
  result_cache_hit = false;
  prefix_cache_hit = a.prefix_cache_hit;
  succeeded = true;
  failure_reason = "";
}

-- A sequence that has all its tokens: `active_` changes in the loop.
unfoldable pub finish {ℓ} : {G : Type ℓ} → ContinuousEngine G → ActiveRequest → ContinuousEngine G
finish e a = record e {
  result_cache =
      put_result e.result_cache (build_result_cache_key a.request) (simulated_output a.request);
  kv_cache = (free e.kv_cache a.request.request_id).1;
  results = e.results ++ completed_result a e.now ∷ [];
}

-- The loop of `CompleteFinished`: the sequences that stay, and the engine.
unfoldable pub complete {ℓ} :
    {G : Type ℓ} → List ActiveRequest → ContinuousEngine G → List ActiveRequest × ContinuousEngine G
complete [] e = ([], e)
complete (a ∷ active) e =
    let stays = ltb a.generated_tokens a.request.max_output_tokens in
    let (others, e') = complete active (if stays then e else finish e a) in
    (if stays then a ∷ others else others, e')

unfoldable pub complete_finished {ℓ} : {G : Type ℓ} → ContinuousEngine G → ContinuousEngine G
complete_finished e = let (active, e') = complete e.active e in record e' { active = active }
