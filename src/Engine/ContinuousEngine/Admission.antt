-- ===== src/Engine/ContinuousEngine/Admission.antt =====
-- The steps of `ContinuousEngine::AdmitReady` (continuous_engine.cpp) for one candidate.
use infer_sched_distributed.Base.{
  ℕ, zero, suc, ◌+◌, ◌*◌, Bool, true, false, ◌||◌, List, [], ◌∷◌, ◌++◌, Option, none, some, String,
  leb, if◌then◌else◌, length, take, min, max,
}
use infer_sched_distributed.Engine.EngineConfig.{EngineConfig, EngineResult}
use infer_sched_distributed.Engine.ExecutionState.{
  waiting_admission, prefill, decode, transition_to,
}
use infer_sched_distributed.Engine.KvCache.{
  PagedKvCache, AllocationStatus, allocated, insufficient_blocks, allocate, blocks_for,
}
use infer_sched_distributed.Engine.RadixPrefixCache.{
  RadixPrefixCache, Match, get_longest, evict_oldest, put_block_prefixes,
}
use infer_sched_distributed.Engine.RequestQueue.{EngineRequest}
use infer_sched_distributed.Engine.ContinuousEngine.State.{
  ContinuousEngine, ContinuousEngineStats, ActiveRequest, contains, insert_name, prefix_namespace,
}

-- The engine and the local variables of the loop.
pub record Admission {ℓ} (G : Type ℓ) : Type ℓ where
  pub engine : ContinuousEngine G
  pub deferred : List EngineRequest
  pub prefill_budget : ℕ
  pub prefill_sequences : ℕ
  pub admitted_any : Bool

abbrev pub no_match : List String → Bool
no_match [] = true
no_match (hash ∷ hashes) = false

-- The longest cached prefix, of a request that has hashes.
unfoldable pub find_match :
    RadixPrefixCache → EngineRequest → List String → Option Match × RadixPrefixCache
find_match prefixes candidate hashes =
    if no_match hashes
    then (none, prefixes)
    else get_longest prefixes (prefix_namespace candidate) hashes

abbrev pub shared_blocks : Option Match → List ℕ
shared_blocks none = []
shared_blocks (some m) = m.blocks

abbrev pub matched_blocks : Option Match → ℕ
matched_blocks none = 0
matched_blocks (some m) = m.matched_block_count

abbrev pub is_insufficient : AllocationStatus → Bool
is_insufficient insufficient_blocks = true
is_insufficient _ = false

abbrev pub is_allocated : AllocationStatus → Bool
is_allocated allocated = true
is_allocated _ = false

pub record Reservation : Type 0 where
  pub status : AllocationStatus
  pub found : Option Match
  pub prefixes : RadixPrefixCache
  pub kv : PagedKvCache
  pub ended : Bool

-- The loop that evicts cached prefixes until the blocks of the prompt fit, on fuel. `ended`
-- says that the loop has ended by itself, and not for lack of fuel.
unfoldable pub reserve_prompt :
    ℕ
    → EngineRequest
    → ℕ
    → List String
    → Option Match
    → RadixPrefixCache
    → PagedKvCache
    → Reservation
reserve_prompt zero candidate prompt_blocks hashes found prefixes kv = record {
  status = insufficient_blocks;
  found = found;
  prefixes = prefixes;
  kv = kv;
  ended = false;
}
reserve_prompt (suc fuel) candidate prompt_blocks hashes found prefixes kv =
    let (status, kv') = allocate kv candidate.request_id prompt_blocks (shared_blocks found) in
    let (evicted, prefixes', kv'') = evict_oldest prefixes kv' in
    let (found', prefixes'') = find_match prefixes' candidate hashes in
    let rest = reserve_prompt fuel candidate prompt_blocks hashes found' prefixes'' kv'' in
    if is_insufficient status
    then (if evicted then rest else record {
      status = status;
      found = found;
      prefixes = prefixes';
      kv = kv'';
      ended = true;
    })
    else record { status = status; found = found; prefixes = prefixes; kv = kv'; ended = true }

abbrev pub candidate_hashes : EngineRequest → ℕ → List String
candidate_hashes candidate prompt_blocks =
    take (min (length candidate.prompt_block_hashes) prompt_blocks) candidate.prompt_block_hashes

-- The statistics of prefix cache requests, counted once for a request.
unfoldable pub account_prefix {ℓ} :
    {G : Type ℓ} → ContinuousEngine G → EngineRequest → List String → Bool → ContinuousEngine G
account_prefix e candidate hashes hit =
    if no_match hashes || contains candidate.request_id e.prefix_accounted_requests
    then e
    else record e {
      prefix_accounted_requests = insert_name candidate.request_id e.prefix_accounted_requests;
      stats = record e.stats {
        prefix_cache_requests = e.stats.prefix_cache_requests + 1;
        prefix_cache_request_hits = e.stats.prefix_cache_request_hits + (if hit then 1 else 0);
      };
    }

-- `PutBlockPrefixes` of an admitted request.
unfoldable pub remember_prefix {ℓ} :
    {G : Type ℓ} → ContinuousEngine G → EngineRequest → ℕ → ContinuousEngine G
remember_prefix e request prompt_blocks =
    let blocks = blocks_for e.kv_cache request.request_id in
    let (inserted, prefixes, kv) =
      put_block_prefixes e.prefix_cache e.kv_cache (prefix_namespace request)
        (candidate_hashes request prompt_blocks)
        (take (min (length blocks) prompt_blocks) blocks) in
    if no_match request.prompt_block_hashes
    then e
    else record e { prefix_cache = prefixes; kv_cache = kv }

abbrev pub active_of : EngineRequest → Bool → ActiveRequest
active_of request hit = record {
  request = request;
  state = (transition_to (transition_to waiting_admission prefill).1 decode).1;
  generated_tokens = 0;
  prefix_cache_hit = hit;
  first_token_at = 0;
}

abbrev pub cached_tokens : EngineConfig → EngineRequest → ℕ → ℕ → ℕ
cached_tokens config request prompt_blocks matched =
    if leb prompt_blocks matched
    then request.prompt_tokens
    else matched * config.kv_block_size_tokens

abbrev pub count_admission : ContinuousEngineStats → ℕ → ContinuousEngineStats
count_admission stats active_size = record stats {
  admissions = stats.admissions + 1;
  peak_active_sequences = max stats.peak_active_sequences active_size;
}

abbrev pub defer {ℓ} : {G : Type ℓ} → Admission G → EngineRequest → Admission G
defer a candidate = record a { deferred = a.deferred ++ candidate ∷ [] }

abbrev pub failed_result : EngineRequest → String → ℕ → EngineResult
failed_result candidate reason now = record {
  request_id = candidate.request_id;
  output = "";
  completed_at = now;
  first_token_at = 0;
  result_cache_hit = false;
  prefix_cache_hit = false;
  succeeded = false;
  failure_reason = reason;
}

abbrev pub cached_answer : EngineRequest → String → ℕ → EngineResult
cached_answer candidate cached now = record {
  request_id = candidate.request_id;
  output = cached;
  completed_at = now;
  first_token_at = now;
  result_cache_hit = true;
  prefix_cache_hit = false;
  succeeded = true;
  failure_reason = "";
}
