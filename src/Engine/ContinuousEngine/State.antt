-- ===== src/Engine/ContinuousEngine/State.antt =====
-- The state of `ContinuousEngine` and its small members: continuous_engine.hpp and
-- continuous_engine.cpp. Times are counted from the start of `FakeClock`; a difference of two
-- `std::size_t`s wraps.
use infer_sched_distributed.Base.{
  ℕ, ◌+◌, ◌-◌, ◌%◌, Bool, ◌||◌, List, [], ◌∷◌, Option, none, some, String, Result, ok,
  invalid_argument, ltb, ◌==◌, if◌then◌else◌, ite, length, max, u64_mod, text_discrete, true, false,
}
use infer_sched_distributed.Engine.CostModel.{init as cost_init}
use infer_sched_distributed.Engine.EngineConfig.{
  EngineConfig, EngineResult, append_part, blocks_for_tokens,
}
use infer_sched_distributed.Engine.ExecutionState.{ExecutionState}
use infer_sched_distributed.Engine.KvCache.{PagedKvCache, init as kv_init, total_blocks}
use infer_sched_distributed.Engine.RadixPrefixCache.{
  RadixPrefixCache, init as prefix_init, clear as prefix_clear,
}
use infer_sched_distributed.Engine.RequestQueue.{EngineRequest, push}
use infer_sched_distributed.Engine.ResultCache.{ResultCache, init as result_init}

pub record ContinuousEngineStats : Type 0 where
  pub iterations : ℕ
  pub admissions : ℕ
  pub preemptions : ℕ
  pub peak_active_sequences : ℕ
  pub prefix_cache_requests : ℕ
  pub prefix_cache_request_hits : ℕ
  pub result_cache_requests : ℕ
  pub result_cache_request_hits : ℕ
  pub peak_pending_requests : ℕ
  pub simulated_busy_time : ℕ

pub record ActiveRequest : Type 0 where
  pub request : EngineRequest
  pub state : ExecutionState
  pub generated_tokens : ℕ
  pub prefix_cache_hit : Bool
  pub first_token_at : ℕ

-- `random` is the state of the generator in the cost model.
pub record ContinuousEngine {ℓ} (G : Type ℓ) : Type ℓ where
  pub config : EngineConfig
  pub now : ℕ
  pub random : G
  pub kv_cache : PagedKvCache
  pub prefix_cache : RadixPrefixCache
  pub result_cache : ResultCache
  pub pending : List EngineRequest
  pub active : List ActiveRequest
  pub results : List EngineResult
  pub stats : ContinuousEngineStats
  pub preempted_requests : List String
  pub prefix_accounted_requests : List String

abbrev pub no_stats : ContinuousEngineStats
no_stats = record {
  iterations = 0;
  admissions = 0;
  preemptions = 0;
  peak_active_sequences = 0;
  prefix_cache_requests = 0;
  prefix_cache_request_hits = 0;
  result_cache_requests = 0;
  result_cache_request_hits = 0;
  peak_pending_requests = 0;
  simulated_busy_time = 0;
}

-- The members are built in their order, then the limits are tested.
unfoldable pub init {ℓ} :
    {G : Type ℓ} (draw : G → ℕ → Bool × ℕ × G) → EngineConfig → G → Result (ContinuousEngine G)
init draw config seeded = elim (cost_init draw config.cost_model seeded) [
  | invalid_argument what ↦ invalid_argument what
  | ok (_, random) ↦ elim (kv_init config.kv_blocks config.kv_block_size_tokens) [
    | invalid_argument what ↦ invalid_argument what
    | ok kv ↦ elim (prefix_init config.prefix_cache_entries) [
      | invalid_argument what ↦ invalid_argument what
      | ok prefixes ↦ elim (result_init config.result_cache_entries) [
        | invalid_argument what ↦ invalid_argument what
        | ok cached ↦
            if config.max_batch_sequences == 0
              || config.max_batch_tokens == 0
              || config.max_prefill_sequences_per_iteration == 0
            then invalid_argument "continuous batching limits must be positive"
            else ok (record {
              config = config;
              now = 0;
              random = random;
              kv_cache = kv;
              prefix_cache = prefixes;
              result_cache = cached;
              pending = [];
              active = [];
              results = [];
              stats = no_stats;
              preempted_requests = [];
              prefix_accounted_requests = [];
            })
      ]
    ]
  ]
]

-- A difference of `std::size_t`s.
abbrev pub size_minus : ℕ → ℕ → ℕ
size_minus a b = (a + u64_mod - b) % u64_mod

-- `std::unordered_set<std::string>`: `contains` and `insert`.
abbrev pub contains : String → List String → Bool
contains name [] = false
contains name (x ∷ xs) = ite (text_discrete x name) true (contains name xs)

abbrev pub insert_name : String → List String → List String
insert_name name names = if contains name names then names else name ∷ names

unfoldable pub prefix_namespace : EngineRequest → String
prefix_namespace request =
    append_part (append_part "" request.model_revision) request.tokenizer_revision

unfoldable pub impossible_reason : EngineConfig → PagedKvCache → EngineRequest → Option String
impossible_reason config kv request =
    if ltb (u64_mod - 1 - request.max_output_tokens) request.prompt_tokens
    then some "token_count_overflow"
    else if ltb config.max_batch_tokens request.prompt_tokens
    then some "exceeds_max_batch_tokens"
    else if ltb (total_blocks kv) (
        blocks_for_tokens (request.prompt_tokens + request.max_output_tokens)
          config.kv_block_size_tokens)
    then some "exceeds_kv_capacity"
    else none

unfoldable pub submit {ℓ} : {G : Type ℓ} → ContinuousEngine G → EngineRequest → ContinuousEngine G
submit e request = record e {
  pending = push e.pending request;
  stats = record e.stats {
    peak_pending_requests = max e.stats.peak_pending_requests (length (push e.pending request));
  };
}

unfoldable pub clear_caches {ℓ} : {G : Type ℓ} → ContinuousEngine G → ContinuousEngine G
clear_caches e =
    let (prefixes, kv) = prefix_clear e.prefix_cache e.kv_cache in
    record e { prefix_cache = prefixes; kv_cache = kv }
