-- ===== src/Engine/ContinuousEngine/Scan.antt =====
-- The loop of `ContinuousEngine::AdmitReady` (continuous_engine.cpp).
use infer_sched_distributed.Base.{
  ℕ, zero, suc, ◌+◌, Bool, true, false, not, ◌&&◌, ◌||◌, List, [], ◌∷◌, ◌++◌, none, some, ltb, ◌==◌,
  if◌then◌else◌, is_some, length,
}
use infer_sched_distributed.Engine.CostModel.{prefill as prefill_cost}
use infer_sched_distributed.Engine.EngineConfig.{
  advance_clock, blocks_for_tokens, build_result_cache_key,
}
use infer_sched_distributed.Engine.RequestQueue.{EngineRequest, push, pop_ready}
use infer_sched_distributed.Engine.ResultCache.{get as cached_result}
use infer_sched_distributed.Engine.ContinuousEngine.State.{
  ContinuousEngine, size_minus, contains, impossible_reason,
}
use infer_sched_distributed.Engine.ContinuousEngine.Admission.{
  Admission, Reservation, find_match, matched_blocks, is_allocated, reserve_prompt,
  candidate_hashes, account_prefix, remember_prefix, active_of, cached_tokens, count_admission,
  defer, failed_result, cached_answer,
}

module _ {ℓ} {G : Type ℓ} (draw : G → ℕ → Bool × ℕ × G) where
  -- A candidate whose blocks are allocated is prefilled and becomes active.
  unfoldable pub start : Admission G → EngineRequest → ℕ → Reservation → Admission G
  start a candidate prompt_blocks r =
      let reserved = record a.engine { prefix_cache = r.prefixes; kv_cache = r.kv } in
      let hashes = candidate_hashes candidate prompt_blocks in
      let e = account_prefix reserved candidate hashes (is_some r.found) in
      let skipped = cached_tokens e.config candidate prompt_blocks (matched_blocks r.found) in
      let (cost, random) =
        prefill_cost draw e.config.cost_model e.random
          (size_minus candidate.prompt_tokens skipped) in
      let prefilled =
        remember_prefix
          (record e {
            random = random;
            now = advance_clock e.now cost;
            stats = record e.stats { simulated_busy_time = e.stats.simulated_busy_time + cost };
          })
          candidate prompt_blocks in
      let active = prefilled.active ++ active_of candidate (is_some r.found) ∷ [] in
      record a {
        engine = record prefilled {
          active = active;
          stats = count_admission prefilled.stats (length active);
        };
        prefill_budget = a.prefill_budget + candidate.prompt_tokens;
        prefill_sequences = a.prefill_sequences + 1;
        admitted_any = true;
      }

  abbrev pub prompt_blocks_of : Admission G → EngineRequest → ℕ
  prompt_blocks_of a candidate =
      blocks_for_tokens candidate.prompt_tokens a.engine.config.kv_block_size_tokens

  -- One turn of the eviction loop for each node of the tree, and one more.
  abbrev pub reservation : Admission G → EngineRequest → Reservation
  reservation a candidate =
      let blocks = prompt_blocks_of a candidate in
      let hashes = candidate_hashes candidate blocks in
      let (found, prefixes) = find_match a.engine.prefix_cache candidate hashes in
      reserve_prompt (suc prefixes.node_count) candidate blocks hashes found prefixes
        a.engine.kv_cache

  -- What follows the eviction loop.
  unfoldable pub settle : Admission G → EngineRequest → ℕ → Reservation → Admission G
  settle a candidate blocks r =
      if is_allocated r.status
      then start a candidate blocks r
      else defer
          (record a { engine = record a.engine { prefix_cache = r.prefixes; kv_cache = r.kv } })
          candidate

  unfoldable pub admit : Admission G → EngineRequest → Admission G
  admit a candidate = settle a candidate (prompt_blocks_of a candidate) (reservation a candidate)

  -- The request for a cached result.
  unfoldable pub serve : Admission G → EngineRequest → Admission G
  serve a candidate =
      let e = a.engine in
      let (answer, cache) = cached_result e.result_cache (build_result_cache_key candidate) in
      let asked = record e {
        result_cache = cache;
        stats = record e.stats { result_cache_requests = e.stats.result_cache_requests + 1 };
      } in
      elim answer [
        | none ↦ admit (record a { engine = asked }) candidate
        | some cached ↦ record a {
          engine = record asked {
            results = asked.results ++ cached_answer candidate cached asked.now ∷ [];
            stats = record asked.stats {
              result_cache_request_hits = asked.stats.result_cache_request_hits + 1;
            };
          };
          admitted_any = true;
        }
      ]

  -- `active_.size()` and the tokens of the prompt against what is left of `max_batch_tokens`.
  abbrev pub over_budget : Admission G → EngineRequest → Bool
  over_budget a candidate =
      let left = size_minus a.engine.config.max_batch_tokens a.prefill_budget in
      ltb left (length a.engine.active)
      || ltb (size_minus left (length a.engine.active)) candidate.prompt_tokens

  abbrev pub waits_for_idle : Admission G → EngineRequest → Bool
  waits_for_idle a candidate =
      not (length a.engine.active == 0) && contains candidate.request_id a.engine.preempted_requests

  -- The body of the loop: whether it goes on, and the state after it.
  unfoldable pub consider : Admission G → EngineRequest → Bool × Admission G
  consider a candidate = elim (impossible_reason a.engine.config a.engine.kv_cache candidate) [
    | some reason ↦ (
      true,
      record a {
        engine = record a.engine {
          results = a.engine.results ++ failed_result candidate reason a.engine.now ∷ [];
        };
        admitted_any = true;
      },
    )
    | none ↦
        if waits_for_idle a candidate
        then (true, defer a candidate)
        else if a.prefill_sequences == a.engine.config.max_prefill_sequences_per_iteration
        then (false, defer a candidate)
        else if over_budget a candidate
        then (true, defer a candidate)
        else (true, serve a candidate)
  ]

  -- The loop, of `scan_limit` turns at most.
  unfoldable pub scan : ℕ → Admission G → Admission G
  scan zero a = a
  scan (suc limit) a =
      let (popped, queue) = pop_ready a.engine.pending a.engine.now in
      if ltb (length a.engine.active) a.engine.config.max_batch_sequences
      then (elim popped [
        | none ↦ a
        | some candidate ↦
            let (more, a') =
              consider (record a { engine = record a.engine { pending = queue } }) candidate in
            let rest = scan limit a' in if more then rest else a'
      ])
      else a

  abbrev pub push_all : List EngineRequest → List EngineRequest → List EngineRequest
  push_all queue [] = queue
  push_all queue (request ∷ requests) = push_all (push queue request) requests

  unfoldable pub admit_ready : ContinuousEngine G → Bool × ContinuousEngine G
  admit_ready e =
      let a = scan (length e.pending) (record {
        engine = e;
        deferred = [];
        prefill_budget = 0;
        prefill_sequences = 0;
        admitted_any = false;
      }) in
      (a.admitted_any, record a.engine { pending = push_all a.engine.pending a.deferred })
