-- ===== src/Engine/ContinuousEngine/Tests.antt =====
-- Witnesses for the continuous engine (continuous_engine.cpp): four blocks of two tokens, and two
-- requests that need three blocks each.
use infer_sched_distributed.Base.{
  ℕ, ◌≡◌, refl, arith, Bool, true, false, List, [], ◌∷◌, String, length, ltb, lookup,
  insert_or_assign, erase, text_discrete, to_string, ok, none,
}
use infer_sched_distributed.Engine.CostModel.{
  init as cost_init, saturating_cost, apply_jitter, prefill as prefill_cost, decode_step, adjusted,
  delta,
}
use infer_sched_distributed.Engine.EngineConfig.{
  EngineConfig, advance_clock, blocks_for_tokens, append_part, build_result_cache_key,
  simulated_output,
}
use infer_sched_distributed.Engine.ExecutionState.{decode, can_transition, transition_to}
use infer_sched_distributed.Engine.KvCache.{
  init as kv_init, fill_free, allocate, reserve, add_refs, valid_blocks, take_free, append_blocks,
  blocks_for, free, drop_ref, drop_refs, pin_prefix, unpin_prefix,
}
use infer_sched_distributed.Engine.Lru.{remove_key}
use infer_sched_distributed.Engine.RadixPrefixCache.{
  init as prefix_init, descend, get_longest, grow, fill, find_oldest_leaf, find_oldest, remove,
  evict_leaf, evict_oldest, shrink, fill_root, put_block_prefixes, unpin_tree, unpin_roots,
  clear as prefix_clear,
}
use infer_sched_distributed.Engine.RequestQueue.{
  EngineRequest, extract, later, pop_ready, next_arrival,
}
use infer_sched_distributed.Engine.StaticBatchPolicy.{text_before}
use infer_sched_distributed.Engine.ResultCache.{
  init as result_init, evict, push as push_result, put, get,
}
use infer_sched_distributed.Engine.ContinuousEngine.State.{
  ContinuousEngine, ActiveRequest, no_stats, init, submit, clear_caches, prefix_namespace,
  impossible_reason,
}
use infer_sched_distributed.Engine.ContinuousEngine.Admission.{
  Reservation, find_match, reserve_prompt, account_prefix, remember_prefix,
}
use infer_sched_distributed.Engine.ContinuousEngine.Scan.{
  start, settle, admit, serve, consider, scan, admit_ready,
}
use infer_sched_distributed.Engine.ContinuousEngine.Decoding.{
  append_evicting, prepare_one, prepare_pass, victim_from, select_victim, preempt, prepare,
  prepare_decode_blocks, finish, complete, complete_finished,
}
use infer_sched_distributed.Engine.ContinuousEngine.Iterations.{
  decode_all, run_one_iteration, run_until_idle, Call, submit_request, run_to_idle, call, calls,
}
use infer_sched_distributed.Engine.ContinuousEngine.Requests.{held}
use infer_sched_distributed.Engine.ContinuousEngine.Conserved.{submitted, calls-submitted}
use infer_sched_distributed.Engine.ContinuousEngine.Limits.{AdmitsWithin, admit_ready-AdmitsWithin}
use infer_sched_distributed.Engine.ContinuousEngine.BatchSize.{IsWithin, calls-IsWithin}
use infer_sched_distributed.Engine.ContinuousEngine.NodeCount.{IsSound}
use infer_sched_distributed.Engine.ContinuousEngine.PrefixNodes.{calls-IsSound}
use infer_sched_distributed.Engine.ContinuousEngine.Fuel.{
  reserve_prompt_ends, prepare_decode_blocks_ends,
}
use infer_sched_distributed.Engine.ContinuousEngine.Victims.{IsVictim, select_victim-IsVictim}
use infer_sched_distributed.Engine.ContinuousEngine.Preparation.{
  Prepared, prepare_decode_blocks-Prepared,
}

program : Unit {0}
unfolding cost_init saturating_cost apply_jitter prefill_cost decode_step adjusted delta
    advance_clock blocks_for_tokens append_part build_result_cache_key simulated_output
    can_transition transition_to kv_init fill_free allocate reserve add_refs valid_blocks take_free
    append_blocks blocks_for free drop_ref drop_refs pin_prefix unpin_prefix remove_key prefix_init
    descend get_longest grow fill find_oldest_leaf find_oldest remove evict_leaf evict_oldest shrink
    fill_root put_block_prefixes unpin_tree unpin_roots prefix_clear extract later pop_ready
    next_arrival text_before result_init evict push_result put get init submit clear_caches
    prefix_namespace impossible_reason find_match reserve_prompt account_prefix remember_prefix
    start settle admit serve consider scan admit_ready append_evicting prepare_one prepare_pass
    victim_from select_victim preempt prepare prepare_decode_blocks finish complete
    complete_finished decode_all run_one_iteration run_until_idle call calls lookup insert_or_assign
    erase text_discrete to_string
program = tt

-- No jitter.
abbrev draw : Unit {0} → ℕ → Bool × ℕ × Unit {0}
draw random bound = (false, 0, random)

abbrev config : EngineConfig
config = record {
  kv_blocks = 4;
  kv_block_size_tokens = 2;
  max_batch_sequences = 2;
  max_batch_tokens = 16;
  max_prefill_sequences_per_iteration = 2;
  result_cache_entries = 4;
  prefix_cache_entries = 4;
  seed = 0;
  cost_model = record {
    prefill_fixed = 1;
    prefill_per_token = 1;
    decode_fixed = 1;
    decode_per_sequence = 1;
    jitter_basis_points = 0;
  };
}

abbrev request : String → ℕ → EngineRequest
request id priority = record {
  request_id = id;
  model_revision = "r";
  tokenizer_revision = "t";
  prompt_hash = id;
  prompt_block_hashes = id ∷ [];
  prompt_tokens = 4;
  max_output_tokens = 2;
  priority = priority;
  sampling_seed = 0;
  temperature_micros = 0;
  top_p_micros = 0;
  arrival_time = 0;
}

abbrev fresh : ContinuousEngine (Unit {0})
fresh = record {
  config = config;
  now = 0;
  random = tt;
  kv_cache = record {
    block_size_tokens = 2;
    refcounts = 0 ∷ 0 ∷ 0 ∷ 0 ∷ [];
    free_list = 0 ∷ 1 ∷ 2 ∷ 3 ∷ [];
    sequence_blocks = [];
    prefix_blocks = [];
  };
  prefix_cache = record {
    capacity = 4;
    roots = [];
    node_count = 0;
    access_clock = 0;
    next_pin_id = 0;
  };
  result_cache = record { capacity = 4; recency = []; entries = []; hits = 0; misses = 0 };
  pending = [];
  active = [];
  results = [];
  stats = no_stats;
  preempted_requests = [];
  prefix_accounted_requests = [];
}

built : init draw config tt ≡ ok fresh
unfolding program
built = refl

abbrev both : List Call
both = submit_request (request "a" 1) ∷ submit_request (request "b" 0) ∷ run_to_idle 20 ∷ []

-- Both are answered in the end, though one is preempted on the way.
all_answered :
    (length (calls draw fresh both).results ≡ 2)
    × (length (calls draw fresh both).pending ≡ 0)
    × ((calls draw fresh both).stats.preemptions ≡ 1)
unfolding program
all_answered = (refl, refl, refl)

calls-submitted_example : held "a" (calls draw fresh both) ≡ submitted "a" both
calls-submitted_example = calls-submitted draw "a" config tt fresh both built

calls-IsWithin_example : IsWithin config (calls draw fresh both)
calls-IsWithin_example = calls-IsWithin draw config (omega arith) tt fresh both built

abbrev loaded : ContinuousEngine (Unit {0})
loaded = record fresh { pending = request "a" 1 ∷ request "b" 0 ∷ [] }

admit_ready-AdmitsWithin_example : AdmitsWithin loaded (admit_ready draw loaded).1
admit_ready-AdmitsWithin_example = admit_ready-AdmitsWithin draw loaded (omega arith) (omega arith)

abbrev sequence : String → ℕ → ActiveRequest
sequence id priority = record {
  request = request id priority;
  state = decode;
  generated_tokens = 0;
  prefix_cache_hit = false;
  first_token_at = 0;
}

abbrev crowded : ContinuousEngine (Unit {0})
crowded = record fresh {
  kv_cache = record {
    block_size_tokens = 2;
    refcounts = 1 ∷ 1 ∷ 1 ∷ 1 ∷ [];
    free_list = [];
    sequence_blocks = ("b", 2 ∷ 3 ∷ []) ∷ ("a", 0 ∷ 1 ∷ []) ∷ [];
    prefix_blocks = [];
  };
  active = sequence "a" 1 ∷ sequence "b" 0 ∷ [];
}

-- The one of lower priority gives way.
one_preempted :
    ((prepare_decode_blocks crowded).0 ≡ true)
    × (length (prepare_decode_blocks crowded).1.pending ≡ 1)
    × ((prepare_decode_blocks crowded).1.active ≡ sequence "a" 1 ∷ [])
unfolding program
one_preempted = (refl, refl, refl)

prepare_decode_blocks-Prepared_example :
    Prepared 2 (prepare_decode_blocks crowded).1
    × ((prepare_decode_blocks crowded).0 ≡ ltb 0 (length (prepare_decode_blocks crowded).1.active))
prepare_decode_blocks-Prepared_example = prepare_decode_blocks-Prepared crowded

prepare_decode_blocks_ends_example :
    ((prepare 7 crowded).0 ≡ true) × ((prepare 7 crowded).1 ≡ (prepare_decode_blocks crowded).1)
prepare_decode_blocks_ends_example =
    prepare_decode_blocks_ends 7 crowded (record { counted = refl; distinct = tt; unique = tt })
      (omega arith)

select_victim-IsVictim_example :
    IsVictim
      (sequence "a" 1 ∷ sequence "b" 0 ∷ [])
      (select_victim (sequence "a" 1 ∷ sequence "b" 0 ∷ []))
select_victim-IsVictim_example =
    select_victim-IsVictim (sequence "a" 1 ∷ sequence "b" 0 ∷ []) (omega arith)

calls-IsSound_example : IsSound 4 (calls draw fresh both).prefix_cache
calls-IsSound_example = calls-IsSound draw config tt fresh both built

abbrev reserved : ℕ → Reservation
reserved fuel =
    reserve_prompt fuel (request "a" 1) 2 ("a" ∷ []) none fresh.prefix_cache fresh.kv_cache

reserve_prompt_ends_example : ((reserved 1).ended ≡ true) × (reserved 5 ≡ reserved 1)
reserve_prompt_ends_example =
    reserve_prompt_ends 5 (request "a" 1) 2 ("a" ∷ []) none fresh.prefix_cache fresh.kv_cache
      (record { counted = refl; distinct = tt; unique = tt }) (omega arith)
