-- ===== src/Engine/EngineConfig.antt =====
-- What both engines share: the configuration, results and `FakeClock` of
-- cpp/include/infersched/engine/deterministic_engine.hpp and fake_clock.hpp, and the key of
-- cpp/src/result_cache_key.cpp.
use Prim.Native.String.{len}
use infer_sched_distributed.Base.{
  ℕ, ◌+◌, ◌/◌, ◌%◌, Bool, String, concat, to_string, ltb, ◌==◌, if◌then◌else◌,
}
use infer_sched_distributed.Engine.CostModel.{CostModelConfig}
use infer_sched_distributed.Engine.RequestQueue.{EngineRequest}

pub record EngineConfig : Type 0 where
  pub kv_blocks : ℕ
  pub kv_block_size_tokens : ℕ
  pub max_batch_sequences : ℕ
  pub max_batch_tokens : ℕ
  pub max_prefill_sequences_per_iteration : ℕ
  pub result_cache_entries : ℕ
  pub prefix_cache_entries : ℕ
  pub seed : ℕ
  pub cost_model : CostModelConfig

pub record EngineResult : Type 0 where
  pub request_id : String
  pub output : String
  pub completed_at : ℕ
  pub first_token_at : ℕ
  pub result_cache_hit : Bool
  pub prefix_cache_hit : Bool
  pub succeeded : Bool
  pub failure_reason : String

-- `FakeClock::Advance`; a duration that is not positive changes nothing.
unfoldable pub advance_clock : ℕ → ℕ → ℕ
advance_clock now delta = if ltb 0 delta then now + delta else now

unfoldable pub blocks_for_tokens : ℕ → ℕ → ℕ
blocks_for_tokens tokens block_size =
    tokens / block_size + (if tokens % block_size == 0 then 0 else 1)

-- `AppendPart`: the length, `:`, the text and `|`.
unfoldable pub append_part : String → String → String
append_part output value =
    concat output (concat (to_string (len value)) (concat ":" (concat value "|")))

unfoldable pub build_result_cache_key : EngineRequest → String
unfolding append_part
build_result_cache_key r =
    concat
      (append_part (append_part (append_part "" r.model_revision) r.tokenizer_revision)
        r.prompt_hash)
      (concat (concat (to_string r.max_output_tokens) "|") (
        concat (concat (to_string r.temperature_micros) "|")
          (concat (concat (to_string r.top_p_micros) "|") (to_string r.sampling_seed))))

unfoldable pub simulated_output : EngineRequest → String
simulated_output r = concat "simulated:" (
    concat r.model_revision (
      concat ":" (
        concat r.prompt_hash (
          concat ":"
            (concat (to_string r.max_output_tokens) (concat ":" (to_string r.sampling_seed)))))))
