-- ===== src/Engine/CostModel/Tests.antt =====
-- Witnesses for the cost model (cost_model.cpp), with a generator that draws the lower bound.
use infer_sched_distributed.Base.{ℕ, ◌≡◌, ◌+◌, refl, Bool, true, ok}
use infer_sched_distributed.Engine.CostModel.{
  CostModelConfig, init, saturating_cost, delta, adjusted, apply_jitter, prefill,
}

abbrev lowest : ℕ → ℕ → Bool × ℕ × ℕ
lowest g bound = (true, bound, g + 1)

-- The defaults of the source, with a jitter of one percent.
abbrev config : CostModelConfig
config = record {
  prefill_fixed = 10000;
  prefill_per_token = 1000;
  decode_fixed = 5000;
  decode_per_sequence = 2000;
  jitter_basis_points = 100;
}

base_accepted : init lowest config 0 ≡ ok (config, 0)
unfolding init
base_accepted = refl

cheaper : (prefill lowest config 0 20).0 ≡ 29700
unfolding prefill apply_jitter saturating_cost adjusted delta
cheaper = refl
