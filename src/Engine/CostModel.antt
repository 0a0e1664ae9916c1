-- ===== src/Engine/CostModel.antt =====
-- `DeterministicCostModel`: cpp/include/infersched/engine/cost_model.hpp and
-- cpp/src/cost_model.cpp. Durations are nanoseconds in a signed 64-bit integer; the constructor
-- refuses negative ones, so they are natural numbers here. `draw` stands for the standard library's
-- generator and distribution: of a number between minus its bound and its bound, whether it is
-- negative, and its magnitude.
pub mod Costs
mod Tests
use infer_sched_distributed.Base.{
  ℕ, ◌+◌, ◌-◌, ◌*◌, ◌/◌, ◌%◌, ◌^◌, Bool, ◌||◌, ◌&&◌, Result, ok, invalid_argument, ltb, ◌==◌,
  if◌then◌else◌,
}

-- `std::chrono::nanoseconds::max()`.
abbrev pub rep_max : ℕ
rep_max = 2 ^ 63 - 1

pub record CostModelConfig : Type 0 where
  pub prefill_fixed : ℕ
  pub prefill_per_token : ℕ
  pub decode_fixed : ℕ
  pub decode_per_sequence : ℕ
  pub jitter_basis_points : ℕ

unfoldable pub saturating_cost : ℕ → ℕ → ℕ → ℕ
saturating_cost fixed per_unit units =
    if ltb 0 per_unit && ltb ((rep_max - fixed) / per_unit) units
    then rep_max
    else fixed + per_unit * units

-- The size of the adjustment in `ApplyJitter`.
unfoldable pub delta : ℕ → ℕ → ℕ
delta base magnitude = base / 10000 * magnitude + base % 10000 * magnitude / 10000

unfoldable pub adjusted : ℕ → Bool → ℕ → ℕ
adjusted base negative magnitude =
    if negative
    then base - delta base magnitude
    else if ltb (rep_max - base) (delta base magnitude)
    then rep_max
    else base + delta base magnitude

module _ {ℓ} {G : Type ℓ} (draw : G → ℕ → Bool × ℕ × G) where
  unfoldable pub init : CostModelConfig → G → Result (CostModelConfig × G)
  init config random =
      if ltb 10000 config.jitter_basis_points
      then invalid_argument "invalid cost model configuration"
      else ok (config, random)

  unfoldable pub apply_jitter : CostModelConfig → G → ℕ → ℕ × G
  apply_jitter config random base =
      let (negative, magnitude, random') = draw random config.jitter_basis_points in
      if config.jitter_basis_points == 0 || base == rep_max
      then (base, random)
      else (adjusted base negative magnitude, random')

  unfoldable pub prefill : CostModelConfig → G → ℕ → ℕ × G
  prefill config random uncached_prompt_tokens =
      apply_jitter config random
        (saturating_cost config.prefill_fixed config.prefill_per_token uncached_prompt_tokens)

  unfoldable pub decode_step : CostModelConfig → G → ℕ → ℕ × G
  decode_step config random active_sequences =
      apply_jitter config random
        (saturating_cost config.decode_fixed config.decode_per_sequence active_sequences)
