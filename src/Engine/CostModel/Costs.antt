-- ===== src/Engine/CostModel/Costs.antt =====
-- What the cost model (cost_model.cpp) answers: exact costs, cut at the largest duration, within
-- the configured jitter.
use Prim.Native.Nat.{ℕ, zero, suc}
use native.Mathlib.Nat.{
  div-lt_iff_lt-mul, div-add-mod, div-mul-le_self, mul-le-mul_left, le-div_iff_mul-le, mul_comm,
  zero-mul, add-mul, mul_assoc,
}
use infer_sched_distributed.Base.{
  ok, ◌+◌, ◌-◌, ◌*◌, ◌/◌, ◌%◌, ◌≤◌, ◌<◌, ◌≡◌, sym, ap, arith, Bool, min, ltb, ◌==◌, ◌||◌, if_elim,
  Bool-cases, inl, inr,
}
use infer_sched_distributed.Engine.CostModel.{
  rep_max, CostModelConfig, init, saturating_cost, delta, adjusted, apply_jitter, prefill,
  decode_step,
}

-- With a fixed part that is a duration, the cost is the sum that exact arithmetic gives, or the
-- largest duration where that is less.
saturating_cost-min :
    (fixed per_unit units : ℕ)
    → fixed ≤ rep_max
    → saturating_cost fixed per_unit units ≡ min rep_max (fixed + per_unit * units)
unfolding saturating_cost
saturating_cost-min fixed zero units fits = ground (arith, zero-mul units)
saturating_cost-min fixed (suc p) units fits =
    elim (Bool-cases (ltb ((rep_max - fixed) / suc p) units)) [
      | inl over ↦
          let beyond =
            (div-lt_iff_lt-mul {k = suc p} {x = rep_max - fixed} {y = units} (omega arith)).0
              (ground (arith, over)) in
          ground (arith, over, beyond, mul_comm (suc p) units)
      | inr within ↦
          let below : units * suc p ≤ rep_max - fixed =
            (le-div_iff_mul-le {k = suc p} {x = units} {y = rep_max - fixed} (omega arith)).0
              (ground (arith, within)) in
          ground (arith, within, below, mul_comm (suc p) units)
    ]

-- The adjustment is no more than the share `magnitude / 10000` of the base.
delta-le : (base magnitude : ℕ) → delta base magnitude * 10000 ≤ base * magnitude
unfolding delta
delta-le base magnitude = omega (
  arith,
  div-mul-le_self (base % 10000 * magnitude) 10000,
  add-mul (10000 * (base / 10000)) (base % 10000) magnitude,
  mul_assoc 10000 (base / 10000) magnitude,
  ap (λ b. b * magnitude) (div-add-mod base 10000),
)

-- Between the base less and more a share of `basis_points / 10000`, and a duration.
pub record Within (base basis_points r : ℕ) : Type 0 where
  pub not_above : r * 10000 ≤ base * 10000 + base * basis_points
  pub not_below : base * 10000 ≤ r * 10000 + base * basis_points
  pub is_duration : r ≤ rep_max

adjusted-Within :
    (base basis_points magnitude : ℕ) (negative : Bool)
    → base ≤ rep_max
    → basis_points ≤ 10000
    → magnitude ≤ basis_points
    → Within base basis_points (adjusted base negative magnitude)
unfolding adjusted
adjusted-Within base basis_points magnitude negative fits small drawn =
    let share : delta base magnitude * 10000 ≤ base * basis_points =
      omega (arith, delta-le base magnitude, mul-le-mul_left base drawn) in
    let below : delta base magnitude ≤ base = omega (arith, share, mul-le-mul_left base small) in
    if_elim (Within base basis_points) negative
      (λ less. record {
        not_above = omega (arith, share, below);
        not_below = omega (arith, share, below);
        is_duration = omega (arith, fits);
      })
      (λ more.
        if_elim (Within base basis_points) (ltb (rep_max - base) (delta base magnitude))
          (λ over.
            let past : rep_max - base < delta base magnitude = ground (arith, over) in
            record {
              not_above = omega (arith, share, past, fits);
              not_below = omega (arith, share, past, fits);
              is_duration = omega arith;
            })
          (λ room.
            let inside : delta base magnitude ≤ rep_max - base = ground (arith, room) in
            record {
              not_above = omega (arith, share, inside);
              not_below = omega (arith, share, inside);
              is_duration = omega (arith, inside, fits);
            }))

module _ {ℓ} {G : Type ℓ} (draw : G → ℕ → Bool × ℕ × G) where
  apply_jitter-Within :
      (config : CostModelConfig) (random : G) (base : ℕ)
      → ((g : G) (bound : ℕ) → (draw g bound).1 ≤ bound)
      → config.jitter_basis_points ≤ 10000
      → base ≤ rep_max
      → Within base config.jitter_basis_points (apply_jitter draw config random base).0
  unfolding apply_jitter
  apply_jitter-Within config random base bounded small fits =
      if_elim (λ (r : ℕ × G). Within base config.jitter_basis_points r.0)
        (config.jitter_basis_points == 0 || base == rep_max)
        (λ same. record { not_above = omega arith; not_below = omega arith; is_duration = fits })
        (λ jittered.
          adjusted-Within base config.jitter_basis_points (draw random config.jitter_basis_points).1
            (draw random config.jitter_basis_points).0 fits small
            (bounded random config.jitter_basis_points))

  accepted-small :
      (config : CostModelConfig) (random : G)
      → init draw config random ≡ ok (config, random)
      → config.jitter_basis_points ≤ 10000
  unfolding init
  accepted-small config random e = ground (arith, e)

  -- With a configuration that the constructor accepts and a generator that stays in its bounds,
  -- the cost of a prefill differs from the exact one, cut at the largest duration, by the share
  -- `jitter_basis_points / 10000` at most, and is no more than the largest duration.
  prefill-Within :
      (config : CostModelConfig) (random : G) (tokens : ℕ)
      → ((g : G) (bound : ℕ) → (draw g bound).1 ≤ bound)
      → init draw config random ≡ ok (config, random)
      → config.prefill_fixed ≤ rep_max
      → Within
          (min rep_max (config.prefill_fixed + config.prefill_per_token * tokens))
          config.jitter_basis_points
          (prefill draw config random tokens).0
  unfolding prefill
  prefill-Within config random tokens bounded accepted fits =
      rw (sym (saturating_cost-min config.prefill_fixed config.prefill_per_token tokens fits)) (
        apply_jitter-Within config random
          (saturating_cost config.prefill_fixed config.prefill_per_token tokens) bounded
          (accepted-small config random accepted)
          (omega
            (arith, saturating_cost-min config.prefill_fixed config.prefill_per_token tokens fits)))

  -- With a configuration that the constructor accepts and a generator that stays in its bounds,
  -- the cost of a decoding step differs from the exact one, cut at the largest duration, by the
  -- share `jitter_basis_points / 10000` at most, and is no more than the largest duration.
  decode_step-Within :
      (config : CostModelConfig) (random : G) (sequences : ℕ)
      → ((g : G) (bound : ℕ) → (draw g bound).1 ≤ bound)
      → init draw config random ≡ ok (config, random)
      → config.decode_fixed ≤ rep_max
      → Within
          (min rep_max (config.decode_fixed + config.decode_per_sequence * sequences))
          config.jitter_basis_points
          (decode_step draw config random sequences).0
  unfolding decode_step
  decode_step-Within config random sequences bounded accepted fits =
      rw (sym (saturating_cost-min config.decode_fixed config.decode_per_sequence sequences fits)) (
        apply_jitter-Within config random
          (saturating_cost config.decode_fixed config.decode_per_sequence sequences) bounded
          (accepted-small config random accepted)
          (omega (
            arith,
            saturating_cost-min config.decode_fixed config.decode_per_sequence sequences fits,
          )))
