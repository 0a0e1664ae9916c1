-- ===== src/Engine/ContinuousEngine/Iterations.antt =====
-- `RunOneIteration` and `RunUntilIdle` of `ContinuousEngine` (continuous_engine.cpp).
use infer_sched_distributed.Base.{
  ℕ, zero, suc, ◌+◌, ◌-◌, Bool, true, ◌&&◌, List, [], ◌∷◌, Option, none, some, ◌==◌, if◌then◌else◌,
  length, map,
}
use infer_sched_distributed.Engine.CostModel.{decode_step}
use infer_sched_distributed.Engine.EngineConfig.{advance_clock}
use infer_sched_distributed.Engine.RequestQueue.{EngineRequest, next_arrival}
use infer_sched_distributed.Engine.ContinuousEngine.State.{
  ContinuousEngine, ActiveRequest, submit, clear_caches,
}
use infer_sched_distributed.Engine.ContinuousEngine.Scan.{admit_ready}
use infer_sched_distributed.Engine.ContinuousEngine.Decoding.{
  prepare_decode_blocks, complete_finished,
}

-- One more token, and its time if it is the first.
abbrev pub generate : ℕ → ActiveRequest → ActiveRequest
generate now a = record a {
  generated_tokens = a.generated_tokens + 1;
  first_token_at = if a.generated_tokens + 1 == 1 then now else a.first_token_at;
}

-- The public operations that change the state; `RunUntilIdle` with its fuel.
pub data Call : Type 0 where
  submit_request : EngineRequest → Call
  iterate : Call
  run_to_idle : ℕ → Call
  drop_caches : Call

module _ {ℓ} {G : Type ℓ} (draw : G → ℕ → Bool × ℕ × G) where
  -- The decode step of all active sequences.
  unfoldable pub decode_all : ContinuousEngine G → ContinuousEngine G
  decode_all e =
      let (cost, random) = decode_step draw e.config.cost_model e.random (length e.active) in
      let now = advance_clock e.now cost in
      record e {
        random = random;
        now = now;
        active = map (generate now) e.active;
        stats = record e.stats {
          simulated_busy_time = e.stats.simulated_busy_time + cost;
          iterations = e.stats.iterations + 1;
        };
      }

  abbrev pub forget_preempted : ContinuousEngine G → ContinuousEngine G
  forget_preempted e = record e {
    preempted_requests = if length e.active == 0 then [] else e.preempted_requests;
  }

  unfoldable pub run_one_iteration : ContinuousEngine G → Bool × ContinuousEngine G
  run_one_iteration e =
      let (progressed, admitted) = admit_ready draw (forget_preempted e) in
      let completed = complete_finished admitted in
      let (ready, prepared) = prepare_decode_blocks completed in
      if length completed.active == 0
      then (progressed, completed)
      else if ready
      then (true, complete_finished (decode_all prepared))
      else (progressed, prepared)

  -- How the loop of `RunUntilIdle` goes on: an arrival yet to come moves the clock.
  abbrev pub wake : Bool → ContinuousEngine G → Option (ContinuousEngine G)
  wake progressed e = if progressed then some e else elim (next_arrival e.pending) [
    | none ↦ none
    | some arrival ↦ some (record e { now = advance_clock e.now (arrival - e.now) })
  ]

  -- `RunUntilIdle`, on fuel.
  unfoldable pub run_until_idle : ℕ → ContinuousEngine G → ContinuousEngine G
  run_until_idle zero e = e
  run_until_idle (suc fuel) e =
      let (progressed, e') = run_one_iteration e in
      if length e.pending == 0 && length e.active == 0
      then e
      else elim (wake progressed e') [ none ↦ e' | some awake ↦ run_until_idle fuel awake ]

  unfoldable pub call : ContinuousEngine G → Call → ContinuousEngine G
  call e (submit_request request) = submit e request
  call e iterate = (run_one_iteration e).1
  call e (run_to_idle fuel) = run_until_idle fuel e
  call e drop_caches = clear_caches e

  unfoldable pub calls : ContinuousEngine G → List Call → ContinuousEngine G
  calls e [] = e
  calls e (c ∷ cs) = calls (call e c) cs
