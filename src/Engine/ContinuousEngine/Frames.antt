-- ===== src/Engine/ContinuousEngine/Frames.antt =====
-- What the steps of `AdmitReady` (continuous_engine.cpp) leave alone.
use infer_sched_distributed.Base.{
  ℕ, ◌≡◌, refl, Bool, List, [], ◌∷◌, ◌++◌, String, is_some, if_elim, ◌∙◌, ◌+◌, ap,
}
use infer_sched_distributed.Engine.RequestQueue.{EngineRequest}
use infer_sched_distributed.Engine.ContinuousEngine.State.{ContinuousEngine}
use infer_sched_distributed.Engine.ContinuousEngine.Admission.{
  Admission, Reservation, account_prefix, remember_prefix, active_of,
}
use infer_sched_distributed.Engine.ContinuousEngine.Scan.{start}

pub record Keeps {ℓ} {G : Type ℓ} (e e' : ContinuousEngine G) : Type ℓ where
  pub config : e'.config ≡ e.config
  pub pending : e'.pending ≡ e.pending
  pub active : e'.active ≡ e.active
  pub results : e'.results ≡ e.results

abbrev kept {ℓ} : {G : Type ℓ} {e : ContinuousEngine G} → Keeps e e
kept = record { config = refl; pending = refl; active = refl; results = refl }

pub account_prefix-Keeps {ℓ} :
    {G : Type ℓ} (e : ContinuousEngine G) (r : EngineRequest) (hashes : List String) (hit : Bool)
    → Keeps e (account_prefix e r hashes hit)
unfolding account_prefix
account_prefix-Keeps e r hashes hit =
    if_elim (Keeps e) _ (λ h. kept)
      (λ h. record { config = refl; pending = refl; active = refl; results = refl })

pub remember_prefix-Keeps {ℓ} :
    {G : Type ℓ} (e : ContinuousEngine G) (r : EngineRequest) (blocks : ℕ)
    → Keeps e (remember_prefix e r blocks)
unfolding remember_prefix
remember_prefix-Keeps e r blocks =
    if_elim (Keeps e) _ (λ h. kept)
      (λ h. record { config = refl; pending = refl; active = refl; results = refl })

-- An admitted request is active from then on.
pub record Starts {ℓ} {G : Type ℓ} (a a' : Admission G) (r : EngineRequest) (hit : Bool)
    : Type ℓ where
  pub config : a'.engine.config ≡ a.engine.config
  pub pending : a'.engine.pending ≡ a.engine.pending
  pub active : a'.engine.active ≡ a.engine.active ++ active_of r hit ∷ []
  pub results : a'.engine.results ≡ a.engine.results
  pub deferred : a'.deferred ≡ a.deferred
  pub budget : a'.prefill_budget ≡ a.prefill_budget + r.prompt_tokens
  pub sequences : a'.prefill_sequences ≡ a.prefill_sequences + 1

module _ {ℓ} {G : Type ℓ} (draw : G → ℕ → Bool × ℕ × G) where
  pub start-Starts :
      (a : Admission G) (candidate : EngineRequest) (blocks : ℕ) (r : Reservation)
      → Starts a (start draw a candidate blocks r) candidate (is_some r.found)
  unfolding start
  start-Starts a candidate blocks r =
      let k =
        account_prefix-Keeps (record a.engine { prefix_cache = r.prefixes; kv_cache = r.kv })
          candidate _ (is_some r.found) in
      let q = remember_prefix-Keeps _ candidate blocks in
      record {
        config = q.config ∙ k.config;
        pending = q.pending ∙ k.pending;
        active = ap (λ l. l ++ active_of candidate (is_some r.found) ∷ []) (q.active ∙ k.active);
        results = q.results ∙ k.results;
        deferred = refl;
        budget = refl;
        sequences = refl;
      }
