-- ===== src/Engine/ContinuousEngine/Limits.antt =====
-- The limits of a batch that `AdmitReady` (continuous_engine.cpp) respects.
use infer_sched_distributed.Base.{
  ℕ, zero, suc, ◌+◌, ◌-◌, ◌≤◌, ◌<◌, ◌≡◌, refl, sym, ap, ◌∙◌, arith, Bool, false, List, [], ◌∷◌,
  ◌++◌, length, length-append, if_elim, Option-cases, inl, inr, ltb, ◌==◌, is_some, u64_mod,
  append_assoc, append-nil,
}
use infer_sched_distributed.Engine.EngineConfig.{EngineConfig, build_result_cache_key}
use infer_sched_distributed.Engine.RequestQueue.{EngineRequest, pop_ready}
use infer_sched_distributed.Engine.ResultCache.{get as cached_result}
use infer_sched_distributed.Engine.ContinuousEngine.State.{
  ContinuousEngine, ActiveRequest, size_minus, impossible_reason,
}
use infer_sched_distributed.Engine.ContinuousEngine.Admission.{
  Admission, Reservation, active_of, is_allocated,
}
use infer_sched_distributed.Engine.ContinuousEngine.Scan.{
  start, settle, admit, serve, over_budget, waits_for_idle, consider, scan, admit_ready,
}
use infer_sched_distributed.Engine.ContinuousEngine.Frames.{start-Starts}

abbrev pub prompt_tokens : List ActiveRequest → ℕ
prompt_tokens [] = 0
prompt_tokens (a ∷ active) = a.request.prompt_tokens + prompt_tokens active

prompt_tokens-append :
    (xs ys : List ActiveRequest) → prompt_tokens (xs ++ ys) ≡ prompt_tokens xs + prompt_tokens ys
prompt_tokens-append [] ys = omega arith
prompt_tokens-append (x ∷ xs) ys = omega (arith, prompt_tokens-append xs ys)

-- What `AdmitReady` adds to the sequences `before` stays within the limits of `c`.
pub record Fits {ℓ} {G : Type ℓ} (c : EngineConfig) (before : List ActiveRequest) (a : Admission G)
    : Type ℓ where
  pub config : a.engine.config ≡ c
  pub admitted : List ActiveRequest
  pub active : a.engine.active ≡ before ++ admitted
  pub budget : prompt_tokens admitted ≡ a.prefill_budget
  pub sequences : length admitted ≡ a.prefill_sequences
  pub tokens_fit : prompt_tokens admitted ≤ c.max_batch_tokens
  pub prefills_fit : length admitted ≤ c.max_prefill_sequences_per_iteration
  pub batch_fits : length (before ++ admitted) ≤ c.max_batch_sequences

-- The tests of the loop have passed for a candidate.
record Room {ℓ} {G : Type ℓ} (c : EngineConfig) (a : Admission G) (r : EngineRequest) : Type ℓ where
  tokens : a.prefill_budget + r.prompt_tokens ≤ c.max_batch_tokens
  prefills : a.prefill_sequences < c.max_prefill_sequences_per_iteration
  batch : length a.engine.active < c.max_batch_sequences

module _ {ℓ} {G : Type ℓ} (draw : G → ℕ → Bool × ℕ × G) (c : EngineConfig)
    (before : List ActiveRequest) where
  moved :
      (a b : Admission G)
      → Fits c before a
      → b.engine.config ≡ a.engine.config
      → b.engine.active ≡ a.engine.active
      → b.prefill_budget ≡ a.prefill_budget
      → b.prefill_sequences ≡ a.prefill_sequences
      → Fits c before b
  moved a b f config active budget sequences = record {
    config = config ∙ f.config;
    admitted = f.admitted;
    active = active ∙ f.active;
    budget = f.budget ∙ sym budget;
    sequences = f.sequences ∙ sym sequences;
    tokens_fit = f.tokens_fit;
    prefills_fit = f.prefills_fit;
    batch_fits = f.batch_fits;
  }

  start-Fits :
      (a : Admission G) (r : EngineRequest) (blocks : ℕ) (res : Reservation)
      → Fits c before a
      → Room c a r
      → Fits c before (start draw a r blocks res)
  start-Fits a r blocks res f room =
      let s = start-Starts draw a r blocks res in
      let added = active_of r (is_some res.found) ∷ [] in
      record {
        config = s.config ∙ f.config;
        admitted = f.admitted ++ added;
        active = s.active ∙ ap (λ l. l ++ added) f.active ∙ append_assoc before f.admitted added;
        budget = omega (arith, prompt_tokens-append f.admitted added, s.budget, f.budget);
        sequences = omega (arith, length-append f.admitted added, s.sequences, f.sequences);
        tokens_fit = omega (arith, prompt_tokens-append f.admitted added, f.budget, room.tokens);
        prefills_fit = omega (arith, length-append f.admitted added, f.sequences, room.prefills);
        batch_fits = omega (
          arith,
          length-append before (f.admitted ++ added),
          length-append f.admitted added,
          length-append before f.admitted,
          ap length f.active,
          room.batch,
        );
      }

  settle-Fits :
      (a : Admission G) (r : EngineRequest) (blocks : ℕ) (res : Reservation)
      → Fits c before a
      → Room c a r
      → Fits c before (settle draw a r blocks res)
  unfolding settle
  settle-Fits a r blocks res f room =
      if_elim (Fits c before) (is_allocated res.status) (λ h. start-Fits a r blocks res f room)
        (λ h. moved a _ f refl refl refl refl)

  serve-Fits :
      (a : Admission G) (r : EngineRequest)
      → Fits c before a
      → Room c a r
      → Fits c before (serve draw a r)
  unfolding serve admit
  serve-Fits a r f room =
      elim (Option-cases (cached_result a.engine.result_cache (build_result_cache_key r)).0) [
        | inl e ↦
            rw (e, serve)
              (settle-Fits _ r _ _ (moved a _ f refl refl refl refl)
                (record { tokens = room.tokens; prefills = room.prefills; batch = room.batch }))
        | inr (cached, e) ↦ rw (e, serve) (moved a _ f refl refl refl refl)
      ]

  size_minus_exact : (a b : ℕ) → b ≤ a → a < u64_mod → size_minus a b ≡ a - b
  size_minus_exact a b h k = ground (arith, h, k)

  under_budget :
      (a : Admission G) (r : EngineRequest)
      → Fits c before a
      → c.max_batch_tokens < u64_mod
      → over_budget draw a r ≡ false
      → a.prefill_budget + r.prompt_tokens ≤ c.max_batch_tokens
  under_budget a r f wide h =
      let tokens : a.engine.config.max_batch_tokens ≡ c.max_batch_tokens =
        ap (λ (x : EngineConfig). x.max_batch_tokens) f.config in
      let left = a.engine.config.max_batch_tokens - a.prefill_budget in
      ground (
        arith,
        h,
        wide,
        tokens,
        f.budget,
        f.tokens_fit,
        size_minus_exact a.engine.config.max_batch_tokens a.prefill_budget,
        size_minus_exact left (length a.engine.active),
      )

  consider-Fits :
      (a : Admission G) (r : EngineRequest)
      → Fits c before a
      → c.max_batch_tokens < u64_mod
      → length a.engine.active < c.max_batch_sequences
      → Fits c before (consider draw a r).1
  unfolding consider
  consider-Fits a r f wide short =
      elim (Option-cases (impossible_reason a.engine.config a.engine.kv_cache r)) [
        | inl e ↦
            rw (e, consider)
              (if_elim (λ (x : Bool × Admission G). Fits c before x.1) (waits_for_idle draw a r)
                (λ h. moved a _ f refl refl refl refl)
                (λ h.
                  if_elim (λ (x : Bool × Admission G). Fits c before x.1)
                    (a.prefill_sequences == a.engine.config.max_prefill_sequences_per_iteration)
                    (λ k. moved a _ f refl refl refl refl)
                    (λ k.
                      if_elim (λ (x : Bool × Admission G). Fits c before x.1) (over_budget draw a r)
                        (λ g. moved a _ f refl refl refl refl)
                        (λ g. serve-Fits a r f (record {
                          tokens = under_budget a r f wide g;
                          prefills = ground (
                            arith,
                            k,
                            f.prefills_fit,
                            f.sequences,
                            ap (λ (x : EngineConfig). x.max_prefill_sequences_per_iteration)
                                f.config,
                          );
                          batch = short;
                        })))))
        | inr (reason, e) ↦ rw (e, consider) (moved a _ f refl refl refl refl)
      ]

  scan-Fits :
      (limit : ℕ) (a : Admission G)
      → Fits c before a
      → c.max_batch_tokens < u64_mod
      → Fits c before (scan draw limit a)
  unfolding scan
  scan-Fits zero a f wide = f
  scan-Fits (suc limit) a f wide =
      if_elim (Fits c before) (ltb (length a.engine.active) a.engine.config.max_batch_sequences)
        (λ h. elim (Option-cases (pop_ready a.engine.pending a.engine.now).0) [
          | inl e ↦ rw e f
          | inr (r, e) ↦
              let popped : Admission G = record a {
                engine = record a.engine { pending = (pop_ready a.engine.pending a.engine.now).1 };
              } in
              let turn =
                consider-Fits popped r (moved a popped f refl refl refl refl) wide
                  (ground (arith, h, ap (λ (x : EngineConfig). x.max_batch_sequences) f.config)) in
              rw e (
                if_elim (Fits c before) (consider draw popped r).0
                  (λ k. scan-Fits limit (consider draw popped r).1 turn wide) (λ k. turn))
        ])
        (λ h. f)

-- `e'` has the sequences of `e` and then those that were admitted, within the limits of the batch.
pub record AdmitsWithin {ℓ} {G : Type ℓ} (e e' : ContinuousEngine G) : Type ℓ where
  pub config : e'.config ≡ e.config
  pub admitted : List ActiveRequest
  pub active : e'.active ≡ e.active ++ admitted
  pub tokens_fit : prompt_tokens admitted ≤ e.config.max_batch_tokens
  pub prefills_fit : length admitted ≤ e.config.max_prefill_sequences_per_iteration
  pub batch_fits : length e'.active ≤ e.config.max_batch_sequences

-- `AdmitReady`, on an engine with at most `max_batch_sequences` active sequences, keeps them in
-- their order and adds new ones behind, so that at most `max_batch_sequences` are active; the new
-- ones are at most `max_prefill_sequences_per_iteration`, and their prompts have together at most
-- `max_batch_tokens` tokens, where that limit fits `std::size_t`.
pub admit_ready-AdmitsWithin {ℓ} :
    {G : Type ℓ} (draw : G → ℕ → Bool × ℕ × G) (e : ContinuousEngine G)
    → length e.active ≤ e.config.max_batch_sequences
    → e.config.max_batch_tokens < u64_mod
    → AdmitsWithin e (admit_ready draw e).1
unfolding admit_ready
admit_ready-AdmitsWithin draw e h wide =
    let f =
      scan-Fits draw e.config e.active (length e.pending)
        (record {
          engine = e;
          deferred = [];
          prefill_budget = 0;
          prefill_sequences = 0;
          admitted_any = false;
        })
        (record {
          config = refl;
          admitted = [];
          active = sym (append-nil e.active);
          budget = refl;
          sequences = refl;
          tokens_fit = omega arith;
          prefills_fit = omega arith;
          batch_fits = omega (arith, h, ap length (append-nil e.active));
        })
        wide in
    record {
      config = f.config;
      admitted = f.admitted;
      active = f.active;
      tokens_fit = f.tokens_fit;
      prefills_fit = f.prefills_fit;
      batch_fits = omega (arith, f.batch_fits, ap length f.active);
    }
