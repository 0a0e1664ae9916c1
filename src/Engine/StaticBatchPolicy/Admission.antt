-- ===== src/Engine/StaticBatchPolicy/Admission.antt =====
-- Which requests the batch policy (static_batch_policy.cpp) selects.
use infer_sched_distributed.Base.{
  ℕ, ◌+◌, ◌-◌, ◌≤◌, ◌<◌, ◌≡◌, inl, inr, refl, arith, Bool, true, false, List, [], ◌∷◌, ◌++◌, length,
  length-append, All-append_one, mem, map, ltb, ◌==◌, if◌then◌else◌, All, if_elim, Bool-cases,
  subst,
}
use infer_sched_distributed.Engine.StaticBatchPolicy.{
  PendingRequest, StaticBatchPolicy, earlier, indexed, insert_stable, sort_stable, Selection,
  request_tokens, oversized, consider, consider_all, selection,
}

abbrev pub total_tokens : List (ℕ × PendingRequest) → ℕ
total_tokens [] = 0
total_tokens (e ∷ es) = request_tokens e.1 + total_tokens es

abbrev pub chosen : Selection → ℕ → Bool
chosen s index = mem index (map (λ e. e.0) s.selected)

-- Why a request is not in the batch, if it is not.
pub data Fate (policy : StaticBatchPolicy) (now : ℕ) (s : Selection) (e : ℕ × PendingRequest)
    : Type 0 where
  in_batch : chosen s e.0 ≡ true → Fate policy now s e
  not_arrived : now < e.1.arrival_time → Fate policy now s e
  too_large : policy.max_batch_tokens < request_tokens e.1 → Fate policy now s e
  batch_full : length s.selected ≡ policy.max_batch_sequences → Fate policy now s e
  no_tokens_left :
      policy.max_batch_tokens < s.token_count + request_tokens e.1 → Fate policy now s e

total_tokens-append :
    (xs ys : List (ℕ × PendingRequest))
    → total_tokens (xs ++ ys) ≡ total_tokens xs + total_tokens ys
total_tokens-append [] ys = omega arith
total_tokens-append (x ∷ xs) ys = omega (arith, total_tokens-append xs ys)

mem-append_left :
    (i : ℕ) (xs ys : List (ℕ × PendingRequest))
    → mem i (map (λ e. e.0) xs) ≡ true
    → mem i (map (λ e. e.0) (xs ++ ys)) ≡ true
mem-append_left i [] ys h = absurd (ground (arith, h))
mem-append_left i (x ∷ xs) ys h = ground (arith, h, mem-append_left i xs ys)

mem_last :
    (e : ℕ × PendingRequest) (xs : List (ℕ × PendingRequest))
    → mem e.0 (map (λ f. f.0) (xs ++ e ∷ [])) ≡ true
mem_last e [] = ground arith
mem_last e (x ∷ xs) = ground (arith, mem_last e xs)

-- What the loop keeps.
pub record IsAdmissible (policy : StaticBatchPolicy) (now : ℕ) (s : Selection) : Type 0 where
  pub within_sequences : length s.selected ≤ policy.max_batch_sequences
  pub within_tokens : s.token_count ≤ policy.max_batch_tokens
  pub counted : s.token_count ≡ total_tokens s.selected
  pub arrived : All (λ e. e.1.arrival_time ≤ now) s.selected
  pub full_if_stopped : s.stopped ≡ true → length s.selected ≡ policy.max_batch_sequences

-- What one turn of the loop does to the selection, and to the request it looks at.
record Considered (policy : StaticBatchPolicy) (now : ℕ) (s : Selection) (e : ℕ × PendingRequest)
    (t : Selection) : Type 0 where
  admissible : IsAdmissible policy now t
  fate : Fate policy now t e
  keeps : (i : ℕ) → chosen s i ≡ true → chosen t i ≡ true
  grows : s.token_count ≤ t.token_count
  lengthens : length s.selected ≤ length t.selected

oversized_iff :
    (policy : StaticBatchPolicy) (p : PendingRequest)
    → oversized policy p ≡ true
    → policy.max_batch_tokens < request_tokens p
unfolding oversized
oversized_iff policy p h = ground (arith, h)

module _ (policy : StaticBatchPolicy) (now : ℕ) where
  unchanged :
      (s : Selection) (e : ℕ × PendingRequest)
      → IsAdmissible policy now s
      → Fate policy now s e
      → Considered policy now s e s
  unchanged s e a f = record {
    admissible = a;
    fate = f;
    keeps = λ i h. h;
    grows = omega arith;
    lengthens = omega arith;
  }

  consider-Considered :
      (s : Selection) (e : ℕ × PendingRequest)
      → IsAdmissible policy now s
      → Considered policy now s e (consider policy now s e)
  unfolding consider
  consider-Considered s e a =
      if_elim (Considered policy now s e) s.stopped
        (λ stop. unchanged s e a (batch_full (a.full_if_stopped stop)))
        (λ going.
          if_elim (Considered policy now s e) (ltb now e.1.arrival_time)
            (λ late. unchanged s e a (not_arrived (ground (arith, late))))
            (λ here.
              if_elim (Considered policy now s e) (oversized policy e.1)
                (λ big. unchanged s e a (too_large (oversized_iff policy e.1 big)))
                (λ fits.
                  if_elim (Considered policy now s e)
                    (length s.selected == policy.max_batch_sequences)
                    (λ full. record {
                      admissible = record {
                        within_sequences = a.within_sequences;
                        within_tokens = a.within_tokens;
                        counted = a.counted;
                        arrived = a.arrived;
                        full_if_stopped = λ h. ground (arith, full);
                      };
                      fate = batch_full (ground (arith, full));
                      keeps = λ i h. h;
                      grows = omega arith;
                      lengthens = omega arith;
                    })
                    (λ spare.
                      if_elim (Considered policy now s e)
                        (ltb (policy.max_batch_tokens - s.token_count) (request_tokens e.1))
                        (λ over.
                          unchanged s e a (no_tokens_left (ground (arith, over, a.within_tokens))))
                        (λ room. record {
                          admissible = record {
                            within_sequences = ground (
                              arith,
                              spare,
                              a.within_sequences,
                              length-append s.selected (e ∷ []),
                            );
                            within_tokens = ground (arith, room, a.within_tokens);
                            counted =
                                omega (arith, a.counted, total_tokens-append s.selected (e ∷ []));
                            arrived =
                                All-append_one (λ f. f.1.arrival_time ≤ now) s.selected e a.arrived
                                  (ground (arith, here));
                            full_if_stopped = λ h. absurd (ground (arith, h, going));
                          };
                          fate = in_batch (mem_last e s.selected);
                          keeps = λ i h. mem-append_left i s.selected (e ∷ []) h;
                          grows = omega arith;
                          lengthens = omega (arith, length-append s.selected (e ∷ []));
                        })))))

  later-Fate :
      (s t : Selection) (e f : ℕ × PendingRequest)
      → Considered policy now s f t
      → Fate policy now s e
      → Fate policy now t e
  later-Fate s t e f c (in_batch h) = in_batch (c.keeps e.0 h)
  later-Fate s t e f c (not_arrived h) = not_arrived h
  later-Fate s t e f c (too_large h) = too_large h
  later-Fate s t e f c (batch_full h) =
      batch_full (omega (arith, h, c.lengthens, c.admissible.within_sequences))
  later-Fate s t e f c (no_tokens_left h) = no_tokens_left (omega (arith, h, c.grows))

  still-Fate :
      (s : Selection) (e : ℕ × PendingRequest) (es : List (ℕ × PendingRequest))
      → IsAdmissible policy now s
      → Fate policy now s e
      → Fate policy now (consider_all policy now s es) e
  unfolding consider_all
  still-Fate s e [] a h = h
  still-Fate s e (f ∷ fs) a h =
      let c = consider-Considered s f a in
      still-Fate (consider policy now s f) e fs c.admissible
        (later-Fate s (consider policy now s f) e f c h)

  consider_all-Fate :
      (s : Selection) (es : List (ℕ × PendingRequest))
      → IsAdmissible policy now s
      → IsAdmissible policy now (consider_all policy now s es)
        × All (Fate policy now (consider_all policy now s es)) es
  unfolding consider_all
  consider_all-Fate s [] a = (a, tt)
  consider_all-Fate s (e ∷ es) a =
      let c = consider-Considered s e a in
      let rest = consider_all-Fate (consider policy now s e) es c.admissible in
      (rest.0, (still-Fate (consider policy now s e) e es c.admissible c.fate, rest.1))

  All-insert_stable :
      (P : ℕ × PendingRequest → Type 0) (e : ℕ × PendingRequest) (fs : List (ℕ × PendingRequest))
      → All P (insert_stable now e fs)
      → P e × All P fs
  unfolding insert_stable
  All-insert_stable P e [] h = h
  All-insert_stable P e (f ∷ fs) h = elim (Bool-cases (earlier now f.1 e.1)) [
    | inl first ↦
        let g : All P (f ∷ insert_stable now e fs) =
          subst (λ b. All P (if b then f ∷ insert_stable now e fs else e ∷ f ∷ fs)) first h in
        let rest = All-insert_stable P e fs g.1 in (rest.0, (g.0, rest.1))
    | inr last ↦ subst (λ b. All P (if b then f ∷ insert_stable now e fs else e ∷ f ∷ fs)) last h
  ]

  All-sort_stable :
      (P : ℕ × PendingRequest → Type 0) (es : List (ℕ × PendingRequest))
      → All P (sort_stable now es)
      → All P es
  unfolding sort_stable
  All-sort_stable P [] h = tt
  All-sort_stable P (e ∷ es) h =
      let rest = All-insert_stable P e (sort_stable now es) h in
      (rest.0, All-sort_stable P es rest.1)

  -- A batch has no more sequences and no more tokens than the policy allows, and only requests that
  -- have arrived; and each pending request is in it, or has not arrived, or has more tokens than
  -- any batch may have, or the batch has all its sequences, or the request's tokens no longer fit.
  pub selection-IsAdmissible :
      (pending : List PendingRequest)
      → IsAdmissible policy now (selection policy pending now)
        × All (Fate policy now (selection policy pending now)) (indexed 0 pending)
  unfolding selection
  selection-IsAdmissible pending =
      let r =
        consider_all-Fate (record { selected = []; token_count = 0; stopped = false })
          (sort_stable now (indexed 0 pending))
          (record {
            within_sequences = omega arith;
            within_tokens = omega arith;
            counted = refl;
            arrived = tt;
            full_if_stopped = λ h. absurd (ground (arith, h));
          }) in
      (
        r.0,
        All-sort_stable (Fate policy now (selection policy pending now)) (indexed 0 pending) r.1,
      )
