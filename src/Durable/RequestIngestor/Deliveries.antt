-- ===== src/Durable/RequestIngestor/Deliveries.antt =====
-- Repeated deliveries of a message to the ingestor (request_ingestor.cpp).
use infer_sched_distributed.Base.{
  ℕ, zero, suc, ◌+◌, ◌≤◌, ◌<◌, ◌≡◌, refl, ap, arith, Bool, true, false, List, [], ◌∷◌, ◌++◌, ◌||◌,
  Option, none, some, String, if◌then◌else◌, u64_mod, lookup, insert_or_assign, is_some, if_elim,
  Option-cases, inl, inr, replicate, lookup-insert_or_assign_self, text_discrete, ◌∙◌,
}
use infer_sched_distributed.Durable.Store.{Tables, ingest, outbox_insert, position_taken}
use infer_sched_distributed.Durable.Store.Queries.{record_poison, poison_has}
use infer_sched_distributed.Durable.RequestIngestor.{
  IngestOutcome, inserted, duplicate, retry_parse, poison_recorded, SourcePosition,
  position_discrete, RequestIngestor, next_attempt, forget, request_id_of, handle,
}

record_poison-poison_has :
    (hex : String → String) (t : Tables) (partition offset : ℕ) (payload error : String)
    → poison_has partition offset
        (record_poison hex t partition offset payload error).1.poison_messages
      ≡ true
unfolding record_poison poison_has outbox_insert
record_poison-poison_has hex t partition offset payload error = ground arith

module _ (parse : String → Option String) (hex : String → String) where
  -- The same message delivered `n` times: the outcomes, the ingestor and the tables.
  unfoldable pub deliver :
      ℕ
      → RequestIngestor
      → Tables
      → SourcePosition
      → String
      → List IngestOutcome × RequestIngestor × Tables
  deliver zero ingestor t position payload = ([], ingestor, t)
  deliver (suc n) ingestor t position payload =
      let (outcome, ingestor', t') = handle parse hex ingestor t position payload in
      let (outcomes, ingestor'', t'') = deliver n ingestor' t' position payload in
      (outcome ∷ outcomes, ingestor'', t'')

  attempts_of : RequestIngestor → SourcePosition → ℕ
  attempts_of ingestor position = elim (lookup position_discrete position ingestor.parse_attempts) [
    | none ↦ 0
    | some n ↦ n
  ]

  next_attempt-attempts_of :
      (ingestor : RequestIngestor) (position : SourcePosition)
      → attempts_of ingestor position + 1 < u64_mod
      → next_attempt ingestor position ≡ attempts_of ingestor position + 1
  unfolding next_attempt attempts_of
  next_attempt-attempts_of ingestor position small =
      elim (Option-cases (lookup position_discrete position ingestor.parse_attempts)) [
        | inl e ↦ rw (next_attempt, attempts_of, e) refl
        | inr (n, e) ↦ rw (next_attempt, attempts_of, e) (ground (arith, small, e))
      ]

  pub noted : RequestIngestor → SourcePosition → RequestIngestor
  noted ingestor position = record ingestor {
    parse_attempts =
        insert_or_assign position_discrete position (next_attempt ingestor position)
          ingestor.parse_attempts;
  }

  attempts_of-noted :
      (ingestor : RequestIngestor) (position : SourcePosition)
      → attempts_of (noted ingestor position) position ≡ next_attempt ingestor position
  unfolding attempts_of noted
  attempts_of-noted ingestor position =
      ap (λ o. elim o [ none ↦ 0 | some n ↦ n ])
        (lookup-insert_or_assign_self position_discrete position (next_attempt ingestor position)
          ingestor.parse_attempts)

  pub handle_retry :
      (ingestor : RequestIngestor) (t : Tables) (position : SourcePosition) (payload : String)
      → request_id_of parse payload ≡ none
      → next_attempt ingestor position < ingestor.max_parse_retries
      → handle parse hex ingestor t position payload ≡ (retry_parse, noted ingestor position, t)
  unfolding handle noted
  handle_retry ingestor t position payload bad few = rw (handle, bad) (ground arith)

  handle_poison :
      (ingestor : RequestIngestor) (t : Tables) (position : SourcePosition) (payload : String)
      → request_id_of parse payload ≡ none
      → ingestor.max_parse_retries ≤ next_attempt ingestor position
      → handle parse hex ingestor t position payload ≡ (
        poison_recorded,
        forget (noted ingestor position) position,
        (record_poison hex t position.partition position.offset payload
            "invalid_inference_request").1,
      )
  unfolding handle noted forget
  handle_poison ingestor t position payload bad many = rw (handle, bad) (ground arith)

  -- A malformed message that has failed `k` times and may fail `n` times more.
  retries :
      (n k : ℕ) (ingestor : RequestIngestor) (t : Tables) (position : SourcePosition)
      (payload : String)
      → request_id_of parse payload ≡ none
      → attempts_of ingestor position ≡ k
      → k + suc n ≡ ingestor.max_parse_retries
      → ingestor.max_parse_retries < u64_mod
      → ((deliver (suc n) ingestor t position payload).0
          ≡ replicate n retry_parse ++ poison_recorded ∷ [])
        × (poison_has position.partition position.offset
              (deliver (suc n) ingestor t position payload).2.poison_messages
            ≡ true)
  unfolding deliver noted
  retries zero k ingestor t position payload bad at left small =
      rw
        (handle_poison ingestor t position payload bad
          (omega (arith, at, left, next_attempt-attempts_of ingestor position (omega arith))))
        (
          refl,
          record_poison-poison_has hex t position.partition position.offset payload
              "invalid_inference_request",
        )
  retries (suc n) k ingestor t position payload bad at left small =
      let step = next_attempt-attempts_of ingestor position (omega arith) in
      let rest =
        retries n (suc k) (noted ingestor position) t position payload bad
          (attempts_of-noted ingestor position ∙ omega (arith, step, at)) (omega arith) small in
      rw (handle_retry ingestor t position payload bad (omega (arith, step, at, left)))
        (ap (λ l. retry_parse ∷ l) rest.0, rest.1)

  -- A payload that does not parse, or has an empty request id, at a position that has not failed
  -- before: of `max_parse_retries` deliveries all but the last are answered with a retry, and
  -- the last one records the position as poison. The bound is positive and fits `std::size_t`.
  pub deliver_malformed :
      (n : ℕ) (ingestor : RequestIngestor) (t : Tables) (position : SourcePosition)
      (payload : String)
      → request_id_of parse payload ≡ none
      → lookup position_discrete position ingestor.parse_attempts ≡ none
      → ingestor.max_parse_retries ≡ suc n
      → suc n < u64_mod
      → ((deliver (suc n) ingestor t position payload).0
          ≡ replicate n retry_parse ++ poison_recorded ∷ [])
        × (poison_has position.partition position.offset
              (deliver (suc n) ingestor t position payload).2.poison_messages
            ≡ true)
  unfolding attempts_of
  deliver_malformed n ingestor t position payload bad fresh bound small =
      retries n 0 ingestor t position payload bad (rw (attempts_of, fresh) refl) (omega arith)
        (omega arith)

  handle_parsed :
      (ingestor : RequestIngestor) (t : Tables) (position : SourcePosition) (payload id : String)
      → request_id_of parse payload ≡ some id
      → handle parse hex ingestor t position payload ≡ (
        if (ingest t id position.partition position.offset payload).0 then inserted else duplicate,
        forget ingestor position,
        (ingest t id position.partition position.offset payload).1,
      )
  unfolding handle
  handle_parsed ingestor t position payload id good = rw (handle, good) refl

  ingest_twice :
      (t : Tables) (id payload : String) (partition offset : ℕ)
      → ingest (ingest t id partition offset payload).1 id partition offset payload
        ≡ (false, (ingest t id partition offset payload).1)
  unfolding ingest position_taken
  ingest_twice t id payload partition offset =
      if_elim (λ (r : Bool × Tables). ingest r.1 id partition offset payload ≡ (false, r.1))
        (is_some (lookup text_discrete id t.inference_requests)
          || position_taken partition offset t.inference_requests)
        (λ taken. ground (arith, taken)) (λ free. ground arith)

  redelivered :
      (n : ℕ) (ingestor : RequestIngestor) (t : Tables) (position : SourcePosition)
      (payload id : String)
      → request_id_of parse payload ≡ some id
      → ingest t id position.partition position.offset payload ≡ (false, t)
      → ((deliver n ingestor t position payload).0 ≡ replicate n duplicate)
        × ((deliver n ingestor t position payload).2 ≡ t)
  unfolding deliver
  redelivered zero ingestor t position payload id good known = (refl, refl)
  redelivered (suc n) ingestor t position payload id good known =
      let rest = redelivered n (forget ingestor position) t position payload id good known in
      rw (handle_parsed ingestor t position payload id good, known)
        (ap (λ l. duplicate ∷ l) rest.0, rest.1)

  -- A payload with a request id, delivered once and then `n` times more: each later delivery is
  -- answered as a duplicate, and the tables stay as the first one left them.
  pub deliver_redelivered :
      (n : ℕ) (ingestor : RequestIngestor) (t : Tables) (position : SourcePosition)
      (payload id : String)
      → request_id_of parse payload ≡ some id
      → ((deliver (suc n) ingestor t position payload).0
          ≡ (handle parse hex ingestor t position payload).0 ∷ replicate n duplicate)
        × ((deliver (suc n) ingestor t position payload).2
            ≡ (handle parse hex ingestor t position payload).2)
  unfolding deliver
  deliver_redelivered n ingestor t position payload id good =
      let first = ingest t id position.partition position.offset payload in
      let rest =
        redelivered n (forget ingestor position) first.1 position payload id good
          (ingest_twice t id payload position.partition position.offset) in
      rw (handle_parsed ingestor t position payload id good)
        (ap (λ l. (if first.0 then inserted else duplicate) ∷ l) rest.0, rest.1)
