-- ===== src/Durable/DurableRouter/Posted.antt =====
-- What the stages of a durable router (durable_router_main.cpp) do to the outbox.
use infer_sched_distributed.Base.{
  ℕ, ◌≡◌, refl, arith, List, [], ◌∷◌, Option, String, Option-cases, Bool-cases, inl, inr, if_elim,
  ltb,
}
use infer_sched_distributed.Distributed.Messages.{InferenceRequest}
use infer_sched_distributed.Durable.Store.{
  Tables, Fence, acquire_partition, assign_attempt, finalize,
}
use infer_sched_distributed.Durable.Store.Published.{
  Keeps, Posted, Posted-Keeps, kept, mark_published-Posted, acquire_partition-Posted, ingest-Posted,
  assign_attempt-Posted, finalize-Posted, record_poison-Posted,
}
use infer_sched_distributed.Durable.RequestIngestor.{
  RequestIngestor, SourcePosition, handle, request_id_of, IngestOutcome, next_attempt,
}
use infer_sched_distributed.Durable.DurableRouter.{
  Work, Stage, Router, result_envelope, acquiring, handling, assigning, finalizing, relaying,
  looping, popping, stopped, crashed, recovering, redispatching, owning, checking_terminal,
  executing, dispatching, publishing, checking_published, marking,
}
use infer_sched_distributed.Durable.DurableRouter.Loop.{
  delivered, Answer, proceed, acquire, handle_message, assign, finish, report,
}

module _ (ids : List ℕ) where
  handle-Posted :
      (parse : String → Option String) (hex : String → String) (ingestor : RequestIngestor)
      (t : Tables) (position : SourcePosition) (payload : String)
      → Posted ids t.outbox (handle parse hex ingestor t position payload).2.outbox
  unfolding handle
  handle-Posted parse hex ingestor t position payload =
      elim (Option-cases (request_id_of parse payload)) [
        | inl e ↦
            rw (handle, e)
              (if_elim
                (λ (x : IngestOutcome × RequestIngestor × Tables). Posted ids t.outbox x.2.outbox)
                (ltb (next_attempt ingestor position) ingestor.max_parse_retries) (λ _. kept refl)
                (λ _.
                  record_poison-Posted ids hex t position.partition position.offset payload
                    "invalid_inference_request"))
        | inr (id, e) ↦
            rw (handle, e) (ingest-Posted ids t id position.partition position.offset payload)
      ]

module _ (parse : String → Option InferenceRequest) (hex : String → String)
    (router_id engine_id : String) (expected : ℕ) where
  acquire-Posted :
      (ids : List ℕ) (r : Router) (t : Tables) (partition : ℕ) (partitions : List ℕ)
      → Posted ids t.outbox
          (acquire parse hex router_id engine_id expected r t partition partitions).1.outbox
  unfolding acquire
  acquire-Posted ids r t partition partitions =
      let same : (acquire parse hex router_id engine_id expected r t partition partitions).1
          ≡ (acquire_partition t partition router_id).1 =
        ground arith in
      rw same (acquire_partition-Posted ids t partition router_id)

  assign-Posted :
      (ids : List ℕ) (r : Router) (t : Tables) (work : Work) (request : InferenceRequest)
      (partition epoch : ℕ)
      → Posted ids t.outbox
          (assign parse hex router_id engine_id expected r t work request partition epoch).1.outbox
  unfolding assign
  assign-Posted ids r t work request partition epoch =
      let same : (assign parse hex router_id engine_id expected r t work request partition epoch).1
          ≡ (assign_attempt t request.request_id partition epoch engine_id).1 =
        ground arith in
      rw same (assign_attempt-Posted ids t request.request_id partition epoch engine_id)

  finish-Posted :
      (ids : List ℕ) (r : Router) (t : Tables) (work : Work) (request : InferenceRequest)
      (fence : Fence) (result : String)
      → Posted ids t.outbox
          (finish parse hex router_id engine_id expected r t work request fence result).1.outbox
  unfolding finish
  finish-Posted ids r t work request fence result =
      let same : (finish parse hex router_id engine_id expected r t work request fence result).1
          ≡ (finalize t request.request_id fence (result_envelope request fence result)).1 =
        ground arith in
      rw same
        (finalize-Posted ids t request.request_id fence (result_envelope request fence result))

  -- A row is marked only when `Publish` has just answered true for it.
  pub proceed-Posted :
      (ids : List ℕ) (r : Router) (t : Tables) (a : Answer) (stage : Stage)
      → Posted
          (report a stage ids)
          t.outbox
          (proceed parse hex router_id engine_id expected r t a stage).1.outbox
  unfolding proceed report
  proceed-Posted ids r t a (acquiring (partition ∷ partitions)) =
      acquire-Posted ids r t partition partitions
  proceed-Posted ids r t a (handling message) =
      unfold handle_message in handle-Posted ids _ _ _ _ _ _
  proceed-Posted ids r t a (assigning work request partition epoch) =
      assign-Posted ids r t work request partition epoch
  proceed-Posted ids r t a (finalizing work request fence result) =
      finish-Posted ids r t work request fence result
  proceed-Posted ids r t a (relaying work (row ∷ rows)) = elim (Bool-cases (delivered a)) [
    | inl e ↦ let one = mark_published-Posted (row.id ∷ ids) t row.id (ground arith) in rw e one
    | inr e ↦ rw e (kept refl)
  ]
  proceed-Posted ids r t a looping = kept refl
  proceed-Posted ids r t a popping = kept refl
  proceed-Posted ids r t a stopped = kept refl
  proceed-Posted ids r t a crashed = kept refl
  proceed-Posted ids r t a recovering = kept refl
  proceed-Posted ids r t a (acquiring []) = kept refl
  proceed-Posted ids r t a (redispatching []) = kept refl
  proceed-Posted ids r t a (redispatching (row ∷ rows)) = kept refl
  proceed-Posted ids r t a (owning message) = kept refl
  proceed-Posted ids r t a (checking_terminal message request) = kept refl
  proceed-Posted ids r t a (executing work request partition) = kept refl
  proceed-Posted ids r t a (dispatching work request fence) = kept refl
  proceed-Posted ids r t a (publishing work) = kept refl
  proceed-Posted ids r t a (relaying work []) = kept refl
  proceed-Posted ids r t a (checking_published message counts) = kept refl
  proceed-Posted ids r t a (marking message counts) = kept refl

  pub proceed-Keeps :
      (r : Router) (t : Tables) (a : Answer) (stage : Stage)
      → Keeps t (proceed parse hex router_id engine_id expected r t a stage).1
  proceed-Keeps r t a stage =
      Posted-Keeps _ t (proceed parse hex router_id engine_id expected r t a stage).1
        (proceed-Posted [] r t a stage)
