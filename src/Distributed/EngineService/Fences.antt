-- ===== src/Distributed/EngineService/Fences.antt =====
-- What the engine service (engine_service.cpp) refuses: older owners, and all once it drains.
use infer_sched_distributed.Base.{
  ℕ, ◌≤◌, ◌<◌, ◌≡◌, refl, sym, ap, subst, ◌∙◌, arith, Bool, true, false, List, [], ◌∷◌, Option,
  some, String, length, leb, if_elim, lookup, insert_or_assign, text_discrete, ℕ_discrete,
  same_text, same_text_iff, Bool-cases, inl, inr, lookup-insert_or_assign_self,
  lookup-insert_or_assign_ne,
}
use infer_sched_distributed.Distributed.Messages.{DispatchRequest, DispatchEvent, rejected}
use infer_sched_distributed.Distributed.EngineService.{
  Job, EngineService, with_epoch, reserve, validate_and_reserve, acknowledge, dispatch, cancel,
  supersede, drain, collect, execute, retire, respond, stale_epoch, stale_attempt, in_flight,
  drained,
}
use infer_sched_distributed.Distributed.EngineService.Flights.{
  Action, dispatches, cancels, drains, collects, executes, retires, responds, step, run, IsValid,
}
use infer_sched_distributed.Distributed.EngineService.Attempts.{
  Validated, refused_early, refused_late, reserved, validate_and_reserve-Validated, is_accepted,
  empty_text,
}

abbrev pub epoch_of : ℕ → EngineService → Option ℕ
epoch_of partition s = lookup ℕ_discrete partition s.partition_epochs

-- The service knows of `epoch` or a newer one of the partition.
pub record KnowsEpoch (partition epoch : ℕ) (s : EngineService) : Type 0 where
  pub current : ℕ
  pub known : epoch_of partition s ≡ some current
  pub newer : epoch ≤ current

fresh_epoch-le :
    (s : EngineService) (d : DispatchRequest) (current : ℕ)
    → stale_epoch s d ≡ false
    → epoch_of d.fence.partition_id s ≡ some current
    → current ≤ d.fence.ownership_epoch
unfolding stale_epoch
fresh_epoch-le s d current fresh e = ground (arith, fresh, e)

with_epoch-KnowsEpoch :
    (partition epoch : ℕ) (s t : EngineService) (d : DispatchRequest)
    → stale_epoch s d ≡ false
    → t.partition_epochs ≡ (with_epoch s d).partition_epochs
    → KnowsEpoch partition epoch s
    → KnowsEpoch partition epoch t
with_epoch-KnowsEpoch partition epoch s t d fresh e k =
    let p = d.fence.partition_id in
    let at : epoch_of partition t
        ≡ lookup ℕ_discrete partition
            (insert_or_assign ℕ_discrete p d.fence.ownership_epoch s.partition_epochs) =
      ap (λ m. lookup ℕ_discrete partition m) e in
    elim (ℕ_discrete p partition) [
      | yes same ↦ record {
        current = d.fence.ownership_epoch;
        known =
            at
            ∙ ap
                (λ q.
                  lookup ℕ_discrete q
                    (insert_or_assign ℕ_discrete p d.fence.ownership_epoch s.partition_epochs))
                (sym same)
            ∙ lookup-insert_or_assign_self ℕ_discrete p d.fence.ownership_epoch s.partition_epochs;
        newer = omega (
          arith,
          k.newer,
          fresh_epoch-le s d k.current fresh (ap (λ q. epoch_of q s) same ∙ k.known),
        );
      }
      | no other ↦ record {
        current = k.current;
        known =
            at
            ∙ lookup-insert_or_assign_ne ℕ_discrete p partition d.fence.ownership_epoch
                s.partition_epochs other
            ∙ k.known;
        newer = k.newer;
      }
    ]

acknowledge-KnowsEpoch :
    (partition epoch : ℕ) (s : EngineService) (d : DispatchRequest) (job : Job) (written : Bool)
    (r : String × EngineService)
    → Validated s d job r
    → KnowsEpoch partition epoch s
    → KnowsEpoch partition epoch (acknowledge job written r).1
unfolding acknowledge reserve
acknowledge-KnowsEpoch partition epoch s d job written (_, _) (refused_early reason no_text) k =
    rw (acknowledge, no_text) (record { current = k.current; known = k.known; newer = k.newer })
acknowledge-KnowsEpoch partition epoch s d job written (_, _) (refused_late reason no_text fresh)
      k =
    rw (acknowledge, no_text) (with_epoch-KnowsEpoch partition epoch s _ d fresh refl k)
acknowledge-KnowsEpoch partition epoch s d job written (_, _) (reserved going fresh newer) k =
    rw (acknowledge, empty_text)
      (if_elim (KnowsEpoch partition epoch) written
        (λ h. with_epoch-KnowsEpoch partition epoch s _ d fresh refl k)
        (λ h. with_epoch-KnowsEpoch partition epoch s _ d fresh refl k))

same_epochs :
    (partition epoch : ℕ) (s t : EngineService)
    → t.partition_epochs ≡ s.partition_epochs
    → KnowsEpoch partition epoch s
    → KnowsEpoch partition epoch t
same_epochs partition epoch s t e k = record {
  current = k.current;
  known = ap (λ m. lookup ℕ_discrete partition m) e ∙ k.known;
  newer = k.newer;
}

step-KnowsEpoch :
    (partition epoch : ℕ) (s : EngineService) (action : Action)
    → KnowsEpoch partition epoch s
    → KnowsEpoch partition epoch (step s action)
unfolding step
step-KnowsEpoch p e s (dispatches d written) k =
    let job : Job = record { job_id = length s.cells; dispatch = d } in
    unfold dispatch in
    acknowledge-KnowsEpoch p e s d job written (validate_and_reserve s d job)
      (validate_and_reserve-Validated s d job) k
step-KnowsEpoch p e s (cancels d) k =
    same_epochs p e s (cancel s d).1 (unfold cancel supersede in ground arith) k
step-KnowsEpoch p e s drains k = same_epochs p e s (drain s) (unfold drain in refl) k
step-KnowsEpoch p e s collects k = same_epochs p e s (collect s) (unfold collect in ground arith) k
step-KnowsEpoch p e s (executes results free) k =
    same_epochs p e s (execute s results free) (unfold execute in ground arith) k
step-KnowsEpoch p e s retires k = same_epochs p e s (retire s) (unfold retire in ground arith) k
step-KnowsEpoch p e s (responds job) k =
    same_epochs p e s (respond s job).1 (unfold respond in ground arith) k

run-KnowsEpoch :
    (partition epoch : ℕ) (s : EngineService) (actions : List Action)
    → KnowsEpoch partition epoch s
    → KnowsEpoch partition epoch (run s actions)
unfolding run
run-KnowsEpoch p e s [] k = k
run-KnowsEpoch p e s (action ∷ actions) k =
    run-KnowsEpoch p e (step s action) actions (step-KnowsEpoch p e s action k)

-- After an answer that is not early, the partition's epoch is the request's.
knows_after :
    (s : EngineService) (d : DispatchRequest) (job : Job) (written : Bool)
    (r : String × EngineService)
    → Validated s d job r
    → is_accepted (acknowledge job written r).0 ≡ true
    → KnowsEpoch d.fence.partition_id d.fence.ownership_epoch (acknowledge job written r).1
unfolding acknowledge reserve
knows_after s d job written (_, _) (refused_early reason no_text) h =
    absurd (ground (arith, no_text, h))
knows_after s d job written (_, _) (refused_late reason no_text fresh) h =
    absurd (ground (arith, no_text, h))
knows_after s d job written (_, _) (reserved going fresh newer) h =
    let known =
      lookup-insert_or_assign_self ℕ_discrete d.fence.partition_id d.fence.ownership_epoch
        s.partition_epochs in
    rw (acknowledge, empty_text)
      (if_elim (KnowsEpoch d.fence.partition_id d.fence.ownership_epoch) written
        (λ w. record { current = d.fence.ownership_epoch; known = known; newer = omega arith })
        (λ w. record { current = d.fence.ownership_epoch; known = known; newer = omega arith }))

older_refused :
    (s : EngineService) (d : DispatchRequest) (job : Job) (written : Bool)
    (r : String × EngineService) (epoch : ℕ)
    → Validated s d job r
    → KnowsEpoch d.fence.partition_id epoch s
    → d.fence.ownership_epoch < epoch
    → is_accepted (acknowledge job written r).0 ≡ false
unfolding acknowledge
older_refused s d job written (_, _) epoch (refused_early reason no_text) k older =
    rw (acknowledge, no_text) refl
older_refused s d job written (_, _) epoch (refused_late reason no_text fresh) k older =
    rw (acknowledge, no_text) refl
older_refused s d job written (_, _) epoch (reserved going fresh newer) k older =
    absurd (omega (arith, older, k.newer, fresh_epoch-le s d k.current fresh k.known))

-- Once a dispatch under an epoch of a partition has been accepted, no dispatch under an older
-- epoch of that partition is accepted, whatever happens in between.
pub older_owner_refused :
    (s : EngineService) (d d' : DispatchRequest) (written written' : Bool) (actions : List Action)
    → is_accepted (dispatch s d written).0 ≡ true
    → d'.fence.partition_id ≡ d.fence.partition_id
    → d'.fence.ownership_epoch < d.fence.ownership_epoch
    → is_accepted (dispatch (run (dispatch s d written).1 actions) d' written').0 ≡ false
unfolding dispatch
older_owner_refused s d d' written written' actions won same older =
    let job : Job = record { job_id = length s.cells; dispatch = d } in
    let k =
      knows_after s d job written (validate_and_reserve s d job)
        (validate_and_reserve-Validated s d job) won in
    let t = run (acknowledge job written (validate_and_reserve s d job)).1 actions in
    let job' : Job = record { job_id = length t.cells; dispatch = d' } in
    older_refused t d' job' written' (validate_and_reserve t d' job') d.fence.ownership_epoch
      (validate_and_reserve-Validated t d' job')
      (subst (λ p. KnowsEpoch p d.fence.ownership_epoch t) (sym same)
        (run-KnowsEpoch d.fence.partition_id d.fence.ownership_epoch _ actions k))
      older

-- What a dispatch is told: the empty text is an acceptance.
abbrev reason_of : DispatchEvent → String
reason_of (rejected reason) = reason
reason_of _ = ""

reason_of-acknowledge :
    (job : Job) (written : Bool) (r : String × EngineService)
    → reason_of (acknowledge job written r).0 ≡ r.0
unfolding acknowledge
reason_of-acknowledge job written (rejection, s) = elim (Bool-cases (same_text rejection "")) [
  | inl same ↦ rw (same, acknowledge) (sym ((same_text_iff rejection "").0 same))
  | inr other ↦ rw (other, acknowledge) refl
]

different_texts : {A : Type 0} (a b : String) → same_text a b ≡ false → a ≡ b → A
different_texts a b differ e = absurd (ground (arith, differ, (same_text_iff a b).1 e))

-- The refusal of a request in flight has recorded the epoch of the refused one.
in_flight-KnowsEpoch :
    (s : EngineService) (d : DispatchRequest) (job : Job)
    → (validate_and_reserve s d job).0 ≡ "request_already_in_flight"
    → KnowsEpoch d.fence.partition_id d.fence.ownership_epoch (validate_and_reserve s d job).1
unfolding validate_and_reserve text_discrete
in_flight-KnowsEpoch s d job =
    let P : String × EngineService → Type 0 = λ r.
      r.0 ≡ "request_already_in_flight"
      → KnowsEpoch d.fence.partition_id d.fence.ownership_epoch r.1 in
    if_elim P s.draining (λ _. different_texts _ _ refl)
      (λ _.
        if_elim P (leb s.queue_capacity (length s.queue)) (λ _. different_texts _ _ refl)
          (λ _.
            if_elim P (stale_epoch s d) (λ _. different_texts _ _ refl)
              (λ _.
                if_elim P (stale_attempt s d) (λ _. different_texts _ _ refl)
                  (λ _.
                    if_elim P (in_flight s d)
                      (λ _ _. record {
                        current = d.fence.ownership_epoch;
                        known =
                            lookup-insert_or_assign_self ℕ_discrete d.fence.partition_id
                              d.fence.ownership_epoch s.partition_epochs;
                        newer = omega arith;
                      })
                      (λ _. different_texts _ _ refl)))))

refused-KnowsEpoch :
    (partition epoch : ℕ) (job : Job) (written : Bool) (r : String × EngineService)
    → same_text r.0 "" ≡ false
    → KnowsEpoch partition epoch r.1
    → KnowsEpoch partition epoch (acknowledge job written r).1
unfolding acknowledge
refused-KnowsEpoch partition epoch job written (rejection, s) no_text k =
    rw (no_text, acknowledge) (record { current = k.current; known = k.known; newer = k.newer })

-- A dispatch that is refused because its request is in flight fences off the owners before it all
-- the same: after it no dispatch of its partition under an epoch older than its own is accepted,
-- whatever happens in between.
pub refused_retry_fences :
    (s : EngineService) (d d' : DispatchRequest) (written written' : Bool) (actions : List Action)
    → (dispatch s d written).0 ≡ rejected "request_already_in_flight"
    → d'.fence.partition_id ≡ d.fence.partition_id
    → d'.fence.ownership_epoch < d.fence.ownership_epoch
    → is_accepted (dispatch (run (dispatch s d written).1 actions) d' written').0 ≡ false
unfolding dispatch text_discrete
refused_retry_fences s d d' written written' actions refused same older =
    let job : Job = record { job_id = length s.cells; dispatch = d } in
    let answer = validate_and_reserve s d job in
    let told : answer.0 ≡ "request_already_in_flight" =
      sym (reason_of-acknowledge job written answer) ∙ ap reason_of refused in
    let no_text : same_text answer.0 "" ≡ false = ap (λ text. same_text text "") told in
    let k =
      refused-KnowsEpoch d.fence.partition_id d.fence.ownership_epoch job written answer no_text
        (in_flight-KnowsEpoch s d job told) in
    let t = run (acknowledge job written answer).1 actions in
    let job' : Job = record { job_id = length t.cells; dispatch = d' } in
    older_refused t d' job' written' (validate_and_reserve t d' job') d.fence.ownership_epoch
      (validate_and_reserve-Validated t d' job')
      (subst (λ p. KnowsEpoch p d.fence.ownership_epoch t) (sym same)
        (run-KnowsEpoch d.fence.partition_id d.fence.ownership_epoch _ actions k))
      older

-- Nothing is accepted and nothing runs.
pub record IsQuiet (s : EngineService) : Type 0 where
  pub closed : s.draining ≡ true
  pub none_queued : s.queue ≡ []
  pub none_running : s.batch ≡ []

dispatch-IsQuiet :
    (s : EngineService) (d : DispatchRequest) (written : Bool)
    → IsQuiet s
    → IsQuiet (dispatch s d written).1
unfolding dispatch acknowledge validate_and_reserve text_discrete
dispatch-IsQuiet s d written q =
    rw (dispatch, validate_and_reserve, q.closed)
      (record { closed = refl; none_queued = q.none_queued; none_running = q.none_running })

step-IsQuiet : (s : EngineService) (action : Action) → IsQuiet s → IsQuiet (step s action)
unfolding step
step-IsQuiet s (dispatches d written) q = dispatch-IsQuiet s d written q
step-IsQuiet s (cancels d) q = unfold cancel supersede in ground (arith, q)
step-IsQuiet s drains q = unfold drain in ground (arith, q)
step-IsQuiet s collects q = unfold collect in ground (arith, q)
step-IsQuiet s (executes results free) q = unfold execute in ground (arith, q)
step-IsQuiet s retires q = unfold retire in ground (arith, q)
step-IsQuiet s (responds job) q = unfold respond in ground (arith, q)

run-IsQuiet : (s : EngineService) (actions : List Action) → IsQuiet s → IsQuiet (run s actions)
unfolding run
run-IsQuiet s [] q = q
run-IsQuiet s (action ∷ actions) q = run-IsQuiet (step s action) actions (step-IsQuiet s action q)

length-zero : {A : Type 0} (xs : List A) → length xs ≡ 0 → xs ≡ []
length-zero [] h = refl
length-zero (x ∷ xs) h = absurd (omega arith)

-- Where `Drain` may answer, the answer stays true: once the service drains and its condition holds,
-- no job is queued or runs after any further actions.
pub drained-IsQuiet :
    (s : EngineService) (actions : List Action)
    → IsValid s
    → s.draining ≡ true
    → drained s ≡ true
    → IsQuiet (run s actions)
unfolding drained
drained-IsQuiet s actions v closed done = run-IsQuiet s actions (record {
  closed = closed;
  none_queued = length-zero s.queue (ground (arith, done));
  none_running = length-zero s.batch (ground (arith, done, v.counted));
})
