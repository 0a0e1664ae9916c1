-- ===== src/Distributed/EngineService/Attempts.antt =====
-- Which dispatches the engine service (engine_service.cpp) accepts: fences only ever advance.
use infer_sched_distributed.Base.{
  ℕ, ◌<◌, ◌≡◌, refl, sym, ap, subst, ◌∙◌, arith, Bool, true, false, List, [], ◌∷◌, Option, none,
  some, String, length, leb, if◌then◌else◌, if_elim, Bool-cases, Option-cases, inl, inr, lookup,
  insert_or_assign, text_discrete, lookup-insert_or_assign_self, lookup-insert_or_assign_ne,
  same_text, same_text_iff,
}
use infer_sched_distributed.Distributed.Messages.{DispatchRequest, DispatchEvent, accepted}
use infer_sched_distributed.Distributed.EngineService.{
  Job, EngineService, init, with_epoch, reserve, validate_and_reserve, acknowledge, dispatch,
  cancel, supersede, drain, collect, execute, retire, respond, stale_epoch, stale_attempt,
  in_flight,
}
use infer_sched_distributed.Distributed.EngineService.Flights.{
  Action, dispatches, cancels, drains, collects, executes, retires, responds, step,
}

-- The two kinds of answer of `ValidateAndReserve`.
pub data Validated (s : EngineService) (d : DispatchRequest) (job : Job)
    : String × EngineService → Type 0 where
  refused_early : (reason : String) → same_text reason "" ≡ false → Validated s d job (reason, s)
  refused_late :
      (reason : String)
      → same_text reason "" ≡ false
      → stale_epoch s d ≡ false
      → Validated s d job (reason, with_epoch s d)
  reserved :
      s.draining ≡ false
      → stale_epoch s d ≡ false
      → stale_attempt s d ≡ false
      → Validated s d job ("", reserve (with_epoch s d) d job)

pub validate_and_reserve-Validated :
    (s : EngineService) (d : DispatchRequest) (job : Job)
    → Validated s d job (validate_and_reserve s d job)
unfolding validate_and_reserve text_discrete
validate_and_reserve-Validated s d job =
    let P = Validated s d job in
    if_elim P s.draining (λ h. refused_early "draining" refl)
      (λ going.
        if_elim P (leb s.queue_capacity (length s.queue)) (λ h. refused_early "queue_full" refl)
          (λ room.
            if_elim P (stale_epoch s d) (λ h. refused_early "stale_ownership_epoch" refl)
              (λ fresh.
                if_elim P (stale_attempt s d)
                  (λ h. refused_late "stale_or_duplicate_attempt" refl fresh)
                  (λ newer.
                    if_elim P (in_flight s d)
                      (λ h. refused_late "request_already_in_flight" refl fresh)
                      (λ idle. reserved going fresh newer)))))

abbrev pub is_accepted : DispatchEvent → Bool
is_accepted accepted = true
is_accepted _ = false

-- The request and the attempt that an action gets accepted.
abbrev pub accepts : EngineService → Action → Option (String × ℕ)
accepts s (dispatches d written) =
    if is_accepted (dispatch s d written).0
    then some (d.request.request_id, d.fence.attempt_id)
    else none
accepts s _ = none

-- The attempts accepted for a request, in order.
unfoldable pub accepted_attempts : String → EngineService → List Action → List ℕ
accepted_attempts id s [] = []
accepted_attempts id s (action ∷ actions) =
    let later = accepted_attempts id (step s action) actions in
    elim (accepts s action) [
      | none ↦ later
      | some (request, attempt) ↦ if same_text request id then attempt ∷ later else later
    ]

-- Above the last accepted attempt, if there is one.
abbrev pub Above : Option ℕ → ℕ → Type 0
Above none n = Unit
Above (some m) n = m < n

abbrev pub Rising : Option ℕ → List ℕ → Type 0
Rising last [] = Unit
Rising last (n ∷ ns) = Above last n × Rising (some n) ns

abbrev last_attempt : String → EngineService → Option ℕ
last_attempt id s = lookup text_discrete id s.request_attempts

-- What an action does to the last attempt of a request.
data Recorded (id : String) (s : EngineService) : Option (String × ℕ) → EngineService → Type 0 where
  nothing : {t : EngineService} → last_attempt id t ≡ last_attempt id s → Recorded id s none t
  another :
      {t : EngineService} {request : String} {n : ℕ}
      → same_text request id ≡ false
      → last_attempt id t ≡ last_attempt id s
      → Recorded id s (some (request, n)) t
  attempt :
      {t : EngineService} {request : String} {n : ℕ}
      → same_text request id ≡ true
      → Above (last_attempt id s) n
      → last_attempt id t ≡ some n
      → Recorded id s (some (request, n)) t

newer-Above :
    (s : EngineService) (d : DispatchRequest) (id : String)
    → d.request.request_id ≡ id
    → stale_attempt s d ≡ false
    → Above (last_attempt id s) d.fence.attempt_id
unfolding stale_attempt
newer-Above s d id same newer = elim (Option-cases (last_attempt d.request.request_id s)) [
  | inl e ↦ subst (λ k. Above (last_attempt k s) d.fence.attempt_id) same (rw e tt)
  | inr (n, e) ↦
      subst (λ k. Above (last_attempt k s) d.fence.attempt_id) same
        (rw e (ground (arith, newer, e)))
]

pub empty_text : same_text "" "" ≡ true
unfolding text_discrete
empty_text = refl

-- The attempt that a reservation records.
reserve-Recorded :
    (id : String) (s t : EngineService) (d : DispatchRequest)
    → stale_attempt s d ≡ false
    → t.request_attempts
      ≡ insert_or_assign text_discrete d.request.request_id d.fence.attempt_id s.request_attempts
    → Recorded id s (some (d.request.request_id, d.fence.attempt_id)) t
reserve-Recorded id s t d newer e =
    let at : last_attempt id t
        ≡ lookup text_discrete id (
            insert_or_assign text_discrete d.request.request_id d.fence.attempt_id
              s.request_attempts) =
      ap (λ m. lookup text_discrete id m) e in
    elim (Bool-cases (same_text d.request.request_id id)) [
      | inl same ↦
          let is_id : d.request.request_id ≡ id = (same_text_iff d.request.request_id id).0 same in
          attempt same (newer-Above s d id is_id newer) (
            at
            ∙ ap
                (λ k. lookup text_discrete k (
                  insert_or_assign text_discrete d.request.request_id d.fence.attempt_id
                    s.request_attempts))
                (sym is_id)
            ∙ lookup-insert_or_assign_self text_discrete d.request.request_id d.fence.attempt_id
                s.request_attempts)
      | inr other ↦ another other (
          at
          ∙ lookup-insert_or_assign_ne text_discrete d.request.request_id id d.fence.attempt_id
              s.request_attempts
              (λ e. ground (arith, other, (same_text_iff d.request.request_id id).1 e)))
    ]

acknowledge-Recorded :
    (id : String) (s : EngineService) (d : DispatchRequest) (job : Job) (written : Bool)
    (r : String × EngineService)
    → Validated s d job r
    → Recorded id s
        (if is_accepted (acknowledge job written r).0
          then some (d.request.request_id, d.fence.attempt_id)
          else none)
        (acknowledge job written r).1
unfolding acknowledge reserve
acknowledge-Recorded id s d job written (_, _) (refused_early reason no_text) =
    rw (acknowledge, no_text) (nothing refl)
acknowledge-Recorded id s d job written (_, _) (refused_late reason no_text fresh) =
    rw (acknowledge, no_text) (nothing refl)
acknowledge-Recorded id s d job written (_, _) (reserved going fresh newer) =
    rw (acknowledge, empty_text)
      (if_elim (Recorded id s (some (d.request.request_id, d.fence.attempt_id))) written
        (λ h. reserve-Recorded id s _ d newer refl) (λ h. reserve-Recorded id s _ d newer refl))

step-Recorded :
    (id : String) (s : EngineService) (action : Action)
    → Recorded id s (accepts s action) (step s action)
unfolding step
step-Recorded id s (dispatches d written) =
    let job : Job = record { job_id = length s.cells; dispatch = d } in
    unfold dispatch in
    acknowledge-Recorded id s d job written (validate_and_reserve s d job)
      (validate_and_reserve-Validated s d job)
step-Recorded id s (cancels d) =
    nothing {t = (cancel s d).1} (unfold cancel supersede in ground arith)
step-Recorded id s drains = nothing {t = drain s} (unfold drain in refl)
step-Recorded id s collects = nothing {t = collect s} (unfold collect in ground arith)
step-Recorded id s (executes results free) =
    nothing {t = execute s results free} (unfold execute in ground arith)
step-Recorded id s retires = nothing {t = retire s} (unfold retire in ground arith)
step-Recorded id s (responds job) = nothing {t = (respond s job).1} (unfold respond in ground arith)

record_attempts :
    (id : String) (s t : EngineService) (actions : List Action) (o : Option (String × ℕ))
    → Recorded id s o t
    → Rising (last_attempt id t) (accepted_attempts id t actions)
    → Rising (last_attempt id s) (elim o [
      | none ↦ accepted_attempts id t actions
      | some (request, n) ↦
          if same_text request id
          then n ∷ accepted_attempts id t actions
          else accepted_attempts id t actions
    ])
record_attempts id s t actions none (nothing e) h =
    subst (λ o. Rising o (accepted_attempts id t actions)) e h
record_attempts id s t actions (some _) (another other e) h =
    rw other (subst (λ o. Rising o (accepted_attempts id t actions)) e h)
record_attempts id s t actions (some _) (attempt same above e) h =
    rw same (above, subst (λ o. Rising o (accepted_attempts id t actions)) e h)

attempts-Rising :
    (id : String) (s : EngineService) (actions : List Action)
    → Rising (last_attempt id s) (accepted_attempts id s actions)
unfolding accepted_attempts
attempts-Rising id s [] = tt
attempts-Rising id s (action ∷ actions) =
    record_attempts id s (step s action) actions (accepts s action) (step-Recorded id s action)
      (attempts-Rising id (step s action) actions)

-- However the actions interleave, the attempts of a request that a new service accepts rise
-- strictly: no attempt is accepted twice, and none after a newer one.
pub accepted_attempts-Rising :
    (queue_capacity kv_blocks : ℕ) (actions : List Action) (id : String)
    → Rising none (accepted_attempts id (init queue_capacity kv_blocks) actions)
unfolding init lookup
accepted_attempts-Rising queue_capacity kv_blocks actions id =
    attempts-Rising id (init queue_capacity kv_blocks) actions
