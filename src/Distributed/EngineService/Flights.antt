-- ===== src/Distributed/EngineService/Flights.antt =====
-- The jobs that the engine service (engine_service.cpp) has in its queue and in its batch.
mod Actions
unfoldable pub use Actions.*
use infer_sched_distributed.Base.{
  ℕ, ◌≤◌, ◌<◌, ◌≡◌, ◌≢◌, ◌⊎◌, refl, sym, ap, subst, ◌∙◌, arith, Bool, true, false, not, List, [],
  ◌∷◌, ◌++◌, none, some, String, length, leb, ◌==◌, if◌then◌else◌, if_elim, Option-cases, inl, inr,
  All, All-append_one, All-append, All-right, All-imp, All-both, length-append, append-nil,
  append_assoc, lookup, erase, insert_or_assign, text_discrete, lookup-erase_ne,
  lookup-insert_or_assign_self, lookup-insert_or_assign_ne, same_text,
}
use infer_sched_distributed.Engine.EngineConfig.{EngineResult}
use infer_sched_distributed.Distributed.Messages.{DispatchRequest, DispatchEvent}
use infer_sched_distributed.Distributed.EngineService.{
  Job, Phase, waiting, collected, executed, EngineService, request_id_of, init, holds, expired,
  in_flight, with_epoch, reserve, validate_and_reserve, acknowledge, dispatch, cancel, supersede,
  drain, collect, execute, forget_live, retire, respond, stale_epoch, stale_attempt,
}

reserve-IsValid :
    (s : EngineService) (d : DispatchRequest) (job : Job)
    → IsValid s
    → job.dispatch ≡ d
    → length s.queue < s.queue_capacity
    → in_flight s d ≡ false
    → IsValid (reserve (with_epoch s d) d job)
unfolding reserve
reserve-IsValid s d job v of_d room idle =
    let id = d.request.request_id in
    let live' = insert_or_assign text_discrete id job s.live_jobs in
    let mine : request_id_of job ≡ id = ap (λ e. e.request.request_id) of_d in
    let apart : Fresh id (held s) =
      All-imp (λ j. IsLive s.live_jobs j × (expired s j ≡ false)) (λ j. request_id_of j ≢ id)
        (held s) (λ j h. not_in_flight s d j idle h.0 h.1)
        (All-both (IsLive s.live_jobs) (λ j. expired s j ≡ false) (held s) v.live
          (held-expired s)) in
    let live_then : All (IsLive live') (held s ++ job ∷ []) =
      All-append_one (IsLive live') (held s) job
        (All-imp (λ j. IsLive s.live_jobs j × (request_id_of j ≢ id)) (IsLive live') (held s)
          (λ j h.
            lookup-insert_or_assign_ne text_discrete id (request_id_of j) job s.live_jobs
              (λ e. h.1 (sym e))
            ∙ h.0)
          (All-both (IsLive s.live_jobs) (λ j. request_id_of j ≢ id) (held s) v.live apart))
        (ap (λ k. lookup text_discrete k live') mine
          ∙ lookup-insert_or_assign_self text_discrete id job s.live_jobs) in
    let distinct_then : Distinct (held s ++ job ∷ []) =
      Distinct-append_one (held s) job v.distinct
        (subst (λ k. Fresh k (held s)) (sym mine) apart) in
    let same : held s ++ job ∷ [] ≡ s.batch ++ (s.queue ++ job ∷ []) =
      append_assoc s.batch s.queue (job ∷ []) in
    record {
      within_capacity = omega (arith, room, length-append s.queue (job ∷ []));
      counted = v.counted;
      idle = v.idle;
      live = subst (λ js. All (IsLive live') js) same live_then;
      distinct = subst (λ js. Distinct js) same distinct_then;
    }

validate_and_reserve-IsValid :
    (s : EngineService) (d : DispatchRequest) (job : Job)
    → IsValid s
    → job.dispatch ≡ d
    → IsValid (validate_and_reserve s d job).1
unfolding validate_and_reserve
validate_and_reserve-IsValid s d job v of_d =
    let kept : IsValid (with_epoch s d) = record {
      within_capacity = v.within_capacity;
      counted = v.counted;
      idle = v.idle;
      live = v.live;
      distinct = v.distinct;
    } in
    let P : String × EngineService → Type 0 = λ r. IsValid r.1 in
    if_elim P s.draining (λ h. v)
      (λ h.
        if_elim P (leb s.queue_capacity (length s.queue)) (λ k. v)
          (λ room.
            if_elim P (stale_epoch s d) (λ k. v)
              (λ k.
                if_elim P (stale_attempt s d) (λ l. kept)
                  (λ l.
                    if_elim P (in_flight s d) (λ m. kept)
                      (λ idle. reserve-IsValid s d job v of_d (ground (arith, room)) idle)))))

dispatch-IsValid :
    (s : EngineService) (d : DispatchRequest) (written : Bool)
    → IsValid s
    → IsValid (dispatch s d written).1
unfolding dispatch acknowledge
dispatch-IsValid s d written v =
    let job : Job = record { job_id = length s.cells; dispatch = d } in
    let w = validate_and_reserve-IsValid s d job v refl in
    if_elim (λ (r : DispatchEvent × EngineService). IsValid r.1)
      (not (same_text (validate_and_reserve s d job).0 "")) (λ h. ground (arith, w))
      (λ h. if_elim IsValid written (λ k. ground (arith, w)) (λ k. ground (arith, w)))

cancel-IsValid : (s : EngineService) (d : DispatchRequest) → IsValid s → IsValid (cancel s d).1
unfolding cancel supersede
cancel-IsValid s d v = elim (Option-cases (lookup text_discrete d.request.request_id s.live_jobs)) [
  | inl e ↦ rw (cancel, e) v
  | inr (job, e) ↦ rw (cancel, e) (ground (arith, v))
]

Phase-cases : (p : Phase) → (p ≡ waiting) ⊎ ((p ≡ collected) ⊎ (p ≡ executed))
Phase-cases waiting = inl refl
Phase-cases collected = inr (inl refl)
Phase-cases executed = inr (inr refl)

collect-IsValid : (s : EngineService) → IsValid s → IsValid (collect s)
unfolding collect
collect-IsValid s v = elim (Phase-cases s.phase) [
  | inl idle ↦
      rw (collect, idle)
        (if_elim IsValid (length s.queue == 0) (λ nothing. v)
          (λ some_jobs.
            let none_held : s.batch ≡ [] = v.idle idle in
            let all_queued : held s ≡ s.queue ++ [] =
              ap (λ b. b ++ s.queue) none_held ∙ sym (append-nil s.queue) in
            record {
              within_capacity = omega arith;
              counted = omega (arith, v.counted, ap length none_held);
              idle = λ e. absurd (ground (arith, e));
              live = subst (λ js. All (IsLive s.live_jobs) js) all_queued v.live;
              distinct = subst (λ js. Distinct js) all_queued v.distinct;
            }))
  | inr (inl busy) ↦ rw (collect, busy) v
  | inr (inr busy) ↦ rw (collect, busy) v
]

execute-IsValid :
    (s : EngineService) (results : List EngineResult) (free : ℕ)
    → IsValid s
    → IsValid (execute s results free)
unfolding execute
execute-IsValid s results free v = elim (Phase-cases s.phase) [
  | inl idle ↦ rw (execute, idle) v
  | inr (inl busy) ↦
      rw (execute, busy)
        (record {
          within_capacity = v.within_capacity;
          counted = v.counted;
          idle = λ e. absurd (ground (arith, e));
          live = v.live;
          distinct = v.distinct;
        })
  | inr (inr busy) ↦ rw (execute, busy) v
]

forget_one_keeps :
    (job q : Job) (live : List (String × Job))
    → request_id_of job ≢ request_id_of q
    → IsLive live q
    → IsLive
        (elim (lookup text_discrete (request_id_of job) live) [
          | none ↦ live
          | some other ↦
              if other.job_id == job.job_id
              then erase text_discrete (request_id_of job) live
              else live
        ])
        q
forget_one_keeps job q live apart h =
    elim (Option-cases (lookup text_discrete (request_id_of job) live)) [
      | inl e ↦ rw e h
      | inr (other, e) ↦ rw e (
          if_elim (λ l. IsLive l q) (other.job_id == job.job_id)
            (λ k.
              lookup-erase_ne text_discrete (request_id_of job) (request_id_of q) live apart ∙ h)
            (λ k. h))
    ]

forget_live_keeps :
    (jobs : List Job) (live : List (String × Job)) (q : Job)
    → Fresh (request_id_of q) jobs
    → IsLive live q
    → IsLive (forget_live jobs live) q
unfolding forget_live
forget_live_keeps [] live q f h = h
forget_live_keeps (job ∷ jobs) live q f h =
    forget_live_keeps jobs _ q f.1 (forget_one_keeps job q live f.0 h)

retire-IsValid : (s : EngineService) → IsValid s → IsValid (retire s)
unfolding retire
retire-IsValid s v = elim (Phase-cases s.phase) [
  | inl idle ↦ rw (retire, idle) v
  | inr (inl busy) ↦ rw (retire, busy) v
  | inr (inr busy) ↦
      rw (retire, busy)
        (record {
          within_capacity = v.within_capacity;
          counted = omega (arith, v.counted);
          idle = λ e. refl;
          live =
              All-imp (λ q. Fresh (request_id_of q) s.batch × IsLive s.live_jobs q)
                (IsLive (forget_live s.batch s.live_jobs)) s.queue
                (λ q h. forget_live_keeps s.batch s.live_jobs q h.0 h.1)
                (All-both (λ q. Fresh (request_id_of q) s.batch) (IsLive s.live_jobs) s.queue
                  (Distinct-apart s.batch s.queue v.distinct)
                  (All-right (IsLive s.live_jobs) s.batch s.queue v.live));
          distinct = Distinct-right s.batch s.queue v.distinct;
        })
]

pub step-IsValid : (s : EngineService) (action : Action) → IsValid s → IsValid (step s action)
unfolding step
step-IsValid s (dispatches d written) v = dispatch-IsValid s d written v
step-IsValid s (cancels d) v = cancel-IsValid s d v
step-IsValid s drains v = unfold drain in ground (arith, v)
step-IsValid s collects v = collect-IsValid s v
step-IsValid s (executes results free) v = execute-IsValid s results free v
step-IsValid s retires v = retire-IsValid s v
step-IsValid s (responds job) v = unfold respond in ground (arith, v)

run_from-IsValid : (s : EngineService) (actions : List Action) → IsValid s → IsValid (run s actions)
unfolding run
run_from-IsValid s [] v = v
run_from-IsValid s (action ∷ actions) v =
    run_from-IsValid (step s action) actions (step-IsValid s action v)

-- However dispatches, cancellations, drains and the worker's parts interleave, a new service never
-- has two jobs of one request in its queue and its batch, `live_jobs_` names each of these jobs,
-- the queue keeps to its capacity, and `running_jobs_` is the number of jobs in the batch.
pub single_flight :
    (queue_capacity kv_blocks : ℕ) (actions : List Action)
    → IsValid (run (init queue_capacity kv_blocks) actions)
unfolding init
single_flight queue_capacity kv_blocks actions =
    run_from-IsValid (init queue_capacity kv_blocks) actions (record {
      within_capacity = omega arith;
      counted = refl;
      idle = λ e. refl;
      live = tt;
      distinct = tt;
    })
