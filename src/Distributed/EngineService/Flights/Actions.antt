-- ===== src/Distributed/EngineService/Flights/Actions.antt =====
-- The steps of the engine service (engine_service.cpp), and what holds of its jobs between them.
use infer_sched_distributed.Base.{
  ℕ, ◌≤◌, ◌≡◌, ◌≢◌, sym, ap, ◌∙◌, arith, Bool, true, false, List, [], ◌∷◌, ◌++◌, some, String,
  length, All, All-append_one, All-append, All-right, All-imp, All-both, lookup, text_discrete,
}
use infer_sched_distributed.Engine.EngineConfig.{EngineResult}
use infer_sched_distributed.Distributed.Messages.{DispatchRequest}
use infer_sched_distributed.Distributed.EngineService.{
  Job, waiting, EngineService, request_id_of, holds, expired, in_flight, dispatch, cancel, drain,
  collect, execute, retire, respond,
}

-- One step of the service: a handler, or a part of the worker's turn.
pub data Action : Type 0 where
  dispatches : DispatchRequest → Bool → Action
  cancels : DispatchRequest → Action
  drains : Action
  collects : Action
  executes : List EngineResult → ℕ → Action
  retires : Action
  responds : Job → Action

unfoldable pub step : EngineService → Action → EngineService
step s (dispatches d written) = (dispatch s d written).1
step s (cancels d) = (cancel s d).1
step s drains = drain s
step s collects = collect s
step s (executes results free) = execute s results free
step s retires = retire s
step s (responds job) = (respond s job).1

unfoldable pub run : EngineService → List Action → EngineService
run s [] = s
run s (action ∷ actions) = run (step s action) actions

-- The jobs that have been accepted and have not been retired.
abbrev pub held : EngineService → List Job
held s = s.batch ++ s.queue

abbrev pub Fresh : String → List Job → Type 0
Fresh id = All (λ job. request_id_of job ≢ id)

-- No two jobs are of one request.
abbrev pub Distinct : List Job → Type 0
Distinct [] = Unit
Distinct (job ∷ jobs) = Fresh (request_id_of job) jobs × Distinct jobs

abbrev pub IsLive : List (String × Job) → Job → Type 0
IsLive live job = lookup text_discrete (request_id_of job) live ≡ some job

pub record IsValid (s : EngineService) : Type 0 where
  pub within_capacity : length s.queue ≤ s.queue_capacity
  pub counted : s.running_jobs ≡ length s.batch
  pub idle : s.phase ≡ waiting → s.batch ≡ []
  pub live : All (IsLive s.live_jobs) (held s)
  pub distinct : Distinct (held s)

pub Distinct-append_one :
    (jobs : List Job) (job : Job)
    → Distinct jobs
    → Fresh (request_id_of job) jobs
    → Distinct (jobs ++ job ∷ [])
Distinct-append_one [] job d f = (tt, tt)
Distinct-append_one (j ∷ js) job d f = (
  All-append_one (λ k. request_id_of k ≢ request_id_of j) js job d.0 (λ e. f.0 (sym e)),
  Distinct-append_one js job d.1 f.1,
)

pub Distinct-right : (xs ys : List Job) → Distinct (xs ++ ys) → Distinct ys
Distinct-right [] ys d = d
Distinct-right (x ∷ xs) ys d = Distinct-right xs ys d.1

-- Each job of the second part differs from all of the first.
pub Distinct-apart :
    (xs ys : List Job) → Distinct (xs ++ ys) → All (λ q. Fresh (request_id_of q) xs) ys
Distinct-apart [] ys d = All-imp (λ q. Unit {0}) (λ q. Unit {0}) ys (λ q h. tt) (all_unit ys)
  where
    all_unit : (zs : List Job) → All (λ q. Unit {0}) zs
    all_unit [] = tt
    all_unit (z ∷ zs) = (tt, all_unit zs)
Distinct-apart (x ∷ xs) ys d =
    All-imp (λ q. (request_id_of q ≢ request_id_of x) × Fresh (request_id_of q) xs)
      (λ q. Fresh (request_id_of q) (x ∷ xs)) ys (λ q h. (λ e. h.0 (sym e), h.1))
      (All-both (λ q. request_id_of q ≢ request_id_of x) (λ q. Fresh (request_id_of q) xs) ys
        (All-right (λ q. request_id_of q ≢ request_id_of x) xs ys d.0) (Distinct-apart xs ys d.1))

holds-cons : (id : ℕ) (j : Job) (js : List Job) → holds id js ≡ true → holds id (j ∷ js) ≡ true
holds-cons id j js h = ground (arith, h)

All-holds : (jobs : List Job) → All (λ job. holds job.job_id jobs ≡ true) jobs
All-holds [] = tt
All-holds (j ∷ js) = (
  ground arith,
  All-imp (λ job. holds job.job_id js ≡ true) (λ job. holds job.job_id (j ∷ js) ≡ true) js
      (λ job h. holds-cons job.job_id j js h) (All-holds js),
)

-- A job that is held has not expired.
pub held-expired : (s : EngineService) → All (λ job. expired s job ≡ false) (held s)
unfolding expired
held-expired s =
    All-append (λ job. expired s job ≡ false) s.batch s.queue
      (All-imp (λ job. holds job.job_id s.batch ≡ true) (λ job. expired s job ≡ false) s.batch
        (λ job h. ground (arith, h)) (All-holds s.batch))
      (All-imp (λ job. holds job.job_id s.queue ≡ true) (λ job. expired s job ≡ false) s.queue
        (λ job h. ground (arith, h)) (All-holds s.queue))

-- A request that is not in flight has no job.
pub not_in_flight :
    (s : EngineService) (d : DispatchRequest) (job : Job)
    → in_flight s d ≡ false
    → IsLive s.live_jobs job
    → expired s job ≡ false
    → request_id_of job ≢ d.request.request_id
unfolding in_flight
not_in_flight s d job idle live kept same =
    let found : lookup text_discrete d.request.request_id s.live_jobs ≡ some job =
      ap (λ id. lookup text_discrete id s.live_jobs) (sym same) ∙ live in
    absurd (ground (arith, idle, found, kept))
