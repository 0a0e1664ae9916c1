-- ===== src/Engine/RequestQueue/Order.antt =====
-- The order in which the request queue (request_queue.cpp) answers.
use infer_sched_distributed.Base.{
  ℕ, suc, ◌≤◌, ◌≡◌, refl, arith, true, false, List, [], ◌∷◌, Option, none, some, ltb, if◌then◌else◌,
  if_elim, All,
}
use infer_sched_distributed.Engine.RequestQueue.{EngineRequest, later, extract, pop_ready}

-- `rest` is `queue` without one `request`.
pub data Takes (request : EngineRequest) : List EngineRequest → List EngineRequest → Type 0 where
  here : {rest : List EngineRequest} → Takes request (request ∷ rest) rest
  there :
      {other : EngineRequest} {queue rest : List EngineRequest}
      → Takes request queue rest
      → Takes request (other ∷ queue) (other ∷ rest)

abbrev pub NotBefore : ℕ → List EngineRequest → Type 0
NotBefore time = All (λ r. time ≤ r.arrival_time)

pub record IsEarliest (queue : List EngineRequest) (request : EngineRequest)
    (rest : List EngineRequest) : Type 0 where
  pub takes : Takes request queue rest
  pub earliest : NotBefore request.arrival_time queue

later-le : (r s : EngineRequest) → later r s ≡ true → s.arrival_time ≤ r.arrival_time
unfolding later
later-le r s h = ground (arith, h)

not_later-le : (r s : EngineRequest) → later r s ≡ false → r.arrival_time ≤ s.arrival_time
unfolding later
not_later-le r s h = ground (arith, h)

NotBefore-mono : (a b : ℕ) (q : List EngineRequest) → a ≤ b → NotBefore b q → NotBefore a q
NotBefore-mono a b [] h n = tt
NotBefore-mono a b (r ∷ rs) h n = (omega (arith, h, n.0), NotBefore-mono a b rs h n.1)

-- Of a queue that is not empty, the top is an earliest request; an empty one has none.
pub data Extracts (queue : List EngineRequest)
    : Option (EngineRequest × List EngineRequest) → Type 0 where
  empty : queue ≡ [] → Extracts queue none
  has_top :
      (request : EngineRequest) (rest : List EngineRequest)
      → IsEarliest queue request rest
      → Extracts queue (some (request, rest))

extract_more :
    (r : EngineRequest) (rs : List EngineRequest) (o : Option (EngineRequest × List EngineRequest))
    → Extracts rs o
    → Extracts (r ∷ rs) (elim o [
      | none ↦ some (r, [])
      | some (top, rest) ↦ if later r top then some (top, r ∷ rest) else some (r, rs)
    ])
extract_more r rs none (empty e) =
    rw e (has_top r [] (record { takes = here; earliest = (omega arith, tt) }))
extract_more r rs (some _) (has_top request rest e) =
    if_elim (Extracts (r ∷ rs)) (later r request)
      (λ yes_later.
        has_top request (r ∷ rest)
          (record { takes = there e.takes; earliest = (later-le r request yes_later, e.earliest) }))
      (λ first. has_top r rs (record {
        takes = here;
        earliest = (
          omega arith,
          NotBefore-mono r.arrival_time request.arrival_time rs (not_later-le r request first)
              e.earliest,
        );
      }))

extract-Extracts : (queue : List EngineRequest) → Extracts queue (extract queue)
unfolding extract
extract-Extracts [] = empty refl
extract-Extracts (r ∷ rs) = extract_more r rs (extract rs) (extract-Extracts rs)

-- The two answers of `PopReady`.
pub data Pops (queue : List EngineRequest) (now : ℕ)
    : Option EngineRequest × List EngineRequest → Type 0 where
  nothing_ready : NotBefore (suc now) queue → Pops queue now (none, queue)
  ready :
      (request : EngineRequest) (rest : List EngineRequest)
      → IsEarliest queue request rest
      → request.arrival_time ≤ now
      → Pops queue now (some request, rest)

pops :
    (queue : List EngineRequest) (now : ℕ) (o : Option (EngineRequest × List EngineRequest))
    → Extracts queue o
    → Pops queue now (elim o [
      | none ↦ (none, queue)
      | some (request, rest) ↦
          if ltb now request.arrival_time then (none, queue) else (some request, rest)
    ])
pops queue now none (empty e) = nothing_ready (rw e tt)
pops queue now (some _) (has_top request rest e) =
    if_elim (Pops queue now) (ltb now request.arrival_time)
      (λ wait.
        nothing_ready
          (NotBefore-mono (suc now) request.arrival_time queue (ground (arith, wait)) e.earliest))
      (λ due. ready request rest e (ground (arith, due)))

-- `PopReady` answers none, and leaves the queue, exactly where every request arrives after `now`;
-- otherwise it takes out one request that has arrived, and no request of the queue arrives before
-- that one.
pub pop_ready-Pops : (queue : List EngineRequest) (now : ℕ) → Pops queue now (pop_ready queue now)
unfolding pop_ready
pop_ready-Pops queue now = pops queue now (extract queue) (extract-Extracts queue)
