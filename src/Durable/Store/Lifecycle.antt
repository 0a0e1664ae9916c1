-- ===== src/Durable/Store/Lifecycle.antt =====
-- Histories of store transactions (cpp/src/durable_store.cpp), in any order, by any process: each
-- is atomic, so concurrent routers are interleavings of them.
use infer_sched_distributed.Base.{
  ℕ, ◌+◌, ◌≡◌, ◌≢◌, refl, ap, ◌∙◌, arith, Bool, true, false, not, ◌||◌, is_some, List, [], ◌∷◌,
  Option, none, some, String, inl, inr, Option-cases, if_elim, leb, ltb, same_text, same_text_iff,
  subst, lookup, insert_or_assign, text_discrete, lookup-insert_or_assign_self,
  lookup-insert_or_assign_ne, if_neg,
}
use infer_sched_distributed.Durable.Store.{
  Tables, Request, Fence, Assignment, Outcome, is_terminal_state, acquire_partition, ingest,
  assign_attempt, transition, finalize, outbox_insert, with_request, dispatched, completed,
  fence_matches, received, bigint_max, may_assign, may_transition, position_taken,
}
use infer_sched_distributed.Durable.Store.Queries.{record_poison, mark_published}

pub data Call : Type 0 where
  acquires : ℕ → String → Call
  ingests : String → ℕ → ℕ → String → Call
  assigns : String → ℕ → ℕ → String → Call
  transitions : String → ℕ → String → String → Call
  finalizes : String → Fence → String → Call
  poisons : ℕ → ℕ → String → String → Call
  publishes : ℕ → Call

module _ (hex : String → String) where
  unfoldable pub step : Tables → Call → Tables
  step t (acquires partition router) = (acquire_partition t partition router).1
  step t (ingests id partition offset payload) = (ingest t id partition offset payload).1
  step t (assigns id partition epoch engine) = (assign_attempt t id partition epoch engine).1
  step t (transitions id version expected next) = (transition t id version expected next).1
  step t (finalizes id fence result) = (finalize t id fence result).1
  step t (poisons partition offset payload error) =
      (record_poison hex t partition offset payload error).1
  step t (publishes outbox_id) = mark_published t outbox_id

  unfoldable pub run : Tables → List Call → Tables
  run t [] = t
  run t (call ∷ calls) = run (step t call) calls

requests-outbox_insert :
    (t : Tables) (topic key payload : String) (partition offset : ℕ)
    → (outbox_insert t topic key payload partition offset).inference_requests ≡ t.inference_requests
unfolding outbox_insert
requests-outbox_insert t topic key payload partition offset = refl

abbrev pub row : Tables → String → Option Request
row t id = lookup text_discrete id t.inference_requests

-- How a request's row may change in one transaction.
pub data Change (r r' : Request) : Type 0 where
  unchanged : r' ≡ r → Change r r'
  assigned :
      (epoch : ℕ) (engine : String)
      → is_terminal_state r.state ≡ false
      → r' ≡ dispatched r epoch engine
      → Change r r'
  moved :
      (next : String)
      → is_terminal_state r.state ≡ false
      → r' ≡ record r { state = next; state_version = r.state_version + 1 }
      → Change r r'
  accepted :
      (result : String) (fence : Fence)
      → fence_matches r fence ≡ true
      → r' ≡ completed r result
      → Change r r'

-- What one transaction does to the requests.
pub data Effect (t t' : Tables) : Type 0 where
  kept : t'.inference_requests ≡ t.inference_requests → Effect t t'
  added :
      (k : String) (r : Request)
      → row t k ≡ none
      → t'.inference_requests ≡ (k, r) ∷ t.inference_requests
      → Effect t t'
  wrote :
      (k : String) (r r' : Request)
      → row t k ≡ some r
      → Change r r'
      → t'.inference_requests ≡ insert_or_assign text_discrete k r' t.inference_requests
      → Effect t t'

module _ (t : Tables) (k : String) where
  same : Effect t t
  same = kept refl

  assign_attempt-Effect :
      (partition epoch : ℕ) (engine : String)
      → Effect t (assign_attempt t k partition epoch engine).1
  unfolding assign_attempt may_assign
  assign_attempt-Effect partition epoch engine =
      if_elim P (ltb bigint_max epoch) (λ _. same)
        λ _. elim (Option-cases (row t k)) [
          | inl e ↦ rw e same
          | inr (r, e) ↦ rw e (
              if_elim P (not (may_assign t r partition epoch)) (λ _. same)
                λ g.
                  if_elim P (leb bigint_max r.state_version || leb bigint_max r.attempt_id)
                    (λ _. same)
                    λ _.
                      wrote k r (dispatched r epoch engine) e
                        (assigned epoch engine (ground arith) refl) refl)
        ]
    where
      P : Outcome (Option Assignment) × Tables → Type 0
      P answer = Effect t answer.1

  transition-Effect :
      (version : ℕ) (expected next : String) → Effect t (transition t k version expected next).1
  unfolding transition may_transition
  transition-Effect version expected next =
      if_elim P (ltb bigint_max version) (λ _. same)
        λ _. elim (Option-cases (row t k)) [
          | inl e ↦ rw e same
          | inr (r, e) ↦ rw e (
              if_elim P (not (may_transition r version expected)) (λ _. same)
                λ g.
                  if_elim P (leb bigint_max r.state_version) (λ _. same)
                    λ _.
                      wrote k r (record r { state = next; state_version = r.state_version + 1 }) e
                        (moved next (ground arith) refl) refl)
        ]
    where
      P : Outcome Bool × Tables → Type 0
      P answer = Effect t answer.1

  finalize-Effect : (fence : Fence) (result : String) → Effect t (finalize t k fence result).1
  unfolding finalize
  finalize-Effect fence result =
      if_elim P (ltb bigint_max fence.ownership_epoch || ltb bigint_max fence.attempt_id)
        (λ _. same)
        λ _. elim (Option-cases (row t k)) [
          | inl e ↦ rw e same
          | inr (r, e) ↦ rw e (
              if_elim P (not (fence_matches r fence)) (λ _. same)
                λ g.
                  if_elim P (leb bigint_max r.state_version) (λ _. same)
                    λ _.
                      wrote k r (completed r result) e (accepted result fence (ground arith) refl) (
                        requests-outbox_insert (with_request t k (completed r result))
                          "inference.results" k result r.source_partition r.source_offset))
        ]
    where
      P : Outcome Bool × Tables → Type 0
      P answer = Effect t answer.1

  ingest-Effect :
      (partition offset : ℕ) (payload : String) → Effect t (ingest t k partition offset payload).1
  unfolding ingest
  ingest-Effect partition offset payload =
      if_elim (λ (answer : Bool × Tables). Effect t answer.1)
        (is_some (row t k) || position_taken partition offset t.inference_requests) (λ _. same)
        λ g. elim (Option-cases (row t k)) [
          | inl e ↦ added k (received partition offset payload) e refl
          | inr (r, e) ↦ absurd (ground arith)
        ]

acquire_partition-Effect :
    (t : Tables) (partition : ℕ) (router : String)
    → Effect t (acquire_partition t partition router).1
unfolding acquire_partition
acquire_partition-Effect t partition router = kept (ground arith)

record_poison-Effect :
    (hex : String → String) (t : Tables) (partition offset : ℕ) (payload error : String)
    → Effect t (record_poison hex t partition offset payload error).1
unfolding record_poison outbox_insert
record_poison-Effect hex t partition offset payload error = kept (ground arith)

pub step-Effect : (hex : String → String) (t : Tables) (call : Call) → Effect t (step hex t call)
unfolding step
step-Effect hex t (acquires partition router) = acquire_partition-Effect t partition router
step-Effect hex t (ingests id partition offset payload) =
    ingest-Effect t id partition offset payload
step-Effect hex t (assigns id partition epoch engine) =
    assign_attempt-Effect t id partition epoch engine
step-Effect hex t (transitions id version expected next) =
    transition-Effect t id version expected next
step-Effect hex t (finalizes id fence result) = finalize-Effect t id fence result
step-Effect hex t (poisons partition offset payload error) =
    record_poison-Effect hex t partition offset payload error
step-Effect hex t (publishes outbox_id) = unfold mark_published in kept refl

-- A row that is there stays, and changes in one of the four ways.
pub Effect-Change :
    (t t' : Tables) (id : String) (r : Request)
    → Effect t t'
    → row t id ≡ some r
    → (r' : Request) × (row t' id ≡ some r') × Change r r'
Effect-Change t t' id r (kept e) h = (r, rw e h, unchanged refl)
Effect-Change t t' id r (added k s absent e) h =
    let other : k ≢ id = λ p. ground (arith, ap (row t) p) in
    (r, unfold lookup in rw (e, if_neg _ other) h, unchanged refl)
Effect-Change t t' id r (wrote k s s' found c e) h = elim (text_discrete k id) [
  | yes p ↦
      let one : s ≡ r = ground (arith, ap (row t) p) in
      let self = lookup-insert_or_assign_self text_discrete k s' t.inference_requests in
      (
        s',
        ap (lookup text_discrete id) e
            ∙ subst
                (λ x.
                  lookup text_discrete x (insert_or_assign text_discrete k s' t.inference_requests)
                  ≡ some s')
                p self,
        subst (λ x. Change x s') one c,
      )
  | no p ↦ (
    r,
    ap (lookup text_discrete id) e
        ∙ lookup-insert_or_assign_ne text_discrete k id s' t.inference_requests p
        ∙ h,
    unchanged refl,
  )
]

abbrev pub Terminal : Request → Type 0
Terminal r = is_terminal_state r.state ≡ true

dispatched_open : (s : String) → same_text s "DISPATCHED" ≡ true → is_terminal_state s ≡ false
unfolding is_terminal_state text_discrete
dispatched_open s h = let e : s ≡ "DISPATCHED" = (same_text_iff s "DISPATCHED").0 h in rw e refl

pub completed_terminal : is_terminal_state "COMPLETED" ≡ true
unfolding is_terminal_state text_discrete
completed_terminal = refl

-- A request that a fence fits is dispatched, so it is not terminal.
pub fence_matches-open :
    (r : Request) (fence : Fence) → fence_matches r fence ≡ true → is_terminal_state r.state ≡ false
unfolding fence_matches
fence_matches-open r fence h = ground (arith, dispatched_open r.state)

pub Change-Terminal : (r r' : Request) → Change r r' → Terminal r → r' ≡ r
Change-Terminal r r' (unchanged e) h = e
Change-Terminal r r' (assigned epoch engine o e) h = absurd (ground arith)
Change-Terminal r r' (moved next o e) h = absurd (ground arith)
Change-Terminal r r' (accepted result fence m e) h =
    absurd (ground (arith, fence_matches-open r fence m))

module _ (hex : String → String) where
  -- A request in a terminal state never changes again: whatever transactions follow, in whatever
  -- order, its row is the same.
  pub run-Terminal :
      (t : Tables) (calls : List Call) (id : String) (r : Request)
      → row t id ≡ some r
      → Terminal r
      → row (run hex t calls) id ≡ some r
  unfolding run
  run-Terminal t [] id r h d = h
  run-Terminal t (call ∷ calls) id r h d =
      let (r', h', c) = Effect-Change t (step hex t call) id r (step-Effect hex t call) h in
      let e : r' ≡ r = Change-Terminal r r' c d in
      run-Terminal (step hex t call) calls id r (h' ∙ ap some e) d

pub acquire_partition-requests :
    (t : Tables) (partition : ℕ) (router : String)
    → (acquire_partition t partition router).1.inference_requests ≡ t.inference_requests
unfolding acquire_partition
acquire_partition-requests t partition router = ground arith
