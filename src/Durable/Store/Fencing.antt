-- ===== src/Durable/Store/Fencing.antt =====
-- Attempts and epochs only grow, and a superseded fence is refused (cpp/src/durable_store.cpp).
use infer_sched_distributed.Base.{
  ℕ, ◌≤◌, ◌<◌, ◌≡◌, ap, ◌∙◌, arith, true, false, List, [], ◌∷◌, some, String, inl, inr,
  Option-cases, text_discrete, lookup-insert_or_assign_self,
}
use infer_sched_distributed.Durable.Store.{
  Tables, Request, Fence, Assignment, done, assign_attempt, finalize, with_request, dispatched,
  assignment, fence_matches, may_assign, bigint_max,
}
use infer_sched_distributed.Durable.Store.Lifecycle.{
  Call, step, run, row, Change, unchanged, assigned, moved, accepted, Effect-Change, step-Effect,
}

Change-attempt : (r r' : Request) → Change r r' → r.attempt_id ≤ r'.attempt_id
Change-attempt r r' (unchanged e) = ground arith
Change-attempt r r' (assigned epoch engine o e) = ground arith
Change-attempt r r' (moved next o e) = ground arith
Change-attempt r r' (accepted result fence m e) = ground arith

run-attempt :
    (hex : String → String) (t : Tables) (calls : List Call) (id : String) (r : Request)
    → row t id ≡ some r
    → (r' : Request) × (row (run hex t calls) id ≡ some r') × (r.attempt_id ≤ r'.attempt_id)
unfolding run
run-attempt hex t [] id r h = (r, h, omega arith)
run-attempt hex t (call ∷ calls) id r h =
    let (s, h', c) = Effect-Change t (step hex t call) id r (step-Effect hex t call) h in
    let (r', h'', le) = run-attempt hex (step hex t call) calls id s h' in
    (r', h'', omega (arith, le, Change-attempt r s c))

-- What an assignment that succeeds found and did.
pub record Assigned (t t' : Tables) (id : String) (partition epoch : ℕ) (engine : String)
    (a : Assignment) (r : Request) : Type 0 where
  pub found : row t id ≡ some r
  pub allowed : may_assign t r partition epoch ≡ true
  pub answer : a ≡ assignment r partition epoch engine
  pub after : t' ≡ with_request t id (dispatched r epoch engine)
  pub epoch_fits : epoch ≤ bigint_max
  pub version_fits : r.state_version < bigint_max
  pub attempt_fits : r.attempt_id < bigint_max

pub assign_attempt-Assigned :
    (t : Tables) (id : String) (partition epoch : ℕ) (engine : String) (a : Assignment)
    → (assign_attempt t id partition epoch engine).0 ≡ done (some a)
    → (r : Request) × Assigned t
        (assign_attempt t id partition epoch engine).1
        id
        partition
        epoch
        engine
        a
        r
unfolding assign_attempt
assign_attempt-Assigned t id partition epoch engine a h = elim (Option-cases (row t id)) [
  | inl e ↦ absurd (ground arith)
  | inr (r, e) ↦ (
    r,
    record {
      found = e;
      allowed = ground arith;
      answer = ground arith;
      after = ground arith;
      epoch_fits = ground arith;
      version_fits = ground arith;
      attempt_fits = ground arith;
    },
  )
]

pub row-Assigned :
    (t t' : Tables) (id : String) (partition epoch : ℕ) (engine : String) (a : Assignment)
    (r : Request)
    → Assigned t t' id partition epoch engine a r
    → row t' id ≡ some (dispatched r epoch engine)
row-Assigned t t' id partition epoch engine a r w =
    ap (λ x. row x id) w.after
    ∙ lookup-insert_or_assign_self text_discrete id (dispatched r epoch engine) t.inference_requests

finalize_stale :
    (t : Tables) (id : String) (fence : Fence) (result : String) (r : Request)
    → row t id ≡ some r
    → fence.attempt_id < r.attempt_id
    → fence.ownership_epoch ≤ bigint_max
    → fence.attempt_id ≤ bigint_max
    → finalize t id fence result ≡ (done false, t)
unfolding finalize fence_matches
finalize_stale t id fence result r h stale e1 e2 = rw (h, finalize) (ground arith)

-- A completion under a superseded attempt is refused and changes nothing: once a request has been
-- assigned again, whatever ran before, between and after, the first assignment's fence no longer
-- finalizes it.
pub finalize_superseded :
    (hex : String → String) (t : Tables) (id : String) (first second : Assignment)
    (partition epoch partition' epoch' : ℕ) (engine engine' result : String)
    (between after : List Call)
    → (assign_attempt t id partition epoch engine).0 ≡ done (some first)
    → let t₁ = run hex (assign_attempt t id partition epoch engine).1 between in
      (assign_attempt t₁ id partition' epoch' engine').0 ≡ done (some second)
      → let t₂ = run hex (assign_attempt t₁ id partition' epoch' engine').1 after in
        finalize t₂ id first.fence result ≡ (done false, t₂)
finalize_superseded hex t id first second partition epoch partition' epoch' engine engine' result
      between after h k =
    let t₀ = (assign_attempt t id partition epoch engine).1 in
    let t₁ = run hex t₀ between in
    let (r, w) = assign_attempt-Assigned t id partition epoch engine first h in
    let (s, at_s, le) =
      run-attempt hex t₀ between id (dispatched r epoch engine)
        (row-Assigned t t₀ id partition epoch engine first r w) in
    let (s', w') = assign_attempt-Assigned t₁ id partition' epoch' engine' second k in
    let t₁' = (assign_attempt t₁ id partition' epoch' engine').1 in
    let one : s ≡ s' = ground (arith, w'.found, at_s) in
    let (u, at_u, le') =
      run-attempt hex t₁' after id (dispatched s' epoch' engine')
        (row-Assigned t₁ t₁' id partition' epoch' engine' second s' w') in
    finalize_stale (run hex t₁' after) id first.fence result u at_u
      (ground (arith, w.answer, le, le', one)) (ground (arith, w.answer, w.epoch_fits))
      (ground (arith, w.answer, w.attempt_fits))
