-- ===== src/Durable/Store/Accepted.antt =====
-- What an accepted completion is, and that a request has at most one (`Finalize` of
-- cpp/src/durable_store.cpp).
use infer_sched_distributed.Base.{
  ℕ, ◌+◌, ◌≤◌, ◌≡◌, refl, ap, ◌∙◌, arith, Bool, true, false, List, [], ◌∷◌, some, String, inl, inr,
  Option-cases, Bool-cases, if◌then◌else◌, same_text, same_text_iff, subst, text_discrete,
  lookup-insert_or_assign_self,
}
use infer_sched_distributed.Durable.Store.{
  Tables, Request, Fence, Outcome, done, threw, is_terminal_state, finalize, outbox_insert,
  with_request, completed, fence_matches,
}
use infer_sched_distributed.Durable.Store.Lifecycle.{
  Call, acquires, ingests, assigns, transitions, finalizes, poisons, publishes, step, row, Terminal,
  completed_terminal, fence_matches-open, Effect-Change, step-Effect, Change-Terminal,
}

-- What a completion that is accepted found and did.
pub record Accepted (t t' : Tables) (id : String) (fence : Fence) (result : String) (r : Request)
    : Type 0 where
  pub found : row t id ≡ some r
  pub current : fence_matches r fence ≡ true
  pub after :
      t'
      ≡ outbox_insert
          (with_request t id (completed r result))
          "inference.results"
          id
          result
          r.source_partition
          r.source_offset

pub finalize-Accepted :
    (t : Tables) (id : String) (fence : Fence) (result : String)
    → (finalize t id fence result).0 ≡ done true
    → (r : Request) × Accepted t (finalize t id fence result).1 id fence result r
unfolding finalize
finalize-Accepted t id fence result h = elim (Option-cases (row t id)) [
  | inl e ↦ absurd (ground arith)
  | inr (r, e) ↦ (r, record { found = e; current = ground arith; after = ground arith })
]

pub row-Accepted :
    (t t' : Tables) (id : String) (fence : Fence) (result : String) (r : Request)
    → Accepted t t' id fence result r
    → row t' id ≡ some (completed r result)
unfolding outbox_insert
row-Accepted t t' id fence result r a =
    ap (λ x. row x id) a.after
    ∙ lookup-insert_or_assign_self text_discrete id (completed r result) t.inference_requests

abbrev pub is_done_true : Outcome Bool → Bool
is_done_true (done b) = b
is_done_true (threw f) = false

-- Whether a call is a completion of the request that the store accepts.
unfoldable pub accepts : Tables → Call → String → Bool
accepts t (acquires partition router) id = false
accepts t (ingests k partition offset payload) id = false
accepts t (assigns k partition epoch engine) id = false
accepts t (transitions k version expected next) id = false
accepts t (finalizes k fence result) id =
    if same_text k id then is_done_true (finalize t k fence result).0 else false
accepts t (poisons partition offset payload error) id = false
accepts t (publishes outbox_id) id = false

module _ (hex : String → String) where
  unfoldable pub count_accepted : Tables → List Call → String → ℕ
  count_accepted t [] id = 0
  count_accepted t (call ∷ calls) id =
      (if accepts t call id then 1 else 0) + count_accepted (step hex t call) calls id

  pub accepts-Terminal :
      (t : Tables) (call : Call) (id : String)
      → accepts t call id ≡ true
      → (r r' : Request) × (row t id ≡ some r)
        × (is_terminal_state r.state ≡ false)
        × (row (step hex t call) id ≡ some r')
        × Terminal r'
  unfolding accepts step
  accepts-Terminal t (finalizes k fence result) id h =
      let e : k ≡ id = ground (arith, same_text_iff k id) in
      let ok : (finalize t k fence result).0 ≡ done true = ground arith in
      let (r, a) = finalize-Accepted t k fence result ok in
      (
        r,
        completed r result,
        subst (λ x. row t x ≡ some r) e a.found,
        fence_matches-open r fence a.current,
        subst (λ x. row (finalize t k fence result).1 x ≡ some (completed r result)) e
            (row-Accepted t _ k fence result r a),
        completed_terminal,
      )
  accepts-Terminal t (acquires partition router) id h = cc
  accepts-Terminal t (ingests k partition offset payload) id h = cc
  accepts-Terminal t (assigns k partition epoch engine) id h = cc
  accepts-Terminal t (transitions k version expected next) id h = cc
  accepts-Terminal t (poisons partition offset payload error) id h = cc
  accepts-Terminal t (publishes outbox_id) id h = cc

  none_after :
      (t : Tables) (calls : List Call) (id : String) (r : Request)
      → row t id ≡ some r
      → Terminal r
      → count_accepted t calls id ≡ 0
  unfolding count_accepted
  none_after t [] id r h d = refl
  none_after t (call ∷ calls) id r h d =
      let (r', h', c) = Effect-Change t (step hex t call) id r (step-Effect hex t call) h in
      let e : r' ≡ r = Change-Terminal r r' c d in
      let later = none_after (step hex t call) calls id r (h' ∙ ap some e) d in
      elim (Bool-cases (accepts t call id)) [
        | inl yes' ↦
            let (s, _, found, open_state, _, _) = accepts-Terminal t call id yes' in
            absurd (ground arith)
        | inr no' ↦ rw no' (omega (arith, later))
      ]

  -- Whatever transactions run, in whatever order and with whatever fences, the store accepts at
  -- most one completion of a request.
  pub count_accepted-le-one :
      (t : Tables) (calls : List Call) (id : String) → count_accepted t calls id ≤ 1
  unfolding count_accepted
  count_accepted-le-one t [] id = omega arith
  count_accepted-le-one t (call ∷ calls) id = elim (Bool-cases (accepts t call id)) [
    | inl first ↦
        let (_, r', _, _, h', d) = accepts-Terminal t call id first in
        rw first (omega (arith, none_after (step hex t call) calls id r' h' d))
    | inr other ↦ rw other (omega (arith, count_accepted-le-one (step hex t call) calls id))
  ]
