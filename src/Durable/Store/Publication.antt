-- ===== src/Durable/Store/Publication.antt =====
-- The completion and its outbox row are one transaction (`Finalize` of
-- cpp/src/durable_store.cpp): what is accepted is what will be published.
use infer_sched_distributed.Base.{
  ℕ, ◌≡◌, ◌≢◌, refl, sym, ap, ◌∙◌, arith, Bool, true, false, ◌&&◌, ◌||◌, ◌⊎◌, List, [], ◌∷◌, ◌++◌,
  some, String, concat, to_string, inl, inr, Option-cases, Bool-cases, if_elim, same_text,
  same_text_iff, eq_iff,
}
use infer_sched_distributed.Durable.Store.{
  Tables, Request, OutboxRow, Fence, Outcome, done, threw, migrated, acquire_partition, ingest,
  assign_attempt, transition, finalize, outbox_insert, outbox_has, with_request, completed,
}
use infer_sched_distributed.Durable.Store.Queries.{
  record_poison, mark_published, mark_rows, poison_has,
}
use infer_sched_distributed.Durable.Store.Lifecycle.{
  Call, acquires, ingests, assigns, transitions, finalizes, poisons, publishes, step, run, row,
  Terminal, fence_matches-open, Effect-Change, step-Effect, Change-Terminal,
}
use infer_sched_distributed.Durable.Store.Accepted.{
  finalize-Accepted, row-Accepted, accepts, is_done_true, accepts-Terminal,
}

outbox_has-append :
    (topic key : String) (rows : List OutboxRow) (r : OutboxRow)
    → outbox_has topic key (rows ++ r ∷ [])
      ≡ (outbox_has topic key rows || (same_text r.topic topic && same_text r.message_key key))
unfolding outbox_has
outbox_has-append topic key [] r = ground arith
outbox_has-append topic key (x ∷ rows) r = ground (arith, outbox_has-append topic key rows r)

outbox_has-mark_rows :
    (topic key : String) (n : ℕ) (rows : List OutboxRow)
    → outbox_has topic key (mark_rows n rows) ≡ outbox_has topic key rows
unfolding outbox_has mark_rows
outbox_has-mark_rows topic key n [] = refl
outbox_has-mark_rows topic key n (x ∷ rows) = ground (arith, outbox_has-mark_rows topic key n rows)

outbox_insert_new :
    (t : Tables) (topic key payload : String) (partition offset : ℕ)
    → outbox_has topic key t.outbox ≡ false
    → (outbox_insert t topic key payload partition offset).outbox
      ≡ t.outbox
        ++ record {
          id = t.next_outbox_id;
          topic = topic;
          message_key = key;
          payload = payload;
          source_partition = partition;
          source_offset = offset;
          published = false;
        }
          ∷ []
unfolding outbox_insert
outbox_insert_new t topic key payload partition offset h = rw h

-- An insertion adds its own topic and key, and no other.
outbox_has-insert :
    (t : Tables) (topic key payload topic' key' : String) (partition offset : ℕ)
    → outbox_has topic key (outbox_insert t topic' key' payload partition offset).outbox ≡ true
    → (outbox_has topic key t.outbox ≡ true) ⊎ ((topic' ≡ topic) × (key' ≡ key))
unfolding outbox_insert
outbox_has-insert t topic key payload topic' key' partition offset h =
    elim (Bool-cases (outbox_has topic' key' t.outbox)) [
      | inl old ↦ inl (ground arith)
      | inr new ↦ elim (Bool-cases (outbox_has topic key t.outbox)) [
        | inl e ↦ inl e
        | inr e ↦
            let added : OutboxRow = record {
              id = t.next_outbox_id;
              topic = topic';
              message_key = key';
              payload = payload;
              source_partition = partition;
              source_offset = offset;
              published = false;
            } in
            let grown = outbox_has-append topic key t.outbox added in
            inr (
              ground (arith, grown, same_text_iff topic' topic),
              ground (arith, grown, same_text_iff key' key),
            )
      ]
    ]

results_ne_dlq : ◌≢◌ {A = String} "inference.dlq" "inference.results"
results_ne_dlq = ground (arith, eq_iff "inference.dlq" "inference.results")

-- A completion that is not accepted changes nothing.
pub finalize_refused :
    (t : Tables) (id : String) (fence : Fence) (result : String)
    → is_done_true (finalize t id fence result).0 ≡ false
    → (finalize t id fence result).1 ≡ t
unfolding finalize
finalize_refused t id fence result h = elim (Option-cases (row t id)) [
  | inl e ↦ ground arith
  | inr (r, e) ↦ ground arith
]

pub is_done_true-done : (o : Outcome Bool) → is_done_true o ≡ true → o ≡ done true
is_done_true-done (done b) h = ap done h
is_done_true-done (threw f) h = cc

module _ (hex : String → String) where
  new_poison :
      (t : Tables) (partition offset : ℕ) (payload error id : String)
      → outbox_has "inference.results" id
          (record_poison hex t partition offset payload error).1.outbox
        ≡ true
      → (outbox_has "inference.results" id t.outbox ≡ true) ⊎ (false ≡ true)
  unfolding record_poison
  new_poison t partition offset payload error id =
      if_elim
        (λ (answer : Bool × Tables).
          outbox_has "inference.results" id answer.1.outbox ≡ true
          → (outbox_has "inference.results" id t.outbox ≡ true) ⊎ (false ≡ true))
        (poison_has partition offset t.poison_messages) (λ _ h. inl h)
        (λ _ h.
          elim (outbox_has-insert _ "inference.results" id (hex payload) "inference.dlq"
            (concat (to_string partition) (concat ":" (to_string offset))) partition offset h) [
              | inl old ↦ inl old
              | inr (topics, _) ↦ absurd (results_ne_dlq topics)
            ])

  -- A result stands in the outbox only if it stood there before or was just accepted.
  new_result :
      (t : Tables) (call : Call) (id : String)
      → outbox_has "inference.results" id (step hex t call).outbox ≡ true
      → (outbox_has "inference.results" id t.outbox ≡ true) ⊎ (accepts t call id ≡ true)
  unfolding step accepts
  new_result t (acquires partition router) id h = inl (unfold acquire_partition in ground arith)
  new_result t (ingests k partition offset payload) id h = inl (unfold ingest in ground arith)
  new_result t (assigns k partition epoch engine) id h = inl (unfold assign_attempt in ground arith)
  new_result t (transitions k version expected next) id h = inl (unfold transition in ground arith)
  new_result t (publishes n) id h =
      inl (
        unfold mark_published in (sym (outbox_has-mark_rows "inference.results" id n t.outbox) ∙ h))
  new_result t (poisons partition offset payload error) id h =
      new_poison t partition offset payload error id h
  new_result t (finalizes k fence result) id h =
      elim (Bool-cases (is_done_true (finalize t k fence result).0)) [
        | inr e ↦ inl (
            ap (λ x. outbox_has "inference.results" id x.outbox)
              (sym (finalize_refused t k fence result e))
            ∙ h)
        | inl e ↦
            let (r, a) = finalize-Accepted t k fence result (is_done_true-done _ e) in
            elim (outbox_has-insert _ "inference.results" id result "inference.results" k
              r.source_partition r.source_offset
              (ap (λ x. outbox_has "inference.results" id x.outbox) (sym a.after) ∙ h)) [
                | inl old ↦ inl old
                | inr (_, keys) ↦ inr (ground (arith, keys, e, same_text_iff k id))
              ]
      ]

-- A request whose result stands in the outbox is in a terminal state.
abbrev pub Consistent : Tables → Type 0
Consistent t =
    (id : String)
    → outbox_has "inference.results" id t.outbox ≡ true
    → (r : Request) × (row t id ≡ some r) × Terminal r

migrated-Consistent : Consistent migrated
unfolding migrated outbox_has
migrated-Consistent id h = cc

module _ (hex : String → String) where
  step-Consistent : (t : Tables) (call : Call) → Consistent t → Consistent (step hex t call)
  step-Consistent t call ok id h = elim (new_result hex t call id h) [
    | inl old ↦
        let (r, found, d) = ok id old in
        let (r', h', c) = Effect-Change t (step hex t call) id r (step-Effect hex t call) found in
        let e : r' ≡ r = Change-Terminal r r' c d in (r, h' ∙ ap some e, d)
    | inr now ↦ let (_, r', _, _, found, d) = accepts-Terminal hex t call id now in (r', found, d)
  ]

  pub run-Consistent :
      (t : Tables) (calls : List Call) → Consistent t → Consistent (run hex t calls)
  unfolding run
  run-Consistent t [] ok = ok
  run-Consistent t (call ∷ calls) ok =
      run-Consistent (step hex t call) calls (step-Consistent t call ok)

  -- In every history from empty tables, a completion that the store accepts sets the request's
  -- state and its result and appends one unpublished row with that result to the outbox, in the
  -- same transaction; any other answer leaves all tables as they were.
  pub finalize_publishes :
      (calls : List Call) (id : String) (fence : Fence) (result : String)
      → let t = run hex migrated calls in
        let t' = (finalize t id fence result).1 in
        ((finalize t id fence result).0 ≡ done true
          → (r : Request) × (row t id ≡ some r)
            × (row t' id ≡ some (completed r result))
            × (t'.outbox
                ≡ t.outbox
                  ++ record {
                    id = t.next_outbox_id;
                    topic = "inference.results";
                    message_key = id;
                    payload = result;
                    source_partition = r.source_partition;
                    source_offset = r.source_offset;
                    published = false;
                  }
                    ∷ []))
        × (is_done_true (finalize t id fence result).0 ≡ false → t' ≡ t)
  finalize_publishes calls id fence result =
      let t = run hex migrated calls in
      let ok = run-Consistent migrated calls migrated-Consistent in
      (
        λ h.
            let (r, a) = finalize-Accepted t id fence result h in
            let new : outbox_has "inference.results" id t.outbox ≡ false =
              elim (Bool-cases (outbox_has "inference.results" id t.outbox)) [
                | inl old ↦
                    let (s, found, d) = ok id old in
                    absurd (ground (arith, a.found, found, d, fence_matches-open r fence a.current))
                | inr e ↦ e
              ] in
            (
              r,
              a.found,
              row-Accepted t (finalize t id fence result).1 id fence result r a,
              ap (λ x. x.outbox) a.after
                  ∙ outbox_insert_new (with_request t id (completed r result)) "inference.results"
                      id result r.source_partition r.source_offset new,
            ),
        finalize_refused t id fence result,
      )
