-- ===== src/Durable/Store/Epochs.antt =====
-- Ownership epochs (`AcquirePartition` of cpp/src/durable_store.cpp), and what they do and do not
-- keep a former owner from.
use infer_sched_distributed.Base.{
  ℕ, ◌+◌, ◌≤◌, ◌<◌, ◌≡◌, ◌≢◌, sym, ap, ◌∙◌, arith, true, false, List, [], ◌∷◌, Option, none, some,
  String, inl, inr, Option-cases, if_elim, leb, ◌==◌, same_text_iff, subst, lookup, text_discrete,
  ℕ_discrete, lookup-insert_or_assign_self, lookup-insert_or_assign_ne,
}
use infer_sched_distributed.Durable.Store.{
  Tables, Owner, Assignment, Outcome, done, acquire_partition, ingest, assign_attempt, transition,
  finalize, outbox_insert, dispatched, fence_matches, may_assign, is_current_epoch, bigint_max,
}
use infer_sched_distributed.Durable.Store.Queries.{record_poison, mark_published}
use infer_sched_distributed.Durable.Store.Lifecycle.{
  Call, acquires, ingests, assigns, transitions, finalizes, poisons, publishes, step, run, row,
  acquire_partition-requests,
}
use infer_sched_distributed.Durable.Store.Fencing.{assign_attempt-Assigned, row-Assigned}

abbrev pub owner_of : Tables → ℕ → Option Owner
owner_of t partition = lookup ℕ_discrete partition t.partition_ownership

-- The partition has an owner, whose epoch is not below the bound.
abbrev pub EpochFrom : ℕ → Tables → ℕ → Type 0
EpochFrom partition t n = (o : Owner) × (owner_of t partition ≡ some o) × (n ≤ o.ownership_epoch)

-- `AcquirePartition` makes the epoch that it returns the current one.
pub acquire_partition-owner :
    (t : Tables) (partition n : ℕ) (router : String)
    → (acquire_partition t partition router).0 ≡ done n
    → owner_of (acquire_partition t partition router).1 partition
      ≡ some (record { ownership_epoch = n; router_id = router })
unfolding acquire_partition
acquire_partition-owner t p n router h = elim (Option-cases (owner_of t p)) [
  | inl e ↦ rw (e, acquire_partition) (unfold lookup in ground arith)
  | inr (o, e) ↦
      let self =
        lookup-insert_or_assign_self ℕ_discrete p
          (record { ownership_epoch = o.ownership_epoch + 1; router_id = router })
          t.partition_ownership in
      ground (arith, self)
]

acquire_partition-newer :
    (t : Tables) (partition n m : ℕ) (router : String)
    → (acquire_partition t partition router).0 ≡ done n
    → EpochFrom partition t m
    → m < n
unfolding acquire_partition
acquire_partition-newer t p n m router h (o, e, le) = ground arith

acquire_partition-other :
    (t : Tables) (partition p : ℕ) (router : String)
    → partition ≢ p
    → owner_of (acquire_partition t partition router).1 p ≡ owner_of t p
unfolding acquire_partition
acquire_partition-other t partition p router ne = elim (Option-cases (owner_of t partition)) [
  | inl e ↦ rw (e, acquire_partition) (unfold lookup in ground arith)
  | inr (o, e) ↦
      let other =
        lookup-insert_or_assign_ne ℕ_discrete partition p
          (record { ownership_epoch = o.ownership_epoch + 1; router_id = router })
          t.partition_ownership ne in
      ground (arith, other)
]

acquire_partition_self :
    (t : Tables) (p m : ℕ) (router : String)
    → EpochFrom p t m
    → EpochFrom p (acquire_partition t p router).1 m
unfolding acquire_partition
acquire_partition_self t p m router (o, e, le) =
    rw (e, acquire_partition)
      (if_elim (λ (answer : Outcome ℕ × Tables). EpochFrom p answer.1 m)
        (leb bigint_max o.ownership_epoch) (λ _. (o, e, le))
        (λ _. (
          record { ownership_epoch = o.ownership_epoch + 1; router_id = router },
          lookup-insert_or_assign_self ℕ_discrete p _ t.partition_ownership,
          omega (arith, le),
        )))

-- No transaction lowers an epoch.
step-EpochFrom :
    (hex : String → String) (t : Tables) (call : Call) (p m : ℕ)
    → EpochFrom p t m
    → EpochFrom p (step hex t call) m
unfolding step
step-EpochFrom hex t (acquires partition router) p m h = elim (ℕ_discrete partition p) [
  | yes same ↦
      subst (λ x. EpochFrom p (acquire_partition t x router).1 m) (sym same)
        (acquire_partition_self t p m router h)
  | no other ↦ (h.0, acquire_partition-other t partition p router other ∙ h.1, h.2)
]
step-EpochFrom hex t (ingests id partition offset payload) p m h =
    (h.0, unfold ingest in ground (arith, h.1), h.2)
step-EpochFrom hex t (assigns id partition epoch engine) p m h =
    (h.0, unfold assign_attempt in ground (arith, h.1), h.2)
step-EpochFrom hex t (transitions id version expected next) p m h =
    (h.0, unfold transition in ground (arith, h.1), h.2)
step-EpochFrom hex t (finalizes id fence result) p m h =
    (h.0, unfold finalize outbox_insert in ground (arith, h.1), h.2)
step-EpochFrom hex t (poisons partition offset payload error) p m h =
    (h.0, unfold record_poison outbox_insert in ground (arith, h.1), h.2)
step-EpochFrom hex t (publishes outbox_id) p m h = (h.0, unfold mark_published in h.1, h.2)

run-EpochFrom :
    (hex : String → String) (t : Tables) (calls : List Call) (p m : ℕ)
    → EpochFrom p t m
    → EpochFrom p (run hex t calls) m
unfolding run
run-EpochFrom hex t [] p m h = h
run-EpochFrom hex t (call ∷ calls) p m h =
    run-EpochFrom hex (step hex t call) calls p m (step-EpochFrom hex t call p m h)

current_of_owner :
    (t : Tables) (p e : ℕ) (o : Owner)
    → owner_of t p ≡ some o
    → is_current_epoch t p e ≡ (o.ownership_epoch == e)
unfolding is_current_epoch
current_of_owner t p e o h = rw (h, is_current_epoch)

assign_stale :
    (t : Tables) (id : String) (p old n : ℕ) (engine : String)
    → EpochFrom p t n
    → old < n
    → old ≤ bigint_max
    → assign_attempt t id p old engine ≡ (done none, t)
unfolding assign_attempt may_assign
assign_stale t id p old n engine (o, e, le) lt fits = elim (Option-cases (row t id)) [
  | inl h ↦ rw (h, assign_attempt) (ground arith)
  | inr (r, h) ↦ rw (h, assign_attempt) (ground (arith, current_of_owner t p old o e))
]

-- A router that has lost a partition cannot assign attempts there any more: after another
-- `AcquirePartition`, and whatever follows it, an assignment under an older epoch is refused and
-- changes nothing.
pub assign_attempt_superseded :
    (hex : String → String) (t : Tables) (p old n m : ℕ) (router id engine : String)
    (calls : List Call)
    → EpochFrom p t old
    → old ≤ bigint_max
    → (acquire_partition t p router).0 ≡ done n
    → let t' = run hex (acquire_partition t p router).1 calls in
      (old < n) × (m ≤ old → assign_attempt t' id p m engine ≡ (done none, t'))
assign_attempt_superseded hex t p old n m router id engine calls h fits acquired =
    let lt = acquire_partition-newer t p n old router acquired h in
    let now : EpochFrom p (acquire_partition t p router).1 n = (
      record { ownership_epoch = n; router_id = router },
      acquire_partition-owner t p n router acquired,
      omega arith,
    ) in
    (
      lt,
      λ le.
          assign_stale _ id p m n engine (run-EpochFrom hex _ calls p n now) (omega (arith, lt))
            (omega arith),
    )

-- A request is assigned under an epoch that its partition's ownership has, and the assignment's
-- version is below PostgreSQL's greatest bigint. If the next transaction is a takeover of the
-- partition, and the one after it the `Finalize` of the assignment, this is accepted although the
-- assignment's epoch is no longer the partition's: `Finalize` compares the fence with the
-- request's own row only.
pub finalize_after_takeover :
    (t : Tables) (id engine router result : String) (p epoch n : ℕ) (a : Assignment)
    → EpochFrom p t epoch
    → (assign_attempt t id p epoch engine).0 ≡ done (some a)
    → a.state_version < bigint_max
    → let t' = (assign_attempt t id p epoch engine).1 in
      (acquire_partition t' p router).0 ≡ done n
      → let t'' = (acquire_partition t' p router).1 in
        (is_current_epoch t'' p a.fence.ownership_epoch ≡ false)
        × ((finalize t'' id a.fence result).0 ≡ done true)
unfolding finalize fence_matches may_assign
finalize_after_takeover t id engine router result p epoch n a h assigned fits acquired =
    let t' = (assign_attempt t id p epoch engine).1 in
    let t'' = (acquire_partition t' p router).1 in
    let (r, w) = assign_attempt-Assigned t id p epoch engine a assigned in
    let found : row t'' id ≡ some (dispatched r epoch engine) =
      ap (lookup text_discrete id) (acquire_partition-requests t' p router)
      ∙ row-Assigned t t' id p epoch engine a r w in
    let same_owners : t'.partition_ownership ≡ t.partition_ownership =
      ap (λ x. x.partition_ownership) w.after in
    let lt : epoch < n =
      acquire_partition-newer t' p n epoch router acquired
        (h.0, ap (lookup ℕ_discrete p) same_owners ∙ h.1, h.2) in
    (
      current_of_owner t'' p a.fence.ownership_epoch _
            (acquire_partition-owner t' p n router acquired)
          ∙ ground (arith, w.answer, lt),
      rw (found, finalize)
          (ground (
            arith,
            w.answer,
            w.allowed,
            w.epoch_fits,
            w.attempt_fits,
            fits,
            same_text_iff engine engine,
            same_text_iff "DISPATCHED" "DISPATCHED",
          )),
    )
