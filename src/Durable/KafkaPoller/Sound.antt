-- ===== src/Durable/KafkaPoller/Sound.antt =====
-- A predicate `P` on source positions that holds of every offset which the poller
-- (kafka_poller.cpp) is told is complete: it holds of whatever the poller then counts on.
use infer_sched_distributed.Base.{
  ℕ, zero, suc, ◌+◌, ◌≤◌, ◌<◌, ◌≡◌, arith, Bool, true, List, [], ◌∷◌, none, ltb, ◌==◌, mem, if_elim,
  Bool-cases, Option-cases, inl, inr, subst, lookup, ℕ_discrete, All, All-append_one, All-imp,
  lookup-Each, insert_or_assign-Each, erase-Each,
}
use infer_sched_distributed.Durable.OffsetTracker
use infer_sched_distributed.Durable.OffsetTracker.{OffsetTracker, set_insert, set_erase, advance}
use infer_sched_distributed.Durable.OffsetTracker.Commits.{mem-set_insert, mem-set_erase_imp}
use infer_sched_distributed.Durable.KafkaPoller.{
  KafkaMessage, KafkaPoller, mark_publish_complete, receive, revoke, revoke_all, rebalance_cb,
  commit_sync,
}

module _ (P : ℕ → ℕ → Type 0) where
  -- All that is below the committed offset, and all that waits above it.
  pub record SoundTracker (partition : ℕ) (t : OffsetTracker) : Type 0 where
    pub below : (k : ℕ) → k < t.next_offset → P partition k
    pub above : (k : ℕ) → mem k t.completed ≡ true → P partition k

  pub record SoundPoller (p : KafkaPoller) : Type 0 where
    pub trackers : All (λ e. SoundTracker e.0 e.1) p.trackers
    pub commits : All (λ e. (k : ℕ) → k ≤ e.1 → P e.0 k) p.commits

  -- Kafka's offsets of the group.
  abbrev pub SoundCommitted : List (ℕ × ℕ) → Type 0
  SoundCommitted = All (λ e. (k : ℕ) → k < e.1 → P e.0 k)

  advance-SoundTracker :
      (partition fuel next : ℕ) (completed : List ℕ)
      → ((k : ℕ) → k < next → P partition k)
      → ((k : ℕ) → mem k completed ≡ true → P partition k)
      → SoundTracker partition (advance fuel next completed)
  unfolding advance
  advance-SoundTracker partition zero next completed b a = record { below = b; above = a }
  advance-SoundTracker partition (suc fuel) next completed b a =
      if_elim (SoundTracker partition) (mem next completed)
        (λ here.
          advance-SoundTracker partition fuel (suc next) (set_erase next completed)
            (λ k low. elim (Bool-cases (k == next)) [
              | inl e ↦ subst (P partition) (ground (arith, e)) (a next here)
              | inr n ↦ b k (ground (arith, n, low))
            ])
            (λ k m. a k (mem-set_erase_imp k next completed m)))
        (λ _. record { below = b; above = a })

  mark-SoundTracker :
      (partition offset : ℕ) (t : OffsetTracker)
      → P partition offset
      → SoundTracker partition t
      → SoundTracker partition (OffsetTracker.mark_publish_complete t offset)
  unfolding OffsetTracker.mark_publish_complete
  mark-SoundTracker partition offset t done sound =
      if_elim (SoundTracker partition) (ltb offset t.next_offset) (λ _. sound)
        (λ _.
          advance-SoundTracker partition _ t.next_offset (set_insert offset t.completed) sound.below
            (λ k m. elim (Bool-cases (k == offset)) [
              | inl e ↦ subst (P partition) (ground (arith, e)) done
              | inr n ↦ sound.above k (ground (arith, n, m, mem-set_insert k offset t.completed))
            ]))

  pub mark_publish_complete-SoundPoller :
      (p : KafkaPoller) (partition offset : ℕ)
      → P partition offset
      → SoundPoller p
      → SoundPoller (mark_publish_complete p partition offset)
  unfolding mark_publish_complete
  mark_publish_complete-SoundPoller p partition offset done sound =
      elim (Option-cases (lookup ℕ_discrete partition p.trackers)) [
        | inl e ↦ rw (mark_publish_complete, e) sound
        | inr (t, e) ↦
            let t' = OffsetTracker.mark_publish_complete t offset in
            let here = mark-SoundTracker partition offset t done (
              lookup-Each ℕ_discrete (λ x. SoundTracker x.0 x.1) partition t p.trackers e
                sound.trackers) in
            let all =
              insert_or_assign-Each ℕ_discrete (λ x. SoundTracker x.0 x.1) partition t' p.trackers
                here sound.trackers in
            rw (mark_publish_complete, e)
              (if_elim SoundPoller (ltb t.next_offset t'.next_offset)
                (λ further. record {
                  trackers = all;
                  commits =
                      All-append_one (λ x. (k : ℕ) → k ≤ x.1 → P x.0 k) p.commits _ sound.commits
                        (λ k le. here.below k (ground (arith, further, le)));
                })
                (λ _. record { trackers = all; commits = sound.commits }))
      ]

  -- A message where the partition has no tracker starts one at its own offset.
  pub receive-SoundPoller :
      (p : KafkaPoller) (message : KafkaMessage)
      → (lookup ℕ_discrete message.partition p.trackers ≡ none
          → (k : ℕ) → k < message.offset
          → P message.partition k)
      → SoundPoller p
      → SoundPoller (receive p message)
  unfolding receive OffsetTracker.init
  receive-SoundPoller p message before sound = record {
    trackers = elim (Option-cases (lookup ℕ_discrete message.partition p.trackers)) [
      | inl e ↦
          rw e (record { below = before e; above = λ k m. absurd (ground arith) }, sound.trackers)
      | inr (t, e) ↦ rw e sound.trackers
    ];
    commits = sound.commits;
  }

  revoke_all-SoundPoller :
      (p : KafkaPoller) (ids : List ℕ) → SoundPoller p → SoundPoller (revoke_all p ids)
  unfolding revoke_all revoke
  revoke_all-SoundPoller p [] sound = sound
  revoke_all-SoundPoller p (id ∷ ids) sound = revoke_all-SoundPoller (revoke p id) ids (record {
    trackers = erase-Each ℕ_discrete _ id p.trackers sound.trackers;
    commits = sound.commits;
  })

  pub rebalance_cb-SoundPoller :
      (p : KafkaPoller) (assign : Bool) (ids : List ℕ)
      → SoundPoller p
      → SoundPoller (rebalance_cb p assign ids)
  unfolding rebalance_cb
  rebalance_cb-SoundPoller p assign ids sound =
      let gone = revoke_all-SoundPoller p ids sound in
      if_elim SoundPoller assign
        (λ _. record { trackers = sound.trackers; commits = sound.commits })
        (λ _. record { trackers = gone.trackers; commits = gone.commits })

  pub SoundPoller-same :
      (p q : KafkaPoller)
      → q.trackers ≡ p.trackers
      → q.commits ≡ p.commits
      → SoundPoller p
      → SoundPoller q
  SoundPoller-same p q e f sound = record {
    trackers = rw e sound.trackers;
    commits = rw f sound.commits;
  }

  pub commit_sync-SoundCommitted :
      (accepted : Bool) (committed : List (ℕ × ℕ)) (partition offset : ℕ)
      → ((k : ℕ) → k ≤ offset → P partition k)
      → SoundCommitted committed
      → SoundCommitted (commit_sync accepted committed partition offset)
  unfolding commit_sync
  commit_sync-SoundCommitted accepted committed partition offset done sound =
      if_elim SoundCommitted accepted
        (λ _.
          insert_or_assign-Each ℕ_discrete _ partition (offset + 1) committed
            (λ k low. done k (omega (arith, low))) sound)
        (λ _. sound)

pub SoundPoller-imp :
    (P Q : ℕ → ℕ → Type 0) (p : KafkaPoller)
    → ((partition k : ℕ) → P partition k → Q partition k)
    → SoundPoller P p
    → SoundPoller Q p
SoundPoller-imp P Q p f sound = record {
  trackers =
      All-imp _ _ p.trackers
        (λ e t. record {
          below = λ k h. f e.0 k (t.below k h);
          above = λ k h. f e.0 k (t.above k h);
        })
        sound.trackers;
  commits = All-imp _ _ p.commits (λ e c k h. f e.0 k (c k h)) sound.commits;
}
