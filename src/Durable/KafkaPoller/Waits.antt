-- ===== src/Durable/KafkaPoller/Waits.antt =====
-- An offset that the poller (kafka_poller.cpp) is not told of stays uncommitted.
use infer_sched_distributed.Base.{
  ℕ, zero, suc, ◌≤◌, ◌<◌, ◌≡◌, ◌≢◌, arith, false, List, some, ltb, ◌==◌, mem, if_elim, Bool-cases,
  Option-cases, inl, inr, lookup, insert_or_assign, ℕ_discrete, All, All-append_one,
  lookup-insert_or_assign_self, lookup-insert_or_assign_ne, subst, if_neg, ◌∙◌, ap,
}
use infer_sched_distributed.Durable.OffsetTracker
use infer_sched_distributed.Durable.OffsetTracker.{OffsetTracker, set_insert, set_erase, advance}
use infer_sched_distributed.Durable.OffsetTracker.Commits.{mem-set_insert, mem-set_erase_imp}
use infer_sched_distributed.Durable.KafkaPoller.{
  KafkaMessage, KafkaPoller, mark_publish_complete, receive,
}

module _ (partition k : ℕ) where
  -- The offset is not committed, and not among those complete above.
  pub record WaitsIn (t : OffsetTracker) : Type 0 where
    pub ahead : t.next_offset ≤ k
    pub open_offset : mem k t.completed ≡ false

  advance-WaitsIn :
      (fuel next : ℕ) (completed : List ℕ)
      → next ≤ k
      → mem k completed ≡ false
      → WaitsIn (advance fuel next completed)
  unfolding advance
  advance-WaitsIn zero next completed low gone = record { ahead = low; open_offset = gone }
  advance-WaitsIn (suc fuel) next completed low gone =
      if_elim WaitsIn (mem next completed)
        (λ here.
          advance-WaitsIn fuel (suc next) (set_erase next completed)
            (elim (Bool-cases (next == k)) [
              | inl e ↦ absurd (ground (arith, e, here, gone))
              | inr n ↦ ground (arith, n, low)
            ])
            (ground (arith, mem-set_erase_imp k next completed, gone)))
        (λ _. record { ahead = low; open_offset = gone })

  mark-WaitsIn :
      (offset : ℕ) (t : OffsetTracker)
      → offset ≢ k
      → WaitsIn t
      → WaitsIn (OffsetTracker.mark_publish_complete t offset)
  unfolding OffsetTracker.mark_publish_complete
  mark-WaitsIn offset t other waits =
      if_elim WaitsIn (ltb offset t.next_offset) (λ _. waits)
        (λ _.
          advance-WaitsIn _ t.next_offset (set_insert offset t.completed) waits.ahead
            (ground (arith, mem-set_insert k offset t.completed, other, waits.open_offset)))

  -- A commit that does not reach the offset.
  abbrev pub Short : ℕ × ℕ → Type 0
  Short e = e.0 ≡ partition → e.1 < k

  pub record Waits (p : KafkaPoller) : Type 0 where
    pub tracker : OffsetTracker
    pub tracked : lookup ℕ_discrete partition p.trackers ≡ some tracker
    pub waits : WaitsIn tracker
    pub commits : All Short p.commits

  pub Waits-same :
      (p q : KafkaPoller) → q.trackers ≡ p.trackers → q.commits ≡ p.commits → Waits p → Waits q
  Waits-same p q e f w = record {
    tracker = w.tracker;
    tracked = ap (lookup ℕ_discrete partition) e ∙ w.tracked;
    waits = w.waits;
    commits = rw f w.commits;
  }

  abbrev pub Elsewhere : KafkaMessage → Type 0
  Elsewhere m = m.partition ≡ partition → m.offset ≢ k

  -- The tracker of the marked partition, before the commit is queued.
  marked :
      (p : KafkaPoller) (message : KafkaMessage) (t : OffsetTracker)
      → Elsewhere message
      → lookup ℕ_discrete message.partition p.trackers ≡ some t
      → Waits p
      → let t' = OffsetTracker.mark_publish_complete t message.offset in
        (u : OffsetTracker) × (lookup ℕ_discrete partition
            (insert_or_assign ℕ_discrete message.partition t' p.trackers)
          ≡ some u)
        × WaitsIn u
        × (message.partition ≡ partition → t'.next_offset ≤ k)
  marked p message t away e w =
      let t' = OffsetTracker.mark_publish_complete t message.offset in
      elim (ℕ_discrete message.partition partition) [
        | yes q ↦
            let one : w.tracker ≡ t = ground (arith, q, e, w.tracked) in
            let there = mark-WaitsIn message.offset t (away q) (subst WaitsIn one w.waits) in
            (
              t',
              subst
                  (λ x.
                    lookup ℕ_discrete x
                      (insert_or_assign ℕ_discrete message.partition t' p.trackers)
                    ≡ some t')
                  q (lookup-insert_or_assign_self ℕ_discrete message.partition t' p.trackers),
              there,
              λ _. there.ahead,
            )
        | no n ↦ (
          w.tracker,
          lookup-insert_or_assign_ne ℕ_discrete message.partition partition t' p.trackers n
              ∙ w.tracked,
          w.waits,
          λ q. absurd (n q),
        )
      ]

  pub mark_publish_complete-Waits :
      (p : KafkaPoller) (message : KafkaMessage)
      → Elsewhere message
      → Waits p
      → Waits (mark_publish_complete p message.partition message.offset)
  unfolding mark_publish_complete
  mark_publish_complete-Waits p message away w =
      elim (Option-cases (lookup ℕ_discrete message.partition p.trackers)) [
        | inl e ↦ rw (mark_publish_complete, e) w
        | inr (t, e) ↦
            let t' = OffsetTracker.mark_publish_complete t message.offset in
            let (u, found, there, reach) = marked p message t away e w in
            rw (mark_publish_complete, e)
              (if_elim Waits (ltb t.next_offset t'.next_offset)
                (λ further. record {
                  tracker = u;
                  tracked = found;
                  waits = there;
                  commits =
                      All-append_one Short p.commits _ w.commits
                        (λ q. ground (arith, reach q, further));
                })
                (λ _. record { tracker = u; tracked = found; waits = there; commits = w.commits }))
      ]

  pub receive-Waits :
      (p : KafkaPoller) (message : KafkaMessage) → Waits p → Waits (receive p message)
  unfolding receive
  receive-Waits p message w = elim (Option-cases (lookup ℕ_discrete message.partition p.trackers)) [
    | inl e ↦
        let other : message.partition ≢ partition = λ q. ground (arith, q, e, w.tracked) in
        record {
          tracker = w.tracker;
          tracked = unfold lookup in rw (e, if_neg _ other) w.tracked;
          waits = w.waits;
          commits = w.commits;
        }
    | inr (t, e) ↦ record {
      tracker = w.tracker;
      tracked = rw e w.tracked;
      waits = w.waits;
      commits = w.commits;
    }
  ]
