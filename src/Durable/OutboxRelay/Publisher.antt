-- ===== src/Durable/OutboxRelay/Publisher.antt =====
-- `KafkaOutboxPublisher` (cpp/src/outbox_relay.cpp). librdkafka's producer is not modelled: what it
-- does during a `Publish` is an argument.
use infer_sched_distributed.Base.{
  ℕ, suc, ◌≡◌, refl, ap, arith, ◌∙◌, Bool, true, false, ◌&&◌, ◌||◌, ◌==◌, List, [], ◌∷◌, All,
  if◌then◌else◌,
}
use infer_sched_distributed.Durable.Store.{OutboxRow}

-- A delivery report: the id of the outbox row whose message it is about, which `dr_cb` does not
-- read, and whether `err` is ERR_NO_ERROR.
pub record Report : Type 0 where
  pub about : ℕ
  pub no_error : Bool

-- What the producer does during a `Publish`: whether `produce` takes the message, and for each
-- `poll` that starts before the deadline the reports that it hands to `dr_cb`, in their order.
pub record Sending : Type 0 where
  pub produced : Bool
  pub polls : List (List Report)

pub record KafkaOutboxPublisher : Type 0 where
  pub complete : Bool
  pub delivered : Bool

-- The flags of a new publisher.
abbrev pub created : KafkaOutboxPublisher
created = record { complete = false; delivered = false }

unfoldable pub dr_cb : KafkaOutboxPublisher → Report → KafkaOutboxPublisher
dr_cb p report = record { complete = true; delivered = report.no_error }

-- `producer->poll(10)`.
unfoldable pub poll_producer : KafkaOutboxPublisher → List Report → KafkaOutboxPublisher
poll_producer p [] = p
poll_producer p (report ∷ reports) = poll_producer (dr_cb p report) reports

-- The loop; the deadline comes after the last of the given polls.
unfoldable pub await_report : KafkaOutboxPublisher → List (List Report) → KafkaOutboxPublisher
await_report p [] = p
await_report p (reports ∷ polls) =
    let rest = await_report (poll_producer p reports) polls in if p.complete then p else rest

-- `Publish`: the answer and the publisher.
unfoldable pub publish : KafkaOutboxPublisher → Sending → Bool × KafkaOutboxPublisher
publish p sending =
    let reset : KafkaOutboxPublisher = record { complete = false; delivered = false } in
    let waited = await_report reset sending.polls in
    if sending.produced then (waited.delivered, waited) else (false, reset)

-- The publisher as the relay calls it: its state, and the number of the next call of `Publish`.
unfoldable pub publish_row :
    (ℕ → Sending) → KafkaOutboxPublisher × ℕ → OutboxRow → Bool × (KafkaOutboxPublisher × ℕ)
publish_row sendings (p, n) row = let (answer, p') = publish p (sendings n) in (answer, (p', suc n))

-- The reports of the first poll that hands over any.
unfoldable pub first_reports : List (List Report) → List Report
first_reports [] = []
first_reports ([] ∷ polls) = first_reports polls
first_reports ((report ∷ reports) ∷ polls) = report ∷ reports

-- Whether the last report says success; the given answer where there is none.
unfoldable pub last_or : Bool → List Report → Bool
last_or otherwise [] = otherwise
last_or otherwise (report ∷ reports) = last_or report.no_error reports

poll_producer-delivered :
    (p : KafkaOutboxPublisher) (reports : List Report)
    → (poll_producer p reports).delivered ≡ last_or p.delivered reports
unfolding poll_producer last_or dr_cb
poll_producer-delivered p [] = refl
poll_producer-delivered p (report ∷ reports) = poll_producer-delivered (dr_cb p report) reports

poll_producer-complete :
    (p : KafkaOutboxPublisher) (reports : List Report)
    → p.complete ≡ true
    → (poll_producer p reports).complete ≡ true
unfolding poll_producer dr_cb
poll_producer-complete p [] h = h
poll_producer-complete p (report ∷ reports) h = poll_producer-complete (dr_cb p report) reports refl

await_report_complete :
    (p : KafkaOutboxPublisher) (polls : List (List Report))
    → p.complete ≡ true
    → await_report p polls ≡ p
unfolding await_report
await_report_complete p [] h = refl
await_report_complete p (reports ∷ polls) h = rw (h, await_report) refl

await_report-delivered :
    (p : KafkaOutboxPublisher) (polls : List (List Report))
    → p.complete ≡ false
    → p.delivered ≡ false
    → (await_report p polls).delivered ≡ last_or false (first_reports polls)
unfolding await_report first_reports last_or poll_producer dr_cb
await_report-delivered p [] waiting fresh = fresh
await_report-delivered p ([] ∷ polls) waiting fresh =
    ground (arith, waiting, await_report-delivered p polls waiting fresh)
await_report-delivered p ((report ∷ reports) ∷ polls) waiting fresh =
    let p' = poll_producer (dr_cb p report) reports in
    let stops : await_report p' polls ≡ p' =
      await_report_complete p' polls (poll_producer-complete (dr_cb p report) reports refl) in
    let answered : p'.delivered ≡ last_or report.no_error reports =
      poll_producer-delivered (dr_cb p report) reports in
    let enters : (if p.complete then p else await_report p' polls) ≡ await_report p' polls =
      ground (arith, waiting) in
    ap (λ q. q.delivered) (enters ∙ stops) ∙ answered

-- `Publish` answers true exactly if the producer takes the message and, of the first poll that hands
-- over any delivery reports, the last says success. What the publisher held before makes no
-- difference, nor do later reports, nor does the message that any report is about.
pub publish-last_or :
    (p : KafkaOutboxPublisher) (sending : Sending)
    → (publish p sending).0 ≡ (sending.produced && last_or false (first_reports sending.polls))
unfolding publish
publish-last_or p sending = ground (
  arith,
  await_report-delivered (record { complete = false; delivered = false }) sending.polls refl refl,
)

-- Whether one of the reports says success for the message of the row.
unfoldable pub reported : ℕ → List Report → Bool
reported id [] = false
reported id (report ∷ reports) = (report.about == id && report.no_error) || reported id reports

unfoldable pub reported_during : ℕ → List (List Report) → Bool
reported_during id [] = false
reported_during id (reports ∷ polls) = reported id reports || reported_during id polls

-- All reports are about the message of the row.
abbrev pub AreAbout : ℕ → List (List Report) → Type 0
AreAbout id polls = All (All (λ report. report.about ≡ id)) polls

last_or-reported :
    (id : ℕ) (otherwise : Bool) (reports : List Report)
    → All (λ report. report.about ≡ id) reports
    → last_or otherwise reports ≡ true
    → (otherwise || reported id reports) ≡ true
unfolding last_or reported
last_or-reported id otherwise [] own h = ground arith
last_or-reported id otherwise (report ∷ reports) own h =
    ground (arith, own.0, last_or-reported id report.no_error reports own.1 h)

first_reports-reported :
    (id : ℕ) (polls : List (List Report))
    → AreAbout id polls
    → last_or false (first_reports polls) ≡ true
    → reported_during id polls ≡ true
unfolding first_reports reported_during
first_reports-reported id [] own h = absurd (unfold last_or in ground arith)
first_reports-reported id ([] ∷ polls) own h =
    ground (arith, first_reports-reported id polls own.1 h)
first_reports-reported id ((report ∷ reports) ∷ polls) own h =
    ground (arith, last_or-reported id false (report ∷ reports) own.0 h)

-- Where all reports that arrive during a `Publish` are about its own row, the answer true says
-- that Kafka has reported the row's message as delivered.
pub publish-reported :
    (p : KafkaOutboxPublisher) (sending : Sending) (id : ℕ)
    → AreAbout id sending.polls
    → (publish p sending).0 ≡ true
    → reported_during id sending.polls ≡ true
publish-reported p sending id own took =
    first_reports-reported id sending.polls own (ground (arith, took, publish-last_or p sending))
