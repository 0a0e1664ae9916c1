-- ===== src/Durable/RequestIngestor/Tests.antt =====
-- Witnesses for the ingestor (request_ingestor.cpp), with a parser that reads every text but one.
use infer_sched_distributed.Base.{
  ◌≡◌, ◌++◌, refl, arith, true, [], ◌∷◌, Option, none, some, String, if◌then◌else◌, same_text,
  replicate, lookup, text_discrete,
}
use infer_sched_distributed.Durable.Store.{migrated}
use infer_sched_distributed.Durable.Store.Queries.{poison_has}
use infer_sched_distributed.Durable.RequestIngestor.{
  duplicate, retry_parse, poison_recorded, SourcePosition, RequestIngestor, init, request_id_of,
  handle,
}
use infer_sched_distributed.Durable.RequestIngestor.Deliveries.{
  deliver, deliver_malformed, deliver_redelivered,
}

abbrev parse : String → Option String
parse s = if same_text s "noise" then none else some s

abbrev hex : String → String
hex s = s

abbrev here : SourcePosition
here = record { partition = 0; offset = 7 }

noise : request_id_of parse "noise" ≡ none
unfolding request_id_of text_discrete
noise = refl

well_formed : request_id_of parse "r" ≡ some "r"
unfolding request_id_of text_discrete
well_formed = refl

abbrev ingestor : RequestIngestor
ingestor = init 3

deliver_malformed_example :
    ((deliver parse hex 3 ingestor migrated here "noise").0
      ≡ replicate 2 retry_parse ++ poison_recorded ∷ [])
    × (poison_has 0 7 (deliver parse hex 3 ingestor migrated here "noise").2.poison_messages ≡ true)
unfolding lookup init
deliver_malformed_example =
    deliver_malformed parse hex 2 ingestor migrated here "noise" noise refl refl (omega arith)

deliver_redelivered_example :
    ((deliver parse hex 3 ingestor migrated here "r").0
      ≡ (handle parse hex ingestor migrated here "r").0 ∷ replicate 2 duplicate)
    × ((deliver parse hex 3 ingestor migrated here "r").2
        ≡ (handle parse hex ingestor migrated here "r").2)
deliver_redelivered_example =
    deliver_redelivered parse hex 2 ingestor migrated here "r" "r" well_formed
