-- ===== src/Durable/KafkaPoller/Tests.antt =====
-- Runs of the poller (kafka_poller.cpp).
use infer_sched_distributed.Base.{◌≡◌, refl, none, text_discrete}
use infer_sched_distributed.Durable.KafkaPoller.{create}

create_unknown : create "newest" ≡ none
unfolding create text_discrete
create_unknown = refl
