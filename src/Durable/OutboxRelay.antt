-- ===== src/Durable/OutboxRelay.antt =====
-- `OutboxRelay`: cpp/include/infersched/durable/outbox_relay.hpp and cpp/src/outbox_relay.cpp.
-- The publisher is an interface of the source: `publish` is its one member, on a state of its own;
-- Publisher has the one that stands on Kafka.
pub mod Batches
pub mod Publisher
mod Tests
use infer_sched_distributed.Base.{ℕ, suc, Bool, List, [], ◌∷◌, if◌then◌else◌}
use infer_sched_distributed.Durable.Store.{Tables, OutboxRow}
use infer_sched_distributed.Durable.Store.Queries.{fetch_unpublished, mark_published}

module _ {ℓ} {W : Type ℓ} (publish : W → OutboxRow → Bool × W) where
  -- The loop over the rows fetched: the rows published, the publisher and the tables.
  unfoldable pub publish_rows : List OutboxRow → W → Tables → ℕ × W × Tables
  publish_rows [] w t = (0, w, t)
  publish_rows (row ∷ rows) w t =
      let (delivered, w') = publish w row in
      let (published, w'', t') = publish_rows rows w' (mark_published t row.id) in
      if delivered then (suc published, w'', t') else (0, w', t)

  unfoldable pub publish_batch : ℕ → W → Tables → ℕ × W × Tables
  publish_batch limit w t = publish_rows (fetch_unpublished t limit) w t
