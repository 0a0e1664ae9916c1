-- ===== src/Durable/OffsetTracker.antt =====
-- `ContiguousOffsetTracker`: cpp/include/infersched/durable/offset_tracker.hpp and
-- cpp/src/offset_tracker.cpp. Kafka's offsets start at 0, and `committed_offset_` at -1 at the
-- least: it is held one higher, as `next_offset`, the first offset that is not committed.
pub mod Commits
mod Tests
use infer_sched_distributed.Base.{
  ℕ, zero, suc, ◌+◌, Bool, true, false, List, [], ◌∷◌, ltb, ◌==◌, if◌then◌else◌, mem, length,
}

pub record OffsetTracker : Type 0 where
  pub next_offset : ℕ
  pub completed : List ℕ

unfoldable pub init : ℕ → OffsetTracker
init next_offset = record { next_offset = next_offset; completed = [] }

-- `insert` and `erase` of the `std::set`, whose order nothing reads.
abbrev pub set_insert : ℕ → List ℕ → List ℕ
set_insert x xs = if mem x xs then xs else x ∷ xs

unfoldable pub set_erase : ℕ → List ℕ → List ℕ
set_erase x [] = []
set_erase x (y ∷ ys) = if y == x then ys else y ∷ set_erase x ys

-- The `while` loop. Each turn takes an offset out of the set, so its size is fuel enough.
unfoldable pub advance : ℕ → ℕ → List ℕ → OffsetTracker
advance zero next completed = record { next_offset = next; completed = completed }
advance (suc fuel) next completed =
    let later = advance fuel (suc next) (set_erase next completed) in
    if mem next completed then later else record { next_offset = next; completed = completed }

-- The state after the call; its answer is the new `committed_offset_`.
unfoldable pub mark_publish_complete : OffsetTracker → ℕ → OffsetTracker
mark_publish_complete t offset =
    let completed = set_insert offset t.completed in
    if ltb offset t.next_offset then t else advance (length completed) t.next_offset completed
