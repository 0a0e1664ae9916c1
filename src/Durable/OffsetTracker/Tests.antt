-- ===== src/Durable/OffsetTracker/Tests.antt =====
-- Witnesses for the offset tracker (offset_tracker.cpp).
use infer_sched_distributed.Base.{ℕ, ◌≡◌, refl, arith, List, [], ◌∷◌, mem}
use infer_sched_distributed.Durable.OffsetTracker.{init, mark_publish_complete, advance, set_erase}
use infer_sched_distributed.Durable.OffsetTracker.Commits.{
  run, IsFirstMissing, run-IsFirstMissing, run-reorder,
}

-- Offsets 1, 2, 0 and 4 complete in this order.
abbrev out_of_order : List ℕ
out_of_order = 4 ∷ 0 ∷ 2 ∷ 1 ∷ []

run-out_of_order : (run (init 0) out_of_order).next_offset ≡ 3
unfolding run init mark_publish_complete advance set_erase
run-out_of_order = refl

run-IsFirstMissing_example : IsFirstMissing 0 out_of_order (run (init 0) out_of_order).next_offset
run-IsFirstMissing_example = run-IsFirstMissing 0 out_of_order

same_members : (k : ℕ) → mem k out_of_order ≡ mem k (2 ∷ 1 ∷ 4 ∷ 0 ∷ [])
same_members k = ground arith

run-reorder_example :
    (run (init 0) out_of_order).next_offset ≡ (run (init 0) (2 ∷ 1 ∷ 4 ∷ 0 ∷ [])).next_offset
run-reorder_example = run-reorder 0 out_of_order (2 ∷ 1 ∷ 4 ∷ 0 ∷ []) same_members
