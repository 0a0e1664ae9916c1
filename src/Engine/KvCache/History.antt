-- ===== src/Engine/KvCache/History.antt =====
-- Histories of calls of the paged cache (paged_kv_cache.cpp), starting at its constructor.
use infer_sched_distributed.Base.{
  ℕ, ◌+◌, ◌≤◌, ◌<◌, ◌≡◌, arith, true, List, [], ◌∷◌, String, ok, length, u32_mod, text_discrete,
  length-erase-le, length-insert_or_assign,
}
use infer_sched_distributed.Engine.KvCache.{
  PagedKvCache, init, allocate, reserve, free, append_blocks, pin_prefix, unpin_prefix,
  total_blocks, free_blocks,
}
use infer_sched_distributed.Engine.KvCache.Invariant.{IsValid, HasRoom, init-IsValid}
use infer_sched_distributed.Engine.KvCache.Preserve.{
  allocate-IsValid, free-IsValid, append_blocks-IsValid, pin_prefix-IsValid, unpin_prefix-IsValid,
}
use infer_sched_distributed.Engine.KvCache.Accounting.{free-add-held, held_below}
use infer_sched_distributed.Engine.KvCache.Check.{check_invariants, check_invariants-true}

pub data Call : Type 0 where
  allocates : String → ℕ → List ℕ → Call
  frees : String → Call
  appends : String → ℕ → Call
  pins : String → List ℕ → Call
  unpins : String → Call

unfoldable pub step : PagedKvCache → Call → PagedKvCache
step c (allocates id required shared) = (allocate c id required shared).1
step c (frees id) = (free c id).1
step c (appends id additional) = (append_blocks c id additional).1
step c (pins key blocks) = (pin_prefix c key blocks).1
step c (unpins key) = (unpin_prefix c key).1

unfoldable pub run : PagedKvCache → List Call → PagedKvCache
run c [] = c
run c (call ∷ calls) = run (step c call) calls

abbrev pub holders : PagedKvCache → ℕ
holders c = length c.sequence_blocks + length c.prefix_blocks

-- A call adds one holder at most.
holders-step : (c : PagedKvCache) (call : Call) → holders (step c call) ≤ holders c + 1
unfolding step
holders-step c (allocates id required shared) = unfold allocate reserve in ground arith
holders-step c (frees id) =
    unfold free in ground (arith, length-erase-le text_discrete id c.sequence_blocks)
holders-step c (appends id additional) =
    unfold append_blocks in grind (arith, length-insert_or_assign text_discrete id)
holders-step c (pins key blocks) = unfold pin_prefix in ground arith
holders-step c (unpins key) =
    unfold unpin_prefix in ground (arith, length-erase-le text_discrete key c.prefix_blocks)

pub step-IsValid : (c : PagedKvCache) (call : Call) → IsValid c → HasRoom c → IsValid (step c call)
unfolding step
step-IsValid c (allocates id required shared) v r = allocate-IsValid c id required shared v r
step-IsValid c (frees id) v r = free-IsValid c id v
step-IsValid c (appends id additional) v r = append_blocks-IsValid c id additional v
step-IsValid c (pins key blocks) v r = pin_prefix-IsValid c key blocks v r
step-IsValid c (unpins key) v r = unpin_prefix-IsValid c key v

-- A well-formed cache stays well-formed under any calls, as long as the number of its sequences and
-- pinned prefixes and the number of the calls are together below 2 ^ 32.
pub run-IsValid :
    (c : PagedKvCache) (calls : List Call)
    → IsValid c
    → holders c + length calls < u32_mod
    → IsValid (run c calls)
unfolding run
run-IsValid c [] v r = v
run-IsValid c (call ∷ calls) v r =
    run-IsValid (step c call) calls (step-IsValid c call v (omega arith))
      (omega (arith, holders-step c call))

-- Whatever calls are made of a new cache, fewer than 2 ^ 32 of them, its `CheckInvariants` answers
-- true afterwards, and the free blocks and the held blocks are all the blocks.
pub run-check_invariants :
    (block_count block_size : ℕ) (c : PagedKvCache) (calls : List Call)
    → init block_count block_size ≡ ok c
    → length calls < u32_mod
    → (check_invariants (run c calls) ≡ true)
      × (free_blocks (run c calls) + held_below (total_blocks (run c calls)) (run c calls).refcounts
          ≡ total_blocks (run c calls))
run-check_invariants n size c calls e short =
    let v = init-IsValid n size c e in
    let none_yet : holders c ≡ 0 = unfold init in ground arith in
    let w = run-IsValid c calls v (omega arith) in
    (check_invariants-true (run c calls) w, free-add-held (run c calls) w)
