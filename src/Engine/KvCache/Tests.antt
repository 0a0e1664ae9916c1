-- ===== src/Engine/KvCache/Tests.antt =====
-- The paged cache on concrete inputs (paged_kv_cache.cpp).
use infer_sched_distributed.Base.{
  ℕ, ◌+◌, ◌≡◌, ◌≢◌, refl, arith, true, List, [], ◌∷◌, some, ok, lookup, erase, insert_or_assign,
  text_discrete,
}
use infer_sched_distributed.Engine.KvCache.{
  PagedKvCache, allocated, insufficient_blocks, sequence_already_exists, invalid_shared_block, init,
  fill_free, valid_blocks, add_refs, take_free, drop_ref, drop_refs, reserve, allocate, free,
  append_blocks, pin_prefix, unpin_prefix, blocks_for, ref_count, free_blocks, total_blocks,
}
use infer_sched_distributed.Engine.KvCache.Invariant.{IsValid, init-IsValid}
use infer_sched_distributed.Engine.KvCache.Check.{check_invariants}
use infer_sched_distributed.Engine.KvCache.Accounting.{held_below}
use infer_sched_distributed.Engine.KvCache.Roundtrip.{free-allocate}
use infer_sched_distributed.Engine.KvCache.History.{
  run-IsValid, Call, allocates, frees, appends, pins, unpins, step, run, run-check_invariants,
}

program : Unit {0}
unfolding init fill_free valid_blocks add_refs take_free drop_ref drop_refs reserve allocate free
    append_blocks pin_prefix unpin_prefix blocks_for step run lookup erase insert_or_assign
    text_discrete
program = tt

-- Four blocks of sixteen tokens.
abbrev four : PagedKvCache
four = record {
  block_size_tokens = 16;
  refcounts = 0 ∷ 0 ∷ 0 ∷ 0 ∷ [];
  free_list = 0 ∷ 1 ∷ 2 ∷ 3 ∷ [];
  sequence_blocks = [];
  prefix_blocks = [];
}

init-four : init 4 16 ≡ ok four
unfolding program
init-four = refl

four-IsValid : IsValid four
four-IsValid = init-IsValid 4 16 four init-four

-- A sequence of two blocks, whose first block is pinned.
abbrev pinned : PagedKvCache
pinned = record four {
  refcounts = 2 ∷ 1 ∷ 0 ∷ 0 ∷ [];
  free_list = 2 ∷ 3 ∷ [];
  sequence_blocks = ("a", 0 ∷ 1 ∷ []) ∷ [];
  prefix_blocks = ("p", 0 ∷ []) ∷ [];
}

abbrev opening : List Call
opening = allocates "a" 2 [] ∷ pins "p" (0 ∷ []) ∷ []

run-opening : run four opening ≡ pinned
unfolding program
run-opening = refl

shared : allocate pinned "b" 2 (0 ∷ []) ≡ (
  allocated,
  record pinned {
    refcounts = 3 ∷ 1 ∷ 1 ∷ 0 ∷ [];
    free_list = 3 ∷ [];
    sequence_blocks = ("b", 0 ∷ 2 ∷ []) ∷ ("a", 0 ∷ 1 ∷ []) ∷ [];
  },
)
unfolding program
shared = refl

refused :
    ((allocate pinned "b" 4 (0 ∷ [])).0 ≡ insufficient_blocks)
    × ((allocate pinned "a" 1 []).0 ≡ sequence_already_exists)
    × ((allocate pinned "b" 2 (0 ∷ 0 ∷ [])).0 ≡ invalid_shared_block)
    × ((allocate pinned "b" 2 (2 ∷ [])).0 ≡ invalid_shared_block)
unfolding program
refused = (refl, refl, refl, refl)

-- Freeing the sequence keeps its pinned block.
freed : (free pinned "a").1 ≡ record pinned {
  refcounts = 1 ∷ 0 ∷ 0 ∷ 0 ∷ [];
  free_list = 1 ∷ 2 ∷ 3 ∷ [];
  sequence_blocks = [];
}
unfolding program
freed = refl

abbrev history : List Call
history =
    allocates "a" 2 []
    ∷ pins "p" (0 ∷ [])
    ∷ allocates "b" 2 (0 ∷ [])
    ∷ appends "b" 1
    ∷ frees "a"
    ∷ unpins "p"
    ∷ []

pinned-IsValid : IsValid pinned
unfolding program
pinned-IsValid = run-IsValid four opening four-IsValid (omega arith)

run-check_invariants_example :
    (check_invariants (run four history) ≡ true)
    × (free_blocks (run four history)
          + held_below (total_blocks (run four history)) (run four history).refcounts
        ≡ total_blocks (run four history))
run-check_invariants_example = run-check_invariants 4 16 four history init-four (omega arith)

not_allocated : (allocate pinned "b" 4 (0 ∷ [])).0 ≢ allocated
unfolding program
not_allocated e = cc

allocate_b : (allocate pinned "b" 2 (0 ∷ [])).0 ≡ allocated
unfolding program
allocate_b = refl

found_a : lookup text_discrete "a" pinned.sequence_blocks ≡ some (0 ∷ 1 ∷ [])
unfolding program
found_a = refl

free-allocate_example :
    let c' = (free (allocate pinned "b" 2 (0 ∷ [])).1 "b").1 in
    (c'.sequence_blocks ≡ pinned.sequence_blocks)
    × ((b : ℕ) → ref_count c' b ≡ ref_count pinned b)
    × (free_blocks c' ≡ 2)
free-allocate_example = free-allocate pinned "b" 2 (0 ∷ []) pinned-IsValid (omega arith) allocate_b

abbrev closing : List Call
closing = allocates "a" 2 [] ∷ pins "p" (0 ∷ []) ∷ frees "a" ∷ unpins "p" ∷ []
