-- ===== src/Engine/KvCache/Answers.antt =====
-- What each operation of the paged cache answers and does, branch by branch (paged_kv_cache.cpp).
use infer_sched_distributed.Base.{
  ℕ, zero, suc, ◌+◌, ◌-◌, ◌≤◌, ◌≡◌, ◌≢◌, ◌↔◌, refl, sym, arith, true, false, List, [], ◌∷◌, ◌++◌,
  none, some, String, length, take, lookup, text_discrete, lookup-erase_self, lookup-erase_ne,
  length-append, count,
}
use infer_sched_distributed.Engine.KvCache.{
  PagedKvCache, pool, allocated, valid_blocks, add_refs, reserve, allocate, free, blocks_for,
  ref_count,
}
use infer_sched_distributed.Engine.KvCache.Loops.{take_free-blocks, drop_refs-get}
use infer_sched_distributed.Engine.KvCache.Invariant.{IsValid, refcount-lt, refs-erase}

-- `Allocate` succeeds exactly when the id is new, the shared prefix is no longer than the demand
-- and passes the test, and the free list covers the rest.
allocate-allocated :
    (c : PagedKvCache) (id : String) (required : ℕ) (shared : List ℕ)
    → ((allocate c id required shared).0 ≡ allocated) ↔ (
        (lookup text_discrete id c.sequence_blocks ≡ none)
        × (length shared ≤ required)
        × (valid_blocks c.refcounts [] shared ≡ true)
        × (required - length shared ≤ length c.free_list))
unfolding allocate
allocate-allocated c id required shared = (ground arith, λ h. ground arith)

-- Allocation is all or nothing: any other answer leaves the cache as it was.
allocate_refused :
    (c : PagedKvCache) (id : String) (required : ℕ) (shared : List ℕ)
    → (allocate c id required shared).0 ≢ allocated
    → (allocate c id required shared).1 ≡ c
unfolding allocate
allocate_refused c id required shared h = ground arith

length-take : (n : ℕ) (xs : List ℕ) → n ≤ length xs → length (take n xs) ≡ n
length-take zero xs h = refl
length-take (suc n) [] h = absurd (omega arith)
length-take (suc n) (x ∷ xs) h = omega (arith, length-take n xs)

-- A sequence that is allocated holds the shared blocks and then the next free ones, as many as it
-- asked for, and every other sequence keeps its blocks.
allocate-blocks_for :
    (c : PagedKvCache) (id other : String) (required : ℕ) (shared : List ℕ)
    → (allocate c id required shared).0 ≡ allocated
    → let c' = (allocate c id required shared).1 in
      (blocks_for c' id ≡ shared ++ take (required - length shared) c.free_list)
      × (length (blocks_for c' id) ≡ required)
      × (other ≢ id → blocks_for c' other ≡ blocks_for c other)
unfolding allocate reserve blocks_for lookup
allocate-blocks_for c id other required shared h =
    let n : ℕ = required - length shared in
    ground (
      arith,
      take_free-blocks n (add_refs c.refcounts shared) c.free_list shared,
      length-take n c.free_list,
      length-append shared (take n c.free_list),
    )

-- `Free` of a sequence answers true, takes one reference from each of its blocks, forgets the
-- sequence and touches no other; it answers false and does nothing where there is none.
free-blocks_for :
    (c : PagedKvCache) (id other : String) (blocks : List ℕ)
    → IsValid c
    → lookup text_discrete id c.sequence_blocks ≡ some blocks
    → let c' = (free c id).1 in
      ((free c id).0 ≡ true)
      × (lookup text_discrete id c'.sequence_blocks ≡ none)
      × ((b : ℕ) → ref_count c' b + count b blocks ≡ ref_count c b)
      × (other ≢ id → blocks_for c' other ≡ blocks_for c other)
unfolding free blocks_for
free-blocks_for c id other blocks v found =
    rw (found, free)
      (
        refl,
        lookup-erase_self text_discrete id c.sequence_blocks v.sequences_unique,
        drop_refs-get (pool c) blocks (refcount-lt c v)
            (λ b. omega (arith, v.counted b, refs-erase id blocks b c.sequence_blocks found)),
        λ h. rw (lookup-erase_ne text_discrete id other c.sequence_blocks (λ e. h (sym e))) refl,
      )

pub free_unknown :
    (c : PagedKvCache) (id : String)
    → lookup text_discrete id c.sequence_blocks ≡ none
    → free c id ≡ (false, c)
unfolding free
free_unknown c id absent = rw (absent, free)
