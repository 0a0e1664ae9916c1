-- ===== src/Engine/KvCache/Roundtrip.antt =====
-- `Free` after `Allocate` (paged_kv_cache.cpp).
use infer_sched_distributed.Base.{
  ℕ, zero, suc, ◌-◌, ◌≡◌, refl, ap, arith, ◌∙◌, List, String, length, lookup, erase,
}
use infer_sched_distributed.Engine.KvCache.{
  PagedKvCache, pool, allocated, add_refs, reserve, allocate, free, ref_count, free_blocks,
  total_blocks,
}
use infer_sched_distributed.Engine.KvCache.Loops.{
  length-add_refs, length-take_free, length-drop_refs,
}
use infer_sched_distributed.Engine.KvCache.Invariant.{IsValid, HasRoom, refs}
use infer_sched_distributed.Engine.KvCache.Preserve.{allocate-IsValid, free-IsValid}
use infer_sched_distributed.Engine.KvCache.Accounting.{free-add-held, held_below}

held_below-same :
    (n : ℕ) (c d : PagedKvCache)
    → ((b : ℕ) → ref_count c b ≡ ref_count d b)
    → held_below n c.refcounts ≡ held_below n d.refcounts
unfolding held_below
held_below-same zero c d h = refl
held_below-same (suc n) c d h = ground (arith, h n, held_below-same n c d h)

total_blocks-allocate :
    (c : PagedKvCache) (id : String) (required : ℕ) (shared : List ℕ)
    → total_blocks (allocate c id required shared).1 ≡ total_blocks c
unfolding allocate reserve
total_blocks-allocate c id required shared = ground (
  arith,
  length-add_refs c.refcounts shared,
  length-take_free (required - length shared) (add_refs c.refcounts shared) c.free_list shared,
)

total_blocks-free : (c : PagedKvCache) (id : String) → total_blocks (free c id).1 ≡ total_blocks c
unfolding free
total_blocks-free c id = grind (arith, length-drop_refs (pool c))

-- What `Free` leaves of the maps, where `Allocate` has just added the sequence.
maps_back :
    (c : PagedKvCache) (id : String) (required : ℕ) (shared : List ℕ)
    → (allocate c id required shared).0 ≡ allocated
    → let c' = (free (allocate c id required shared).1 id).1 in
      (c'.sequence_blocks ≡ c.sequence_blocks) × (c'.prefix_blocks ≡ c.prefix_blocks)
unfolding allocate free reserve lookup erase
maps_back c id required shared h = ground arith

-- In a well-formed cache with room for one more holder, to free a sequence that was just allocated brings back the sequences, every reference count and
-- the number of free blocks.
pub free-allocate :
    (c : PagedKvCache) (id : String) (required : ℕ) (shared : List ℕ)
    → IsValid c
    → HasRoom c
    → (allocate c id required shared).0 ≡ allocated
    → let c' = (free (allocate c id required shared).1 id).1 in
      (c'.sequence_blocks ≡ c.sequence_blocks)
      × ((b : ℕ) → ref_count c' b ≡ ref_count c b)
      × (free_blocks c' ≡ free_blocks c)
free-allocate c id required shared v room h =
    let c' = (allocate c id required shared).1 in
    let c'' = (free c' id).1 in
    let v'' = free-IsValid c' id (allocate-IsValid c id required shared v room) in
    let (seqs, prefs) = maps_back c id required shared h in
    let counts : (b : ℕ) → ref_count c'' b ≡ ref_count c b =
      λ b. omega (arith, v.counted b, v''.counted b, ap (refs b) seqs, ap (refs b) prefs) in
    let size : total_blocks c'' ≡ total_blocks c =
      total_blocks-free c' id ∙ total_blocks-allocate c id required shared in
    (
      seqs,
      counts,
      omega (
        arith,
        free-add-held c v,
        free-add-held c'' v'',
        size,
        held_below-same (total_blocks c) c'' c counts,
        ap (λ n. held_below n c''.refcounts) size,
      ),
    )
