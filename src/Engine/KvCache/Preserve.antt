-- ===== src/Engine/KvCache/Preserve.antt =====
-- Every operation of the paged cache keeps it valid (paged_kv_cache.cpp).
mod Reserved
unfoldable pub use Reserved.*
use infer_sched_distributed.Base.{
  ℕ, ◌+◌, ◌-◌, ◌≤◌, ◌<◌, ◌≡◌, ap, arith, ◌∙◌, true, List, [], ◌∷◌, none, some, String, inl, inr,
  Option-cases, length, get_or, count, take, lookup, erase, insert_or_assign, text_discrete,
  lookup-All, erase-All, insert_or_assign-All, erase-Unique, insert_or_assign-Unique, length-erase,
  length-insert_or_assign, count-append,
}
use infer_sched_distributed.Engine.KvCache.{
  PagedKvCache, Pool, pool, valid_blocks, add_refs, take_free, drop_refs, reserve, allocate, free,
  append_blocks, pin_prefix, unpin_prefix,
}
use infer_sched_distributed.Engine.KvCache.Loops.{
  IsFreeList, valid_blocks-held, valid_blocks-count-le, length-add_refs, add_refs-get,
  add_refs-IsFreeList, length-take_free, take_free-blocks, count-take-drop, take_free-get,
  take_free-IsFreeList, length-drop_refs, drop_refs-get, drop_refs-IsFreeList,
}
use infer_sched_distributed.Engine.KvCache.Invariant.{
  IsValid, HasRoom, refs-erase, refs-insert_or_assign, refcount-lt, refcount_room,
}

-- Giving back the blocks of one sequence or of one prefix.
module _ (c : PagedKvCache) (v : IsValid c) (k : String) (blocks : List ℕ) where
  dropped : Pool
  dropped = drop_refs (pool c) blocks

  module _ (held : (b : ℕ) → count b blocks ≤ get_or c.refcounts b 0) where
    dropped-get : (b : ℕ) → get_or dropped.refcounts b 0 + count b blocks ≡ get_or c.refcounts b 0
    unfolding dropped
    dropped-get = drop_refs-get (pool c) blocks (refcount-lt c v) held

    dropped-IsFreeList : IsFreeList dropped
    unfolding dropped
    dropped-IsFreeList = drop_refs-IsFreeList (pool c) blocks (refcount-lt c v) held v.free

  module _ (found : lookup text_discrete k c.sequence_blocks ≡ some blocks) where
    sequence_held : (b : ℕ) → count b blocks ≤ get_or c.refcounts b 0
    sequence_held b = omega (arith, v.counted b, refs-erase k blocks b c.sequence_blocks found)

    freed-IsValid : IsValid (record c {
      refcounts = dropped.refcounts;
      free_list = dropped.free_list;
      sequence_blocks = erase text_discrete k c.sequence_blocks;
    })
    freed-IsValid = record {
      counted = λ b. omega (
        arith,
        v.counted b,
        dropped-get sequence_held b,
        refs-erase k blocks b c.sequence_blocks found,
      );
      free = dropped-IsFreeList sequence_held;
      sequences_distinct =
          erase-All text_discrete (λ x. (b : ℕ) → count b x ≤ 1) k c.sequence_blocks
            v.sequences_distinct;
      prefixes_distinct = v.prefixes_distinct;
      sequences_unique = erase-Unique text_discrete k c.sequence_blocks v.sequences_unique;
      prefixes_unique = v.prefixes_unique;
      size_positive = v.size_positive;
      ids_fit = unfold dropped in omega (arith, v.ids_fit, length-drop_refs (pool c) blocks);
      holders_fit =
          omega (arith, v.holders_fit, length-erase text_discrete k c.sequence_blocks blocks found);
    }

  module _ (found : lookup text_discrete k c.prefix_blocks ≡ some blocks) where
    prefix_held : (b : ℕ) → count b blocks ≤ get_or c.refcounts b 0
    prefix_held b = omega (arith, v.counted b, refs-erase k blocks b c.prefix_blocks found)

    unpinned-IsValid : IsValid (record c {
      refcounts = dropped.refcounts;
      free_list = dropped.free_list;
      prefix_blocks = erase text_discrete k c.prefix_blocks;
    })
    unpinned-IsValid = record {
      counted = λ b. omega (
        arith,
        v.counted b,
        dropped-get prefix_held b,
        refs-erase k blocks b c.prefix_blocks found,
      );
      free = dropped-IsFreeList prefix_held;
      sequences_distinct = v.sequences_distinct;
      prefixes_distinct =
          erase-All text_discrete (λ x. (b : ℕ) → count b x ≤ 1) k c.prefix_blocks
            v.prefixes_distinct;
      sequences_unique = v.sequences_unique;
      prefixes_unique = erase-Unique text_discrete k c.prefix_blocks v.prefixes_unique;
      size_positive = v.size_positive;
      ids_fit = unfold dropped in omega (arith, v.ids_fit, length-drop_refs (pool c) blocks);
      holders_fit =
          omega (arith, v.holders_fit, length-erase text_discrete k c.prefix_blocks blocks found);
    }

-- `Free` keeps the cache valid.
pub free-IsValid : (c : PagedKvCache) (id : String) → IsValid c → IsValid (free c id).1
unfolding free dropped
free-IsValid c id v = elim (Option-cases (lookup text_discrete id c.sequence_blocks)) [
  | inl e ↦ rw (e, free) v
  | inr (blocks, e) ↦ rw (e, free) (freed-IsValid c v id blocks e)
]

-- `UnpinPrefix` keeps the cache valid.
pub unpin_prefix-IsValid :
    (c : PagedKvCache) (key : String) → IsValid c → IsValid (unpin_prefix c key).1
unfolding unpin_prefix dropped
unpin_prefix-IsValid c key v = elim (Option-cases (lookup text_discrete key c.prefix_blocks)) [
  | inl e ↦ rw (e, unpin_prefix) v
  | inr (blocks, e) ↦ rw (e, unpin_prefix) (unpinned-IsValid c v key blocks e)
]

module _ (c : PagedKvCache) (v : IsValid c) (id : String) (blocks : List ℕ) (n : ℕ)
    (found : lookup text_discrete id c.sequence_blocks ≡ some blocks) where
  grown-IsValid : IsValid (record c {
    refcounts = (take_free n c.refcounts c.free_list blocks).0.refcounts;
    free_list = (take_free n c.refcounts c.free_list blocks).0.free_list;
    sequence_blocks =
        insert_or_assign text_discrete id
          (take_free n c.refcounts c.free_list blocks).1
          c.sequence_blocks;
  })
  grown-IsValid =
      let new = (take_free n c.refcounts c.free_list blocks).1 in
      let count_of = taken-count n c.refcounts c.free_list blocks v.free in
      let bound = take-count-le n c.refcounts c.free_list blocks v.free in
      record {
        counted = λ b. omega (
          arith,
          v.counted b,
          count_of b,
          taken-get n c.refcounts c.free_list blocks v.free b,
          refs-insert_or_assign id blocks b new c.sequence_blocks found,
        );
        free = take_free-IsFreeList n c.refcounts c.free_list blocks v.free;
        sequences_distinct =
            insert_or_assign-All text_discrete (λ x. (b : ℕ) → count b x ≤ 1) id new
              c.sequence_blocks
              (λ b. ground (
                arith,
                count_of b,
                bound b,
                sequence_held c v id blocks found b,
                lookup-All text_discrete (λ x. (b : ℕ) → count b x ≤ 1) id blocks c.sequence_blocks
                    found v.sequences_distinct b,
              ))
              v.sequences_distinct;
        prefixes_distinct = v.prefixes_distinct;
        sequences_unique =
            insert_or_assign-Unique text_discrete id new c.sequence_blocks v.sequences_unique;
        prefixes_unique = v.prefixes_unique;
        size_positive = v.size_positive;
        ids_fit = omega (arith, v.ids_fit, length-take_free n c.refcounts c.free_list blocks);
        holders_fit =
            ground (
              arith,
              v.holders_fit,
              length-insert_or_assign text_discrete id new c.sequence_blocks,
            );
      }

-- `AppendBlocks` keeps the cache valid, whatever it answers.
pub append_blocks-IsValid :
    (c : PagedKvCache) (id : String) (additional : ℕ)
    → IsValid c
    → IsValid (append_blocks c id additional).1
unfolding append_blocks
append_blocks-IsValid c id additional v =
    elim (Option-cases (lookup text_discrete id c.sequence_blocks)) [
      | inl e ↦ rw (e, append_blocks) v
      | inr (blocks, e) ↦
          rw (e, append_blocks) (ground (arith, grown-IsValid c v id blocks additional e))
    ]
