-- ===== src/Engine/KvCache/Preserve/Reserved.antt =====
-- Calls that reserve blocks keep the paged cache valid (paged_kv_cache.cpp).
use infer_sched_distributed.Base.{
  ℕ, ◌+◌, ◌-◌, ◌≤◌, ◌<◌, ◌≡◌, ap, arith, ◌∙◌, true, List, [], ◌∷◌, none, String, length, get_or,
  count, take, lookup, text_discrete, count-append,
}
use infer_sched_distributed.Engine.KvCache.{
  PagedKvCache, valid_blocks, add_refs, take_free, reserve, allocate, pin_prefix,
}
use infer_sched_distributed.Engine.KvCache.Loops.{
  IsFreeList, valid_blocks-held, valid_blocks-count-le, length-add_refs, add_refs-get,
  add_refs-IsFreeList, length-take_free, take_free-blocks, count-take-drop, take_free-get,
  take_free-IsFreeList,
}
use infer_sched_distributed.Engine.KvCache.Invariant.{IsValid, HasRoom, refcount_room}

-- Taking blocks off a free list.
module _ (n : ℕ) (rc free blocks : List ℕ)
    (f : IsFreeList (record { refcounts = rc; free_list = free })) where
  pub taken-get :
      (b : ℕ)
      → get_or (take_free n rc free blocks).0.refcounts b 0 ≡ get_or rc b 0 + count b (take n free)
  taken-get = take_free-get n rc free blocks (λ c k. ground (arith, f c))

  pub taken-count :
      (b : ℕ) → count b (take_free n rc free blocks).1 ≡ count b blocks + count b (take n free)
  taken-count b =
      ap (count b) (take_free-blocks n rc free blocks) ∙ count-append b blocks (take n free)

  -- A block that is held is not on the free list, and none is there twice.
  pub take-count-le :
      (b : ℕ) → (0 < get_or rc b 0 → count b (take n free) ≡ 0) × (count b (take n free) ≤ 1)
  take-count-le b = ground (arith, f b, count-take-drop b n free)

module _ (c : PagedKvCache) (v : IsValid c) (room : HasRoom c) (shared : List ℕ)
    (passed : valid_blocks c.refcounts [] shared ≡ true) where
  shared-get :
      (b : ℕ) → get_or (add_refs c.refcounts shared) b 0 ≡ get_or c.refcounts b 0 + count b shared
  shared-get =
      add_refs-get c.refcounts shared
        (λ b h. (valid_blocks-held c.refcounts [] shared b passed h).0)
        (λ b.
          omega
            (arith, refcount_room c v room b, valid_blocks-count-le c.refcounts [] shared b passed))

  shared-IsFreeList :
      IsFreeList (record { refcounts = add_refs c.refcounts shared; free_list = c.free_list })
  shared-IsFreeList =
      add_refs-IsFreeList c.refcounts c.free_list shared
        (λ b h. valid_blocks-held c.refcounts [] shared b passed h)
        (λ b.
          omega
            (arith, refcount_room c v room b, valid_blocks-count-le c.refcounts [] shared b passed))
        v.free

  reserve-IsValid :
      (id : String) (n : ℕ)
      → lookup text_discrete id c.sequence_blocks ≡ none
      → IsValid (reserve c id n shared)
  unfolding reserve
  reserve-IsValid id n absent =
      let rc = add_refs c.refcounts shared in
      let count_of = taken-count n rc c.free_list shared shared-IsFreeList in
      let bound = take-count-le n rc c.free_list shared shared-IsFreeList in
      record {
        counted = λ b. omega (
          arith,
          v.counted b,
          shared-get b,
          count_of b,
          taken-get n rc c.free_list shared shared-IsFreeList b,
        );
        free = take_free-IsFreeList n rc c.free_list shared shared-IsFreeList;
        sequences_distinct = (
          λ b. ground (
            arith,
            count_of b,
            bound b,
            shared-get b,
            valid_blocks-count-le c.refcounts [] shared b passed,
          ),
          v.sequences_distinct,
        );
        prefixes_distinct = v.prefixes_distinct;
        sequences_unique = (absent, v.sequences_unique);
        prefixes_unique = v.prefixes_unique;
        size_positive = v.size_positive;
        ids_fit = omega (
          arith,
          v.ids_fit,
          length-take_free n rc c.free_list shared,
          length-add_refs c.refcounts shared,
        );
        holders_fit = omega (arith, room);
      }

  pinned-IsValid :
      (key : String)
      → lookup text_discrete key c.prefix_blocks ≡ none
      → IsValid (record c {
        refcounts = add_refs c.refcounts shared;
        prefix_blocks = (key, shared) ∷ c.prefix_blocks;
      })
  pinned-IsValid key absent = record {
    counted = λ b. omega (arith, v.counted b, shared-get b);
    free = shared-IsFreeList;
    sequences_distinct = v.sequences_distinct;
    prefixes_distinct =
        (λ b. valid_blocks-count-le c.refcounts [] shared b passed, v.prefixes_distinct);
    sequences_unique = v.sequences_unique;
    prefixes_unique = (absent, v.prefixes_unique);
    size_positive = v.size_positive;
    ids_fit = omega (arith, v.ids_fit, length-add_refs c.refcounts shared);
    holders_fit = omega (arith, room);
  }

-- `Allocate` keeps the cache valid, whatever it answers.
pub allocate-IsValid :
    (c : PagedKvCache) (id : String) (required : ℕ) (shared : List ℕ)
    → IsValid c
    → HasRoom c
    → IsValid (allocate c id required shared).1
unfolding allocate
allocate-IsValid c id required shared v room = ground (
  arith,
  λ (p : valid_blocks c.refcounts [] shared ≡ true).
      reserve-IsValid c v room shared p id (required - length shared),
)

-- `PinPrefix` keeps the cache valid.
pub pin_prefix-IsValid :
    (c : PagedKvCache) (key : String) (blocks : List ℕ)
    → IsValid c
    → HasRoom c
    → IsValid (pin_prefix c key blocks).1
unfolding pin_prefix
pin_prefix-IsValid c key blocks v room =
    ground (
      arith,
      λ (p : valid_blocks c.refcounts [] blocks ≡ true). pinned-IsValid c v room blocks p key,
    )
