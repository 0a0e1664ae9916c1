-- ===== src/Engine/PrefixCache/Tests.antt =====
-- Witnesses for the prefix cache (prefix_cache.cpp): two entries over four blocks.
use infer_sched_distributed.Base.{
  ℕ, ◌≡◌, refl, arith, List, [], ◌∷◌, some, String, lookup, erase, text_discrete, to_string,
}
use infer_sched_distributed.Engine.KvCache.{
  PagedKvCache, init as kv_init, fill_free, allocate, reserve, add_refs, valid_blocks, take_free,
  pin_prefix,
}
use infer_sched_distributed.Engine.KvCache.Invariant.{IsValid, init-IsValid}
use infer_sched_distributed.Engine.KvCache.Preserve.{allocate-IsValid}
use infer_sched_distributed.Engine.PrefixCache.{
  PrefixCache, init, put, evict_oldest, clear, get_longest, put_block_prefixes, put_prefixes,
  longest, block_prefix_key, append_hashes, push, make_room, splice,
}
use infer_sched_distributed.Engine.PrefixCache.Holds.{Holds, init-Holds}
use infer_sched_distributed.Engine.PrefixCache.Pins.{after_put, put-Holds}
use infer_sched_distributed.Engine.PrefixCache.Longest.{IsLongest, get_longest-IsLongest}

program : Unit {0}
unfolding kv_init fill_free allocate reserve add_refs valid_blocks take_free pin_prefix init put
    evict_oldest clear get_longest put_block_prefixes put_prefixes longest block_prefix_key
    append_hashes push make_room splice lookup erase text_discrete to_string
program = tt

abbrev four : PagedKvCache
four = record {
  block_size_tokens = 16;
  refcounts = 0 ∷ 0 ∷ 0 ∷ 0 ∷ [];
  free_list = 0 ∷ 1 ∷ 2 ∷ 3 ∷ [];
  sequence_blocks = [];
  prefix_blocks = [];
}

-- The blocks 0 and 1 belong to a sequence.
abbrev busy : PagedKvCache
busy = record four {
  refcounts = 1 ∷ 1 ∷ 0 ∷ 0 ∷ [];
  free_list = 2 ∷ 3 ∷ [];
  sequence_blocks = ("a", 0 ∷ 1 ∷ []) ∷ [];
}

busy-IsValid : IsValid busy
unfolding program
busy-IsValid = allocate-IsValid four "a" 2 [] (init-IsValid 4 16 four refl) (omega arith)

abbrev empty : PrefixCache
empty = record { capacity = 2; recency = []; entries = []; hits = 0; misses = 0 }

empty-Holds : Holds empty busy []
unfolding program
empty-Holds = init-Holds 2 empty busy refl busy-IsValid (λ k. refl)

-- The prefix of the first two hashes is found where three are asked for.
abbrev warm : PrefixCache × PagedKvCache
warm = let (n, c, kv) = put_block_prefixes empty busy "m" ("x" ∷ "y" ∷ []) (0 ∷ 1 ∷ []) in (c, kv)

found_two :
    (get_longest warm.0 "m" ("x" ∷ "y" ∷ "z" ∷ [])).0
    ≡ some (record { blocks = 0 ∷ 1 ∷ []; matched_block_count = 2 })
unfolding program
found_two = refl

get_longest-IsLongest_example :
    IsLongest warm.0 "m" ("x" ∷ "y" ∷ "z" ∷ []) 3 (get_longest warm.0 "m" ("x" ∷ "y" ∷ "z" ∷ [])).0
get_longest-IsLongest_example = get_longest-IsLongest warm.0 "m" ("x" ∷ "y" ∷ "z" ∷ [])

put-Holds_example :
    Holds
      (put empty busy "p" (0 ∷ [])).1
      (put empty busy "p" (0 ∷ [])).2
      (after_put empty busy [] empty-Holds "p" (0 ∷ []))
put-Holds_example = put-Holds empty busy [] empty-Holds "p" (0 ∷ []) (omega arith)

abbrev pinned : PrefixCache
pinned = record empty { recency = "p" ∷ []; entries = ("p", 0 ∷ []) ∷ [] }

abbrev pinning : PagedKvCache
pinning = record busy { refcounts = 2 ∷ 1 ∷ 0 ∷ 0 ∷ []; prefix_blocks = ("p", 0 ∷ []) ∷ [] }

pinned-Holds : Holds pinned pinning (("p", 0 ∷ []) ∷ [])
unfolding program after_put
pinned-Holds = put-Holds empty busy [] empty-Holds "p" (0 ∷ []) (omega arith)

abbrev one_entry : List (String × List ℕ)
one_entry = ("p", 0 ∷ []) ∷ []
