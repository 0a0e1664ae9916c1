-- ===== src/Engine/RadixPrefixCache/Tests.antt =====
-- Witnesses for the tree of prefixes (radix_prefix_cache.cpp): blocks that two sequences hold.
use infer_sched_distributed.Base.{
  ◌≤◌, ◌≡◌, refl, [], ◌∷◌, none, some, lookup, insert_or_assign, erase, text_discrete, to_string,
}
use infer_sched_distributed.Engine.KvCache.{
  PagedKvCache, add_refs, valid_blocks, drop_ref, drop_refs, pin_prefix, unpin_prefix,
}
use infer_sched_distributed.Engine.RadixPrefixCache.{
  RadixPrefixCache, LeafCandidate, descend, get_longest, grow, fill, find_oldest_leaf, find_oldest,
  remove, evict_leaf, evict_oldest, shrink, fill_root, put_block_prefixes, unpin_tree, unpin_roots,
  clear,
}
use infer_sched_distributed.Engine.RadixPrefixCache.Counted.{IsCounted}
use infer_sched_distributed.Engine.RadixPrefixCache.Capacity.{put_block_prefixes-IsCounted}
use infer_sched_distributed.Engine.RadixPrefixCache.Longest.{FindsLongest, get_longest-FindsLongest}

program : Unit {0}
unfolding add_refs valid_blocks drop_ref drop_refs pin_prefix unpin_prefix descend get_longest grow
    fill find_oldest_leaf find_oldest remove evict_leaf evict_oldest shrink fill_root
    put_block_prefixes unpin_tree unpin_roots clear lookup insert_or_assign erase text_discrete
    to_string
program = tt

abbrev held : PagedKvCache
held = record {
  block_size_tokens = 16;
  refcounts = 1 ∷ 1 ∷ 1 ∷ [];
  free_list = [];
  sequence_blocks = ("a", 0 ∷ 1 ∷ []) ∷ ("b", 2 ∷ []) ∷ [];
  prefix_blocks = [];
}

abbrev empty : RadixPrefixCache
empty = record { capacity = 2; roots = []; node_count = 0; access_clock = 0; next_pin_id = 0 }

empty-IsCounted : IsCounted empty
empty-IsCounted = record { counted = refl; distinct = tt; unique = tt }

abbrev warm : RadixPrefixCache × PagedKvCache
warm = let (n, c, kv) = put_block_prefixes empty held "m" ("x" ∷ "y" ∷ []) (0 ∷ 1 ∷ []) in (c, kv)

-- A third node is one too many: the oldest leaf goes, and its block keeps its sequence's reference.
one_too_many :
    (put_block_prefixes warm.0 warm.1 "n" ("z" ∷ []) (2 ∷ [])).2.refcounts ≡ 2 ∷ 1 ∷ 2 ∷ []
unfolding program
one_too_many = refl

cleared : (clear warm.0 warm.1).1 ≡ held
unfolding program
cleared = refl

found_one :
    (get_longest warm.0 "m" ("x" ∷ "z" ∷ [])).0
    ≡ some (record { blocks = 0 ∷ []; matched_block_count = 1 })
unfolding program
found_one = refl

put_block_prefixes-IsCounted_example :
    IsCounted (put_block_prefixes empty held "m" ("x" ∷ "y" ∷ []) (0 ∷ 1 ∷ [])).1
    × ((put_block_prefixes empty held "m" ("x" ∷ "y" ∷ []) (0 ∷ 1 ∷ [])).1.node_count ≤ 2)
put_block_prefixes-IsCounted_example =
    put_block_prefixes-IsCounted empty held "m" ("x" ∷ "y" ∷ []) (0 ∷ 1 ∷ []) empty-IsCounted

warm-IsCounted : IsCounted warm.0
warm-IsCounted =
    (put_block_prefixes-IsCounted empty held "m" ("x" ∷ "y" ∷ []) (0 ∷ 1 ∷ []) empty-IsCounted).0

abbrev leaf : LeafCandidate
leaf = record { cache_namespace = "m"; parent = "x" ∷ []; key = "y"; last_access = 2 }

oldest_leaf : find_oldest warm.0.roots none ≡ some leaf
unfolding program
oldest_leaf = refl

get_longest-FindsLongest_example :
    FindsLongest warm.0 "m" ("x" ∷ "z" ∷ []) (get_longest warm.0 "m" ("x" ∷ "z" ∷ []))
get_longest-FindsLongest_example = get_longest-FindsLongest warm.0 "m" ("x" ∷ "z" ∷ [])
