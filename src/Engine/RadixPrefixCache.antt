-- ===== src/Engine/RadixPrefixCache.antt =====
-- The tree of cached prompt blocks: cpp/include/infersched/engine/radix_prefix_cache.hpp and
-- cpp/src/radix_prefix_cache.cpp. A map of children is the sequence of its nodes in the order in
-- which the loops visit them, a pointer to such a map is the namespace and the hashes that lead to
-- it. The cache pins its blocks in a `PagedKvCache` that it holds by reference: each member takes
-- that cache as it is at the call and returns it with its own state.
mod Nodes
pub mod Eviction
pub mod Trees
pub mod Longest
pub mod Counted
pub mod Evicted
pub mod Capacity
pub mod Touched
mod Tests
unfoldable pub use Nodes.*
use infer_sched_distributed.Base.{
  ℕ, zero, suc, ◌+◌, ◌-◌, ◌%◌, Bool, true, false, List, [], ◌∷◌, ◌++◌, Option, none, some, String,
  concat, to_string, Result, ok, invalid_argument, ltb, ◌==◌, if◌then◌else◌, ite, length, u64_mod,
  lookup, insert_or_assign, text_discrete,
}
use infer_sched_distributed.Engine.KvCache.{PagedKvCache, pin_prefix, unpin_prefix}

-- The state that the loop of `PutBlockPrefixes` changes, besides the tree.
pub record Filling : Type 0 where
  pub kv : PagedKvCache
  pub access_clock : ℕ
  pub next_pin_id : ℕ
  pub node_count : ℕ
  pub inserted : ℕ

abbrev pub pin_key_of : ℕ → String
pin_key_of pin_id = concat "radix-prefix-" (to_string pin_id)

-- A new node was put into the tree.
abbrev pub counted : Filling → PagedKvCache → Filling
counted s kv = record {
  kv = kv;
  access_clock = next s.access_clock;
  next_pin_id = next s.next_pin_id;
  node_count = s.node_count + 1;
  inserted = s.inserted + 1;
}

-- The turns of the loop once a hash is missing: the map is empty from there on. A refused pin
-- ends the loop.
unfoldable pub grow : List String → List ℕ → Filling → Children × Filling
grow [] blocks s = (nil, s)
grow (hash ∷ hashes) [] s = (nil, s)
grow (hash ∷ hashes) (block ∷ blocks) s =
    let pin_key = pin_key_of s.next_pin_id in
    let (pinned, kv) = pin_prefix s.kv pin_key (block ∷ []) in
    let (below, s') = grow hashes blocks (counted s kv) in
    if pinned
    then (node hash block pin_key (next s.access_clock) below nil, s')
    else (nil, record s { next_pin_id = next s.next_pin_id })

-- The loop of `PutBlockPrefixes`.
unfoldable pub fill : Children → List String → List ℕ → Filling → Children × Filling
fill nil hashes blocks s = grow hashes blocks s
fill (node key block pin_key access children rest) [] blocks s =
    (node key block pin_key access children rest, s)
fill (node key block pin_key access children rest) (hash ∷ hashes) [] s =
    (node key block pin_key access children rest, s)
fill (node key block pin_key access children rest) (hash ∷ hashes) (given ∷ blocks) s =
    let now = next s.access_clock in
    let (below, s') = fill children hashes blocks (record s { access_clock = now }) in
    let (side, s'') = fill rest (hash ∷ hashes) (given ∷ blocks) s in
    ite (text_discrete key hash) (node key block pin_key now below rest, s')
      (node key block pin_key access children side, s'')

-- `!candidate.has_value() || node->last_access < candidate->last_access`.
abbrev pub older : LeafCandidate → Option LeafCandidate → Option LeafCandidate
older leaf none = some leaf
older leaf (some best) = if ltb leaf.last_access best.last_access then some leaf else some best

unfoldable pub find_oldest_leaf :
    String → List String → Children → Option LeafCandidate → Option LeafCandidate
find_oldest_leaf cache_namespace parent nil candidate = candidate
find_oldest_leaf cache_namespace parent (node key block pin_key access children rest) candidate =
    let leaf : LeafCandidate = record {
      cache_namespace = cache_namespace;
      parent = parent;
      key = key;
      last_access = access;
    } in
    let below = find_oldest_leaf cache_namespace (parent ++ key ∷ []) children candidate in
    find_oldest_leaf cache_namespace parent rest
      (if is_empty children then older leaf candidate else below)

-- The loop of `EvictOldest` over the roots.
unfoldable pub find_oldest : List (String × Children) → Option LeafCandidate → Option LeafCandidate
find_oldest [] candidate = candidate
find_oldest ((cache_namespace, root) ∷ roots) candidate =
    find_oldest roots (find_oldest_leaf cache_namespace [] root candidate)

-- `find` and `erase` at the end of a way through the tree: the pin key of the node, and the tree
-- without it.
unfoldable pub remove : List String → Children → Option (String × Children)
remove way nil = none
remove [] (node key block pin_key access children rest) = none
remove (k ∷ []) (node key block pin_key access children rest) =
    let side = remove (k ∷ []) rest in
    ite (text_discrete key k) (some (pin_key, rest)) (elim side [
      | none ↦ none
      | some (pin, rest') ↦ some (pin, node key block pin_key access children rest')
    ])
remove (k ∷ j ∷ way) (node key block pin_key access children rest) =
    let below = remove (j ∷ way) children in
    let side = remove (k ∷ j ∷ way) rest in
    ite (text_discrete key k)
      (elim below [
        | none ↦ none
        | some (pin, children') ↦ some (pin, node key block pin_key access children' rest)
      ])
      (elim side [
        | none ↦ none
        | some (pin, rest') ↦ some (pin, node key block pin_key access children rest')
      ])

-- A node was found, so that `node_count` is not 0.
unfoldable pub evict_leaf :
    RadixPrefixCache → PagedKvCache → LeafCandidate → Bool × RadixPrefixCache × PagedKvCache
evict_leaf cache kv leaf = elim (lookup text_discrete leaf.cache_namespace cache.roots) [
  | none ↦ (false, cache, kv)
  | some root ↦ elim (remove (leaf.parent ++ leaf.key ∷ []) root) [
    | none ↦ (false, cache, kv)
    | some (pin_key, root') ↦ (
      true,
      record cache {
        roots = insert_or_assign text_discrete leaf.cache_namespace root' cache.roots;
        node_count = cache.node_count - 1;
      },
      (unpin_prefix kv pin_key).1,
    )
  ]
]

unfoldable pub evict_oldest :
    RadixPrefixCache → PagedKvCache → Bool × RadixPrefixCache × PagedKvCache
evict_oldest cache kv = elim (find_oldest cache.roots none) [
  | none ↦ (false, cache, kv)
  | some leaf ↦ evict_leaf cache kv leaf
]

-- The loop that shrinks the tree to its capacity, on fuel.
unfoldable pub shrink : ℕ → RadixPrefixCache → PagedKvCache → RadixPrefixCache × PagedKvCache
shrink zero cache kv = (cache, kv)
shrink (suc fuel) cache kv =
    let (evicted, cache', kv') = evict_oldest cache kv in
    let rest = shrink fuel cache' kv' in
    if ltb cache.capacity cache.node_count
    then (if evicted then rest else (cache', kv'))
    else (cache, kv)

abbrev pub root_of : RadixPrefixCache → String → Children
root_of cache cache_namespace = elim (lookup text_discrete cache_namespace cache.roots) [
  | none ↦ nil
  | some root ↦ root
]

abbrev pub filling : RadixPrefixCache → PagedKvCache → Filling
filling cache kv = record {
  kv = kv;
  access_clock = cache.access_clock;
  next_pin_id = cache.next_pin_id;
  node_count = cache.node_count;
  inserted = 0;
}

-- `PutBlockPrefixes` up to its last loop.
unfoldable pub fill_root :
    RadixPrefixCache → PagedKvCache → String → List String → List ℕ → RadixPrefixCache × Filling
fill_root cache kv cache_namespace hashes blocks =
    let (root, s) = fill (root_of cache cache_namespace) hashes blocks (filling cache kv) in
    (
      record cache {
        roots = insert_or_assign text_discrete cache_namespace root cache.roots;
        node_count = s.node_count;
        access_clock = s.access_clock;
        next_pin_id = s.next_pin_id;
      },
      s,
    )

-- One turn of the last loop for each node is enough.
unfoldable pub put_block_prefixes :
    RadixPrefixCache
    → PagedKvCache
    → String
    → List String
    → List ℕ
    → ℕ × RadixPrefixCache × PagedKvCache
put_block_prefixes cache kv cache_namespace hashes blocks =
    let (filled, s) = fill_root cache kv cache_namespace hashes blocks in
    let (cache', kv') = shrink s.node_count filled s.kv in (s.inserted, cache', kv')

unfoldable pub unpin_tree : Children → PagedKvCache → PagedKvCache
unpin_tree nil kv = kv
unpin_tree (node key block pin_key access children rest) kv =
    unpin_tree rest (unpin_prefix (unpin_tree children kv) pin_key).1

-- The loop of `Clear`.
unfoldable pub unpin_roots : List (String × Children) → PagedKvCache → PagedKvCache
unpin_roots [] kv = kv
unpin_roots ((cache_namespace, root) ∷ roots) kv = unpin_roots roots (unpin_tree root kv)

-- `Clear`, which the destructor calls.
unfoldable pub clear : RadixPrefixCache → PagedKvCache → RadixPrefixCache × PagedKvCache
clear cache kv = (record cache { roots = []; node_count = 0 }, unpin_roots cache.roots kv)
