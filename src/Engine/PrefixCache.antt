-- ===== src/Engine/PrefixCache.antt =====
-- The cache of prompt prefixes: cpp/include/infersched/engine/prefix_cache.hpp and
-- cpp/src/prefix_cache.cpp. It pins its blocks in a `PagedKvCache` that it holds by reference:
-- each member takes that cache as it is at the call and returns it with its own state.
pub mod Holds
pub mod Pins
pub mod Longest
mod Tests
use infer_sched_distributed.Base.{
  ℕ, zero, suc, ◌+◌, Bool, true, false, List, [], ◌∷◌, Option, none, some, String, concat,
  to_string, Result, ok, invalid_argument, ◌==◌, if◌then◌else◌, length, take, min, lookup, erase,
  text_discrete,
}
use Prim.Native.String.{len}
use infer_sched_distributed.Engine.KvCache.{PagedKvCache, pin_prefix, unpin_prefix}
use infer_sched_distributed.Engine.Lru.{back, pop_back, move_to_front}

pub record Match : Type 0 where
  pub blocks : List ℕ
  pub matched_block_count : ℕ

pub record PrefixCache : Type 0 where
  pub capacity : ℕ
  pub recency : List String
  pub entries : List (String × List ℕ)
  pub hits : ℕ
  pub misses : ℕ

unfoldable pub init : ℕ → Result PrefixCache
init capacity =
    if capacity == 0
    then invalid_argument "prefix cache capacity must be positive"
    else ok (record { capacity = capacity; recency = []; entries = []; hits = 0; misses = 0 })

-- `==` of vectors of block ids.
unfoldable pub same_blocks : List ℕ → List ℕ → Bool
same_blocks [] [] = true
same_blocks [] (y ∷ ys) = false
same_blocks (x ∷ xs) [] = false
same_blocks (x ∷ xs) (y ∷ ys) = let rest = same_blocks xs ys in if x == y then rest else false

unfoldable pub evict_oldest : PrefixCache → PagedKvCache → Bool × PrefixCache × PagedKvCache
evict_oldest cache kv = elim (back cache.recency) [
  | none ↦ (false, cache, kv)
  | some evicted ↦ (
    true,
    record cache {
      entries = erase text_discrete evicted cache.entries;
      recency = pop_back cache.recency;
    },
    (unpin_prefix kv evicted).1,
  )
]

-- A hit of `Put`, `Get` or `GetLongest`.
unfoldable pub splice : PrefixCache → String → PrefixCache
splice cache key = record cache { recency = move_to_front text_discrete key cache.recency }

unfoldable pub push : PrefixCache → String → List ℕ → PrefixCache
push cache key blocks = record cache {
  recency = key ∷ cache.recency;
  entries = (key, blocks) ∷ cache.entries;
}

-- What `Put` does once the blocks are pinned: the inlined eviction is that of `EvictOldest`.
unfoldable pub make_room : PrefixCache → PagedKvCache → PrefixCache × PagedKvCache
make_room cache kv =
    let (_, evicted, kv') = evict_oldest cache kv in
    if length cache.entries == cache.capacity then (evicted, kv') else (cache, kv)

unfoldable pub put :
    PrefixCache → PagedKvCache → String → List ℕ → Bool × PrefixCache × PagedKvCache
put cache kv key blocks = elim (lookup text_discrete key cache.entries) [
  | some existing ↦ (same_blocks existing blocks, splice cache key, kv)
  | none ↦
      let (pinned, kv') = pin_prefix kv key blocks in
      let (roomy, kv'') = make_room cache kv' in
      if pinned then (true, push roomy key blocks, kv'') else (false, cache, kv')
]

unfoldable pub get : PrefixCache → String → Option (List ℕ) × PrefixCache
get cache key = elim (lookup text_discrete key cache.entries) [
  | none ↦ (none, record cache { misses = cache.misses + 1 })
  | some blocks ↦ (some blocks, record (splice cache key) { hits = cache.hits + 1 })
]

-- `|`, the length, `:` and the text, for every hash.
unfoldable pub append_hashes : List String → String
append_hashes [] = ""
append_hashes (hash ∷ hashes) =
    concat "|" (concat (to_string (len hash)) (concat ":" (concat hash (append_hashes hashes))))

unfoldable pub block_prefix_key : String → List String → String
block_prefix_key cache_namespace prompt_block_hashes = concat "blocks|" (
    concat (to_string (len cache_namespace))
      (concat ":" (concat cache_namespace (append_hashes prompt_block_hashes))))

-- The loop of `GetLongest`, from `count` hashes down to one.
unfoldable pub longest : PrefixCache → String → List String → ℕ → Option Match × PrefixCache
longest cache cache_namespace hashes zero = (none, record cache { misses = cache.misses + 1 })
longest cache cache_namespace hashes (suc count) =
    let key = block_prefix_key cache_namespace (take (suc count) hashes) in
    elim (lookup text_discrete key cache.entries) [
      | none ↦ longest cache cache_namespace hashes count
      | some blocks ↦ (
        some (record { blocks = blocks; matched_block_count = suc count }),
        record (splice cache key) { hits = cache.hits + 1 },
      )
    ]

unfoldable pub get_longest : PrefixCache → String → List String → Option Match × PrefixCache
get_longest cache cache_namespace hashes = longest cache cache_namespace hashes (length hashes)

-- The loop of `PutBlockPrefixes`: `count` turns, of which the first puts `size` hashes.
unfoldable pub put_prefixes :
    ℕ
    → ℕ
    → PrefixCache
    → PagedKvCache
    → String
    → List String
    → List ℕ
    → ℕ × PrefixCache × PagedKvCache
put_prefixes zero size cache kv cache_namespace hashes blocks = (0, cache, kv)
put_prefixes (suc count) size cache kv cache_namespace hashes blocks =
    let (put_now, cache', kv') =
      put cache kv (block_prefix_key cache_namespace (take size hashes)) (take size blocks) in
    let (inserted, cache'', kv'') =
      put_prefixes count (suc size) cache' kv' cache_namespace hashes blocks in
    (if put_now then suc inserted else inserted, cache'', kv'')

unfoldable pub put_block_prefixes :
    PrefixCache → PagedKvCache → String → List String → List ℕ → ℕ × PrefixCache × PagedKvCache
put_block_prefixes cache kv cache_namespace hashes blocks =
    put_prefixes (min (length hashes) (length blocks)) 1 cache kv cache_namespace hashes blocks

unfoldable pub unpin_all : List String → PagedKvCache → PagedKvCache
unpin_all [] kv = kv
unpin_all (key ∷ recency) kv = unpin_all recency (unpin_prefix kv key).1

-- `Clear`, which the destructor calls.
unfoldable pub clear : PrefixCache → PagedKvCache → PrefixCache × PagedKvCache
clear cache kv = (record cache { entries = []; recency = [] }, unpin_all cache.recency kv)
