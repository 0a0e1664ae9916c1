-- ===== src/Engine/ResultCache.antt =====
-- The cache of results: cpp/include/infersched/engine/result_cache.hpp and
-- cpp/src/result_cache.cpp. `recency` is the list of keys, most recent first.
pub mod Refinement
pub mod History
mod Tests
use infer_sched_distributed.Base.{
  ℕ, ◌+◌, List, [], ◌∷◌, Option, none, some, String, Result, ok, invalid_argument, ◌==◌,
  if◌then◌else◌, length, lookup, erase, insert_or_assign, text_discrete,
}
use infer_sched_distributed.Engine.Lru.{back, pop_back, move_to_front}

pub record ResultCache : Type 0 where
  pub capacity : ℕ
  pub recency : List String
  pub entries : List (String × String)
  pub hits : ℕ
  pub misses : ℕ

unfoldable pub init : ℕ → Result ResultCache
init capacity =
    if capacity == 0
    then invalid_argument "result cache capacity must be positive"
    else ok (record { capacity = capacity; recency = []; entries = []; hits = 0; misses = 0 })

-- `entries_.erase(recency_.back()); recency_.pop_back();`
unfoldable pub evict : ResultCache → ResultCache
evict cache = elim (back cache.recency) [
  | none ↦ cache
  | some oldest ↦ record cache {
    entries = erase text_discrete oldest cache.entries;
    recency = pop_back cache.recency;
  }
]

-- The second half of `Put`, for a key that is new.
unfoldable pub push : ResultCache → String → String → ResultCache
push cache key result = record cache {
  recency = key ∷ cache.recency;
  entries = (key, result) ∷ cache.entries;
}

unfoldable pub put : ResultCache → String → String → ResultCache
put cache key result = elim (lookup text_discrete key cache.entries) [
  | some _ ↦ record cache {
    entries = insert_or_assign text_discrete key result cache.entries;
    recency = move_to_front text_discrete key cache.recency;
  }
  | none ↦ push (if length cache.entries == cache.capacity then evict cache else cache) key result
]

unfoldable pub get : ResultCache → String → Option String × ResultCache
get cache key = elim (lookup text_discrete key cache.entries) [
  | none ↦ (none, record cache { misses = cache.misses + 1 })
  | some result ↦ (
    some result,
    record cache { hits = cache.hits + 1; recency = move_to_front text_discrete key cache.recency },
  )
]

abbrev pub size : ResultCache → ℕ
size cache = length cache.entries
