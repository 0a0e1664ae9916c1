-- ===== src/Engine/RadixPrefixCache/Eviction.antt =====
-- The answers of `EvictOldest` (radix_prefix_cache.cpp).
use infer_sched_distributed.Base.{
  ◌-◌, ◌≡◌, Bool, true, false, [], ◌∷◌, ◌++◌, none, some, String, Option-cases, inl, inr, lookup,
  insert_or_assign, text_discrete,
}
use infer_sched_distributed.Engine.KvCache.{PagedKvCache, unpin_prefix}
use infer_sched_distributed.Engine.RadixPrefixCache.{
  RadixPrefixCache, Children, LeafCandidate, remove, find_oldest, evict_leaf, evict_oldest,
}

pub data EvictsLeaf (c : RadixPrefixCache) (kv : PagedKvCache) (leaf : LeafCandidate)
    : Bool × RadixPrefixCache × PagedKvCache → Type 0 where
  no_root :
      lookup text_discrete leaf.cache_namespace c.roots ≡ none → EvictsLeaf c kv leaf (false, c, kv)
  no_leaf :
      (root : Children)
      → lookup text_discrete leaf.cache_namespace c.roots ≡ some root
      → remove (leaf.parent ++ leaf.key ∷ []) root ≡ none
      → EvictsLeaf c kv leaf (false, c, kv)
  removed :
      (root root' : Children) (pin_key : String)
      → lookup text_discrete leaf.cache_namespace c.roots ≡ some root
      → remove (leaf.parent ++ leaf.key ∷ []) root ≡ some (pin_key, root')
      → EvictsLeaf c kv leaf (
        true,
        record c {
          roots = insert_or_assign text_discrete leaf.cache_namespace root' c.roots;
          node_count = c.node_count - 1;
        },
        (unpin_prefix kv pin_key).1,
      )

pub data Evicts (c : RadixPrefixCache) (kv : PagedKvCache)
    : Bool × RadixPrefixCache × PagedKvCache → Type 0 where
  no_candidate : find_oldest c.roots none ≡ none → Evicts c kv (false, c, kv)
  candidate :
      (leaf : LeafCandidate) {r : Bool × RadixPrefixCache × PagedKvCache}
      → find_oldest c.roots none ≡ some leaf
      → EvictsLeaf c kv leaf r
      → Evicts c kv r

evict_leaf-EvictsLeaf :
    (c : RadixPrefixCache) (kv : PagedKvCache) (leaf : LeafCandidate)
    → EvictsLeaf c kv leaf (evict_leaf c kv leaf)
unfolding evict_leaf
evict_leaf-EvictsLeaf c kv leaf =
    elim (Option-cases (lookup text_discrete leaf.cache_namespace c.roots)) [
      | inl k ↦ rw (k, evict_leaf) (no_root k)
      | inr (root, k) ↦
          rw (k, evict_leaf)
            (elim (Option-cases (remove (leaf.parent ++ leaf.key ∷ []) root)) [
              | inl g ↦ rw g (no_leaf root k g)
              | inr (found, g) ↦ rw g (removed root found.1 found.0 k g)
            ])
    ]

pub evict_oldest-Evicts :
    (c : RadixPrefixCache) (kv : PagedKvCache) → Evicts c kv (evict_oldest c kv)
unfolding evict_oldest
evict_oldest-Evicts c kv = elim (Option-cases (find_oldest c.roots none)) [
  | inl e ↦ rw (e, evict_oldest) (no_candidate e)
  | inr (leaf, e) ↦ rw (e, evict_oldest) (candidate leaf e (evict_leaf-EvictsLeaf c kv leaf))
]
