-- ===== src/Engine/Lru.antt =====
-- Least-recently-used caches as cpp/src/result_cache.cpp and cpp/src/prefix_cache.cpp build them:
-- a `std::list` of the keys, most recent first, beside a map of entries whose iterators point
-- into it. A key stands once in the list, so an iterator is modelled by its key. Here are the list
-- operations that both use, and the specification: one list of pairs, most recent first.
pub mod Represents
use infer_sched_distributed.Base.{
  ℕ, suc, List, [], ◌∷◌, Option, none, some, ite, take, lookup, erase, map,
}

module _ {ℓ} {A : Type ℓ} where
  abbrev pub back : List A → Option A
  back [] = none
  back (x ∷ []) = some x
  back (x ∷ y ∷ xs) = back (y ∷ xs)

  abbrev pub pop_back : List A → List A
  pop_back [] = []
  pop_back (x ∷ []) = []
  pop_back (x ∷ y ∷ xs) = x ∷ pop_back (y ∷ xs)

module _ {ℓ} {K : Type ℓ} (dec : Discrete K) where
  unfoldable pub remove_key : K → List K → List K
  remove_key k [] = []
  remove_key k (j ∷ keys) = ite (dec j k) keys (j ∷ remove_key k keys)

  -- `recency_.splice(recency_.begin(), recency_, it)` for the iterator at `k`.
  abbrev pub move_to_front : K → List K → List K
  move_to_front k keys = k ∷ remove_key k keys

module _ {ℓ} {K V : Type ℓ} where
  abbrev pub keys : List (K × V) → List K
  keys = map (λ e. e.0)

module _ {ℓ} {K V : Type ℓ} (dec : Discrete K) where
  -- The specification's moves: an entry to the front, and a bounded insertion.
  abbrev pub touch : K → V → List (K × V) → List (K × V)
  touch k v l = (k, v) ∷ erase dec k l

  abbrev pub bounded_touch : ℕ → K → V → List (K × V) → List (K × V)
  bounded_touch capacity k v l = take capacity (touch k v l)
