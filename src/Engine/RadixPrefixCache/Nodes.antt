-- ===== src/Engine/RadixPrefixCache/Nodes.antt =====
-- The tree of `RadixPrefixCache` (radix_prefix_cache.hpp), and `GetLongest`
-- (radix_prefix_cache.cpp).
use infer_sched_distributed.Base.{
  ℕ, ◌+◌, ◌%◌, Bool, true, false, List, [], ◌∷◌, Option, none, some, String, Result, ok,
  invalid_argument, ◌==◌, if◌then◌else◌, ite, length, u64_mod, lookup, insert_or_assign,
  text_discrete,
}

pub record Match : Type 0 where
  pub blocks : List ℕ
  pub matched_block_count : ℕ

-- Each node stands with its key, the nodes below it and the nodes that follow it in its map.
pub data Children : Type 0 where
  nil : Children
  node :
      (key : String) (block : ℕ) (pin_key : String) (last_access : ℕ) (children rest : Children)
      → Children

pub record LeafCandidate : Type 0 where
  pub cache_namespace : String
  pub parent : List String
  pub key : String
  pub last_access : ℕ

pub record RadixPrefixCache : Type 0 where
  pub capacity : ℕ
  pub roots : List (String × Children)
  pub node_count : ℕ
  pub access_clock : ℕ
  pub next_pin_id : ℕ

unfoldable pub init : ℕ → Result RadixPrefixCache
init capacity =
    if capacity == 0
    then invalid_argument "radix prefix cache capacity must be positive"
    else ok (record {
      capacity = capacity;
      roots = [];
      node_count = 0;
      access_clock = 0;
      next_pin_id = 0;
    })

-- `++` of a `std::uint64_t`.
abbrev pub next : ℕ → ℕ
next n = (n + 1) % u64_mod

abbrev pub is_empty : Children → Bool
is_empty nil = true
is_empty (node key block pin_key last_access children rest) = false

-- The loop of `GetLongest`: the blocks on the way, the clock, and the map after it.
unfoldable pub descend : Children → List String → ℕ → List ℕ × ℕ × Children
descend nil hashes clock = ([], clock, nil)
descend (node key block pin_key access children rest) [] clock =
    ([], clock, node key block pin_key access children rest)
descend (node key block pin_key access children rest) (hash ∷ hashes) clock =
    let (blocks, later_clock, below) = descend children hashes (next clock) in
    let (side_blocks, side_clock, side) = descend rest (hash ∷ hashes) clock in
    ite (text_discrete key hash)
      (block ∷ blocks, later_clock, node key block pin_key (next clock) below rest)
      (side_blocks, side_clock, node key block pin_key access children side)

abbrev pub match_of : List ℕ → Option Match
match_of [] = none
match_of (block ∷ blocks) =
    some (record { blocks = block ∷ blocks; matched_block_count = length (block ∷ blocks) })

unfoldable pub get_longest :
    RadixPrefixCache → String → List String → Option Match × RadixPrefixCache
get_longest cache cache_namespace hashes = elim (lookup text_discrete cache_namespace cache.roots) [
  | none ↦ (none, cache)
  | some root ↦
      let (blocks, clock, root') = descend root hashes cache.access_clock in
      (
        match_of blocks,
        record cache {
          roots = insert_or_assign text_discrete cache_namespace root' cache.roots;
          access_clock = clock;
        },
      )
]
