-- ===== src/Engine/PrefixCache/Longest.antt =====
-- What `GetLongest` of the prefix cache (prefix_cache.cpp) finds.
use infer_sched_distributed.Base.{
  ℕ, zero, suc, ◌≤◌, ◌<◌, ◌≡◌, arith, List, Option, none, some, String, length, take, lookup,
  text_discrete, ℕ_discrete, Option-cases, inl, inr,
}
use infer_sched_distributed.Engine.PrefixCache.{
  Match, PrefixCache, block_prefix_key, longest, get_longest,
}

-- What the cache holds under the first `count` hashes.
abbrev pub held : PrefixCache → String → List String → ℕ → Option (List ℕ)
held c space hashes count =
    lookup text_discrete (block_prefix_key space (take count hashes)) c.entries

-- The answer and its place among the prefixes of at most `bound` hashes.
pub data IsLongest (c : PrefixCache) (space : String) (hashes : List String) (bound : ℕ)
    : Option Match → Type 0 where
  nothing_held :
      ((n : ℕ) → 0 < n → n ≤ bound → held c space hashes n ≡ none)
      → IsLongest c space hashes bound none
  longest_held :
      (m : Match)
      → 0 < m.matched_block_count
      → m.matched_block_count ≤ bound
      → held c space hashes m.matched_block_count ≡ some m.blocks
      → ((n : ℕ) → m.matched_block_count < n → n ≤ bound → held c space hashes n ≡ none)
      → IsLongest c space hashes bound (some m)

one_more :
    (c : PrefixCache) (space : String) (hashes : List String) (count : ℕ) (o : Option Match)
    → held c space hashes (suc count) ≡ none
    → IsLongest c space hashes count o
    → IsLongest c space hashes (suc count) o
one_more c space hashes count none absent (nothing_held f) = nothing_held (λ n a b.
    elim (ℕ_discrete n (suc count)) [ yes e ↦ rw e absent | no e ↦ f n a (omega (arith, b, e)) ])
one_more c space hashes count (some _) absent (longest_held m a b h f) =
    longest_held m a (omega (arith, b)) h (λ n low high. elim (ℕ_discrete n (suc count)) [
      | yes e ↦ rw e absent
      | no e ↦ f n low (omega (arith, high, e))
    ])

longest-IsLongest :
    (c : PrefixCache) (space : String) (hashes : List String) (count : ℕ)
    → IsLongest c space hashes count (longest c space hashes count).0
unfolding longest
longest-IsLongest c space hashes zero = nothing_held (λ n a b. absurd (omega (arith, a, b)))
longest-IsLongest c space hashes (suc count) =
    elim (Option-cases (held c space hashes (suc count))) [
      | inl e ↦
          rw (e, longest)
            (one_more c space hashes count (longest c space hashes count).0 e
              (longest-IsLongest c space hashes count))
      | inr (blocks, e) ↦
          rw (e, longest)
            (longest_held (record { blocks = blocks; matched_block_count = suc count })
              (omega arith) (omega arith) e (λ n a b. absurd (omega (arith, a, b))))
    ]

-- `GetLongest` finds a cached prefix of the hashes, with its blocks and its length, and no longer
-- prefix is cached; or it finds none and no prefix but the empty one is cached.
pub get_longest-IsLongest :
    (c : PrefixCache) (space : String) (hashes : List String)
    → IsLongest c space hashes (length hashes) (get_longest c space hashes).0
unfolding get_longest
get_longest-IsLongest c space hashes = longest-IsLongest c space hashes (length hashes)
