-- ===== src/Engine/KvCache/Invariant.antt =====
-- What every state of the paged cache satisfies, and the counts of a map of holders under
-- `emplace`, `erase` and a new value (paged_kv_cache.cpp).
use infer_sched_distributed.Base.{
  ℕ, zero, suc, ◌+◌, ◌≤◌, ◌<◌, ◌≡◌, arith, List, [], ◌∷◌, some, String, length, get_or, count,
  u32_mod, All, lookup, erase, insert_or_assign, Unique, text_discrete, ok, if◌then◌else◌,
  length-replicate, replicate, get_or-replicate, ltb,
}
use infer_sched_distributed.Engine.KvCache.{PagedKvCache, pool, init, fill_free}
use infer_sched_distributed.Engine.KvCache.Loops.{IsFreeList}

abbrev pub Holders : Type 0
Holders = List (String × List ℕ)

-- How many references to a block the entries of a map hold.
abbrev pub refs : ℕ → Holders → ℕ
refs b [] = 0
refs b (e ∷ m) = count b e.1 + refs b m

-- No entry names a block twice.
abbrev pub Distinct : Holders → Type 0
Distinct = All (λ e. (b : ℕ) → count b e.1 ≤ 1)

pub refs-le-length : (b : ℕ) (m : Holders) → Distinct m → refs b m ≤ length m
refs-le-length b [] d = omega arith
refs-le-length b (e ∷ m) d = omega (arith, refs-le-length b m d.1, d.0 b)

module _ (k : String) (old : List ℕ) where
  pub refs-erase :
      (b : ℕ) (m : Holders)
      → lookup text_discrete k m ≡ some old
      → refs b (erase text_discrete k m) + count b old ≡ refs b m
  unfolding lookup erase
  refs-erase b [] h = absurd (ground arith)
  refs-erase b ((j, v) ∷ m) h = ground (arith, refs-erase b m)

  pub refs-insert_or_assign :
      (b : ℕ) (new : List ℕ) (m : Holders)
      → lookup text_discrete k m ≡ some old
      → refs b (insert_or_assign text_discrete k new m) + count b old ≡ refs b m + count b new
  unfolding lookup insert_or_assign
  refs-insert_or_assign b new [] h = absurd (ground arith)
  refs-insert_or_assign b new ((j, v) ∷ m) h = ground (arith, refs-insert_or_assign b new m)

pub record IsValid (c : PagedKvCache) : Type 0 where
  -- Every count is the number of holders, out of range too.
  pub counted : (b : ℕ) → get_or c.refcounts b 0 ≡ refs b c.sequence_blocks + refs b c.prefix_blocks
  pub free : IsFreeList (pool c)
  pub sequences_distinct : Distinct c.sequence_blocks
  pub prefixes_distinct : Distinct c.prefix_blocks
  pub sequences_unique : Unique text_discrete c.sequence_blocks
  pub prefixes_unique : Unique text_discrete c.prefix_blocks
  pub size_positive : 0 < c.block_size_tokens
  pub ids_fit : length c.refcounts < u32_mod
  pub holders_fit : length c.sequence_blocks + length c.prefix_blocks < u32_mod

-- One more sequence or prefix can be counted in 32 bits.
abbrev pub HasRoom : PagedKvCache → Type 0
HasRoom c = length c.sequence_blocks + length c.prefix_blocks + 1 < u32_mod

pub refcount-lt : (c : PagedKvCache) → IsValid c → (b : ℕ) → get_or c.refcounts b 0 < u32_mod
refcount-lt c v b = omega (
  arith,
  v.counted b,
  v.holders_fit,
  refs-le-length b c.sequence_blocks v.sequences_distinct,
  refs-le-length b c.prefix_blocks v.prefixes_distinct,
)

pub refcount_room :
    (c : PagedKvCache) → IsValid c → HasRoom c → (b : ℕ) → get_or c.refcounts b 0 + 1 < u32_mod
refcount_room c v r b = omega (
  arith,
  v.counted b,
  refs-le-length b c.sequence_blocks v.sequences_distinct,
  refs-le-length b c.prefix_blocks v.prefixes_distinct,
)

count-fill_free :
    (n b : ℕ) (free : List ℕ)
    → count b (fill_free n free) ≡ (if ltb b n then 1 else 0) + count b free
unfolding fill_free
count-fill_free zero b free = ground arith
count-fill_free (suc n) b free = ground (arith, count-fill_free n b (n ∷ free))

abbrev fresh : ℕ → ℕ → PagedKvCache
fresh block_count block_size = record {
  block_size_tokens = block_size;
  refcounts = replicate block_count 0;
  free_list = fill_free block_count [];
  sequence_blocks = [];
  prefix_blocks = [];
}

init-fresh :
    (n size : ℕ) (c : PagedKvCache)
    → init n size ≡ ok c
    → (c ≡ fresh n size) × (n < u32_mod) × (0 < size)
unfolding init
init-fresh n size c e = ground arith

fresh-IsValid : (n size : ℕ) → n < u32_mod → 0 < size → IsValid (fresh n size)
fresh-IsValid n size small positive = record {
  counted = λ b. get_or-replicate n b 0;
  free = λ b.
      ground (
        arith,
        count-fill_free n b [],
        get_or-replicate {A = ℕ} n b 0,
        length-replicate {A = ℕ} n 0,
      );
  sequences_distinct = tt;
  prefixes_distinct = tt;
  sequences_unique = tt;
  prefixes_unique = tt;
  size_positive = positive;
  ids_fit = omega (arith, length-replicate {A = ℕ} n 0);
  holders_fit = omega arith;
}

-- The constructor builds a valid cache.
pub init-IsValid :
    (block_count block_size : ℕ) (c : PagedKvCache) → init block_count block_size ≡ ok c → IsValid c
init-IsValid n size c e =
    let (same, small, positive) = init-fresh n size c e in
    rw same (fresh-IsValid n size small positive)
