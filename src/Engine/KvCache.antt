-- ===== src/Engine/KvCache.antt =====
-- The paged key-value cache: cpp/include/infersched/engine/paged_kv_cache.hpp and
-- cpp/src/paged_kv_cache.cpp. A `BlockId` is a number; a vector used as a stack has its back at
-- the head of the list; reference counts are `std::uint32_t` and wrap.

pub mod Loops
pub mod Invariant
pub mod Preserve
pub mod Check
pub mod Accounting
pub mod History
pub mod Answers
pub mod Roundtrip
mod Tests
use infer_sched_distributed.Base.{
  ℕ, zero, suc, ◌+◌, ◌-◌, ◌%◌, ◌≡◌, Bool, true, false, not, ◌&&◌, ◌||◌, List, [], ◌∷◌, ◌++◌, Option,
  none, some, String, Result, ok, invalid_argument, ltb, leb, ◌==◌, if◌then◌else◌, is_some, length,
  get_or, set, replicate, mem, u32_mod, u64_mod, lookup, erase, insert_or_assign, text_discrete,
}

pub data AllocationStatus : Type 0 where
  allocated sequence_already_exists invalid_shared_block insufficient_blocks : AllocationStatus

pub record PagedKvCache : Type 0 where
  pub block_size_tokens : ℕ
  pub refcounts : List ℕ
  pub free_list : List ℕ
  pub sequence_blocks : List (String × List ℕ)
  pub prefix_blocks : List (String × List ℕ)

-- The constructor's loop pushes `block_count - 1` down to 0.
unfoldable pub fill_free : ℕ → List ℕ → List ℕ
fill_free zero free = free
fill_free (suc index) free = fill_free index (index ∷ free)

unfoldable pub init : ℕ → ℕ → Result PagedKvCache
init block_count block_size =
    if ltb (u32_mod - 1) block_count
    then invalid_argument "block_count exceeds BlockId range"
    else (if block_size == 0
        then invalid_argument "block_size_tokens must be positive"
        else ok (record {
          block_size_tokens = block_size;
          refcounts = replicate block_count 0;
          free_list = fill_free block_count [];
          sequence_blocks = [];
          prefix_blocks = [];
        }))

-- The test that `Allocate` and `PinPrefix` make of the blocks that they are given: in range, held
-- by somebody, and none twice. `seen` is the `std::unordered_set`.
unfoldable pub valid_blocks : List ℕ → List ℕ → List ℕ → Bool
valid_blocks refcounts seen [] = true
valid_blocks refcounts seen (block ∷ blocks) =
    if leb (length refcounts) block || get_or refcounts block 0 == 0 || mem block seen
    then false
    else valid_blocks refcounts (block ∷ seen) blocks

-- `++refcounts_[block]` for each block.
unfoldable pub add_refs : List ℕ → List ℕ → List ℕ
add_refs refcounts [] = refcounts
add_refs refcounts (block ∷ blocks) =
    add_refs (set refcounts block ((get_or refcounts block 0 + 1) % u32_mod)) blocks

pub record Pool : Type 0 where
  pub refcounts : List ℕ
  pub free_list : List ℕ

-- The loop that pops blocks off the free list and appends them to `blocks`. The callers test
-- that the free list is long enough, so it never runs dry.
unfoldable pub take_free : ℕ → List ℕ → List ℕ → List ℕ → Pool × List ℕ
take_free zero refcounts free blocks = (record { refcounts = refcounts; free_list = free }, blocks)
take_free (suc rest) refcounts [] blocks =
    (record { refcounts = refcounts; free_list = [] }, blocks)
take_free (suc rest) refcounts (block ∷ free) blocks =
    take_free rest (set refcounts block 1) free (blocks ++ block ∷ [])

-- One round of the loop that gives blocks back: `--refcounts_[block]`, and a block that nobody
-- holds any more becomes free.
unfoldable pub drop_ref : Pool → ℕ → Pool
drop_ref pool block =
    let left = (get_or pool.refcounts block 0 + u32_mod - 1) % u32_mod in
    record {
      refcounts = set pool.refcounts block left;
      free_list = if left == 0 then block ∷ pool.free_list else pool.free_list;
    }

unfoldable pub drop_refs : Pool → List ℕ → Pool
drop_refs pool [] = pool
drop_refs pool (block ∷ blocks) = drop_refs (drop_ref pool block) blocks

abbrev pub pool : PagedKvCache → Pool
pool cache = record { refcounts = cache.refcounts; free_list = cache.free_list }

abbrev pub with_pool : PagedKvCache → Pool → PagedKvCache
with_pool cache p = record cache { refcounts = p.refcounts; free_list = p.free_list }

-- What `Allocate` does once its tests have passed.
unfoldable pub reserve : PagedKvCache → String → ℕ → List ℕ → PagedKvCache
reserve cache sequence_id new_block_count shared =
    let (p, blocks) =
      take_free new_block_count (add_refs cache.refcounts shared) cache.free_list shared in
    record (with_pool cache p) { sequence_blocks = (sequence_id, blocks) ∷ cache.sequence_blocks }

unfoldable pub allocate : PagedKvCache → String → ℕ → List ℕ → AllocationStatus × PagedKvCache
allocate cache sequence_id required_blocks shared =
    if is_some (lookup text_discrete sequence_id cache.sequence_blocks)
    then (sequence_already_exists, cache)
    else if ltb required_blocks (length shared)
    then (invalid_shared_block, cache)
    else if not (valid_blocks cache.refcounts [] shared)
    then (invalid_shared_block, cache)
    else if ltb (length cache.free_list) (required_blocks - length shared)
    then (insufficient_blocks, cache)
    else (allocated, reserve cache sequence_id (required_blocks - length shared) shared)

unfoldable pub free : PagedKvCache → String → Bool × PagedKvCache
free cache sequence_id = elim (lookup text_discrete sequence_id cache.sequence_blocks) [
  | none ↦ (false, cache)
  | some blocks ↦ (
    true,
    record (with_pool cache (drop_refs (pool cache) blocks)) {
      sequence_blocks = erase text_discrete sequence_id cache.sequence_blocks;
    },
  )
]

unfoldable pub append_blocks : PagedKvCache → String → ℕ → AllocationStatus × PagedKvCache
append_blocks cache sequence_id additional_blocks =
    elim (lookup text_discrete sequence_id cache.sequence_blocks) [
      | none ↦ (invalid_shared_block, cache)
      | some blocks ↦
          if ltb (length cache.free_list) additional_blocks
          then (insufficient_blocks, cache)
          else (let (p, grown) =
                take_free additional_blocks cache.refcounts cache.free_list blocks in
              (
                allocated,
                record (with_pool cache p) {
                  sequence_blocks =
                      insert_or_assign text_discrete sequence_id grown cache.sequence_blocks;
                },
              ))
    ]

unfoldable pub pin_prefix : PagedKvCache → String → List ℕ → Bool × PagedKvCache
pin_prefix cache prefix_key blocks =
    if is_some (lookup text_discrete prefix_key cache.prefix_blocks) || length blocks == 0
    then (false, cache)
    else if not (valid_blocks cache.refcounts [] blocks)
    then (false, cache)
    else (
      true,
      record cache {
        refcounts = add_refs cache.refcounts blocks;
        prefix_blocks = (prefix_key, blocks) ∷ cache.prefix_blocks;
      },
    )

unfoldable pub unpin_prefix : PagedKvCache → String → Bool × PagedKvCache
unpin_prefix cache prefix_key = elim (lookup text_discrete prefix_key cache.prefix_blocks) [
  | none ↦ (false, cache)
  | some blocks ↦ (
    true,
    record (with_pool cache (drop_refs (pool cache) blocks)) {
      prefix_blocks = erase text_discrete prefix_key cache.prefix_blocks;
    },
  )
]

abbrev pub total_blocks : PagedKvCache → ℕ
total_blocks cache = length cache.refcounts

abbrev pub free_blocks : PagedKvCache → ℕ
free_blocks cache = length cache.free_list

-- A difference of `std::size_t`s.
abbrev pub allocated_blocks : PagedKvCache → ℕ
allocated_blocks cache = (total_blocks cache + u64_mod - free_blocks cache) % u64_mod

abbrev pub sequence_count : PagedKvCache → ℕ
sequence_count cache = length cache.sequence_blocks

abbrev or_empty : Option (List ℕ) → List ℕ
or_empty none = []
or_empty (some blocks) = blocks

unfoldable pub blocks_for : PagedKvCache → String → List ℕ
blocks_for cache sequence_id = or_empty (lookup text_discrete sequence_id cache.sequence_blocks)

abbrev pub ref_count : PagedKvCache → ℕ → ℕ
ref_count cache block = get_or cache.refcounts block 0
