-- ===== src/Engine/KvCache/Accounting.antt =====
-- No block of the paged cache is lost: the free blocks and the held blocks are all blocks.
use infer_sched_distributed.Base.{
  ℕ, zero, suc, ◌+◌, ◌≤◌, ◌<◌, ◌≡◌, refl, arith, List, [], ◌∷◌, ltb, ◌==◌, if◌then◌else◌, length,
  get_or, count,
}
use infer_sched_distributed.Engine.KvCache.{PagedKvCache, Pool, pool, total_blocks, free_blocks}
use infer_sched_distributed.Engine.KvCache.Loops.{IsFreeList}
use infer_sched_distributed.Engine.KvCache.Invariant.{IsValid}

-- The entries of a list that are below a bound, counted value by value.
counts_below : ℕ → List ℕ → ℕ
counts_below zero xs = 0
counts_below (suc n) xs = count n xs + counts_below n xs

counts_below-nil : (n : ℕ) → counts_below n [] ≡ 0
unfolding counts_below
counts_below-nil zero = refl
counts_below-nil (suc n) = omega (arith, counts_below-nil n)

counts_below-cons :
    (n x : ℕ) (xs : List ℕ)
    → counts_below n (x ∷ xs) ≡ (if ltb x n then 1 else 0) + counts_below n xs
unfolding counts_below
counts_below-cons zero x xs = ground arith
counts_below-cons (suc n) x xs = ground (arith, counts_below-cons n x xs)

length-counts_below :
    (n : ℕ) (xs : List ℕ) → ((b : ℕ) → 0 < count b xs → b < n) → counts_below n xs ≡ length xs
length-counts_below n [] h = counts_below-nil n
length-counts_below n (x ∷ xs) h =
    ground
      (arith, h x, counts_below-cons n x xs, length-counts_below n xs (λ b k. ground (arith, h b)))

-- How many blocks below a bound somebody holds.
unfoldable pub held_below : ℕ → List ℕ → ℕ
held_below zero refcounts = 0
held_below (suc n) refcounts = (if get_or refcounts n 0 == 0 then 0 else 1) + held_below n refcounts

counts_below-held :
    (n : ℕ) (p : Pool)
    → IsFreeList p
    → n ≤ length p.refcounts
    → counts_below n p.free_list + held_below n p.refcounts ≡ n
unfolding counts_below held_below
counts_below-held zero p f h = omega arith
counts_below-held (suc n) p f h = ground (arith, f n, counts_below-held n p f)

-- In a valid cache the free blocks and the blocks that somebody holds are all the blocks.
pub free-add-held :
    (c : PagedKvCache)
    → IsValid c
    → free_blocks c + held_below (total_blocks c) c.refcounts ≡ total_blocks c
free-add-held c v = omega (
  arith,
  length-counts_below (length c.refcounts) c.free_list (λ b h. ground (arith, v.free b)),
  counts_below-held (length c.refcounts) (pool c) v.free,
)
