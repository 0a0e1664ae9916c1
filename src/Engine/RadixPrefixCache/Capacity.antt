-- ===== src/Engine/RadixPrefixCache/Capacity.antt =====
-- The capacity of radix_prefix_cache.cpp: `PutBlockPrefixes` ends with no more nodes than it.
use infer_sched_distributed.Base.{
  ℕ, zero, suc, ◌+◌, ◌≤◌, ◌≡◌, refl, ◌∙◌, arith, List, String, text_discrete, if_elim, ltb,
  Option-cases, inl, inr, lookup, insert_or_assign-Unique, insert_or_assign-All, lookup-All,
}
use infer_sched_distributed.Engine.KvCache.{PagedKvCache}
use infer_sched_distributed.Engine.RadixPrefixCache.{
  RadixPrefixCache, fill, evict_oldest, shrink, root_of, filling, fill_root, put_block_prefixes,
}
use infer_sched_distributed.Engine.RadixPrefixCache.Trees.{node_total, Distinct}
use infer_sched_distributed.Engine.RadixPrefixCache.Counted.{
  IsCounted, fill-Adds, total-insert_or_assign, size_or_zero,
}
use infer_sched_distributed.Engine.RadixPrefixCache.Evicted.{evict_oldest-EvictsOne}

-- The loop that evicts, on enough fuel.
record Shrinks (c : RadixPrefixCache) (r : RadixPrefixCache × PagedKvCache) : Type 0 where
  counted : IsCounted r.0
  capacity : r.0.capacity ≡ c.capacity
  fits : r.0.node_count ≤ c.capacity

shrink-Shrinks :
    (fuel : ℕ) (c : RadixPrefixCache) (kv : PagedKvCache)
    → IsCounted c
    → c.node_count ≤ c.capacity + fuel
    → Shrinks c (shrink fuel c kv)
unfolding shrink
shrink-Shrinks zero c kv v h = record { counted = v; capacity = refl; fits = omega (arith, h) }
shrink-Shrinks (suc fuel) c kv v h =
    let e = evict_oldest-EvictsOne c kv v in
    let (evicted, c', kv') = evict_oldest c kv in
    if_elim (Shrinks c) (ltb c.capacity c.node_count)
      (λ k.
        if_elim (Shrinks c) evicted
          (λ g.
            let r =
              shrink-Shrinks fuel c' kv' e.counted
                (ground (arith, k, h, g, e.one_less, e.capacity)) in
            record {
              counted = r.counted;
              capacity = r.capacity ∙ e.capacity;
              fits = omega (arith, r.fits, e.capacity);
            })
          (λ g. absurd (ground (arith, k, g, e.answer))))
      (λ k. record { counted = v; capacity = refl; fits = ground (arith, k) })

-- More turns than there are nodes change nothing.
shrink_enough :
    (n m : ℕ) (c : RadixPrefixCache) (kv : PagedKvCache)
    → IsCounted c
    → c.node_count ≤ c.capacity + n
    → c.node_count ≤ c.capacity + m
    → shrink n c kv ≡ shrink m c kv
unfolding shrink
shrink_enough zero zero c kv v h k = refl
shrink_enough zero (suc m) c kv v h k =
    let (evicted, c', kv') = evict_oldest c kv in ground (arith, h)
shrink_enough (suc n) zero c kv v h k =
    let (evicted, c', kv') = evict_oldest c kv in ground (arith, k)
shrink_enough (suc n) (suc m) c kv v h k =
    let e = evict_oldest-EvictsOne c kv v in
    let (evicted, c', kv') = evict_oldest c kv in
    ground (arith, h, k, e.one_less, e.capacity, e.answer, shrink_enough n m c' kv' e.counted)

node_total-root_of :
    (c : RadixPrefixCache) (ns : String)
    → size_or_zero (lookup text_discrete ns c.roots) ≡ node_total (root_of c ns)
node_total-root_of c ns = elim (Option-cases (lookup text_discrete ns c.roots)) [
  | inl e ↦ rw (e, root_of) refl
  | inr (f, e) ↦ rw (e, root_of) refl
]

root_of-Distinct : (c : RadixPrefixCache) (ns : String) → IsCounted c → Distinct (root_of c ns)
root_of-Distinct c ns v = elim (Option-cases (lookup text_discrete ns c.roots)) [
  | inl e ↦ rw (e, root_of) tt
  | inr (f, e) ↦ rw (e, root_of) (lookup-All text_discrete Distinct ns f c.roots e v.distinct)
]

fill_root-IsCounted :
    (c : RadixPrefixCache) (kv : PagedKvCache) (ns : String) (hashes : List String)
    (blocks : List ℕ)
    → IsCounted c
    → IsCounted (fill_root c kv ns hashes blocks).0
unfolding fill_root
fill_root-IsCounted c kv ns hashes blocks v =
    let g = fill-Adds (root_of c ns) hashes blocks (filling c kv) in
    let root = (fill (root_of c ns) hashes blocks (filling c kv)).0 in
    record {
      counted = omega (
        arith,
        total-insert_or_assign ns root c.roots,
        node_total-root_of c ns,
        g.counts,
        v.counted,
      );
      distinct =
          insert_or_assign-All text_discrete Distinct ns root c.roots
            (g.distinct (root_of-Distinct c ns v)) v.distinct;
      unique = insert_or_assign-Unique text_discrete ns root c.roots v.unique;
    }

-- `PutBlockPrefixes` of a counted cache leaves the counter right and no more nodes than the
-- capacity, whatever it was before.
pub put_block_prefixes-IsCounted :
    (c : RadixPrefixCache) (kv : PagedKvCache) (ns : String) (hashes : List String)
    (blocks : List ℕ)
    → IsCounted c
    → IsCounted (put_block_prefixes c kv ns hashes blocks).1
      × ((put_block_prefixes c kv ns hashes blocks).1.node_count ≤ c.capacity)
unfolding put_block_prefixes fill_root
put_block_prefixes-IsCounted c kv ns hashes blocks v =
    let filled = (fill_root c kv ns hashes blocks).0 in
    let kv' = (fill_root c kv ns hashes blocks).1.kv in
    let r =
      shrink-Shrinks filled.node_count filled kv' (fill_root-IsCounted c kv ns hashes blocks v)
        (omega arith) in
    (r.counted, r.fits)

pub put_block_prefixes-capacity :
    (c : RadixPrefixCache) (kv : PagedKvCache) (ns : String) (hashes : List String)
    (blocks : List ℕ)
    → IsCounted c
    → (put_block_prefixes c kv ns hashes blocks).1.capacity ≡ c.capacity
unfolding put_block_prefixes fill_root
put_block_prefixes-capacity c kv ns hashes blocks v =
    let filled = (fill_root c kv ns hashes blocks).0 in
    let kv' = (fill_root c kv ns hashes blocks).1.kv in
    (shrink-Shrinks filled.node_count filled kv' (fill_root-IsCounted c kv ns hashes blocks v)
      (omega arith)).capacity

-- The loop of evictions at the end of `PutBlockPrefixes` ends: of a counted cache, any number of
-- turns that is not below the number of nodes gives what the number of nodes gives.
pub shrink_lem :
    (fuel : ℕ) (c : RadixPrefixCache) (kv : PagedKvCache)
    → IsCounted c
    → c.node_count ≤ fuel
    → shrink fuel c kv ≡ shrink c.node_count c kv
shrink_lem fuel c kv v h = shrink_enough fuel c.node_count c kv v (omega (arith, h)) (omega arith)
