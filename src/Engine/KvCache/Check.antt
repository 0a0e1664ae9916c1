-- ===== src/Engine/KvCache/Check.antt =====
-- `PagedKvCache::CheckInvariants` (paged_kv_cache.cpp), and that it accepts every valid cache.
-- The entries of a map are visited in the order of its list; the code's order is unspecified.
use infer_sched_distributed.Base.{
  ℕ, zero, suc, ◌+◌, ◌%◌, ◌≤◌, ◌<◌, ◌≡◌, refl, arith, ◌∙◌, Bool, true, false, not, ◌||◌, List, [],
  ◌∷◌, Option, none, some, leb, ◌==◌, if◌then◌else◌, length, get_or, set, count, mem, replicate,
  u32_mod, u64_mod, get_or-set, get_or_past, length-set, get_or-replicate, length-replicate,
}
use infer_sched_distributed.Engine.KvCache.{
  PagedKvCache, add_refs, total_blocks, free_blocks, allocated_blocks,
}
use infer_sched_distributed.Engine.KvCache.Loops.{length-add_refs, add_refs-get}
use infer_sched_distributed.Engine.KvCache.Invariant.{Holders, refs, Distinct, IsValid, refcount-lt}
use infer_sched_distributed.Engine.KvCache.Accounting.{free-add-held}

infixl 5 ◌>>=◌
abbrev ◌>>=◌ {ℓ κ} : {A : Type ℓ} {B : Type κ} → Option A → (A → Option B) → Option B
none >>= f = none
some a >>= f = f a

-- The blocks of one entry, each in range and none twice, counted into `observed`.
unfoldable pub observe_blocks : ℕ → List ℕ → List ℕ → List ℕ → Option (List ℕ)
observe_blocks total unique observed [] = some observed
observe_blocks total unique observed (block ∷ blocks) =
    if leb total block || mem block unique
    then none
    else observe_blocks total (block ∷ unique)
        (set observed block ((get_or observed block 0 + 1) % u32_mod)) blocks

unfoldable pub observe_entries : ℕ → List ℕ → Holders → Option (List ℕ)
observe_entries total observed [] = some observed
observe_entries total observed ((key, blocks) ∷ entries) = do
  observed' ← observe_blocks total [] observed blocks
  observe_entries total observed' entries

unfoldable pub observe_free : ℕ → List Bool → List ℕ → Option (List Bool)
observe_free total observed [] = some observed
observe_free total observed (block ∷ blocks) =
    if leb total block || get_or observed block false
    then none
    else observe_free total (set observed block true) blocks

abbrev pub same : Bool → Bool → Bool
same true b = b
same false b = not b

-- The last loop, from `block` on with `rest` rounds left.
unfoldable pub check_blocks : ℕ → ℕ → List ℕ → List ℕ → List Bool → Bool
check_blocks zero block refcounts observed_refs observed_free = true
check_blocks (suc rest) block refcounts observed_refs observed_free =
    let later = check_blocks rest (block + 1) refcounts observed_refs observed_free in
    if not (get_or observed_refs block 0 == get_or refcounts block 0)
    then false
    else if not (same (get_or refcounts block 0 == 0) (get_or observed_free block false))
    then false
    else later

observe_all : PagedKvCache → Option (List ℕ)
observe_all cache = do
  observed ←
      observe_entries (total_blocks cache) (replicate (total_blocks cache) 0) cache.sequence_blocks
  observe_entries (total_blocks cache) observed cache.prefix_blocks

unfoldable pub check_invariants : PagedKvCache → Bool
unfolding observe_all
check_invariants cache =
    if not ((allocated_blocks cache + free_blocks cache) % u64_mod == total_blocks cache)
    then false
    else (elim (observe_all cache) [
      | none ↦ false
      | some observed_refs ↦
          elim (observe_free (total_blocks cache) (replicate (total_blocks cache) false)
            cache.free_list) [
              | none ↦ false
              | some observed_free ↦
                  check_blocks (total_blocks cache) 0 cache.refcounts observed_refs observed_free
            ]
    ])

-- Where no block is out of range or comes twice, the loop counts as `++refcounts_` does.
observe_blocks-add_refs :
    (total : ℕ) (unique observed blocks : List ℕ)
    → ((b : ℕ) → 0 < count b blocks → (b < total) × (mem b unique ≡ false))
    → ((b : ℕ) → count b blocks ≤ 1)
    → observe_blocks total unique observed blocks ≡ some (add_refs observed blocks)
unfolding observe_blocks add_refs
observe_blocks-add_refs total unique observed [] inside distinct = refl
observe_blocks-add_refs total unique observed (x ∷ blocks) inside distinct = ground (
  arith,
  inside x,
  observe_blocks-add_refs total (x ∷ unique) (set observed x ((get_or observed x 0 + 1) % u32_mod))
      blocks (λ b h. ground (arith, inside b, distinct b)) (λ b. ground (arith, distinct b)),
)

observe_entries-refs :
    (total : ℕ) (observed : List ℕ) (m : Holders)
    → length observed ≡ total
    → Distinct m
    → ((b : ℕ) → 0 < refs b m → b < total)
    → ((b : ℕ) → get_or observed b 0 + refs b m < u32_mod)
    → (o : List ℕ) × (observe_entries total observed m ≡ some o)
      × (length o ≡ total)
      × ((b : ℕ) → get_or o b 0 ≡ get_or observed b 0 + refs b m)
unfolding observe_entries
observe_entries-refs total observed [] sized d inside small =
    (observed, refl, sized, λ b. omega arith)
observe_entries-refs total observed ((k, blocks) ∷ m) sized d inside small =
    let counted : (b : ℕ)
        → get_or (add_refs observed blocks) b 0 ≡ get_or observed b 0 + count b blocks =
      add_refs-get observed blocks (λ b h. ground (arith, inside b))
        (λ b. omega (arith, small b)) in
    let (o, e, sized', total_refs) =
      observe_entries-refs total (add_refs observed blocks) m
        (length-add_refs observed blocks ∙ sized) d.1 (λ b h. omega (arith, inside b))
        (λ b. omega (arith, counted b, small b)) in
    (
      o,
      rw
          (observe_blocks-add_refs total [] observed blocks (λ b h. (omega (arith, inside b), refl))
            d.0)
          e,
      sized',
      λ b. omega (arith, counted b, total_refs b),
    )

-- The loop over the free list passes where each block is in range, new and listed once.
observe_free-some :
    (total : ℕ) (observed : List Bool) (free : List ℕ)
    → length observed ≡ total
    → ((b : ℕ) → 0 < count b free → (b < total) × (get_or observed b false ≡ false))
    → ((b : ℕ) → count b free ≤ 1)
    → (o : List Bool) × (observe_free total observed free ≡ some o)
      × ((b : ℕ) → get_or o b false ≡ (if count b free == 0 then get_or observed b false else true))
unfolding observe_free
observe_free-some total observed [] sized inside distinct = (observed, refl, λ b. refl)
observe_free-some total observed (x ∷ free) sized inside distinct =
    let (o, e, marked) =
      observe_free-some total (set observed x true) free (length-set observed x true ∙ sized)
        (λ b h. ground (arith, inside b, inside x, distinct b, get_or-set observed x b true false))
        (λ b. ground (arith, distinct b)) in
    (
      o,
      ground (arith, inside x),
      λ b. ground (arith, marked b, inside x, get_or-set observed x b true false),
    )

check_blocks-true :
    (rest block : ℕ) (refcounts observed_refs : List ℕ) (observed_free : List Bool)
    → ((b : ℕ)
        → b < block + rest
        → (get_or observed_refs b 0 ≡ get_or refcounts b 0)
          × (same (get_or refcounts b 0 == 0) (get_or observed_free b false) ≡ true))
    → check_blocks rest block refcounts observed_refs observed_free ≡ true
unfolding check_blocks
check_blocks-true zero block rc refs free h = refl
check_blocks-true (suc rest) block rc refs free h =
    ground
      (arith, h block, check_blocks-true rest (block + 1) rc refs free (λ b k. h b (omega arith)))

module _ (c : PagedKvCache) (v : IsValid c) where
  in_range : (b : ℕ) → 0 < get_or c.refcounts b 0 → b < length c.refcounts
  in_range b h = ground (arith, get_or_past c.refcounts b 0)

  observe_all-counted :
      (o : List ℕ) × (observe_all c ≡ some o) × ((b : ℕ) → get_or o b 0 ≡ get_or c.refcounts b 0)
  unfolding observe_all
  observe_all-counted =
      let start = get_or-replicate {A = ℕ} (length c.refcounts) in
      let (o, e, sized, first) =
        observe_entries-refs (length c.refcounts) (replicate (length c.refcounts) 0)
          c.sequence_blocks (length-replicate (length c.refcounts) 0) v.sequences_distinct
          (λ b h. in_range b (omega (arith, v.counted b)))
          (λ b. omega (arith, start b 0, v.counted b, refcount-lt c v b)) in
      let (o', e', _, second) =
        observe_entries-refs (length c.refcounts) o c.prefix_blocks sized v.prefixes_distinct
          (λ b h. in_range b (omega (arith, v.counted b)))
          (λ b. omega (arith, first b, start b 0, v.counted b, refcount-lt c v b)) in
      (o', rw e e', λ b. omega (arith, first b, second b, start b 0, v.counted b))

  -- `CheckInvariants` answers true in every valid cache.
  pub check_invariants-true : check_invariants c ≡ true
  unfolding check_invariants
  check_invariants-true =
      let (o, e, counted) = observe_all-counted in
      let (marks, e', marked) =
        observe_free-some (length c.refcounts) (replicate (length c.refcounts) false) c.free_list
          (length-replicate (length c.refcounts) false)
          (λ b h. (ground (arith, v.free b), get_or-replicate (length c.refcounts) b false))
          (λ b. ground (arith, v.free b)) in
      let sum : ((allocated_blocks c + free_blocks c) % u64_mod == total_blocks c) ≡ true =
        ground (arith, free-add-held c v, v.ids_fit) in
      let blocks = check_blocks-true (length c.refcounts) 0 c.refcounts o marks (λ b h. (
        counted b,
        ground (arith, marked b, v.free b, get_or-replicate (length c.refcounts) b false),
      )) in
      rw (sum, e, e') blocks
