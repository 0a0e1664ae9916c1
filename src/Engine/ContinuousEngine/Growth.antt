-- ===== src/Engine/ContinuousEngine/Growth.antt =====
-- A pass of `PrepareDecodeBlocks` (continuous_engine.cpp) over the sequences: none loses blocks, and
-- those that it settles have enough.
use infer_sched_distributed.Base.{
  ℕ, zero, suc, ◌+◌, ◌-◌, ◌≤◌, ◌≡◌, refl, ap, arith, Bool, true, List, [], ◌∷◌, String, length,
  take, if_elim, Option-cases, inl, inr, lookup, text_discrete, lookup-insert_or_assign,
  length-append, All,
}
use infer_sched_distributed.Engine.KvCache.{
  PagedKvCache, AllocationStatus, append_blocks, allocated, insufficient_blocks,
  sequence_already_exists, invalid_shared_block, unpin_prefix, take_free, blocks_for,
}
use infer_sched_distributed.Engine.KvCache.Loops.{take_free-blocks}
use infer_sched_distributed.Engine.RadixPrefixCache.{RadixPrefixCache, LeafCandidate, evict_oldest}
use infer_sched_distributed.Engine.RadixPrefixCache.Eviction.{
  EvictsLeaf, Evicts, no_candidate, candidate, no_root, no_leaf, removed, evict_oldest-Evicts,
}
use infer_sched_distributed.Engine.ContinuousEngine.State.{ActiveRequest}
use infer_sched_distributed.Engine.ContinuousEngine.Admission.{is_allocated}
use infer_sched_distributed.Engine.ContinuousEngine.Decoding.{
  Blocks, blocks_needed, append_evicting, prepare_one, prepare_pass,
}

-- No sequence loses blocks.
abbrev Grows : PagedKvCache → PagedKvCache → Type 0
Grows kv kv' = (id : String) → length (blocks_for kv id) ≤ length (blocks_for kv' id)

abbrev pub HasBlocks : ℕ → PagedKvCache → ActiveRequest → Type 0
HasBlocks block_size kv a = blocks_needed block_size a ≤ length (blocks_for kv a.request.request_id)

unpin_prefix-Grows : (kv : PagedKvCache) (key : String) → Grows kv (unpin_prefix kv key).1
unfolding unpin_prefix blocks_for
unpin_prefix-Grows kv key id = ground arith

Grows-without :
    (c : RadixPrefixCache) (kv : PagedKvCache) (leaf : LeafCandidate)
    (r : Bool × RadixPrefixCache × PagedKvCache)
    → EvictsLeaf c kv leaf r
    → Grows kv r.2
Grows-without c kv leaf _ (no_root absent) id = omega arith
Grows-without c kv leaf _ (no_leaf root at gone) id = omega arith
Grows-without c kv leaf _ (removed root root' pin_key at gone) id = unpin_prefix-Grows kv pin_key id

Grows-by_eviction :
    (c : RadixPrefixCache) (kv : PagedKvCache) (r : Bool × RadixPrefixCache × PagedKvCache)
    → Evicts c kv r
    → Grows kv r.2
Grows-by_eviction c kv _ (no_candidate none_left) id = omega arith
Grows-by_eviction c kv r (candidate leaf oldest answer) id = Grows-without c kv leaf r answer id

evict_oldest-Grows : (c : RadixPrefixCache) (kv : PagedKvCache) → Grows kv (evict_oldest c kv).2
evict_oldest-Grows c kv = Grows-by_eviction c kv (evict_oldest c kv) (evict_oldest-Evicts c kv)

length-take : (n : ℕ) (xs : List ℕ) → n ≤ length xs → length (take n xs) ≡ n
length-take zero xs h = refl
length-take (suc n) [] h = absurd (omega arith)
length-take (suc n) (x ∷ xs) h = omega (arith, length-take n xs)

append_blocks-blocks_for :
    (kv : PagedKvCache) (id other : String) (n : ℕ)
    → ((append_blocks kv id n).0 ≡ allocated
        → length (blocks_for (append_blocks kv id n).1 id) ≡ length (blocks_for kv id) + n)
      × (length (blocks_for kv other) ≤ length (blocks_for (append_blocks kv id n).1 other))
unfolding append_blocks blocks_for
append_blocks-blocks_for kv id other n =
    elim (Option-cases (lookup text_discrete id kv.sequence_blocks)) [
      | inl e ↦ rw (e, append_blocks) (ground arith, omega arith)
      | inr (blocks, e) ↦
          rw (e, append_blocks)
            (let grown = (take_free n kv.refcounts kv.free_list blocks).1 in
              ground (
                arith,
                e,
                ap length (take_free-blocks n kv.refcounts kv.free_list blocks),
                length-append blocks (take n kv.free_list),
                length-take n kv.free_list,
                lookup-insert_or_assign text_discrete id id grown kv.sequence_blocks,
                lookup-insert_or_assign text_discrete id other grown kv.sequence_blocks,
              ))
    ]

append_evicting-Grows :
    (fuel : ℕ) (a : ActiveRequest) (missing : ℕ) (c : RadixPrefixCache) (kv : PagedKvCache)
    → Grows kv (append_evicting fuel a missing c kv).kv
unfolding append_evicting
append_evicting-Grows zero a missing c kv id = omega arith
append_evicting-Grows (suc fuel) a missing c kv id =
    let (status, kv') = append_blocks kv a.request.request_id missing in
    let (evicted, c', kv'') = evict_oldest c kv' in
    ground (
      arith,
      append_blocks-blocks_for kv a.request.request_id id missing,
      evict_oldest-Grows c kv' id,
      append_evicting-Grows fuel a missing c' kv'' id,
    )

is_allocated_only : (s : AllocationStatus) → is_allocated s ≡ true → s ≡ allocated
is_allocated_only allocated h = refl
is_allocated_only sequence_already_exists h = absurd (ground (arith, h))
is_allocated_only invalid_shared_block h = absurd (ground (arith, h))
is_allocated_only insufficient_blocks h = absurd (ground (arith, h))

append_evicting-enough :
    (fuel : ℕ) (a : ActiveRequest) (missing : ℕ) (c : RadixPrefixCache) (kv : PagedKvCache)
    → (append_evicting fuel a missing c kv).enough ≡ true
    → length (blocks_for kv a.request.request_id) + missing
      ≤ length (blocks_for (append_evicting fuel a missing c kv).kv a.request.request_id)
unfolding append_evicting
append_evicting-enough zero a missing c kv h = absurd (ground (arith, h))
append_evicting-enough (suc fuel) a missing c kv h =
    let id = a.request.request_id in
    let (status, kv') = append_blocks kv id missing in
    let (evicted, c', kv'') = evict_oldest c kv' in
    ground (
      arith,
      h,
      is_allocated_only status,
      append_blocks-blocks_for kv id id missing,
      evict_oldest-Grows c kv' id,
      append_evicting-enough fuel a missing c' kv'',
    )

module _ (block_size : ℕ) where
  prepare_one-Grows :
      (a : ActiveRequest) (c : RadixPrefixCache) (kv : PagedKvCache)
      → Grows kv (prepare_one block_size a c kv).kv
  unfolding prepare_one
  prepare_one-Grows a c kv id =
      let needed = blocks_needed block_size a in
      let current = length (blocks_for kv a.request.request_id) in
      ground (arith, append_evicting-Grows (suc c.node_count) a (needed - current) c kv id)

  prepare_one-enough :
      (a : ActiveRequest) (c : RadixPrefixCache) (kv : PagedKvCache)
      → (prepare_one block_size a c kv).enough ≡ true
      → HasBlocks block_size (prepare_one block_size a c kv).kv a
  unfolding prepare_one
  prepare_one-enough a c kv h =
      let needed = blocks_needed block_size a in
      let current = length (blocks_for kv a.request.request_id) in
      ground (arith, h, append_evicting-enough (suc c.node_count) a (needed - current) c kv)

  prepare_pass-Grows :
      (active : List ActiveRequest) (c : RadixPrefixCache) (kv : PagedKvCache)
      → Grows kv (prepare_pass block_size active c kv).kv
  unfolding prepare_pass
  prepare_pass-Grows [] c kv id = omega arith
  prepare_pass-Grows (a ∷ active) c kv id =
      let b = prepare_one block_size a c kv in
      ground (arith, prepare_one-Grows a c kv id, prepare_pass-Grows active b.prefixes b.kv id)

  pub prepare_pass-enough :
      (active : List ActiveRequest) (c : RadixPrefixCache) (kv : PagedKvCache)
      → (prepare_pass block_size active c kv).enough ≡ true
      → All (HasBlocks block_size (prepare_pass block_size active c kv).kv) active
  unfolding prepare_pass
  prepare_pass-enough [] c kv h = tt
  prepare_pass-enough (a ∷ active) c kv h =
      let b = prepare_one block_size a c kv in
      if_elim (λ (r : Blocks). r.enough ≡ true → All (HasBlocks block_size r.kv) (a ∷ active))
        b.enough
        (λ e k. (
          ground (
            arith,
            prepare_one-enough a c kv e,
            prepare_pass-Grows active b.prefixes b.kv a.request.request_id,
          ),
          prepare_pass-enough active b.prefixes b.kv k,
        ))
        (λ e k. absurd (ground (arith, e, k))) h
