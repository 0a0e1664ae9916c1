-- ===== src/Engine/KvCache/Loops.antt =====
-- The loops of the paged cache over reference counts and the free list (paged_kv_cache.cpp), block
-- by block.
use infer_sched_distributed.Base.{
  ℕ, zero, suc, ◌+◌, ◌-◌, ◌≤◌, ◌<◌, ◌≡◌, refl, arith, true, List, [], ◌∷◌, ◌++◌, ltb, ◌==◌,
  if◌then◌else◌, length, get_or, set, take, drop, count, mem, u32_mod, ◌%◌, ◌∙◌, sym, append-nil,
  append_assoc, length-set, get_or-set, get_or_past, ap,
}
use infer_sched_distributed.Engine.KvCache.{
  Pool, valid_blocks, add_refs, take_free, drop_ref, drop_refs,
}

-- How often a block stands on the free list: once if nobody holds it.
abbrev pub free_count : List ℕ → ℕ → ℕ
free_count refcounts b =
    if ltb b (length refcounts) then (if get_or refcounts b 0 == 0 then 1 else 0) else 0

abbrev pub IsFreeList : Pool → Type 0
IsFreeList p = (b : ℕ) → count b p.free_list ≡ free_count p.refcounts b

-- Blocks that pass the test are in range and held, and none comes twice.
pub valid_blocks-held :
    (refcounts seen blocks : List ℕ) (b : ℕ)
    → valid_blocks refcounts seen blocks ≡ true
    → 0 < count b blocks
    → (b < length refcounts) × (0 < get_or refcounts b 0)
unfolding valid_blocks
valid_blocks-held rc seen [] b h c = absurd (omega arith)
valid_blocks-held rc seen (x ∷ blocks) b h c =
    ground (arith, valid_blocks-held rc (x ∷ seen) blocks b)

pub valid_blocks-seen :
    (refcounts seen blocks : List ℕ) (b : ℕ)
    → valid_blocks refcounts seen blocks ≡ true
    → mem b seen ≡ true
    → count b blocks ≡ 0
unfolding valid_blocks
valid_blocks-seen rc seen [] b h m = refl
valid_blocks-seen rc seen (x ∷ blocks) b h m =
    ground (arith, valid_blocks-seen rc (x ∷ seen) blocks b)

pub valid_blocks-count-le :
    (refcounts seen blocks : List ℕ) (b : ℕ)
    → valid_blocks refcounts seen blocks ≡ true
    → count b blocks ≤ 1
unfolding valid_blocks
valid_blocks-count-le rc seen [] b h = omega arith
valid_blocks-count-le rc seen (x ∷ blocks) b h =
    ground (
      arith,
      valid_blocks-count-le rc (x ∷ seen) blocks b,
      valid_blocks-seen rc (x ∷ seen) blocks b,
    )

pub length-add_refs :
    (refcounts blocks : List ℕ) → length (add_refs refcounts blocks) ≡ length refcounts
unfolding add_refs
length-add_refs rc [] = refl
length-add_refs rc (x ∷ blocks) =
    omega (arith, length-add_refs (set rc x _) blocks, length-set rc x _)

-- Each occurrence of a block adds one to its count, while no count wraps.
pub add_refs-get :
    (refcounts blocks : List ℕ)
    → ((b : ℕ) → 0 < count b blocks → b < length refcounts)
    → ((b : ℕ) → get_or refcounts b 0 + count b blocks < u32_mod)
    → (b : ℕ) → get_or (add_refs refcounts blocks) b 0 ≡ get_or refcounts b 0 + count b blocks
unfolding add_refs
add_refs-get rc [] inside small b = omega arith
add_refs-get rc (x ∷ blocks) inside small b =
    let here : x < length rc = ground (arith, inside x) in
    let now : ℕ = (get_or rc x 0 + 1) % u32_mod in
    let step : (c : ℕ)
        → get_or (set rc x now) c 0 + count c blocks ≡ get_or rc c 0 + count c (x ∷ blocks) =
      λ c. ground (arith, get_or-set rc x c now 0, small x, small c) in
    ground (
      arith,
      step b,
      add_refs-get (set rc x now) blocks (λ c h. ground (arith, inside c, length-set rc x now))
          (λ c. ground (arith, step c, small c)) b,
    )

pub length-take_free :
    (n : ℕ) (rc free blocks : List ℕ) → length (take_free n rc free blocks).0.refcounts ≡ length rc
unfolding take_free
length-take_free zero rc free blocks = refl
length-take_free (suc n) rc [] blocks = refl
length-take_free (suc n) rc (x ∷ free) blocks =
    length-take_free n (set rc x 1) free (blocks ++ x ∷ []) ∙ length-set rc x 1

-- The first blocks of the free list are taken, and appended in their order.
pub take_free-free :
    (n : ℕ) (rc free blocks : List ℕ) → (take_free n rc free blocks).0.free_list ≡ drop n free
unfolding take_free
take_free-free zero rc free blocks = refl
take_free-free (suc n) rc [] blocks = refl
take_free-free (suc n) rc (x ∷ free) blocks = take_free-free n (set rc x 1) free (blocks ++ x ∷ [])

pub take_free-blocks :
    (n : ℕ) (rc free blocks : List ℕ) → (take_free n rc free blocks).1 ≡ blocks ++ take n free
unfolding take_free
take_free-blocks zero rc free blocks = sym (append-nil blocks)
take_free-blocks (suc n) rc [] blocks = sym (append-nil blocks)
take_free-blocks (suc n) rc (x ∷ free) blocks =
    take_free-blocks n (set rc x 1) free (blocks ++ x ∷ [])
    ∙ append_assoc blocks (x ∷ []) (take n free)

pub count-take-drop :
    (b n : ℕ) (xs : List ℕ) → count b (take n xs) + count b (drop n xs) ≡ count b xs
count-take-drop b zero xs = omega arith
count-take-drop b (suc n) [] = omega arith
count-take-drop b (suc n) (x ∷ xs) = omega (arith, count-take-drop b n xs)

-- A block that is taken was free, and is now held once.
pub take_free-get :
    (n : ℕ) (rc free blocks : List ℕ)
    → ((b : ℕ) → 0 < count b free → (b < length rc) × (get_or rc b 0 + count b free ≡ 1))
    → (b : ℕ)
    → get_or (take_free n rc free blocks).0.refcounts b 0 ≡ get_or rc b 0 + count b (take n free)
unfolding take_free
take_free-get zero rc free blocks fresh b = omega arith
take_free-get (suc n) rc [] blocks fresh b = omega arith
take_free-get (suc n) rc (x ∷ free) blocks fresh b =
    let here : (x < length rc) × (get_or rc x 0 + count x (x ∷ free) ≡ 1) =
      fresh x (ground arith) in
    let none_left : count x free ≡ 0 = ground arith in
    ground (
      arith,
      get_or-set rc x b 1 0,
      count-take-drop b n free,
      take_free-get n (set rc x 1) free (blocks ++ x ∷ [])
          (λ c h. ground (arith, fresh c, get_or-set rc x c 1 0, length-set rc x 1)) b,
    )

length-drop_ref : (p : Pool) (x : ℕ) → length (drop_ref p x).refcounts ≡ length p.refcounts
unfolding drop_ref
length-drop_ref p x = length-set p.refcounts x ((get_or p.refcounts x 0 + u32_mod - 1) % u32_mod)

pub length-drop_refs :
    (p : Pool) (blocks : List ℕ) → length (drop_refs p blocks).refcounts ≡ length p.refcounts
unfolding drop_refs
length-drop_refs p [] = refl
length-drop_refs p (x ∷ blocks) = length-drop_refs (drop_ref p x) blocks ∙ length-drop_ref p x

module _ (p : Pool) (x : ℕ) (small : get_or p.refcounts x 0 < u32_mod)
    (held : 0 < get_or p.refcounts x 0) where
  drop_ref-get :
      (b : ℕ) → get_or (drop_ref p x).refcounts b 0 + count b (x ∷ []) ≡ get_or p.refcounts b 0
  unfolding drop_ref
  drop_ref-get b =
      let now : ℕ = (get_or p.refcounts x 0 + u32_mod - 1) % u32_mod in
      ground (arith, get_or-set p.refcounts x b now 0, get_or_past p.refcounts x 0)

  drop_ref-IsFreeList : IsFreeList p → IsFreeList (drop_ref p x)
  unfolding drop_ref
  drop_ref-IsFreeList free b =
      let now : ℕ = (get_or p.refcounts x 0 + u32_mod - 1) % u32_mod in
      ground (
        arith,
        free b,
        get_or-set p.refcounts x b now 0,
        get_or_past p.refcounts x 0,
        length-set p.refcounts x now,
      )

-- Each occurrence of a block takes one from its count.
pub drop_refs-get :
    (p : Pool) (blocks : List ℕ)
    → ((b : ℕ) → get_or p.refcounts b 0 < u32_mod)
    → ((b : ℕ) → count b blocks ≤ get_or p.refcounts b 0)
    → (b : ℕ) → get_or (drop_refs p blocks).refcounts b 0 + count b blocks ≡ get_or p.refcounts b 0
unfolding drop_refs
drop_refs-get p [] small held b = omega arith
drop_refs-get p (x ∷ blocks) small held b =
    let step = drop_ref-get p x (small x) (ground (arith, held x)) in
    omega (
      arith,
      step b,
      drop_refs-get (drop_ref p x) blocks (λ c. omega (arith, step c, small c))
          (λ c. omega (arith, step c, held c)) b,
    )

pub drop_refs-IsFreeList :
    (p : Pool) (blocks : List ℕ)
    → ((b : ℕ) → get_or p.refcounts b 0 < u32_mod)
    → ((b : ℕ) → count b blocks ≤ get_or p.refcounts b 0)
    → IsFreeList p
    → IsFreeList (drop_refs p blocks)
unfolding drop_refs
drop_refs-IsFreeList p [] small held free = free
drop_refs-IsFreeList p (x ∷ blocks) small held free =
    let step = drop_ref-get p x (small x) (ground (arith, held x)) in
    drop_refs-IsFreeList (drop_ref p x) blocks (λ c. omega (arith, step c, small c))
      (λ c. omega (arith, step c, held c))
      (drop_ref-IsFreeList p x (small x) (ground (arith, held x)) free)

-- Sharing blocks that are held already frees none and takes none.
pub add_refs-IsFreeList :
    (rc free blocks : List ℕ)
    → ((b : ℕ) → 0 < count b blocks → (b < length rc) × (0 < get_or rc b 0))
    → ((b : ℕ) → get_or rc b 0 + count b blocks < u32_mod)
    → IsFreeList (record { refcounts = rc; free_list = free })
    → IsFreeList (record { refcounts = add_refs rc blocks; free_list = free })
add_refs-IsFreeList rc free blocks held small h b = ground (
  arith,
  h b,
  held b,
  length-add_refs rc blocks,
  add_refs-get rc blocks (λ c k. (held c k).0) small b,
)

pub take_free-IsFreeList :
    (n : ℕ) (rc free blocks : List ℕ)
    → IsFreeList (record { refcounts = rc; free_list = free })
    → IsFreeList (take_free n rc free blocks).0
take_free-IsFreeList n rc free blocks h b = ground (
  arith,
  h b,
  get_or_past rc b 0,
  length-take_free n rc free blocks,
  count-take-drop b n free,
  ap (count b) (take_free-free n rc free blocks),
  take_free-get n rc free blocks (λ c k. ground (arith, h c)) b,
)
