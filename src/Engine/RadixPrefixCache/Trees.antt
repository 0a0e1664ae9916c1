-- ===== src/Engine/RadixPrefixCache/Trees.antt =====
-- The trees of radix_prefix_cache.cpp: their size, distinct keys, leaves, and what each loop does
-- to them.
use infer_sched_distributed.Base.{
  ℕ, suc, ◌+◌, ◌≤◌, ◌<◌, ◌≡◌, ◌≢◌, refl, sym, ◌∙◌, arith, List, [], ◌∷◌, ◌++◌, Option, none, some,
  String, if_pos, if_neg, text_discrete, if_elim, ltb, append_assoc,
}
use infer_sched_distributed.Engine.RadixPrefixCache.{
  Children, nil, node, LeafCandidate, older, find_oldest_leaf, remove,
}

abbrev pub node_total : Children → ℕ
node_total nil = 0
node_total (node key block pin_key last_access children rest) =
    suc (node_total children + node_total rest)

-- No node of the map itself has the key.
abbrev pub Absent : String → Children → Type 0
Absent k nil = Unit
Absent k (node key block pin_key last_access children rest) = (key ≢ k) × Absent k rest

-- The keys of each map are distinct.
abbrev pub Distinct : Children → Type 0
Distinct nil = Unit
Distinct (node key block pin_key last_access children rest) =
    Absent key rest × Distinct children × Distinct rest

-- A leaf, by the hashes that lead to it and its last access.
pub data LeafAt : Children → String → List String → ℕ → Type 0 where
  here :
      {key pin_key : String} {block last_access : ℕ} {rest : Children}
      → LeafAt (node key block pin_key last_access nil rest) key [] last_access
  below :
      {key pin_key j : String} {block last_access a : ℕ} {children rest : Children}
      {way : List String}
      → LeafAt children j way a
      → LeafAt (node key block pin_key last_access children rest) key (j ∷ way) a
  beside :
      {key pin_key j : String} {block last_access a : ℕ} {children rest : Children}
      {way : List String}
      → LeafAt rest j way a
      → LeafAt (node key block pin_key last_access children rest) j way a

leaf_apart :
    (k j : String) (f : Children) (way : List String) (a : ℕ)
    → LeafAt f j way a
    → Absent k f
    → j ≢ k
leaf_apart k j nil way a l h = elim l [ ]
leaf_apart k j (node _ _ _ _ _ _) [] a here h = h.0
leaf_apart k j (node _ _ _ _ _ _) (_ ∷ way) a (below l) h = h.0
leaf_apart k j (node _ _ _ _ _ rest) way a (beside l) h = leaf_apart k j rest way a l h.1

pub record Removes (f : Children) (r : Option (String × Children)) : Type 0 where
  pub pin_key : String
  pub left : Children
  pub is : r ≡ some (pin_key, left)
  pub smaller : node_total left + 1 ≡ node_total f
  pub distinct : Distinct left
  pub absent : (k : String) → Absent k f → Absent k left

pub remove-Removes :
    (f : Children) (j : String) (way : List String) (a : ℕ)
    → Distinct f
    → LeafAt f j way a
    → Removes f (remove (j ∷ way) f)
unfolding remove
remove-Removes nil j way a d l = elim l [ ]
remove-Removes (node key block pin access nil rest) j [] a d here =
    rw (if_pos (text_discrete key key) refl) (record {
      pin_key = pin;
      left = rest;
      is = refl;
      smaller = omega arith;
      distinct = d.2;
      absent = λ k h. h.1;
    })
remove-Removes (node key block pin access children rest) j (i ∷ way) a d (below l) =
    let r = remove-Removes children i way a d.1 l in
    rw (if_pos (text_discrete key key) refl, r.is)
      (record {
        pin_key = r.pin_key;
        left = node key block pin access r.left rest;
        is = refl;
        smaller = omega (arith, r.smaller);
        distinct = (d.0, r.distinct, d.2);
        absent = λ k h. h;
      })
remove-Removes (node key block pin access children rest) j [] a d (beside l) =
    let r = remove-Removes rest j [] a d.2 l in
    rw (if_neg (text_discrete key j) (λ e. leaf_apart key j rest [] a l d.0 (sym e)), r.is)
      (record {
        pin_key = r.pin_key;
        left = node key block pin access children r.left;
        is = refl;
        smaller = omega (arith, r.smaller);
        distinct = (r.absent key d.0, d.1, r.distinct);
        absent = λ k h. (h.0, r.absent k h.1);
      })
remove-Removes (node key block pin access children rest) j (i ∷ way) a d (beside l) =
    let r = remove-Removes rest j (i ∷ way) a d.2 l in
    rw (if_neg (text_discrete key j) (λ e. leaf_apart key j rest (i ∷ way) a l d.0 (sym e)), r.is)
      (record {
        pin_key = r.pin_key;
        left = node key block pin access children r.left;
        is = refl;
        smaller = omega (arith, r.smaller);
        distinct = (r.absent key d.0, d.1, r.distinct);
        absent = λ k h. (h.0, r.absent k h.1);
      })

-- The candidate after a map has been searched: the one before, or one of its leaves.
pub data Finds (cache_namespace : String) (parent : List String) (f : Children)
    (before : Option LeafCandidate) : Option LeafCandidate → Type 0 where
  as_before : Finds cache_namespace parent f before before
  found :
      (leaf : LeafCandidate) (j : String) (way : List String)
      → leaf.cache_namespace ≡ cache_namespace
      → leaf.parent ++ leaf.key ∷ [] ≡ parent ++ j ∷ way
      → LeafAt f j way leaf.last_access
      → Finds cache_namespace parent f before (some leaf)

-- Whatever a step on the first node gives, the rest of the map finds a leaf of the whole map.
Finds-beside :
    (cache_namespace : String) (parent : List String) (key pin : String) (block access : ℕ)
    (children rest : Children) (before middle r : Option LeafCandidate)
    → Finds cache_namespace parent (node key block pin access children rest) before middle
    → Finds cache_namespace parent rest middle r
    → Finds cache_namespace parent (node key block pin access children rest) before r
Finds-beside ns parent key pin block access children rest before middle _ m as_before = m
Finds-beside ns parent key pin block access children rest before middle _ m
      (found leaf j way e p l) =
    found leaf j way e p (beside l)

Finds-below :
    (cache_namespace : String) (parent : List String) (key pin : String) (block access : ℕ)
    (children rest : Children) (before r : Option LeafCandidate)
    → Finds cache_namespace (parent ++ key ∷ []) children before r
    → Finds cache_namespace parent (node key block pin access children rest) before r
Finds-below ns parent key pin block access children rest before _ as_before = as_before
Finds-below ns parent key pin block access children rest before _ (found leaf j way e p l) =
    found leaf key (j ∷ way) e (p ∙ append_assoc parent (key ∷ []) (j ∷ way)) (below l)

Finds-here :
    (ns : String) (parent : List String) (key pin : String) (block access : ℕ) (rest : Children)
    (before : Option LeafCandidate)
    → Finds ns parent (node key block pin access nil rest) before (
        older
          (record { cache_namespace = ns; parent = parent; key = key; last_access = access })
          before)
Finds-here ns parent key pin block access rest none = found _ key [] refl refl here
Finds-here ns parent key pin block access rest (some best) =
    if_elim (Finds ns parent (node key block pin access nil rest) (some best))
      (ltb access best.last_access) (λ h. found _ key [] refl refl here) (λ h. as_before)

pub find_oldest_leaf-Finds :
    (ns : String) (parent : List String) (f : Children) (before : Option LeafCandidate)
    → Finds ns parent f before (find_oldest_leaf ns parent f before)
unfolding find_oldest_leaf
find_oldest_leaf-Finds ns parent nil before = as_before
find_oldest_leaf-Finds ns parent (node key block pin access nil rest) before =
    Finds-beside ns parent key pin block access nil rest before _ _
      (Finds-here ns parent key pin block access rest before)
      (find_oldest_leaf-Finds ns parent rest _)
find_oldest_leaf-Finds ns parent (node key block pin access (node k b p a c r) rest) before =
    Finds-beside ns parent key pin block access (node k b p a c r) rest before _ _
      (Finds-below ns parent key pin block access (node k b p a c r) rest before _
        (find_oldest_leaf-Finds ns (parent ++ key ∷ []) (node k b p a c r) before))
      (find_oldest_leaf-Finds ns parent rest _)

-- There is a candidate, and it was not used later than `a`.
abbrev pub NotAfter : Option LeafCandidate → ℕ → Type 0
NotAfter none a = ⊥
NotAfter (some leaf) a = leaf.last_access ≤ a

older-NotAfter :
    (leaf : LeafCandidate) (before : Option LeafCandidate) (a : ℕ)
    → NotAfter before a
    → NotAfter (older leaf before) a
older-NotAfter leaf none a h = absurd h
older-NotAfter leaf (some best) a h =
    if_elim (λ (o : Option LeafCandidate). NotAfter o a) (ltb leaf.last_access best.last_access)
      (λ k. ground (arith, h, k)) (λ k. h)

older_self :
    (leaf : LeafCandidate) (before : Option LeafCandidate)
    → NotAfter (older leaf before) leaf.last_access
older_self leaf none = omega arith
older_self leaf (some best) =
    if_elim (λ (o : Option LeafCandidate). NotAfter o leaf.last_access)
      (ltb leaf.last_access best.last_access) (λ k. omega arith) (λ k. ground (arith, k))

pub find_oldest_leaf-NotAfter :
    (ns : String) (parent : List String) (f : Children) (before : Option LeafCandidate) (a : ℕ)
    → NotAfter before a
    → NotAfter (find_oldest_leaf ns parent f before) a
unfolding find_oldest_leaf
find_oldest_leaf-NotAfter ns parent nil before a h = h
find_oldest_leaf-NotAfter ns parent (node key block pin access nil rest) before a h =
    find_oldest_leaf-NotAfter ns parent rest _ a (older-NotAfter _ before a h)
find_oldest_leaf-NotAfter ns parent (node key block pin access (node k b p x c r) rest) before a h =
    find_oldest_leaf-NotAfter ns parent rest _ a
      (find_oldest_leaf-NotAfter ns (parent ++ key ∷ []) (node k b p x c r) before a h)

-- No leaf of a map that was searched was used before the candidate.
pub find_oldest_leaf-oldest :
    (ns : String) (parent : List String) (f : Children) (before : Option LeafCandidate) (j : String)
    (way : List String) (a : ℕ)
    → LeafAt f j way a
    → NotAfter (find_oldest_leaf ns parent f before) a
unfolding find_oldest_leaf
find_oldest_leaf-oldest ns parent nil before j way a l = elim l [ ]
find_oldest_leaf-oldest ns parent (node key block pin access nil rest) before j [] a here =
    find_oldest_leaf-NotAfter ns parent rest _ a (older_self _ before)
find_oldest_leaf-oldest ns parent (node key block pin access nil rest) before j (i ∷ way) a
      (below l) =
    elim l [ ]
find_oldest_leaf-oldest ns parent (node key block pin access (node k b p x c r) rest) before j
      (i ∷ way) a (below l) =
    find_oldest_leaf-NotAfter ns parent rest _ a
      (find_oldest_leaf-oldest ns (parent ++ key ∷ []) (node k b p x c r) before i way a l)
find_oldest_leaf-oldest ns parent (node key block pin access children rest) before j way a
      (beside l) =
    find_oldest_leaf-oldest ns parent rest _ j way a l

-- A tree that is not empty has a leaf.
pub some_leaf :
    (f : Children)
    → 0 < node_total f
    → (j : String) × (way : List String) × (a : ℕ) × LeafAt f j way a
some_leaf nil h = absurd (omega (arith, h))
some_leaf (node key block pin access nil rest) h = (key, [], access, here)
some_leaf (node key block pin access (node k b p x c r) rest) h =
    let (j, way, a, l) = some_leaf (node k b p x c r) (omega arith) in (key, j ∷ way, a, below l)
