-- ===== src/Engine/RadixPrefixCache/Evicted.antt =====
-- The leaf that `EvictOldest` of radix_prefix_cache.cpp takes, and the node count after it.
use infer_sched_distributed.Base.{
  ℕ, ◌+◌, ◌≤◌, ◌<◌, ◌≡◌, refl, sym, ap, ◌∙◌, arith, Bool, List, [], ◌∷◌, ◌++◌, Option, none, some,
  String, if_pos, if_neg, text_discrete, dec_lt, if◌then◌else◌, ltb, subst, lookup, Unique,
  insert_or_assign-Unique, insert_or_assign-All, lookup-All,
}
use infer_sched_distributed.Engine.KvCache.{PagedKvCache}
use infer_sched_distributed.Engine.RadixPrefixCache.{
  RadixPrefixCache, Children, LeafCandidate, find_oldest, remove, evict_oldest,
}
use infer_sched_distributed.Engine.RadixPrefixCache.Trees.{
  node_total, Distinct, LeafAt, Removes, remove-Removes, Finds, as_before, found,
  find_oldest_leaf-Finds, NotAfter, find_oldest_leaf-NotAfter, find_oldest_leaf-oldest, some_leaf,
}
use infer_sched_distributed.Engine.RadixPrefixCache.Counted.{
  total, IsCounted, size_or_zero, total-insert_or_assign,
}
use infer_sched_distributed.Engine.RadixPrefixCache.Eviction.{
  EvictsLeaf, Evicts, no_candidate, candidate, no_root, no_leaf, removed, evict_oldest-Evicts,
}

-- The candidate of `EvictOldest`, in the tree of its namespace.
data FindsRoot (roots : List (String × Children)) (before : Option LeafCandidate)
    : Option LeafCandidate → Type 0 where
  old : FindsRoot roots before before
  in_root :
      (leaf : LeafCandidate) (root : Children) (j : String) (way : List String)
      → lookup text_discrete leaf.cache_namespace roots ≡ some root
      → leaf.parent ++ leaf.key ∷ [] ≡ j ∷ way
      → LeafAt root j way leaf.last_access
      → FindsRoot roots before (some leaf)

Finds-later :
    (ns : String) (root : Children) (roots : List (String × Children))
    (before middle r : Option LeafCandidate)
    → lookup text_discrete ns roots ≡ none
    → Finds ns [] root before middle
    → FindsRoot roots middle r
    → FindsRoot ((ns, root) ∷ roots) before r
unfolding lookup
Finds-later ns root roots before _ _ u as_before old = old
Finds-later ns root roots before _ _ u (found leaf j way e p l) old =
    in_root leaf root j way (if_pos (text_discrete ns leaf.cache_namespace) (sym e) _ _) p l
Finds-later ns root roots before middle _ u m (in_root leaf tree j way at p l) =
    in_root leaf tree j way
      (if_neg (text_discrete ns leaf.cache_namespace) (λ e. absurd (ground (arith, u, at, e))) _ _
        ∙ at)
      p l

find_oldest-FindsRoot :
    (roots : List (String × Children)) (before : Option LeafCandidate)
    → Unique text_discrete roots
    → FindsRoot roots before (find_oldest roots before)
unfolding find_oldest
find_oldest-FindsRoot [] before u = old
find_oldest-FindsRoot (e ∷ roots) before u =
    Finds-later e.0 e.1 roots before _ _ u.0 (find_oldest_leaf-Finds e.0 [] e.1 before)
      (find_oldest-FindsRoot roots _ u.1)

find_oldest-NotAfter :
    (roots : List (String × Children)) (before : Option LeafCandidate) (a : ℕ)
    → NotAfter before a
    → NotAfter (find_oldest roots before) a
unfolding find_oldest
find_oldest-NotAfter [] before a h = h
find_oldest-NotAfter (e ∷ roots) before a h =
    find_oldest-NotAfter roots _ a (find_oldest_leaf-NotAfter e.0 [] e.1 before a h)

-- No leaf of any tree was used before the candidate.
find_oldest-oldest :
    (roots : List (String × Children)) (before : Option LeafCandidate) (ns j : String)
    (root : Children) (way : List String) (a : ℕ)
    → lookup text_discrete ns roots ≡ some root
    → LeafAt root j way a
    → NotAfter (find_oldest roots before) a
unfolding find_oldest lookup
find_oldest-oldest [] before ns j root way a at l = absurd (ground (arith, at))
find_oldest-oldest ((k, f) ∷ roots) before ns j root way a at l = elim (text_discrete k ns) [
  | yes e ↦
      let same : f ≡ root = ground (arith, at, e) in
      find_oldest-NotAfter roots _ a (
        find_oldest_leaf-oldest k [] f before j way a
          (subst (λ (t : Children). LeafAt t j way a) (sym same) l))
  | no n ↦ find_oldest-oldest roots _ ns j root way a (ground (arith, at, n)) l
]

-- What an eviction does to a counted cache.
pub record EvictsOne (c : RadixPrefixCache) (r : Bool × RadixPrefixCache × PagedKvCache)
    : Type 0 where
  pub answer : r.0 ≡ ltb 0 c.node_count
  pub one_less : r.1.node_count + (if r.0 then 1 else 0) ≡ c.node_count
  pub capacity : r.1.capacity ≡ c.capacity
  pub counted : IsCounted r.1

some_candidate :
    (roots : List (String × Children)) (before : Option LeafCandidate)
    → 0 < total roots
    → (a : ℕ) × NotAfter (find_oldest roots before) a
unfolding find_oldest
some_candidate [] before h = absurd (omega (arith, h))
some_candidate ((ns, f) ∷ roots) before h = elim (dec_lt 0 (node_total f)) [
  | yes p ↦
      let (j, way, a, l) = some_leaf f p in
      (a, find_oldest-NotAfter roots _ a (find_oldest_leaf-oldest ns [] f before j way a l))
  | no n ↦ some_candidate roots _ (ground (arith, h, n))
]

module _ (c : RadixPrefixCache) (kv : PagedKvCache) (v : IsCounted c) where
  no_candidate-empty : find_oldest c.roots none ≡ none → c.node_count ≡ 0
  no_candidate-empty h = elim (dec_lt 0 (total c.roots)) [
    | yes p ↦
        let (a, later) = some_candidate c.roots none p in
        absurd (subst (λ (o : Option LeafCandidate). NotAfter o a) h later)
    | no n ↦ ground (arith, n, v.counted)
  ]

  -- The node of a candidate can be taken out of its tree.
  can_remove :
      (leaf : LeafCandidate) (root : Children) (j : String) (way : List String)
      → lookup text_discrete leaf.cache_namespace c.roots ≡ some root
      → leaf.parent ++ leaf.key ∷ [] ≡ j ∷ way
      → LeafAt root j way leaf.last_access
      → Removes root (remove (leaf.parent ++ leaf.key ∷ []) root)
  can_remove leaf root j way at p l =
      subst (λ (w : List String). Removes root (remove w root)) (sym p)
        (remove-Removes root j way leaf.last_access
          (lookup-All text_discrete Distinct leaf.cache_namespace root c.roots at v.distinct) l)

  same_root : (f g : Children) → (o : Option Children) → o ≡ some f → o ≡ some g → f ≡ g
  same_root f g o h k = ground (arith, h, k)

  evicts_leaf :
      (leaf : LeafCandidate) (r : Bool × RadixPrefixCache × PagedKvCache)
      → FindsRoot c.roots none (some leaf)
      → EvictsLeaf c kv leaf r
      → EvictsOne c r
  evicts_leaf _ _ (in_root leaf root j way at p l) (no_root absent) =
      absurd (ground (arith, at, absent))
  evicts_leaf _ _ (in_root leaf root j way at p l) (no_leaf tree there gone) =
      let same = same_root root tree _ at there in
      let m = can_remove leaf root j way at p l in absurd (ground (arith, m.is, gone, same))
  evicts_leaf _ _ (in_root leaf root j way at p l) (removed tree left pin_key there taken) =
      let m = can_remove leaf tree j way there p (
        subst (λ (t : Children). LeafAt t j way leaf.last_access) (same_root root tree _ at there)
          l) in
      let same : m.left ≡ left = ground (arith, m.is, taken) in
      let sizes = total-insert_or_assign leaf.cache_namespace left c.roots in
      let was = ap size_or_zero there in
      let smaller : node_total left + 1 ≡ node_total tree =
        subst (λ (t : Children). node_total t + 1 ≡ node_total tree) same m.smaller in
      let positive : 0 < c.node_count = omega (arith, sizes, was, smaller, v.counted) in
      record {
        answer = ground (arith, positive);
        one_less = omega (arith, positive);
        capacity = refl;
        counted = record {
          counted = omega (arith, sizes, was, smaller, v.counted, positive);
          distinct =
              insert_or_assign-All text_discrete Distinct leaf.cache_namespace left c.roots
                (subst Distinct same m.distinct) v.distinct;
          unique = insert_or_assign-Unique text_discrete leaf.cache_namespace left c.roots v.unique;
        };
      }

  evicts_one :
      (r : Bool × RadixPrefixCache × PagedKvCache)
      → FindsRoot c.roots none (find_oldest c.roots none)
      → Evicts c kv r
      → EvictsOne c r
  evicts_one _ f (no_candidate h) =
      let empty = no_candidate-empty h in
      record {
        answer = ground (arith, empty);
        one_less = omega arith;
        capacity = refl;
        counted = v;
      }
  evicts_one r f (candidate leaf h e) =
      evicts_leaf leaf r (subst (λ (o : Option LeafCandidate). FindsRoot c.roots none o) h f) e

-- `EvictOldest` of a counted cache answers true exactly where there is a node; it then takes out
-- one node, and the counter is right again.
pub evict_oldest-EvictsOne :
    (c : RadixPrefixCache) (kv : PagedKvCache) → IsCounted c → EvictsOne c (evict_oldest c kv)
evict_oldest-EvictsOne c kv v =
    evicts_one c kv v (evict_oldest c kv) (find_oldest-FindsRoot c.roots none v.unique)
      (evict_oldest-Evicts c kv)

-- The candidate that `EvictOldest` takes, where there is a node: a leaf of one of the trees, and no
-- leaf of any tree was used before it.
pub record IsOldest (c : RadixPrefixCache) (leaf : LeafCandidate) : Type 0 where
  pub root : Children
  pub hash : String
  pub way : List String
  pub at : lookup text_discrete leaf.cache_namespace c.roots ≡ some root
  pub path : leaf.parent ++ leaf.key ∷ [] ≡ hash ∷ way
  pub is_leaf : LeafAt root hash way leaf.last_access
  pub oldest :
      (ns j : String) (tree : Children) (to : List String) (a : ℕ)
      → lookup text_discrete ns c.roots ≡ some tree
      → LeafAt tree j to a
      → leaf.last_access ≤ a

is_oldest :
    (c : RadixPrefixCache) (leaf : LeafCandidate)
    → FindsRoot c.roots none (some leaf)
    → ((ns j : String) (tree : Children) (to : List String) (a : ℕ)
        → lookup text_discrete ns c.roots ≡ some tree
        → LeafAt tree j to a
        → leaf.last_access ≤ a)
    → IsOldest c leaf
is_oldest c _ (in_root leaf root j way at p l) least = record {
  root = root;
  hash = j;
  way = way;
  at = at;
  path = p;
  is_leaf = l;
  oldest = least;
}

-- The candidate of `EvictOldest` is a leaf of the tree of its namespace, at the end of the way that
-- the candidate names, and no leaf of any tree has an earlier last access.
find_oldest-IsOldest :
    (c : RadixPrefixCache) (leaf : LeafCandidate)
    → IsCounted c
    → find_oldest c.roots none ≡ some leaf
    → IsOldest c leaf
find_oldest-IsOldest c leaf v h =
    is_oldest c leaf
      (subst (λ (o : Option LeafCandidate). FindsRoot c.roots none o) h
        (find_oldest-FindsRoot c.roots none v.unique))
      (λ ns j tree to a at l.
        subst (λ (o : Option LeafCandidate). NotAfter o a) h
          (find_oldest-oldest c.roots none ns j tree to a at l))
