-- ===== src/Engine/PrefixCache/Holds.antt =====
-- What the prefix cache (prefix_cache.cpp) holds, and its pins in the paged cache.
use infer_sched_distributed.Base.{
  ℕ, Unique, ◌≤◌, ◌<◌, ◌≡◌, ◌≢◌, refl, sym, ap, ◌∙◌, arith, true, false, List, [], ◌∷◌, Option,
  none, some, String, ok, ite, Option-cases, inl, inr, length, lookup, erase, text_discrete,
  lookup-erase_ne, lookup-erase_self,
}
use infer_sched_distributed.Engine.KvCache.{PagedKvCache, pin_prefix, unpin_prefix}
use infer_sched_distributed.Engine.KvCache.Invariant.{IsValid}
use infer_sched_distributed.Engine.KvCache.Preserve.{unpin_prefix-IsValid}
use infer_sched_distributed.Engine.Lru.{back, keys}
use infer_sched_distributed.Engine.Lru.Represents.{Represents, back-some}
use infer_sched_distributed.Engine.PrefixCache.{PrefixCache, init, unpin_all}

-- The cache stands for the list `l` of at most `capacity` entries, most recent first, and the
-- pinned prefixes of the paged cache, which is well-formed, are the entries.
pub record Holds (c : PrefixCache) (kv : PagedKvCache) (l : List (String × List ℕ)) : Type 0 where
  pub represents : Represents text_discrete c.recency c.entries l
  pub bounded : length l ≤ c.capacity
  pub positive : 0 < c.capacity
  pub pinned :
      (k : String) → lookup text_discrete k kv.prefix_blocks ≡ lookup text_discrete k c.entries
  pub valid : IsValid kv

pub lookup-erase :
    (q k : String) (m : List (String × List ℕ))
    → Unique text_discrete m
    → lookup text_discrete k (erase text_discrete q m)
      ≡ ite (text_discrete q k) none (lookup text_discrete k m)
lookup-erase q k m u = elim (text_discrete q k) [
  | yes e ↦ ground (
    arith,
    lookup-erase_self text_discrete q m u,
    ap (λ x. lookup text_discrete x (erase text_discrete q m)) e,
  )
  | no n ↦ ground (arith, n, lookup-erase_ne text_discrete q k m n)
]

pub lookup-unpin_prefix :
    (kv : PagedKvCache) (q k : String)
    → IsValid kv
    → lookup text_discrete k (unpin_prefix kv q).1.prefix_blocks
      ≡ ite (text_discrete q k) none (lookup text_discrete k kv.prefix_blocks)
unfolding unpin_prefix
lookup-unpin_prefix kv q k v = elim (Option-cases (lookup text_discrete q kv.prefix_blocks)) [
  | inl e ↦
      rw (e, unpin_prefix)
        (elim (text_discrete q k) [
          | yes same ↦
              ground (arith, same, e, ap (λ x. lookup text_discrete x kv.prefix_blocks) same)
          | no n ↦ ground (arith, n)
        ])
  | inr (b, e) ↦ rw (e, unpin_prefix) (lookup-erase q k kv.prefix_blocks v.prefixes_unique)
]

pub lookup-pin_prefix :
    (kv : PagedKvCache) (q k : String) (blocks : List ℕ)
    → (pin_prefix kv q blocks).0 ≡ true
    → lookup text_discrete k (pin_prefix kv q blocks).1.prefix_blocks
      ≡ ite (text_discrete q k) (some blocks) (lookup text_discrete k kv.prefix_blocks)
unfolding pin_prefix lookup
lookup-pin_prefix kv q k blocks h = ground (arith, h)

pub pin_prefix_refused :
    (kv : PagedKvCache) (q : String) (blocks : List ℕ)
    → (pin_prefix kv q blocks).0 ≡ false
    → (pin_prefix kv q blocks).1 ≡ kv
unfolding pin_prefix
pin_prefix_refused kv q blocks h = ground (arith, h)

-- Adding `k` and removing another `q` commute.
pub add_remove :
    (k q j : String) (b : List ℕ) (x y w e : Option (List ℕ))
    → k ≢ q
    → x ≡ ite (text_discrete q j) none y
    → y ≡ ite (text_discrete k j) (some b) w
    → e ≡ ite (text_discrete q j) none w
    → x ≡ ite (text_discrete k j) (some b) e
add_remove k q j b x y w e apart hx hy he = elim (text_discrete k j) [
  | yes h ↦ elim (text_discrete q j) [
    | yes g ↦ absurd (apart (h ∙ sym g))
    | no g ↦ ground (arith, h, g, hx, hy, he)
  ]
  | no h ↦ ground (arith, h, hx, hy, he)
]

pub init-Holds :
    (capacity : ℕ) (c : PrefixCache) (kv : PagedKvCache)
    → init capacity ≡ ok c
    → IsValid kv
    → ((k : String) → lookup text_discrete k kv.prefix_blocks ≡ none)
    → Holds c kv []
unfolding init lookup
init-Holds capacity c kv e v unpinned =
    let pos : 0 < capacity = ground arith in
    let same : c
        ≡ record { capacity = capacity; recency = []; entries = []; hits = 0; misses = 0 } =
      ground arith in
    rw same (record {
      represents = record {
        order = refl;
        content = λ k. refl;
        size = refl;
        entries_unique = tt;
        unique = tt;
      };
      bounded = omega arith;
      positive = pos;
      pinned = unpinned;
      valid = v;
    })

pub empty_of_back : (l : List (String × List ℕ)) → back (keys l) ≡ none → l ≡ []
empty_of_back [] h = refl
empty_of_back (e ∷ l) h =
    let (q, last) = back-some text_discrete (e ∷ l) (omega arith) in
    absurd (ground (arith, h, last))

pub positive_of_back :
    (l : List (String × List ℕ)) (q : String) → back (keys l) ≡ some q → 0 < length l
positive_of_back [] q h = absurd (ground (arith, h))
positive_of_back (e ∷ l) q h = omega arith

pub unpin_all-IsValid :
    (l : List (String × List ℕ)) (kv : PagedKvCache)
    → IsValid kv
    → ((k : String)
        → lookup text_discrete k l ≡ none
        → lookup text_discrete k kv.prefix_blocks ≡ none)
    → ((k : String) → lookup text_discrete k (unpin_all (keys l) kv).prefix_blocks ≡ none)
      × IsValid (unpin_all (keys l) kv)
unfolding unpin_all lookup
unpin_all-IsValid [] kv v h = (λ k. h k refl, v)
unpin_all-IsValid (e ∷ l) kv v h =
    unpin_all-IsValid l (unpin_prefix kv e.0).1 (unpin_prefix-IsValid kv e.0 v)
      (λ k absent. ground (arith, absent, lookup-unpin_prefix kv e.0 k v, h k))
