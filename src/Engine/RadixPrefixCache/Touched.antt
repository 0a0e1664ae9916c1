-- ===== src/Engine/RadixPrefixCache/Touched.antt =====
-- `GetLongest` and `Clear` of radix_prefix_cache.cpp keep the node count right.
use infer_sched_distributed.Base.{
  ℕ, ◌≡◌, refl, ap, arith, List, [], ◌∷◌, String, ite_elim, text_discrete, Option-cases, inl, inr,
  lookup, lookup-All, insert_or_assign-All, insert_or_assign-Unique,
}
use infer_sched_distributed.Engine.KvCache.{PagedKvCache}
use infer_sched_distributed.Engine.RadixPrefixCache.{
  RadixPrefixCache, Children, nil, node, next, descend, get_longest, clear,
}
use infer_sched_distributed.Engine.RadixPrefixCache.Trees.{node_total, Absent, Distinct}
use infer_sched_distributed.Engine.RadixPrefixCache.Counted.{
  IsCounted, total-insert_or_assign, size_or_zero,
}

-- The same keys in the same places.
record SameKeys (f g : Children) : Type 0 where
  total : node_total g ≡ node_total f
  absent : (k : String) → Absent k f → Absent k g
  distinct : Distinct f → Distinct g

descend-SameKeys :
    (f : Children) (hashes : List String) (clock : ℕ) → SameKeys f (descend f hashes clock).2
unfolding descend
descend-SameKeys nil hashes clock = record { total = refl; absent = λ k h. h; distinct = λ d. d }
descend-SameKeys (node key block pin access children rest) [] clock = record {
  total = refl;
  absent = λ k h. h;
  distinct = λ d. d;
}
descend-SameKeys (node key block pin access children rest) (hash ∷ hashes) clock =
    let below = descend-SameKeys children hashes (next clock) in
    let side = descend-SameKeys rest (hash ∷ hashes) clock in
    ite_elim (λ (r : List ℕ × ℕ × Children). SameKeys (node key block pin access children rest) r.2)
      (text_discrete key hash)
      (λ e. record {
        total = omega (arith, below.total);
        absent = λ k h. h;
        distinct = λ d. (d.0, below.distinct d.1, d.2);
      })
      (λ n. record {
        total = omega (arith, side.total);
        absent = λ k h. (h.0, side.absent k h.1);
        distinct = λ d. (side.absent key d.0, d.1, side.distinct d.2);
      })

-- `GetLongest` keeps the counter right, and as it was, with the capacity.
pub record StaysCounted (c c' : RadixPrefixCache) : Type 0 where
  pub counted : IsCounted c'
  pub same_count : c'.node_count ≡ c.node_count
  pub same_capacity : c'.capacity ≡ c.capacity

pub get_longest-StaysCounted :
    (c : RadixPrefixCache) (ns : String) (hashes : List String)
    → IsCounted c
    → StaysCounted c (get_longest c ns hashes).1
unfolding get_longest
get_longest-StaysCounted c ns hashes v = elim (Option-cases (lookup text_discrete ns c.roots)) [
  | inl e ↦ rw (e, get_longest) (record { counted = v; same_count = refl; same_capacity = refl })
  | inr (root, e) ↦
      rw (e, get_longest)
        (let s = descend-SameKeys root hashes c.access_clock in
          let root' = (descend root hashes c.access_clock).2 in
          record {
            counted = record {
              counted = omega (
                arith,
                total-insert_or_assign ns root' c.roots,
                ap size_or_zero e,
                s.total,
                v.counted,
              );
              distinct =
                  insert_or_assign-All text_discrete Distinct ns root' c.roots
                    (s.distinct (lookup-All text_discrete Distinct ns root c.roots e v.distinct))
                    v.distinct;
              unique = insert_or_assign-Unique text_discrete ns root' c.roots v.unique;
            };
            same_count = refl;
            same_capacity = refl;
          })
]

pub clear-IsCounted : (c : RadixPrefixCache) (kv : PagedKvCache) → IsCounted (clear c kv).0
unfolding clear
clear-IsCounted c kv = record { counted = refl; distinct = tt; unique = tt }
