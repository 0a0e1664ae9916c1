-- ===== src/Engine/RadixPrefixCache/Counted.antt =====
-- The node count of radix_prefix_cache.cpp, and the loop of `PutBlockPrefixes` that adds nodes.
use infer_sched_distributed.Base.{
  ℕ, ◌+◌, ◌≡◌, ◌≢◌, refl, sym, arith, List, [], ◌∷◌, Option, none, some, String, if_pos, if_neg,
  text_discrete, if_elim, ite_elim, lookup, insert_or_assign, Unique, All,
}
use infer_sched_distributed.Engine.KvCache.{pin_prefix}
use infer_sched_distributed.Engine.RadixPrefixCache.{
  RadixPrefixCache, Children, nil, node, Filling, next, pin_key_of, counted, grow, fill,
}
use infer_sched_distributed.Engine.RadixPrefixCache.Trees.{node_total, Absent, Distinct}
use infer_sched_distributed.Engine.RadixPrefixCache.Eviction.{}

abbrev pub total : List (String × Children) → ℕ
total [] = 0
total (e ∷ roots) = node_total e.1 + total roots

-- The counter is right, and the keys of each map are distinct.
pub record IsCounted (c : RadixPrefixCache) : Type 0 where
  pub counted : c.node_count ≡ total c.roots
  pub distinct : All (λ e. Distinct e.1) c.roots
  pub unique : Unique text_discrete c.roots

abbrev pub size_or_zero : Option Children → ℕ
size_or_zero none = 0
size_or_zero (some f) = node_total f

pub total-insert_or_assign :
    (ns : String) (f : Children) (roots : List (String × Children))
    → total (insert_or_assign text_discrete ns f roots)
        + size_or_zero (lookup text_discrete ns roots)
      ≡ total roots + node_total f
unfolding insert_or_assign lookup
total-insert_or_assign ns f [] = omega arith
total-insert_or_assign ns f ((k, g) ∷ roots) = elim (text_discrete k ns) [
  | yes e ↦ rw (if_pos _ e, if_pos _ e) (omega arith)
  | no n ↦ rw (if_neg _ n, if_neg _ n) (omega (arith, total-insert_or_assign ns f roots))
]

-- A step that keeps the keys distinct and counts the nodes that it adds.
pub record Adds (f f' : Children) (s s' : Filling) : Type 0 where
  pub counts : node_total f' + s.node_count ≡ node_total f + s'.node_count
  pub distinct : Distinct f → Distinct f'

grow-Adds :
    (hashes : List String) (blocks : List ℕ) (s : Filling)
    → Adds nil (grow hashes blocks s).0 s (grow hashes blocks s).1
unfolding grow
grow-Adds [] blocks s = record { counts = refl; distinct = λ d. d }
grow-Adds (hash ∷ hashes) [] s = record { counts = refl; distinct = λ d. d }
grow-Adds (hash ∷ hashes) (block ∷ blocks) s =
    let (pinned, kv) = pin_prefix s.kv (pin_key_of s.next_pin_id) (block ∷ []) in
    let g = grow-Adds hashes blocks (counted s kv) in
    if_elim (λ (r : Children × Filling). Adds nil r.0 s r.1) pinned
      (λ h. record { counts = omega (arith, g.counts); distinct = λ d. (tt, g.distinct tt, tt) })
      (λ h. record { counts = refl; distinct = λ d. d })

grow-Absent :
    (hash : String) (hashes : List String) (blocks : List ℕ) (s : Filling) (k : String)
    → k ≢ hash
    → Absent k (grow (hash ∷ hashes) blocks s).0
unfolding grow
grow-Absent hash hashes [] s k n = tt
grow-Absent hash hashes (block ∷ blocks) s k n =
    let (pinned, kv) = pin_prefix s.kv (pin_key_of s.next_pin_id) (block ∷ []) in
    if_elim (λ (r : Children × Filling). Absent k r.0) pinned (λ h. (λ e. n (sym e), tt)) (λ h. tt)

fill-Absent :
    (f : Children) (hash : String) (hashes : List String) (blocks : List ℕ) (s : Filling)
    (k : String)
    → k ≢ hash
    → Absent k f
    → Absent k (fill f (hash ∷ hashes) blocks s).0
unfolding fill
fill-Absent nil hash hashes blocks s k n h = grow-Absent hash hashes blocks s k n
fill-Absent (node key b p a children rest) hash hashes [] s k n h = h
fill-Absent (node key b p a children rest) hash hashes (block ∷ blocks) s k n h =
    ite_elim (λ (r : Children × Filling). Absent k r.0) (text_discrete key hash) (λ e. h)
      (λ m. (h.0, fill-Absent rest hash hashes (block ∷ blocks) s k n h.1))

pub fill-Adds :
    (f : Children) (hashes : List String) (blocks : List ℕ) (s : Filling)
    → Adds f (fill f hashes blocks s).0 s (fill f hashes blocks s).1
unfolding fill
fill-Adds nil hashes blocks s = grow-Adds hashes blocks s
fill-Adds (node key b p a children rest) [] blocks s = record { counts = refl; distinct = λ d. d }
fill-Adds (node key b p a children rest) (hash ∷ hashes) [] s = record {
  counts = refl;
  distinct = λ d. d;
}
fill-Adds (node key b p a children rest) (hash ∷ hashes) (block ∷ blocks) s =
    let touched : Filling = record s { access_clock = next s.access_clock } in
    let below = fill-Adds children hashes blocks touched in
    let side = fill-Adds rest (hash ∷ hashes) (block ∷ blocks) s in
    ite_elim (λ (r : Children × Filling). Adds (node key b p a children rest) r.0 s r.1)
      (text_discrete key hash)
      (λ e. record {
        counts = omega (arith, below.counts);
        distinct = λ d. (d.0, below.distinct d.1, d.2);
      })
      (λ m. record {
        counts = omega (arith, side.counts);
        distinct = λ d.
            (fill-Absent rest hash hashes (block ∷ blocks) s key m d.0, d.1, side.distinct d.2);
      })
