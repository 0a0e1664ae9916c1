-- ===== src/Engine/RadixPrefixCache/Longest.antt =====
-- `GetLongest` of radix_prefix_cache.cpp against the paths of the tree.
use infer_sched_distributed.Base.{
  ℕ, suc, ◌≤◌, ◌<◌, ◌≡◌, refl, subst, arith, List, [], ◌∷◌, Option, none, some, String, ite, if_pos,
  if_neg, ite_elim, text_discrete, length, take, Option-cases, inl, inr, lookup, insert_or_assign,
  lookup-insert_or_assign_self, lookup-insert_or_assign_ne,
}
use infer_sched_distributed.Engine.RadixPrefixCache.{
  RadixPrefixCache, Match, Children, nil, node, next, descend, match_of, get_longest, root_of,
}

-- The node of a hash in a map: its block and the map below it.
abbrev pub child : String → Children → Option (ℕ × Children)
child k nil = none
child k (node key block pin_key last_access children rest) =
    ite (text_discrete key k) (some (block, children)) (child k rest)

child_here :
    (key k : String) (block : ℕ) (pin : String) (access : ℕ) (children rest : Children)
    → key ≡ k
    → child k (node key block pin access children rest) ≡ some (block, children)
child_here key k block pin access children rest e = if_pos (text_discrete key k) e _ _

child_beside :
    (key k : String) (block : ℕ) (pin : String) (access : ℕ) (children rest : Children)
    → (key ≡ k → ⊥)
    → child k (node key block pin access children rest) ≡ child k rest
child_beside key k block pin access children rest n = if_neg (text_discrete key k) n _ _

abbrev pub prepend : ℕ → Option (List ℕ) → Option (List ℕ)
prepend block none = none
prepend block (some blocks) = some (block ∷ blocks)

-- The blocks on the path that the hashes name, if all of it is there.
abbrev pub blocks_at : List String → Children → Option (List ℕ)
blocks_at [] f = some []
blocks_at (hash ∷ hashes) f = elim (child hash f) [
  | none ↦ none
  | some (block, children) ↦ prepend block (blocks_at hashes children)
]

-- The path of the first hashes, as many as there are blocks, is there; the one with one more hash
-- is not.
pub record IsLongest (f : Children) (hashes : List String) (blocks : List ℕ) : Type 0 where
  pub present : blocks_at (take (length blocks) hashes) f ≡ some blocks
  pub within : length blocks ≤ length hashes
  pub maximal :
      length blocks < length hashes → blocks_at (take (suc (length blocks)) hashes) f ≡ none

descend-IsLongest :
    (f : Children) (hashes : List String) (clock : ℕ)
    → IsLongest f hashes (descend f hashes clock).0
unfolding descend
descend-IsLongest nil [] clock = record {
  present = refl;
  within = omega arith;
  maximal = λ h. absurd (omega (arith, h));
}
descend-IsLongest nil (hash ∷ hashes) clock = record {
  present = refl;
  within = omega arith;
  maximal = λ h. refl;
}
descend-IsLongest (node key block pin access children rest) [] clock = record {
  present = refl;
  within = omega arith;
  maximal = λ h. absurd (omega (arith, h));
}
descend-IsLongest (node key block pin access children rest) (hash ∷ hashes) clock =
    let here : Children = node key block pin access children rest in
    let below = descend-IsLongest children hashes (next clock) in
    let side = descend-IsLongest rest (hash ∷ hashes) clock in
    ite_elim (λ (r : List ℕ × ℕ × Children). IsLongest here (hash ∷ hashes) r.0)
      (text_discrete key hash)
      (λ e. record {
        present =
            rw (child_here key hash block pin access children rest e, below.present, blocks_at)
              refl;
        within = omega (arith, below.within);
        maximal = λ h.
            rw
              (
                child_here key hash block pin access children rest e,
                below.maximal (omega (arith, h)),
                blocks_at,
              )
              refl;
      })
      (λ n.
        beside key hash block pin access children rest hashes (descend rest (hash ∷ hashes) clock).0
          n side)
  where
    beside :
        (key hash : String) (block : ℕ) (pin : String) (access : ℕ) (children rest : Children)
        (hashes : List String) (blocks : List ℕ)
        → (key ≡ hash → ⊥)
        → IsLongest rest (hash ∷ hashes) blocks
        → IsLongest (node key block pin access children rest) (hash ∷ hashes) blocks
    beside key hash block pin access children rest hashes [] n side = record {
      present = refl;
      within = side.within;
      maximal = λ h.
          rw (child_beside key hash block pin access children rest n, blocks_at) (side.maximal h);
    }
    beside key hash block pin access children rest hashes (b ∷ blocks) n side = record {
      present = rw (child_beside key hash block pin access children rest n, blocks_at) side.present;
      within = side.within;
      maximal = λ h.
          rw (child_beside key hash block pin access children rest n, blocks_at) (side.maximal h);
    }

-- Two maps with the same paths.
abbrev pub SamePaths : Children → Children → Type 0
SamePaths f g = (way : List String) → blocks_at way f ≡ blocks_at way g

descend-SamePaths :
    (f : Children) (hashes : List String) (clock : ℕ) → SamePaths (descend f hashes clock).2 f
unfolding descend
descend-SamePaths f hashes clock [] = refl
descend-SamePaths nil hashes clock (k ∷ way) = refl
descend-SamePaths (node key block pin access children rest) [] clock (k ∷ way) = refl
descend-SamePaths (node key block pin access children rest) (hash ∷ hashes) clock (k ∷ way) =
    ite_elim
      (λ (r : List ℕ × ℕ × Children).
        blocks_at (k ∷ way) r.2 ≡ blocks_at (k ∷ way) (node key block pin access children rest))
      (text_discrete key hash)
      (λ e. elim (text_discrete key k) [
        | yes same ↦
            rw
              (
                child_here key k block pin access children rest same,
                child_here key k block pin (next clock) (descend children hashes (next clock)).2
                    rest same,
                descend-SamePaths children hashes (next clock) way,
                blocks_at,
              )
              refl
        | no other ↦
            rw
              (
                child_beside key k block pin access children rest other,
                child_beside key k block pin (next clock) (descend children hashes (next clock)).2
                    rest other,
                blocks_at,
              )
              refl
      ])
      (λ n. elim (text_discrete key k) [
        | yes same ↦
            rw
              (
                child_here key k block pin access children rest same,
                child_here key k block pin access children (descend rest (hash ∷ hashes) clock).2
                    same,
                blocks_at,
              )
              refl
        | no other ↦
            rw
              (
                child_beside key k block pin access children rest other,
                child_beside key k block pin access children (descend rest (hash ∷ hashes) clock).2
                    other,
                blocks_at,
              )
              (descend-SamePaths rest (hash ∷ hashes) clock (k ∷ way))
      ])

-- An answer of `GetLongest` and the cache after it.
pub record FindsLongest (c : RadixPrefixCache) (ns : String) (hashes : List String)
    (r : Option Match × RadixPrefixCache) : Type 0 where
  pub blocks : List ℕ
  pub answer : r.0 ≡ match_of blocks
  pub longest : IsLongest (root_of c ns) hashes blocks
  pub unchanged : (other : String) → SamePaths (root_of r.1 other) (root_of c other)

nil-IsLongest : (hashes : List String) → IsLongest nil hashes []
nil-IsLongest [] = record {
  present = refl;
  within = omega arith;
  maximal = λ h. absurd (omega (arith, h));
}
nil-IsLongest (hash ∷ hashes) = record { present = refl; within = omega arith; maximal = λ h. refl }

SamePaths-after :
    (c : RadixPrefixCache) (ns other : String) (root root' : Children) (clock : ℕ)
    → lookup text_discrete ns c.roots ≡ some root
    → SamePaths root' root
    → SamePaths
        (root_of
          (record c {
            roots = insert_or_assign text_discrete ns root' c.roots;
            access_clock = clock;
          })
          other)
        (root_of c other)
SamePaths-after c ns other root root' clock at same way = elim (text_discrete ns other) [
  | yes e ↦
      let there : lookup text_discrete other c.roots ≡ some root =
        subst (λ (k : String). lookup text_discrete k c.roots ≡ some root) e at in
      let new : lookup text_discrete other (insert_or_assign text_discrete ns root' c.roots)
          ≡ some root' =
        subst
          (λ (k : String).
            lookup text_discrete k (insert_or_assign text_discrete ns root' c.roots) ≡ some root')
          e (lookup-insert_or_assign_self text_discrete ns root' c.roots) in
      rw (there, new, root_of) (same way)
  | no n ↦ rw (lookup-insert_or_assign_ne text_discrete ns other root' c.roots n, root_of) refl
]

-- `GetLongest` answers with the blocks of the longest path of the namespace's tree that the first
-- hashes name, with none where not even the first hash is there, and leaves every path of every
-- namespace as it was.
pub get_longest-FindsLongest :
    (c : RadixPrefixCache) (ns : String) (hashes : List String)
    → FindsLongest c ns hashes (get_longest c ns hashes)
unfolding get_longest
get_longest-FindsLongest c ns hashes = elim (Option-cases (lookup text_discrete ns c.roots)) [
  | inl e ↦
      rw (e, get_longest)
        (record {
          blocks = [];
          answer = refl;
          longest = rw (e, root_of) (nil-IsLongest hashes);
          unchanged = λ other way. refl;
        })
  | inr (root, e) ↦
      rw (e, get_longest)
        (let d = descend root hashes c.access_clock in
          record {
            blocks = d.0;
            answer = refl;
            longest = rw (e, root_of) (descend-IsLongest root hashes c.access_clock);
            unchanged = λ other.
                SamePaths-after c ns other root d.2 d.1 e
                  (descend-SamePaths root hashes c.access_clock);
          })
]
