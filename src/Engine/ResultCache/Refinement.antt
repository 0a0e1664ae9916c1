-- ===== src/Engine/ResultCache/Refinement.antt =====
-- The result cache implements a bounded list of pairs, most recent first (result_cache.cpp).
use infer_sched_distributed.Base.{
  ℕ, ◌+◌, ◌≤◌, ◌<◌, ◌≡◌, refl, sym, ap, ◌∙◌, arith, List, [], ◌∷◌, none, some, String, ok,
  Bool-cases, Option-cases, inl, inr, ◌==◌, length, lookup, text_discrete, length-erase,
  lookup-erase-none, take_of_length-le, erase_absent,
}
use infer_sched_distributed.Engine.Lru.{back, pop_back, touch, bounded_touch}
use infer_sched_distributed.Engine.Lru.Represents.{
  Represents, hit-Represents, assign-Represents, push-Represents, evict-Represents, back-some,
  length-pop_back_of_pos, take-push,
}
use infer_sched_distributed.Engine.ResultCache.{ResultCache, init, evict, push, put, get}

-- The cache stands for the list `l`.
pub record Shows (c : ResultCache) (l : List (String × String)) : Type 0 where
  pub represents : Represents text_discrete c.recency c.entries l
  pub bounded : length l ≤ c.capacity
  pub positive : 0 < c.capacity

pub init-Shows : (capacity : ℕ) (c : ResultCache) → init capacity ≡ ok c → Shows c []
unfolding init lookup
init-Shows capacity c e =
    let pos : 0 < capacity = ground arith in
    let same : c
        ≡ record { capacity = capacity; recency = []; entries = []; hits = 0; misses = 0 } =
      ground arith in
    rw same (record {
      represents = record {
        order = refl;
        content = λ k. refl;
        size = refl;
        entries_unique = tt;
        unique = tt;
      };
      bounded = omega arith;
      positive = pos;
    })

-- The specification of `Put` and of the state after `Get`.
abbrev pub stored : ℕ → String → String → List (String × String) → List (String × String)
stored capacity k v l = bounded_touch text_discrete capacity k v l

unfoldable pub used : String → List (String × String) → List (String × String)
used k l = elim (lookup text_discrete k l) [ none ↦ l | some v ↦ touch text_discrete k v l ]

pushed :
    (c : ResultCache) (m : List (String × String)) (k v : String)
    → Represents text_discrete c.recency c.entries m
    → lookup text_discrete k c.entries ≡ none
    → length m < c.capacity
    → Shows (push c k v) ((k, v) ∷ m)
unfolding push
pushed c m k v r absent room = record {
  represents = push-Represents text_discrete c.recency c.entries m r k v absent;
  bounded = room;
  positive = omega arith;
}

used_miss :
    (k : String) (l : List (String × String)) → lookup text_discrete k l ≡ none → used k l ≡ l
unfolding used
used_miss k l e = rw (e, used)

used_hit :
    (k v : String) (l : List (String × String))
    → lookup text_discrete k l ≡ some v
    → used k l ≡ touch text_discrete k v l
unfolding used
used_hit k v l e = rw (e, used)

module _ (c : ResultCache) (k : String) (l : List (String × String)) (s : Shows c l) where
  length-touch :
      (v w : String)
      → lookup text_discrete k l ≡ some w
      → length (touch text_discrete k v l) ≤ c.capacity
  length-touch v w e = omega (arith, s.bounded, length-erase text_discrete k l w e)

  put_known :
      (v w : String)
      → lookup text_discrete k c.entries ≡ some w
      → Shows (put c k v) (stored c.capacity k v l)
  unfolding put
  put_known v w e =
      let here : lookup text_discrete k l ≡ some w = sym (s.represents.content k) ∙ e in
      rw (e, put, take_of_length-le c.capacity (touch text_discrete k v l) (length-touch v w here))
        (record {
          represents = assign-Represents text_discrete c.recency c.entries l s.represents k w v e;
          bounded = length-touch v w here;
          positive = s.positive;
        })

  -- Where the list is full, the oldest pair is evicted.
  evicted :
      length l ≡ c.capacity
      → Represents text_discrete (evict c).recency (evict c).entries (pop_back l)
        × (length (pop_back l) + 1 ≡ length l)
        × (lookup text_discrete k c.entries ≡ none
            → lookup text_discrete k (evict c).entries ≡ none)
        × ((evict c).capacity ≡ c.capacity)
  unfolding evict
  evicted full =
      let (q, last) = back-some text_discrete l (omega (arith, s.positive)) in
      let last' : back c.recency ≡ some q = ap back s.represents.order ∙ last in
      rw (last', evict)
        (
          evict-Represents text_discrete c.recency c.entries l q s.represents last',
          length-pop_back_of_pos text_discrete l (omega (arith, s.positive)),
          λ h. lookup-erase-none text_discrete q k c.entries h,
          refl,
        )

  put_new :
      (v : String)
      → lookup text_discrete k c.entries ≡ none
      → Shows (put c k v) (stored c.capacity k v l)
  unfolding put
  put_new v e =
      let absent : lookup text_discrete k l ≡ none = sym (s.represents.content k) ∙ e in
      rw
        (
          e,
          put,
          erase_absent text_discrete k l absent,
          take-push text_discrete c.capacity (k, v) l s.positive s.bounded,
          s.represents.size,
        )
        (elim (Bool-cases (length l == c.capacity)) [
          | inl full ↦
              let (r, shorter, still, same) = evicted (ground arith) in
              rw full (
                pushed (evict c) (pop_back l) k v r (still e)
                  (omega (arith, shorter, s.bounded, same)))
          | inr room ↦ rw room (pushed c l k v s.represents e (ground (arith, s.bounded)))
        ])

  -- `Put` stores the pair in front, and what no longer fits falls off the end.
  pub put-Shows : (v : String) → Shows (put c k v) (stored c.capacity k v l)
  put-Shows v = elim (Option-cases (lookup text_discrete k c.entries)) [
    | inl e ↦ put_new v e
    | inr (w, e) ↦ put_known v w e
  ]

  -- `Get` answers what the list holds, moves a hit to the front, and counts the call.
  pub get-Shows :
      ((get c k).0 ≡ lookup text_discrete k l)
      × Shows (get c k).1 (used k l)
      × ((get c k).1.hits + (get c k).1.misses ≡ c.hits + c.misses + 1)
  unfolding get
  get-Shows = elim (Option-cases (lookup text_discrete k c.entries)) [
    | inl e ↦
        let here : lookup text_discrete k l ≡ none = sym (s.represents.content k) ∙ e in
        rw (e, here, used_miss k l here, get)
          (
            refl,
            record { represents = s.represents; bounded = s.bounded; positive = s.positive },
            omega arith,
          )
    | inr (w, e) ↦
        let here : lookup text_discrete k l ≡ some w = sym (s.represents.content k) ∙ e in
        rw (e, here, used_hit k w l here, get)
          (
            refl,
            record {
              represents = hit-Represents text_discrete c.recency c.entries l s.represents k w e;
              bounded = length-touch w w here;
              positive = s.positive;
            },
            omega arith,
          )
  ]
