-- ===== src/Engine/Lru/Represents.antt =====
-- When a recency list and a map of entries stand for one list of pairs, and how the moves of the
-- caches keep that (cpp/src/result_cache.cpp, cpp/src/prefix_cache.cpp).
use infer_sched_distributed.Base.{
  ℕ, zero, suc, ◌+◌, ◌≤◌, ◌<◌, ◌≡◌, ◌≢◌, refl, sym, ap, ◌∙◌, arith, List, [], ◌∷◌, none, some, ite,
  take, length, lookup, erase, insert_or_assign, Unique, lookup-insert_or_assign, lookup-erase_ne,
  lookup-erase_self, erase-Unique, insert_or_assign-Unique, length-erase, length-erase_some,
  take_of_length-le, length-insert_or_assign, is_some, true, inl, inr, Bool-cases, if◌then◌else◌,
  ◌==◌,
}
use infer_sched_distributed.Engine.Lru.{back, pop_back, remove_key, move_to_front, keys, touch}

module _ {ℓ} {K V : Type ℓ} (dec : Discrete K) where
  pub record Represents (recency : List K) (entries l : List (K × V)) : Type ℓ where
    pub order : recency ≡ keys l
    pub content : (k : K) → lookup dec k entries ≡ lookup dec k l
    pub size : length entries ≡ length l
    pub entries_unique : Unique dec entries
    pub unique : Unique dec l

  keys-erase : (k : K) (l : List (K × V)) → keys (erase dec k l) ≡ remove_key dec k (keys l)
  unfolding erase remove_key
  keys-erase k [] = refl
  keys-erase k ((j, w) ∷ l) = ground (arith, keys-erase k l)

  -- A touched list has the same lookups but for the touched key.
  pub lookup-touch :
      (k q : K) (v : V) (l : List (K × V))
      → lookup dec q (touch dec k v l) ≡ ite (dec k q) (some v) (lookup dec q l)
  unfolding lookup
  lookup-touch k q v l = ground (arith, lookup-erase_ne dec k q l)

  pub touch-Unique :
      (k : K) (v : V) (l : List (K × V)) → Unique dec l → Unique dec (touch dec k v l)
  touch-Unique k v l u = (lookup-erase_self dec k l u, erase-Unique dec k l u)

  module _ (recency : List K) (entries l : List (K × V)) (r : Represents recency entries l) where
    -- A hit: the key moves to the front.
    pub hit-Represents :
        (k : K) (v : V)
        → lookup dec k entries ≡ some v
        → Represents (move_to_front dec k recency) entries (touch dec k v l)
    hit-Represents k v found =
        let here : lookup dec k l ≡ some v = sym (r.content k) ∙ found in
        record {
          order = ap (◌∷◌ k) (rw r.order (sym (keys-erase k l)));
          content = λ q. elim (dec k q) [
            | yes p ↦ ground (arith, lookup-touch k q v l, r.content q, ap (λ x. lookup dec x l) p)
            | no p ↦ ground (arith, lookup-touch k q v l, r.content q)
          ];
          size = omega (arith, r.size, length-erase dec k l v here);
          entries_unique = r.entries_unique;
          unique = touch-Unique k v l r.unique;
        }

    -- A known key gets a new value: it moves to the front.
    pub assign-Represents :
        (k : K) (old v : V)
        → lookup dec k entries ≡ some old
        → Represents
            (move_to_front dec k recency)
            (insert_or_assign dec k v entries)
            (touch dec k v l)
    assign-Represents k old v found =
        let here : lookup dec k l ≡ some old = sym (r.content k) ∙ found in
        record {
          order = ap (◌∷◌ k) (rw r.order (sym (keys-erase k l)));
          content = λ q.
              ground (
                arith,
                lookup-touch k q v l,
                lookup-insert_or_assign dec k q v entries,
                r.content q,
              );
          size = ground (
            arith,
            r.size,
            length-erase dec k l old here,
            length-insert_or_assign dec k v entries,
          );
          entries_unique = insert_or_assign-Unique dec k v entries r.entries_unique;
          unique = touch-Unique k v l r.unique;
        }

    -- A new key is put in front.
    pub push-Represents :
        (k : K) (v : V)
        → lookup dec k entries ≡ none
        → Represents (k ∷ recency) ((k, v) ∷ entries) ((k, v) ∷ l)
    unfolding lookup
    push-Represents k v absent = record {
      order = ap (◌∷◌ k) r.order;
      content = λ q. ground (arith, r.content q);
      size = omega (arith, r.size);
      entries_unique = (absent, r.entries_unique);
      unique = (sym (r.content k) ∙ absent, r.unique);
    }

  -- Dropping the last pair of a list.
  keys-pop_back : (l : List (K × V)) → keys (pop_back l) ≡ pop_back (keys l)
  keys-pop_back [] = refl
  keys-pop_back (e ∷ []) = refl
  keys-pop_back (e ∷ f ∷ l) = ap (◌∷◌ e.0) (keys-pop_back (f ∷ l))

  length-pop_back : (e : K × V) (l : List (K × V)) → length (pop_back (e ∷ l)) ≡ length l
  length-pop_back e [] = refl
  length-pop_back e (f ∷ l) = ap suc (length-pop_back f l)

  pub back-found :
      (q : K) (l : List (K × V)) → back (keys l) ≡ some q → is_some (lookup dec q l) ≡ true
  unfolding lookup
  back-found q [] h = absurd (ground arith)
  back-found q (e ∷ []) h = ground arith
  back-found q (e ∷ f ∷ l) h = ground (arith, back-found q (f ∷ l) h)

  lookup-cons :
      (r : K) (e : K × V) (l : List (K × V))
      → lookup dec r (e ∷ l) ≡ ite (dec e.0 r) (some e.1) (lookup dec r l)
  unfolding lookup
  lookup-cons r e l = refl

  -- The last key is not the first one, where keys are distinct.
  first-ne-last :
      (q : K) (e : K × V) (l : List (K × V)) → Unique dec (e ∷ l) → back (keys l) ≡ some q → q ≢ e.0
  first-ne-last q e l u h p = ground (arith, u.0, back-found q l h, ap (λ x. lookup dec x l) p)

  lookup-pop_back :
      (q r : K) (l : List (K × V))
      → Unique dec l
      → back (keys l) ≡ some q
      → lookup dec r (pop_back l) ≡ ite (dec q r) none (lookup dec r l)
  lookup-pop_back q r [] u h = absurd (ground arith)
  lookup-pop_back q r (e ∷ []) u h = unfold lookup in ground arith
  lookup-pop_back q r (e ∷ f ∷ l) u h = ground (
    arith,
    lookup-cons r e (pop_back (f ∷ l)),
    lookup-cons r e (f ∷ l),
    first-ne-last q e (f ∷ l) u h,
    lookup-pop_back q r (f ∷ l) u.1 h,
  )

  lookup-pop_back-none :
      (r : K) (l : List (K × V)) → lookup dec r l ≡ none → lookup dec r (pop_back l) ≡ none
  lookup-pop_back-none r [] h = h
  lookup-pop_back-none r (e ∷ []) h = unfold lookup in refl
  lookup-pop_back-none r (e ∷ f ∷ l) h = ground (
    arith,
    lookup-cons r e (pop_back (f ∷ l)),
    lookup-cons r e (f ∷ l),
    lookup-pop_back-none r (f ∷ l),
  )

  pop_back-Unique : (l : List (K × V)) → Unique dec l → Unique dec (pop_back l)
  pop_back-Unique [] u = tt
  pop_back-Unique (e ∷ []) u = tt
  pop_back-Unique (e ∷ f ∷ l) u =
      (lookup-pop_back-none e.0 (f ∷ l) u.0, pop_back-Unique (f ∷ l) u.1)

  -- The least recent key is evicted: it leaves the list and the map.
  pub evict-Represents :
      (recency : List K) (entries l : List (K × V)) (q : K)
      → Represents recency entries l
      → back recency ≡ some q
      → Represents (pop_back recency) (erase dec q entries) (pop_back l)
  evict-Represents recency entries [] q r h = absurd (ground (arith, r.order))
  evict-Represents recency entries (e ∷ l) q r h =
      let last : back (keys (e ∷ l)) ≡ some q = ap back (sym r.order) ∙ h in
      let found = back-found q (e ∷ l) last in
      let missing = lookup-erase_self dec q entries r.entries_unique in
      record {
        order = ap pop_back r.order ∙ sym (keys-pop_back (e ∷ l));
        content = λ x. elim (dec q x) [
          | yes p ↦ ground (
            arith,
            missing,
            ap (λ y. lookup dec y (erase dec q entries)) p,
            lookup-pop_back q x (e ∷ l) r.unique last,
          )
          | no p ↦ ground (
            arith,
            r.content x,
            lookup-erase_ne dec q x entries p,
            lookup-pop_back q x (e ∷ l) r.unique last,
          )
        ];
        size =
            ground
              (arith, r.size, r.content q, length-pop_back e l, length-erase_some dec q entries);
        entries_unique = erase-Unique dec q entries r.entries_unique;
        unique = pop_back-Unique (e ∷ l) r.unique;
      }

  take-pop_back : (n : ℕ) (l : List (K × V)) → length l ≡ suc n → take n l ≡ pop_back l
  take-pop_back zero (e ∷ []) h = refl
  take-pop_back (suc n) (e ∷ f ∷ l) h = ap (◌∷◌ e) (take-pop_back n (f ∷ l) (omega arith))
  take-pop_back n l h = absurd (omega arith)

  -- A bounded insertion of a new key drops the last pair exactly if the list is full.
  pub take-push :
      (capacity : ℕ) (e : K × V) (l : List (K × V))
      → 0 < capacity
      → length l ≤ capacity
      → take capacity (e ∷ l) ≡ (if length l == capacity then e ∷ pop_back l else e ∷ l)
  take-push zero e l pos fits = absurd (omega arith)
  take-push (suc n) e l pos fits = elim (Bool-cases (length l == suc n)) [
    | inl full ↦ rw full (ap (◌∷◌ e) (take-pop_back n l (ground arith)))
    | inr room ↦ rw room (ap (◌∷◌ e) (take_of_length-le n l (ground arith)))
  ]

  -- A list of pairs that is not empty has a last key.
  pub back-some : (l : List (K × V)) → 0 < length l → (q : K) × (back (keys l) ≡ some q)
  back-some [] h = absurd (omega arith)
  back-some (e ∷ []) h = (e.0, refl)
  back-some (e ∷ f ∷ l) h = back-some (f ∷ l) (omega arith)

  pub length-pop_back_of_pos :
      (l : List (K × V)) → 0 < length l → length (pop_back l) + 1 ≡ length l
  length-pop_back_of_pos [] h = absurd (omega arith)
  length-pop_back_of_pos (e ∷ l) h = omega (arith, length-pop_back e l)
