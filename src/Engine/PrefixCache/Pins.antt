-- ===== src/Engine/PrefixCache/Pins.antt =====
-- The members of the prefix cache (prefix_cache.cpp) keep its entries and its pins the same.
use infer_sched_distributed.Base.{
  ℕ, ◌+◌, ◌<◌, ◌≡◌, ◌≢◌, refl, sym, ap, ◌∙◌, arith, true, false, List, [], ◌∷◌, none, some, String,
  if◌then◌else◌, ite, Bool-cases, Option-cases, inl, inr, ◌==◌, length, lookup, erase,
  text_discrete, length-erase, lookup-erase-none, take,
}
use infer_sched_distributed.Engine.KvCache.{PagedKvCache, pin_prefix, unpin_prefix}
use infer_sched_distributed.Engine.KvCache.Invariant.{IsValid, HasRoom}
use infer_sched_distributed.Engine.KvCache.Preserve.{pin_prefix-IsValid, unpin_prefix-IsValid}
use infer_sched_distributed.Engine.Lru.{back, pop_back, touch}
use infer_sched_distributed.Engine.Lru.Represents.{
  Represents, take-push, hit-Represents, push-Represents, evict-Represents, back-some, back-found,
  length-pop_back_of_pos,
}
use infer_sched_distributed.Engine.PrefixCache.{
  PrefixCache, evict_oldest, splice, push, make_room, put, clear,
}
use infer_sched_distributed.Engine.PrefixCache.Holds.{
  Holds, lookup-erase, lookup-unpin_prefix, lookup-pin_prefix, pin_prefix_refused, add_remove,
  empty_of_back, positive_of_back, unpin_all-IsValid,
}

module _ (c : PrefixCache) (kv : PagedKvCache) (l : List (String × List ℕ)) (s : Holds c kv l) where
  -- A hit moves the entry to the front.
  splice-Holds :
      (k : String) (b : List ℕ)
      → lookup text_discrete k c.entries ≡ some b
      → Holds (splice c k) kv (touch text_discrete k b l)
  unfolding splice
  splice-Holds k b e =
      let here : lookup text_discrete k l ≡ some b = sym (s.represents.content k) ∙ e in
      record {
        represents = hit-Represents text_discrete c.recency c.entries l s.represents k b e;
        bounded = omega (arith, s.bounded, length-erase text_discrete k l b here);
        positive = s.positive;
        pinned = s.pinned;
        valid = s.valid;
      }

  -- The oldest entry, where there is one.
  last_entry :
      0 < length l
      → (q : String) × (back c.recency ≡ some q)
        × ((b : List ℕ) × (lookup text_discrete q c.entries ≡ some b))
  last_entry some_entry =
      let (q, last) = back-some text_discrete l some_entry in
      elim (Option-cases (lookup text_discrete q l)) [
        | inl e ↦ absurd (ground (arith, e, back-found text_discrete q l last))
        | inr (b, e) ↦ (q, ap back s.represents.order ∙ last, (b, s.represents.content q ∙ e))
      ]

  -- A pin that succeeds, with room for its entry.
  pushed :
      (kv' : PagedKvCache) (c' : PrefixCache) (l' : List (String × List ℕ)) (k : String)
      (b : List ℕ)
      → Represents text_discrete c'.recency c'.entries l'
      → lookup text_discrete k c'.entries ≡ none
      → length l' < c'.capacity
      → IsValid kv'
      → ((j : String)
          → lookup text_discrete j kv'.prefix_blocks
            ≡ ite (text_discrete k j) (some b) (lookup text_discrete j c'.entries))
      → Holds (push c' k b) kv' ((k, b) ∷ l')
  unfolding push lookup
  pushed kv' c' l' k b r absent room v pins = record {
    represents = push-Represents text_discrete c'.recency c'.entries l' r k b absent;
    bounded = room;
    positive = omega (arith, room);
    pinned = pins;
    valid = v;
  }

  module _ (k : String) (b : List ℕ) (absent : lookup text_discrete k c.entries ≡ none)
      (took : (pin_prefix kv k b).0 ≡ true) (room : HasRoom kv) where
    -- A full cache gives up its oldest entry and the pin of it.
    put_full :
        length l ≡ c.capacity
        → Holds
            (push (evict_oldest c (pin_prefix kv k b).1).1 k b)
            (evict_oldest c (pin_prefix kv k b).1).2
            ((k, b) ∷ pop_back l)
    unfolding evict_oldest
    put_full full =
        let (q, last, (old, found)) = last_entry (omega (arith, s.positive)) in
        let kv1 = (pin_prefix kv k b).1 in
        let v1 : IsValid kv1 = pin_prefix-IsValid kv k b s.valid room in
        let apart : k ≢ q = λ e.
          absurd (ground (arith, absent, found, ap (λ x. lookup text_discrete x c.entries) e)) in
        rw (last, evict_oldest)
          (pushed (unpin_prefix kv1 q).1
            (record c { entries = erase text_discrete q c.entries; recency = pop_back c.recency })
            (pop_back l) k b
            (evict-Represents text_discrete c.recency c.entries l q s.represents last)
            (lookup-erase-none text_discrete q k c.entries absent)
            (omega (
              arith,
              length-pop_back_of_pos text_discrete l (omega (arith, s.positive)),
              s.bounded,
            ))
            (unpin_prefix-IsValid kv1 q v1)
            (λ j.
              add_remove k q j b _ _ _ _ apart (lookup-unpin_prefix kv1 q j v1)
                (lookup-pin_prefix kv k j b took
                  ∙ ap (λ o. ite (text_discrete k j) (some b) o) (s.pinned j))
                (lookup-erase q j c.entries s.represents.entries_unique)))

    put_room : length l < c.capacity → Holds (push c k b) (pin_prefix kv k b).1 ((k, b) ∷ l)
    put_room fits =
        pushed (pin_prefix kv k b).1 c l k b s.represents absent fits
          (pin_prefix-IsValid kv k b s.valid room)
          (λ j. ground (arith, lookup-pin_prefix kv k j b took, s.pinned j))

    put_new :
        Holds
          (push (make_room c (pin_prefix kv k b).1).0 k b)
          (make_room c (pin_prefix kv k b).1).1
          (take c.capacity ((k, b) ∷ l))
    unfolding make_room
    put_new =
        rw (take-push text_discrete c.capacity (k, b) l s.positive s.bounded, s.represents.size)
          (elim (Bool-cases (length l == c.capacity)) [
            | inl full ↦ rw full (put_full (ground (arith, full)))
            | inr fits ↦ rw fits (put_room (ground (arith, fits, s.bounded)))
          ])

  -- The list after `Put`, most recent first.
  unfoldable pub after_put : String → List ℕ → List (String × List ℕ)
  after_put k b = elim (lookup text_discrete k c.entries) [
    | some old ↦ touch text_discrete k old l
    | none ↦ if (pin_prefix kv k b).0 then take c.capacity ((k, b) ∷ l) else l
  ]

  -- From a cache whose entries are exactly the pinned prefixes of a well-formed paged cache with
  -- room for one more holder, `Put` leads to such a cache again, for the list of entries that
  -- `after_put` gives: a key that is known moves to the front with its old blocks; a new one whose
  -- blocks can be pinned goes to the front, and an entry over the capacity is dropped with its
  -- pin; any other leaves the list as it was.
  pub put-Holds :
      (k : String) (b : List ℕ)
      → HasRoom kv
      → Holds (put c kv k b).1 (put c kv k b).2 (after_put k b)
  unfolding put after_put
  put-Holds k b room = elim (Option-cases (lookup text_discrete k c.entries)) [
    | inr (old, e) ↦ rw (e, put, after_put) (splice-Holds k old e)
    | inl e ↦
        rw (e, put, after_put)
          (elim (Bool-cases (pin_prefix kv k b).0) [
            | inl took ↦ rw took (put_new k b e took room)
            | inr not ↦ rw (not, pin_prefix_refused kv k b not) s
          ])
  ]

  -- From a cache whose entries are exactly the pinned prefixes of a well-formed paged cache,
  -- `EvictOldest` drops the oldest entry with its pin and answers true, or answers false of an
  -- empty cache; the entries are exactly the pins again.
  evict_oldest-Holds :
      Holds (evict_oldest c kv).1 (evict_oldest c kv).2 (pop_back l)
      × ((evict_oldest c kv).0 ≡ true → length (pop_back l) + 1 ≡ length l)
      × ((evict_oldest c kv).0 ≡ false → l ≡ [])
  unfolding evict_oldest
  evict_oldest-Holds = elim (Option-cases (back c.recency)) [
    | inl e ↦
        let none_left : l ≡ [] = empty_of_back l (ap back (sym s.represents.order) ∙ e) in
        rw (e, evict_oldest)
          (
            rw (ap pop_back none_left ∙ sym none_left) s,
            λ h. absurd (ground (arith, h)),
            λ h. none_left,
          )
    | inr (q, e) ↦
        let shorter =
          length-pop_back_of_pos text_discrete l
            (positive_of_back l q (ap back (sym s.represents.order) ∙ e)) in
        rw (e, evict_oldest)
          (
            record {
              represents = evict-Represents text_discrete c.recency c.entries l q s.represents e;
              bounded = omega (arith, shorter, s.bounded);
              positive = s.positive;
              pinned = λ j.
                  lookup-unpin_prefix kv q j s.valid
                  ∙ ap (λ o. ite (text_discrete q j) none o) (s.pinned j)
                  ∙ sym (lookup-erase q j c.entries s.represents.entries_unique);
              valid = unpin_prefix-IsValid kv q s.valid;
            },
            λ h. shorter,
            λ h. absurd (ground (arith, h)),
          )
  ]

  -- From a cache whose entries are exactly the pinned prefixes of a well-formed paged cache,
  -- `Clear` leaves the cache empty and no prefix pinned in the paged cache, which is well-formed.
  clear-Holds : Holds (clear c kv).0 (clear c kv).1 []
  unfolding clear lookup
  clear-Holds =
      let (unpinned, v) =
        unpin_all-IsValid l kv s.valid (λ k absent. s.pinned k ∙ s.represents.content k ∙ absent) in
      record {
        represents = record {
          order = refl;
          content = λ k. refl;
          size = refl;
          entries_unique = tt;
          unique = tt;
        };
        bounded = omega arith;
        positive = s.positive;
        pinned = λ k. rw s.represents.order (unpinned k);
        valid = rw s.represents.order v;
      }
