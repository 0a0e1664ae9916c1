-- ===== src/Engine/ContinuousEngine/Victims.antt =====
-- The choice of `SelectVictim` (continuous_engine.cpp).
use infer_sched_distributed.Base.{
  ℕ, suc, ◌+◌, ◌<◌, ◌≡◌, ◌⊎◌, refl, arith, true, false, List, [], ◌∷◌, some, length, get_elem?,
  Bool-cases, inl, inr, All, ltb, ◌==◌, ◌||◌, ◌&&◌,
}
use infer_sched_distributed.Engine.ContinuousEngine.State.{ActiveRequest}
use infer_sched_distributed.Engine.ContinuousEngine.Decoding.{
  remaining, yields_before, victim_from, select_victim,
}

-- `v` stands at `index`, and none of the sequences has a lower priority, or as low a one with more
-- tokens to come.
pub record IsVictim (active : List ActiveRequest) (index : ℕ) : Type 0 where
  pub victim : ActiveRequest
  pub at : get_elem? active index ≡ some victim
  pub lowest : All (λ a. yields_before a victim ≡ false) active

record Chooses (active : List ActiveRequest) (index victim : ℕ) (selected : ActiveRequest) (r : ℕ)
    : Type 0 where
  chosen : ActiveRequest
  lowest : All (λ a. yields_before a chosen ≡ false) active
  not_selected : yields_before selected chosen ≡ false
  place :
      ((r ≡ victim) × (chosen ≡ selected))
      ⊎ ((k : ℕ) × (r ≡ index + k) × (get_elem? active k ≡ some chosen))

-- The order of `SelectVictim` is a strict weak order.
not_before :
    (p q r m n k : ℕ)
    → (ltb p q || (p == q && ltb n m)) ≡ false
    → (ltb q r || (q == r && ltb k n)) ≡ false
    → (ltb p r || (p == r && ltb k m)) ≡ false
not_before p q r m n k h g = ground (arith, h, g)

before_not :
    (p q : ℕ) (m n : ℕ)
    → (ltb p q || (p == q && ltb n m)) ≡ true
    → (ltb q p || (q == p && ltb m n)) ≡ false
before_not p q m n h = ground (arith, h)

stays_lowest :
    (a b c : ActiveRequest)
    → yields_before a b ≡ false
    → yields_before b c ≡ false
    → yields_before a c ≡ false
stays_lowest a b c h g =
    not_before a.request.priority b.request.priority c.request.priority (remaining a) (remaining b)
      (remaining c) h g

victim_from-Chooses :
    (active : List ActiveRequest) (index victim : ℕ) (selected : ActiveRequest)
    → Chooses active index victim selected (victim_from active index victim selected)
unfolding victim_from
victim_from-Chooses [] index victim selected = record {
  chosen = selected;
  lowest = tt;
  not_selected = ground arith;
  place = inl (refl, refl);
}
victim_from-Chooses (a ∷ active) index victim selected =
    elim (Bool-cases (yields_before a selected)) [
      | inl e ↦
          let c = victim_from-Chooses active (suc index) index a in
          rw (e, victim_from)
            (record {
              chosen = c.chosen;
              lowest = (c.not_selected, c.lowest);
              not_selected =
                  stays_lowest selected a c.chosen
                    (before_not a.request.priority selected.request.priority (remaining a)
                      (remaining selected) e)
                    c.not_selected;
              place = elim c.place [
                | inl (here, same) ↦ inr (0, ground (arith, here), ground (arith, same))
                | inr (k, there, found) ↦ inr (suc k, omega (arith, there), found)
              ];
            })
      | inr e ↦
          let c = victim_from-Chooses active (suc index) victim selected in
          rw (e, victim_from)
            (record {
              chosen = c.chosen;
              lowest = (stays_lowest a selected c.chosen e c.not_selected, c.lowest);
              not_selected = c.not_selected;
              place = elim c.place [
                | inl (here, same) ↦ inl (here, same)
                | inr (k, there, found) ↦ inr (suc k, omega (arith, there), found)
              ];
            })
    ]

-- Of the active sequences, where there are any, `SelectVictim` gives the index of one such that
-- no other has a lower priority, or the same priority and more tokens left to generate.
pub select_victim-IsVictim :
    (active : List ActiveRequest) → 0 < length active → IsVictim active (select_victim active)
unfolding select_victim
select_victim-IsVictim [] h = absurd (ground (arith, h))
select_victim-IsVictim (a ∷ active) h =
    let c = victim_from-Chooses active 1 0 a in
    record {
      victim = c.chosen;
      at = elim c.place [
        | inl (here, same) ↦ ground (arith, here, same)
        | inr (k, there, found) ↦ ground (arith, there, found)
      ];
      lowest = (c.not_selected, c.lowest);
    }
