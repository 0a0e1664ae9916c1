-- ===== src/Durable/OffsetTracker/Commits.antt =====
-- What the offset tracker (offset_tracker.cpp) commits: the first offset that is not complete.
use infer_sched_distributed.Base.{
  ℕ, zero, suc, ◌+◌, ◌≤◌, ◌<◌, ◌≡◌, ◌≢◌, refl, arith, true, false, List, [], ◌∷◌, ltb, ◌==◌, mem,
  length, if_elim, Bool-cases, inl, inr, sym, ◌∙◌,
}
use infer_sched_distributed.Durable.OffsetTracker.{
  OffsetTracker, init, set_insert, set_erase, advance, mark_publish_complete,
}

mem-set_erase : (k x : ℕ) (xs : List ℕ) → k ≢ x → mem k (set_erase x xs) ≡ mem k xs
unfolding set_erase
mem-set_erase k x [] h = refl
mem-set_erase k x (y ∷ ys) h = ground (arith, mem-set_erase k x ys)

length-set_erase : (x : ℕ) (xs : List ℕ) → mem x xs ≡ true → length (set_erase x xs) + 1 ≡ length xs
unfolding set_erase
length-set_erase x [] h = absurd (ground arith)
length-set_erase x (y ∷ ys) h = ground (arith, length-set_erase x ys)

pub mem-set_insert : (k x : ℕ) (xs : List ℕ) → mem k (set_insert x xs) ≡ mem k (x ∷ xs)
mem-set_insert k x xs = ground arith

pub mem-set_erase_imp : (k x : ℕ) (xs : List ℕ) → mem k (set_erase x xs) ≡ true → mem k xs ≡ true
unfolding set_erase
mem-set_erase_imp k x [] h = h
mem-set_erase_imp k x (y ∷ ys) h = ground (arith, mem-set_erase_imp k x ys)

-- The first offset from `start` that is not among the marks.
pub record IsFirstMissing (start : ℕ) (marks : List ℕ) (n : ℕ) : Type 0 where
  pub from_start : start ≤ n
  pub missing : mem n marks ≡ false
  pub covered : (k : ℕ) → start ≤ k → k < n → mem k marks ≡ true

pub IsFirstMissing-unique :
    (start : ℕ) (marks others : List ℕ) (m n : ℕ)
    → ((k : ℕ) → mem k marks ≡ mem k others)
    → IsFirstMissing start marks m
    → IsFirstMissing start others n
    → m ≡ n
IsFirstMissing-unique start marks others m n same f g = omega (arith, below, above)
  where
    below : m < n → ⊥
    below h = absurd (ground (arith, f.missing, same m, g.covered m f.from_start h))

    above : n < m → ⊥
    above h = absurd (ground (arith, g.missing, same n, f.covered n g.from_start h))

-- The loop's answer.
record Advanced (next : ℕ) (completed : List ℕ) (t : OffsetTracker) : Type 0 where
  first : IsFirstMissing next completed t.next_offset
  rest : (k : ℕ) → t.next_offset ≤ k → mem k t.completed ≡ mem k completed

advance-Advanced :
    (fuel next : ℕ) (completed : List ℕ)
    → length completed ≤ fuel
    → Advanced next completed (advance fuel next completed)
unfolding advance
advance-Advanced zero next completed h = record {
  first = record {
    from_start = omega arith;
    missing = nothing completed h;
    covered = λ k a b. absurd (omega (arith, a, b));
  };
  rest = λ k a. refl;
}
  where
    nothing : (c : List ℕ) → length c ≤ 0 → mem next c ≡ false
    nothing [] h = refl
    nothing (x ∷ c) h = absurd (omega (arith, h))
advance-Advanced (suc fuel) next completed h =
    if_elim (Advanced next completed) (mem next completed)
      (λ here. further here (
        advance-Advanced fuel (suc next) (set_erase next completed)
          (omega (arith, length-set_erase next completed here))))
      (λ gone. record {
        first = record {
          from_start = omega arith;
          missing = gone;
          covered = λ k a b. absurd (omega (arith, a, b));
        };
        rest = λ k a. refl;
      })
  where
    further :
        mem next completed ≡ true
        → Advanced
            (suc next)
            (set_erase next completed)
            (advance fuel (suc next) (set_erase next completed))
        → Advanced next completed (advance fuel (suc next) (set_erase next completed))
    further here a =
        let t = advance fuel (suc next) (set_erase next completed) in
        record {
          first = record {
            from_start = omega (arith, a.first.from_start);
            missing =
                sym (
                  mem-set_erase t.next_offset next completed
                    (λ e. omega (arith, e, a.first.from_start)))
                ∙ a.first.missing;
            covered = λ k low high. elim (Bool-cases (k == next)) [
              | inl e ↦ ground (arith, here)
              | inr n ↦
                  sym (mem-set_erase k next completed (λ e. ground (arith, n)))
                  ∙ a.first.covered k (ground (arith, n, low)) high
            ];
          };
          rest = λ k low.
              a.rest k low
              ∙ mem-set_erase k next completed (λ e. omega (arith, e, low, a.first.from_start));
        }

-- The tracker's state after the calls of `marks`, the last one first.
record Tracks (start : ℕ) (marks : List ℕ) (t : OffsetTracker) : Type 0 where
  committed : IsFirstMissing start marks t.next_offset
  pending : (k : ℕ) → t.next_offset ≤ k → mem k t.completed ≡ mem k marks

mark_publish_complete-Tracks :
    (start : ℕ) (marks : List ℕ) (t : OffsetTracker) (offset : ℕ)
    → Tracks start marks t
    → Tracks start (offset ∷ marks) (mark_publish_complete t offset)
unfolding mark_publish_complete
mark_publish_complete-Tracks start marks t offset tracks =
    if_elim (Tracks start (offset ∷ marks)) (ltb offset t.next_offset)
      (λ old. record {
        committed = record {
          from_start = tracks.committed.from_start;
          missing = ground (arith, old, tracks.committed.missing);
          covered = λ k a b. ground (arith, tracks.committed.covered k a b);
        };
        pending = λ k a. ground (arith, a, old, tracks.pending k a);
      })
      (λ new. onwards (
        advance-Advanced (length (set_insert offset t.completed)) t.next_offset
          (set_insert offset t.completed) (omega arith)))
  where
    onwards :
        {u : OffsetTracker}
        → Advanced t.next_offset (set_insert offset t.completed) u
        → Tracks start (offset ∷ marks) u
    onwards {u} a =
        let complete : (k : ℕ)
            → t.next_offset ≤ k
            → mem k (set_insert offset t.completed) ≡ mem k (offset ∷ marks) =
          λ k h. ground (arith, mem-set_insert k offset t.completed, tracks.pending k h) in
        record {
          committed = record {
            from_start = omega (arith, a.first.from_start, tracks.committed.from_start);
            missing = sym (complete u.next_offset a.first.from_start) ∙ a.first.missing;
            covered = λ k low high. elim (Bool-cases (ltb k t.next_offset)) [
              | inl e ↦ ground (arith, tracks.committed.covered k low (ground (arith, e)))
              | inr n ↦
                  sym (complete k (ground (arith, n))) ∙ a.first.covered k (ground (arith, n)) high
            ];
          };
          pending = λ k h. a.rest k h ∙ complete k (omega (arith, h, a.first.from_start));
        }

unfoldable pub run : OffsetTracker → List ℕ → OffsetTracker
run t [] = t
run t (offset ∷ marks) = mark_publish_complete (run t marks) offset

run-Tracks : (start : ℕ) (marks : List ℕ) → Tracks start marks (run (init start) marks)
unfolding run init
run-Tracks start [] = record {
  committed = record {
    from_start = omega arith;
    missing = refl;
    covered = λ k a b. absurd (omega (arith, a, b));
  };
  pending = λ k a. refl;
}
run-Tracks start (offset ∷ marks) =
    mark_publish_complete-Tracks start marks (run (init start) marks) offset
      (run-Tracks start marks)

-- Whatever offsets complete, in whatever order (the last one is the list's first), a tracker that
-- starts at `start` has committed all before the first offset from `start` that is not complete,
-- and no more.
pub run-IsFirstMissing :
    (start : ℕ) (marks : List ℕ) → IsFirstMissing start marks (run (init start) marks).next_offset
run-IsFirstMissing start marks = (run-Tracks start marks).committed

-- Two orders in which the same offsets complete, repeats included, end at the same committed
-- offset.
pub run-reorder :
    (start : ℕ) (marks others : List ℕ)
    → ((k : ℕ) → mem k marks ≡ mem k others)
    → (run (init start) marks).next_offset ≡ (run (init start) others).next_offset
run-reorder start marks others same =
    IsFirstMissing-unique start marks others _ _ same (run-IsFirstMissing start marks)
      (run-IsFirstMissing start others)
