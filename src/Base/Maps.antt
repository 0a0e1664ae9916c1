-- ===== src/Base/Maps.antt =====
-- Dictionaries as association lists: `std::unordered_map` with `find`, `erase`, `emplace` and
-- `insert_or_assign`. The keys of a map are distinct, which `Unique` states.
use Prim.Native.Nat.{◌+◌, ◌≤◌}
use mathlib.Core.Path.{◌≡◌, refl, sym, subst}
use mathlib.Core.Logic.{◌≢◌, ite, if_pos, if_neg}
use mathlib.Core.List.{List, [], ◌∷◌}
use mathlib.Core.Bool.{true}
use mathlib.Core.Option.{Option, none, some}
use native.Mathlib.Omega.{arith}
use infer_sched_distributed.Base.Tests.{is_some, if◌then◌else◌}
use infer_sched_distributed.Base.Lists.{length, All}

module _ {ℓ} {K V : Type ℓ} (dec : Discrete K) where
  unfoldable pub lookup : K → List (K × V) → Option V
  lookup k [] = none
  lookup k ((j, v) ∷ m) = ite (dec j k) (some v) (lookup k m)

  unfoldable pub erase : K → List (K × V) → List (K × V)
  erase k [] = []
  erase k ((j, v) ∷ m) = ite (dec j k) m ((j, v) ∷ erase k m)

  unfoldable pub insert_or_assign : K → V → List (K × V) → List (K × V)
  insert_or_assign k v [] = (k, v) ∷ []
  insert_or_assign k v ((j, w) ∷ m) = ite (dec j k) ((k, v) ∷ m) ((j, w) ∷ insert_or_assign k v m)

  abbrev pub Unique : List (K × V) → Type ℓ
  Unique [] = Unit
  Unique (e ∷ m) = (lookup e.0 m ≡ none) × Unique m

  pub lookup-insert_or_assign :
      (k q : K) (v : V) (m : List (K × V))
      → lookup q (insert_or_assign k v m) ≡ ite (dec k q) (some v) (lookup q m)
  unfolding lookup insert_or_assign
  lookup-insert_or_assign k q v [] = refl
  lookup-insert_or_assign k q v ((j, w) ∷ m) = ground (arith, lookup-insert_or_assign k q v m)

  pub lookup-erase_ne : (k q : K) (m : List (K × V)) → k ≢ q → lookup q (erase k m) ≡ lookup q m
  unfolding lookup erase
  lookup-erase_ne k q [] h = refl
  lookup-erase_ne k q ((j, w) ∷ m) h = ground (arith, lookup-erase_ne k q m)

  pub lookup-erase_self : (k : K) (m : List (K × V)) → Unique m → lookup k (erase k m) ≡ none
  unfolding lookup erase
  lookup-erase_self k [] u = refl
  lookup-erase_self k ((j, w) ∷ m) u = ground (arith, lookup-erase_self k m u.1)

  pub lookup-erase-none :
      (k q : K) (m : List (K × V)) → lookup q m ≡ none → lookup q (erase k m) ≡ none
  unfolding lookup erase
  lookup-erase-none k q [] h = refl
  lookup-erase-none k q ((j, w) ∷ m) h = ground (arith, lookup-erase-none k q m)

  pub erase-Unique : (k : K) (m : List (K × V)) → Unique m → Unique (erase k m)
  unfolding erase
  erase-Unique k [] u = tt
  erase-Unique k ((j, w) ∷ m) u = ground (arith, erase-Unique k m u.1, lookup-erase-none k j m)

  pub length-erase :
      (k : K) (m : List (K × V)) (v : V) → lookup k m ≡ some v → length (erase k m) + 1 ≡ length m
  unfolding lookup erase
  length-erase k [] v h = absurd (ground arith)
  length-erase k ((j, w) ∷ m) v h = ground (arith, length-erase k m v)

  -- What holds of every entry holds of the one that is found, and is kept.
  pub erase-Each {κ} : (P : K × V → Type κ) (k : K) (m : List (K × V)) → All P m → All P (erase k m)
  unfolding erase
  erase-Each P k [] a = tt
  erase-Each P k ((j, w) ∷ m) a = elim (dec j k) [
    | yes p ↦ rw (if_pos _ p) a.1
    | no n ↦ rw (if_neg _ n) (a.0, erase-Each P k m a.1)
  ]

  pub insert_or_assign-Each {κ} :
      (P : K × V → Type κ) (k : K) (v : V) (m : List (K × V))
      → P (k, v)
      → All P m
      → All P (insert_or_assign k v m)
  unfolding insert_or_assign
  insert_or_assign-Each P k v [] h a = (h, tt)
  insert_or_assign-Each P k v ((j, w) ∷ m) h a = elim (dec j k) [
    | yes p ↦ rw (if_pos _ p) (h, a.1)
    | no n ↦ rw (if_neg _ n) (a.0, insert_or_assign-Each P k v m h a.1)
  ]

  pub lookup-Each {κ} :
      (P : K × V → Type κ) (k : K) (v : V) (m : List (K × V))
      → lookup k m ≡ some v
      → All P m
      → P (k, v)
  unfolding lookup
  lookup-Each P k v [] h a = absurd (ground arith)
  lookup-Each P k v ((j, w) ∷ m) h a = elim (dec j k) [
    | yes p ↦ let e : w ≡ v = ground arith in subst (λ x. P (k, x)) e (subst (λ x. P (x, w)) p a.0)
    | no n ↦ lookup-Each P k v m (ground arith) a.1
  ]

  -- The same of the values alone.
  pub lookup-All {κ} :
      (P : V → Type κ) (k : K) (v : V) (m : List (K × V))
      → lookup k m ≡ some v
      → All (λ e. P e.1) m
      → P v
  lookup-All P = lookup-Each (λ e. P e.1)

  pub erase-All {κ} :
      (P : V → Type κ) (k : K) (m : List (K × V))
      → All (λ e. P e.1) m
      → All (λ e. P e.1) (erase k m)
  erase-All P = erase-Each (λ e. P e.1)

  pub insert_or_assign-All {κ} :
      (P : V → Type κ) (k : K) (v : V) (m : List (K × V))
      → P v
      → All (λ e. P e.1) m
      → All (λ e. P e.1) (insert_or_assign k v m)
  insert_or_assign-All P = insert_or_assign-Each (λ e. P e.1)

  pub insert_or_assign-Unique :
      (k : K) (v : V) (m : List (K × V)) → Unique m → Unique (insert_or_assign k v m)
  unfolding insert_or_assign lookup
  insert_or_assign-Unique k v [] u = (refl, tt)
  insert_or_assign-Unique k v ((j, w) ∷ m) u =
      ground (arith, insert_or_assign-Unique k v m u.1, lookup-insert_or_assign k j v m)

  pub length-insert_or_assign :
      (k : K) (v : V) (m : List (K × V))
      → length (insert_or_assign k v m) ≡ (if is_some (lookup k m) then length m else length m + 1)
  unfolding insert_or_assign lookup
  length-insert_or_assign k v [] = ground arith
  length-insert_or_assign k v ((j, w) ∷ m) = ground (arith, length-insert_or_assign k v m)

  pub length-erase-le : (k : K) (m : List (K × V)) → length (erase k m) ≤ length m
  unfolding erase
  length-erase-le k [] = omega arith
  length-erase-le k ((j, w) ∷ m) = ground (arith, length-erase-le k m)

  pub length-erase_some :
      (k : K) (m : List (K × V)) → is_some (lookup k m) ≡ true → length (erase k m) + 1 ≡ length m
  unfolding lookup erase
  length-erase_some k [] h = absurd (ground arith)
  length-erase_some k ((j, w) ∷ m) h = ground (arith, length-erase_some k m)

  pub erase_absent : (k : K) (m : List (K × V)) → lookup k m ≡ none → erase k m ≡ m
  unfolding lookup erase
  erase_absent k [] h = refl
  erase_absent k ((j, w) ∷ m) h = ground (arith, erase_absent k m)

  pub lookup-insert_or_assign_self :
      (k : K) (v : V) (m : List (K × V)) → lookup k (insert_or_assign k v m) ≡ some v
  lookup-insert_or_assign_self k v m =
      subst (λ o. o ≡ some v) (sym (lookup-insert_or_assign k k v m)) (if_pos (dec k k) refl _ _)

  pub lookup-insert_or_assign_ne :
      (k q : K) (v : V) (m : List (K × V)) → k ≢ q → lookup q (insert_or_assign k v m) ≡ lookup q m
  lookup-insert_or_assign_ne k q v m h =
      subst (λ o. o ≡ lookup q m) (sym (lookup-insert_or_assign k q v m)) (if_neg (dec k q) h _ _)
