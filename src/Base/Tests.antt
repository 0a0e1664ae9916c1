-- ===== src/Base/Tests.antt =====
-- Boolean tests on the native numbers, the conditional, machine words, and equality of texts.
use Prim.Native.Nat.{ℕ, ◌^◌, compare, Ordering}
use Prim.Native.String.{String}
use mathlib.Core.Path.{◌≡◌, refl}
use mathlib.Core.Logic.{◌↔◌, ◌⊎◌, inl, inr, ite}
use mathlib.Core.Bool.{Bool, true, false}
use mathlib.Core.Option.{Option, none, some}
use native.Mathlib.Omega.{arith}
use text.Mathlib.Text.{◌==◌ as str_eq}
use text.Mathlib.TextEquality.{eq_iff}

-- These compute to `compare`, which `ground` and `grind` read with no lemma listed.
abbrev pub ltb : ℕ → ℕ → Bool
ltb a b = elim (compare a b) [ Ordering.lt ↦ true | _ ↦ false ]

abbrev pub leb : ℕ → ℕ → Bool
leb a b = elim (compare a b) [ Ordering.gt ↦ false | _ ↦ true ]

infix 50 ◌==◌
abbrev pub ◌==◌ : ℕ → ℕ → Bool
a == b = elim (compare a b) [ Ordering.eq ↦ true | _ ↦ false ]

infix 1 if◌then◌else◌
abbrev pub if◌then◌else◌ {ℓ} : {A : Type ℓ} → Bool → A → A → A
if true then x else y = x
if false then x else y = y

-- To split on a computed value and keep the equation.
pub Bool-cases : (b : Bool) → (b ≡ true) ⊎ (b ≡ false)
Bool-cases true = inl refl
Bool-cases false = inr refl

pub Option-cases {ℓ} : {A : Type ℓ} (o : Option A) → (o ≡ none) ⊎ ((a : A) × (o ≡ some a))
Option-cases none = inl refl
Option-cases (some a) = inr (a, refl)

abbrev pub is_some {ℓ} : {A : Type ℓ} → Option A → Bool
is_some none = false
is_some (some a) = true

-- The moduli of `std::uint32_t` and of `std::size_t`, `std::uint64_t`.
abbrev pub u32_mod : ℕ
u32_mod = 2 ^ 32

abbrev pub u64_mod : ℕ
u64_mod = 2 ^ 64

decide_text : (a b : String) (t : Bool) → ((t ≡ true) ↔ (a ≡ b)) → Dec (a ≡ b)
decide_text a b true h = yes (h.0 refl)
decide_text a b false h = no (λ e. absurd (ground (arith, h.1 e)))

-- Equality of `std::string`s, as a decision.
unfoldable pub text_discrete : Discrete String
unfolding decide_text
text_discrete a b = decide_text a b (str_eq a b) (eq_iff a b)

-- `==` of `std::string`s.
abbrev pub same_text : String → String → Bool
same_text a b = elim (text_discrete a b) [ yes _ ↦ true | no _ ↦ false ]

pub same_text_iff : (a b : String) → (same_text a b ≡ true) ↔ (a ≡ b)
same_text_iff a b = (ground arith, λ h. ground arith)

-- To prove something of a conditional, prove it of both branches.
pub if_elim {ℓ κ} :
    {A : Type ℓ} (P : A → Type κ) (b : Bool) {x y : A}
    → (b ≡ true → P x)
    → (b ≡ false → P y)
    → P (if b then x else y)
if_elim P true h k = h refl
if_elim P false h k = k refl

-- Likewise for a decision.
pub ite_elim {ℓ κ ι} :
    {A : Type ℓ} {Q : Type ι} (P : A → Type κ) (d : Dec Q) {x y : A}
    → (Q → P x)
    → ((Q → ⊥) → P y)
    → P (ite d x y)
ite_elim P (yes q) h k = h q
ite_elim P (no n) h k = k n
