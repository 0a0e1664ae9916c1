-- ===== src/Base/Results.antt =====
-- The result of a constructor or a function that may throw: `std::invalid_argument` with its text.
use Prim.Native.String.{String}

pub data Result {ℓ} (A : Type ℓ) : Type ℓ where
  ok : A → Result A
  invalid_argument : String → Result A
