-- ===== src/Engine/StaticBatchPolicy.antt =====
-- `StaticBatchPolicy`: cpp/include/infersched/engine/static_batch_policy.hpp and
-- cpp/src/static_batch_policy.cpp. Times are counted from the start of `FakeClock`. An index into
-- `pending` is held with the request that stands there.
pub mod Admission
mod Tests
use Prim.Native.Nat.{Ordering}
use Prim.Native.String.{compare as compare_text}
use infer_sched_distributed.Base.{
  ℕ, suc, ◌+◌, ◌-◌, Bool, true, false, not, ◌||◌, List, [], ◌∷◌, ◌++◌, String, Result, ok,
  invalid_argument, min, map, length, ltb, ◌==◌, if◌then◌else◌,
}

pub record PendingRequest : Type 0 where
  pub request_id : String
  pub prompt_tokens : ℕ
  pub max_output_tokens : ℕ
  pub priority : ℕ
  pub arrival_time : ℕ

pub record StaticBatchPolicy : Type 0 where
  pub max_batch_sequences : ℕ
  pub max_batch_tokens : ℕ

unfoldable pub init : ℕ → ℕ → Result StaticBatchPolicy
init max_batch_sequences max_batch_tokens =
    if max_batch_sequences == 0 || max_batch_tokens == 0
    then invalid_argument "static batch limits must be positive"
    else ok
        (record { max_batch_sequences = max_batch_sequences; max_batch_tokens = max_batch_tokens })

-- `<` of `std::string`s.
unfoldable pub text_before : String → String → Bool
text_before a b = elim (compare_text a b) [ Ordering.lt ↦ true | _ ↦ false ]

-- The comparison that sorts.
unfoldable pub earlier : ℕ → PendingRequest → PendingRequest → Bool
earlier now lhs rhs =
    if not (min lhs.arrival_time now == min rhs.arrival_time now)
    then ltb (min lhs.arrival_time now) (min rhs.arrival_time now)
    else text_before lhs.request_id rhs.request_id

-- `std::iota`.
unfoldable pub indexed : ℕ → List PendingRequest → List (ℕ × PendingRequest)
indexed i [] = []
indexed i (p ∷ ps) = (i, p) ∷ indexed (suc i) ps

-- `std::stable_sort`, by insertion: an entry goes before the first that is not earlier than it.
unfoldable pub insert_stable :
    ℕ → ℕ × PendingRequest → List (ℕ × PendingRequest) → List (ℕ × PendingRequest)
insert_stable now e [] = e ∷ []
insert_stable now e (f ∷ fs) =
    let rest = insert_stable now e fs in if earlier now f.1 e.1 then f ∷ rest else e ∷ f ∷ fs

unfoldable pub sort_stable : ℕ → List (ℕ × PendingRequest) → List (ℕ × PendingRequest)
sort_stable now [] = []
sort_stable now (e ∷ es) = insert_stable now e (sort_stable now es)

-- The variables of the loop; `stopped` once it has met its `break`.
pub record Selection : Type 0 where
  pub selected : List (ℕ × PendingRequest)
  pub token_count : ℕ
  pub stopped : Bool

abbrev pub request_tokens : PendingRequest → ℕ
request_tokens p = p.prompt_tokens + p.max_output_tokens

-- More tokens than any batch may have.
unfoldable pub oversized : StaticBatchPolicy → PendingRequest → Bool
oversized policy p =
    ltb policy.max_batch_tokens p.max_output_tokens
    || ltb (policy.max_batch_tokens - p.max_output_tokens) p.prompt_tokens

-- The body of the loop.
unfoldable pub consider : StaticBatchPolicy → ℕ → Selection → ℕ × PendingRequest → Selection
consider policy now s e =
    if s.stopped
    then s
    else if ltb now e.1.arrival_time
    then s
    else if oversized policy e.1
    then s
    else if length s.selected == policy.max_batch_sequences
    then record s { stopped = true }
    else if ltb (policy.max_batch_tokens - s.token_count) (request_tokens e.1)
    then s
    else record s {
      selected = s.selected ++ e ∷ [];
      token_count = s.token_count + request_tokens e.1;
    }

unfoldable pub consider_all :
    StaticBatchPolicy → ℕ → Selection → List (ℕ × PendingRequest) → Selection
consider_all policy now s [] = s
consider_all policy now s (e ∷ es) = consider_all policy now (consider policy now s e) es

unfoldable pub selection : StaticBatchPolicy → List PendingRequest → ℕ → Selection
selection policy pending now =
    consider_all policy now (record { selected = []; token_count = 0; stopped = false })
      (sort_stable now (indexed 0 pending))

unfoldable pub select : StaticBatchPolicy → List PendingRequest → ℕ → List ℕ
select policy pending now = map (λ e. e.0) (selection policy pending now).selected
