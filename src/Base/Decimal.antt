-- ===== src/Base/Decimal.antt =====
-- `std::to_string` of an unsigned number.
use Prim.Native.Nat.{ℕ, zero, suc, ◌/◌, ◌%◌}
use Prim.Native.String.{String, ◌++◌ as concat}
use infer_sched_distributed.Base.Tests.{ltb, ◌==◌, if◌then◌else◌}

digit : ℕ → String
digit d =
    if d == 0
    then "0"
    else if d == 1
    then "1"
    else if d == 2
    then "2"
    else if d == 3
    then "3"
    else if d == 4
    then "4"
    else if d == 5
    then "5"
    else if d == 6
    then "6"
    else if d == 7
    then "7"
    else if d == 8
    then "8"
    else "9"

-- The digits of `n` before `tail`; a number has fewer digits than `n + 1`.
digits_before : ℕ → ℕ → String → String
unfolding digit
digits_before zero n tail = tail
digits_before (suc fuel) n tail =
    let more = digits_before fuel (n / 10) (concat (digit (n % 10)) tail) in
    if ltb n 10 then concat (digit n) tail else more

unfoldable pub to_string : ℕ → String
unfolding digits_before
to_string n = digits_before (suc n) n ""
