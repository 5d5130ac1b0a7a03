-- ===== src/Common/Decimal.antt =====
-- Go's `strconv.Atoi` and `strconv.Itoa`.
pub mod Printed
use Prim.Native.Nat.{ℕ, zero, suc, ◌+◌, ◌-◌, ◌*◌, ◌/◌, ◌%◌}
use mathlib.Core.Bool.{Bool, ◌&&◌}
use mathlib.Core.Option.{Option, none, some}
use mathlib.Core.List.{[], ◌∷◌, ◌++◌}
use logdoc.Common.Tests.{leb, ltb, ◌==◌, if◌then◌else◌}
use logdoc.Common.Int.{ℤ, pos, negsuc, max_int64}
use logdoc.Common.Text.{Text}

abbrev pub is_digit : ℕ → Bool
is_digit c = leb b'0' c && leb c b'9'

-- The value of a run of digits behind the value of those before it.
unfoldable pub digits_value : ℕ → Text → Option ℕ
digits_value n [] = some n
digits_value n (c ∷ s) =
    let rest = digits_value (n * 10 + (c - b'0')) s in if is_digit c then rest else none

-- At least one digit.
unfoldable pub unsigned_value : Text → Option ℕ
unfolding digits_value
unsigned_value [] = none
unsigned_value (c ∷ s) = digits_value 0 (c ∷ s)

abbrev pub positive_int : Option ℕ → Option ℤ
positive_int none = none
positive_int (some n) = if leb n max_int64 then some (pos n) else none

abbrev negative_int : Option ℕ → Option ℤ
negative_int none = none
negative_int (some zero) = some (pos 0)
negative_int (some (suc n)) = if leb n max_int64 then some (negsuc n) else none

-- An optional sign, then digits, in the range of a 64-bit integer; none is an error.
unfoldable pub atoi : Text → Option ℤ
unfolding unsigned_value
atoi [] = none
atoi (c ∷ s) =
    if c == b'-'
    then negative_int (unsigned_value s)
    else if c == b'+'
    then positive_int (unsigned_value s)
    else positive_int (unsigned_value (c ∷ s))

-- The decimal digits of a number, on fuel: a division by 10 makes a positive number smaller.
unfoldable pub digits : ℕ → ℕ → Text
digits zero n = (b'0' + n % 10) ∷ []
digits (suc fuel) n =
    let rest = digits fuel (n / 10) in
    if ltb n 10 then (b'0' + n) ∷ [] else rest ++ ((b'0' + n % 10) ∷ [])

-- strconv.Itoa of a number that is not negative
unfoldable pub itoa : ℕ → Text
itoa n = digits n n
