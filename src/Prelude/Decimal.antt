-- ===== src/Prelude/Decimal.antt =====
-- `strconv.ParseInt(s, 10, 64)`.
use Prim.Native.Char.{Char, code}
use Prim.Native.Nat.{ℕ, zero, suc, ◌+◌, ◌-◌, ◌*◌, ◌^◌}
use Prim.Native.String.{String, [], ◌∷◌}
use mathlib.Core.Path.{◌≡◌}
use mathlib.Core.Bool.{Bool, ◌&&◌}
use mathlib.Core.Option.{Option, none, some}
use native.Mathlib.Omega.{arith}
use fincart.Prelude.Tests.{ltb, leb, ◌==◌, if◌then◌else◌}
use fincart.Prelude.Int.{ℤ, pos, negsuc, IsInt64}

unfoldable pub is_digit : Char → Bool
is_digit c = leb b'0' (code c) && leb (code c) b'9'

-- The digits read into a number; anything else is a syntax error.
unfoldable pub digits : ℕ → String → Option ℕ
unfolding is_digit
digits n [] = some n
digits n (c ∷ s) =
    let rest = digits (n * 10 + (code c - b'0')) s in if is_digit c then rest else none

-- At least one digit.
unfoldable pub magnitude : String → Option ℕ
unfolding digits
magnitude [] = none
magnitude (c ∷ s) = digits 0 (c ∷ s)

-- -n, for a number that is not 0 or is.
abbrev negated : ℕ → ℤ
negated zero = pos 0
negated (suc n) = negsuc n

-- The range of int64.
unfoldable pub positive : Option ℕ → Option ℤ
positive none = none
positive (some n) = if ltb n (2 ^ 63) then some (pos n) else none

unfoldable pub negative : Option ℕ → Option ℤ
negative none = none
negative (some n) = if leb n (2 ^ 63) then some (negated n) else none

-- A sign, then digits; `none` is any error.
unfoldable pub parse_int : String → Option ℤ
unfolding magnitude positive negative
parse_int [] = none
parse_int (c ∷ s) =
    if code c == b'+'
    then positive (magnitude s)
    else if code c == b'-'
    then negative (magnitude s)
    else positive (magnitude (c ∷ s))

positive-IsInt64 : (o : Option ℕ) (n : ℤ) → positive o ≡ some n → IsInt64 n
unfolding positive
positive-IsInt64 none n h = cc
positive-IsInt64 (some m) n h = ground arith

negative-IsInt64 : (o : Option ℕ) (n : ℤ) → negative o ≡ some n → IsInt64 n
unfolding negative
negative-IsInt64 none n h = cc
negative-IsInt64 (some zero) n h = ground arith
negative-IsInt64 (some (suc m)) n h = ground arith

-- A text that is read is a value of int64.
pub parse_int-IsInt64 : (s : String) (n : ℤ) → parse_int s ≡ some n → IsInt64 n
unfolding parse_int
parse_int-IsInt64 [] n h = cc
parse_int-IsInt64 (c ∷ s) n h = ground (
  arith,
  positive-IsInt64 (magnitude s) n,
  negative-IsInt64 (magnitude s) n,
  positive-IsInt64 (magnitude (c ∷ s)) n,
)
