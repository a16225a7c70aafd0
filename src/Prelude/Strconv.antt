-- ===== src/Prelude/Strconv.antt =====
-- Go's strconv package at base 10: ParseBool, ParseUint and ParseInt. The error is `none`.
use Prim.Native.Char.{code}
use Prim.Native.Nat.{ℕ, zero, suc, ◌+◌, ◌-◌, ◌*◌, ◌^◌, ◌≤◌}
use Prim.Native.String.{String}
use mathlib.Core.Path.{◌≡◌}
use mathlib.Core.Bool.{Bool, true, false, ◌&&◌, ◌||◌}
use mathlib.Core.Option.{Option, none, some}
use native.Mathlib.Omega.{arith}
use go_component.Prelude.Tests.{ltb, leb, same, if◌then◌else◌}

-- `negsuc n` is -(n + 1).
pub data ℤ : Type 0 where
  pos negsuc : ℕ → ℤ

unfoldable pub parse_bool : String → Option Bool
parse_bool s =
    if same s "1" || same s "t" || same s "T" || same s "true" || same s "TRUE" || same s "True"
    then some true
    else if same s "0"
        || same s "f"
        || same s "F"
        || same s "false"
        || same s "FALSE"
        || same s "False"
    then some false
    else none

-- The number that the digits give, after those that gave `n`.
unfoldable pub digits_value : ℕ → String → Option ℕ
digits_value n String.[] = some n
digits_value n (String.◌∷◌ c s) =
    let rest = digits_value (n * 10 + (code c - 48)) s in
    if leb 48 (code c) && leb (code c) 57 then rest else none

-- An empty text is no number.
unfoldable pub magnitude : String → Option ℕ
magnitude String.[] = none
magnitude (String.◌∷◌ c s) = digits_value 0 (String.◌∷◌ c s)

below : ℕ → Option ℕ → Option ℕ
below bound none = none
below bound (some n) = if ltb n bound then some n else none

unfoldable pub parse_uint : (bits : ℕ) → String → Option ℕ
unfolding below
parse_uint bits s = below (2 ^ bits) (magnitude s)

abbrev negated : ℕ → ℤ
negated zero = pos 0
negated (suc n) = negsuc n

unfoldable pub positive : ℕ → Option ℕ → Option ℤ
positive bits none = none
positive bits (some n) = if ltb n (2 ^ (bits - 1)) then some (pos n) else none

unfoldable pub negative : ℕ → Option ℕ → Option ℤ
negative bits none = none
negative bits (some n) = if leb n (2 ^ (bits - 1)) then some (negated n) else none

unfoldable pub parse_int : (bits : ℕ) → String → Option ℤ
unfolding positive negative
parse_int bits String.[] = none
parse_int bits (String.◌∷◌ c s) =
    if same (String.◌∷◌ c "") "+"
    then positive bits (magnitude s)
    else if same (String.◌∷◌ c "") "-"
    then negative bits (magnitude s)
    else positive bits (magnitude (String.◌∷◌ c s))

-- What an unsigned, and a signed integer of so many bits can hold.
abbrev pub fits_uint : ℕ → ℕ → Bool
fits_uint bits n = ltb n (2 ^ bits)

abbrev pub fits_int : ℕ → ℤ → Bool
fits_int bits (pos n) = ltb n (2 ^ (bits - 1))
fits_int bits (negsuc n) = leb (suc n) (2 ^ (bits - 1))

pub parse_uint-fits :
    (bits : ℕ) (s : String) (n : ℕ) → parse_uint bits s ≡ some n → fits_uint bits n ≡ true
unfolding parse_uint below
parse_uint-fits bits s n parsed = ground arith

pub pow-pos : (n : ℕ) → 1 ≤ 2 ^ n
pow-pos zero = omega arith
pow-pos (suc n) = omega (arith, pow-pos n)

positive-fits :
    (bits : ℕ) (m : Option ℕ) (z : ℤ) → positive bits m ≡ some z → fits_int bits z ≡ true
unfolding positive
positive-fits bits (some n) z parsed = ground arith
positive-fits bits none z parsed = ground arith

negative-fits :
    (bits : ℕ) (m : Option ℕ) (z : ℤ) → negative bits m ≡ some z → fits_int bits z ≡ true
unfolding negative
negative-fits bits none z parsed = ground arith
negative-fits bits (some zero) z parsed = ground (arith, pow-pos (bits - 1))
negative-fits bits (some (suc n)) z parsed = ground arith

pub parse_int-fits :
    (bits : ℕ) (s : String) (z : ℤ) → parse_int bits s ≡ some z → fits_int bits z ≡ true
unfolding parse_int
parse_int-fits bits String.[] z parsed = ground arith
parse_int-fits bits (String.◌∷◌ c s) z parsed = ground (
  arith,
  positive-fits bits (magnitude s) z,
  negative-fits bits (magnitude s) z,
  positive-fits bits (magnitude (String.◌∷◌ c s)) z,
)
