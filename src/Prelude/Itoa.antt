-- ===== src/Prelude/Itoa.antt =====
-- Go's strconv.Itoa, and that ParseInt reads back what it prints.
use Prim.Native.Char.{Char, code}
use Prim.Native.Nat.{ℕ, suc, ◌+◌, ◌/◌, ◌%◌, ◌<◌}
use Prim.Native.String.{String}
use mathlib.Core.Path.{◌≡◌, refl, ap, ◌∙◌}
use text.Mathlib.TextEquality.{eq_iff}
use mathlib.Core.Bool.{Bool, true, false, ◌&&◌}
use mathlib.Core.Logic.{ite, dite, if_pos}
use mathlib.Core.Option.{some}
use mathlib.Core.WellFounded as WF
use mathlib.Core.WellFounded.{Acc, WellFounded, Acc-prop}
use native.Mathlib.Omega.{arith}
use native.Mathlib.Decide.{dec_lt}
use go_component.Prelude.Tests.{leb, same, ◌==◌, if◌then◌else◌}
use go_component.Prelude.Strconv.{
  ℤ, pos, negsuc, digits_value, magnitude, positive, negative, parse_int, fits_int,
}

digit : ℕ → Char
digit n =
    if n == 0
    then "0"
    else if n == 1
    then "1"
    else if n == 2
    then "2"
    else if n == 3
    then "3"
    else if n == 4
    then "4"
    else if n == 5
    then "5"
    else if n == 6
    then "6"
    else if n == 7
    then "7"
    else if n == 8
    then "8"
    else "9"

-- Every number below a bound is accessible, and so every number is.
pub accessible : (bound m : ℕ) → m < bound → Acc ◌<◌ m
accessible ℕ.zero m below = elim below [ ]
accessible (suc bound) m below = Acc.intro m (λ k smaller. accessible bound k (omega arith))

by_less : WellFounded ◌<◌
unfolding accessible
by_less = record { apply = λ m. accessible (suc m) m (omega arith) }

pub fewer_digits : {n : ℕ} → 0 < n → n / 10 < n
fewer_digits positive_n = omega arith

-- The digits of a number before a text; none for 0.
print_digits : (n : ℕ) → Acc ◌<◌ n → String → String
unfolding digit
print_digits n (Acc.intro _ smaller) out =
    dite (dec_lt 0 n)
      (λ h.
        print_digits (n / 10) (smaller (n / 10) (fewer_digits h)) (String.◌∷◌ (digit (n % 10)) out))
      (λ _. out)

print_nat : ℕ → String
unfolding print_digits by_less dec_lt
print_nat ℕ.zero = "0"
print_nat (suc n) = print_digits (suc n) (by_less.apply (suc n)) ""

unfoldable pub itoa : ℤ → String
unfolding print_nat
itoa (pos n) = print_nat n
itoa (negsuc n) = String.◌∷◌ "-" (print_nat (suc n))

code-digit : (n : ℕ) → n < 10 → code (digit n) ≡ 48 + n
unfolding digit
code-digit ℕ.zero h = refl
code-digit (suc ℕ.zero) h = refl
code-digit (suc (suc ℕ.zero)) h = refl
code-digit (suc (suc (suc ℕ.zero))) h = refl
code-digit (suc (suc (suc (suc ℕ.zero)))) h = refl
code-digit (suc (suc (suc (suc (suc ℕ.zero))))) h = refl
code-digit (suc (suc (suc (suc (suc (suc ℕ.zero)))))) h = refl
code-digit (suc (suc (suc (suc (suc (suc (suc ℕ.zero))))))) h = refl
code-digit (suc (suc (suc (suc (suc (suc (suc (suc ℕ.zero)))))))) h = refl
code-digit (suc (suc (suc (suc (suc (suc (suc (suc (suc ℕ.zero))))))))) h = refl
code-digit (suc (suc (suc (suc (suc (suc (suc (suc (suc (suc n)))))))))) h = absurd (omega arith)

print_digits_step :
    (n : ℕ) (w : Acc ◌<◌ n) (w' : Acc ◌<◌ (n / 10)) (out : String)
    → print_digits n w out
      ≡ ite (dec_lt 0 n) (print_digits (n / 10) w' (String.◌∷◌ (digit (n % 10)) out)) out
unfolding print_digits
print_digits_step n (Acc.intro _ smaller) w' out = λ i.
    dite (dec_lt 0 n)
      (λ h.
        print_digits (n / 10) (Acc-prop (smaller (n / 10) (fewer_digits h)) w' i)
          (String.◌∷◌ (digit (n % 10)) out))
      (λ _. out)

-- Reading the last digit of a number after the digits before it gives the number.
digits_value_last :
    (n : ℕ) (out : String)
    → digits_value (n / 10) (String.◌∷◌ (digit (n % 10)) out) ≡ digits_value n out
unfolding digits_value
digits_value_last n out = ground (arith, code-digit (n % 10))

digits_value-print_digits :
    (n : ℕ) (w : Acc ◌<◌ n) (out : String)
    → digits_value 0 (print_digits n w out) ≡ digits_value n out
digits_value-print_digits n w =
    WF.induction by_less
      {C = λ m.
        (w : Acc ◌<◌ m) (out : String) → digits_value 0 (print_digits m w out) ≡ digits_value m out}
      n
      (λ m ih w out.
        let w' = by_less.apply (m / 10) in
        grind (arith, print_digits_step m w w' out, digits_value_last m out, ih (m / 10)))
      w

abbrev starts_with_digit : String → Bool
starts_with_digit String.[] = false
starts_with_digit (String.◌∷◌ c s) = leb 48 (code c) && leb (code c) 57

starts_with_digit-print_digits :
    (n : ℕ) (w : Acc ◌<◌ n) (out : String)
    → starts_with_digit out ≡ true
    → starts_with_digit (print_digits n w out) ≡ true
starts_with_digit-print_digits n w =
    WF.induction by_less
      {C = λ m.
        (w : Acc ◌<◌ m) (out : String)
        → starts_with_digit out ≡ true
        → starts_with_digit (print_digits m w out) ≡ true}
      n
      (λ m ih w out h.
        let w' = by_less.apply (m / 10) in
        grind (arith, print_digits_step m w w' out, code-digit (m % 10), ih (m / 10)))
      w

starts_with_digit-print_nat : (n : ℕ) → starts_with_digit (print_nat n) ≡ true
unfolding print_nat
starts_with_digit-print_nat ℕ.zero = refl
starts_with_digit-print_nat (suc n) =
    let w' = by_less.apply (suc n / 10) in
    let out = String.◌∷◌ (digit (suc n % 10)) "" in
    let digit_first : starts_with_digit out ≡ true = ground (arith, code-digit (suc n % 10)) in
    rw
      (
        print_digits_step (suc n) (by_less.apply (suc n)) w' "",
        if_pos (dec_lt 0 (suc n)) (omega arith),
      )
      (starts_with_digit-print_digits (suc n / 10) w' out digit_first)

first_code : String → ℕ
first_code String.[] = 0
first_code (String.◌∷◌ c s) = code c

first_code-same : (c : Char) (s : String) → same (String.◌∷◌ c "") s ≡ true → code c ≡ first_code s
unfolding first_code
first_code-same c s h = ap first_code ((eq_iff (String.◌∷◌ c "") s).0 h)

parse_int-unsigned :
    (bits : ℕ) (s : String)
    → starts_with_digit s ≡ true
    → parse_int bits s ≡ positive bits (magnitude s)
unfolding parse_int first_code
parse_int-unsigned bits String.[] h = ground arith
parse_int-unsigned bits (String.◌∷◌ c s) h =
    ground (arith, first_code-same c "+", first_code-same c "-")

magnitude-digits_value : (s : String) → starts_with_digit s ≡ true → magnitude s ≡ digits_value 0 s
unfolding magnitude
magnitude-digits_value String.[] h = ground arith
magnitude-digits_value (String.◌∷◌ c s) h = refl

magnitude-print_nat : (n : ℕ) → magnitude (print_nat n) ≡ some n
unfolding print_nat digits_value magnitude
magnitude-print_nat ℕ.zero = refl
magnitude-print_nat (suc n) =
    magnitude-digits_value (print_nat (suc n)) (starts_with_digit-print_nat (suc n))
    ∙ digits_value-print_digits (suc n) (by_less.apply (suc n)) ""

-- What Itoa prints of an integer that fits into a type, ParseInt reads back at that type.
pub parse_int-itoa : (bits : ℕ) (z : ℤ) → fits_int bits z ≡ true → parse_int bits (itoa z) ≡ some z
unfolding itoa parse_int positive negative
parse_int-itoa bits (pos n) h = ground (
  arith,
  parse_int-unsigned bits (print_nat n) (starts_with_digit-print_nat n),
  magnitude-print_nat n,
)
parse_int-itoa bits (negsuc n) h = ground (arith, magnitude-print_nat (suc n))
