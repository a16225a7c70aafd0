-- ===== src/Prelude/Texts.antt =====
-- Go's strings package, where the code walks characters: Split and Join at one separator, Cut.
use Prim.Native.Char.{Char, char, code}
use Prim.Native.String.{String, ◌++◌ as concat}
use text.Mathlib.TextEquality.{Char-path}
use text.Mathlib.TextLemmas.{nil-append, cons-append}
use mathlib.Core.Path.{◌≡◌, refl, sym, ◌∙◌, ap}
use mathlib.Core.Bool.{Bool, true, false, ◌&&◌, ◌||◌, not}
use mathlib.Core.Option.{Option, none, some}
use mathlib.Core.List.{List, [], ◌∷◌}
use native.Mathlib.Omega.{arith}
use mathlib.Core.Logic.{inl, inr}
use go_component.Prelude.Tests.{Bool-cases, ◌==◌, if◌then◌else◌}

abbrev pub newline : Char
newline = char 10 tt

abbrev pub comma : Char
comma = char 44 tt

abbrev pub dot : Char
dot = char 46 tt

abbrev pub equals_sign : Char
equals_sign = char 61 tt

abbrev pub same_char : Char → Char → Bool
same_char c d = code c == code d

same_char-equal : (c d : Char) → same_char c d ≡ true → c ≡ d
same_char-equal c d h = Char-path c d (ground arith)

abbrev pub cons_first : Char → List String → List String
cons_first c [] = String.◌∷◌ c "" ∷ []
cons_first c (t ∷ ts) = String.◌∷◌ c t ∷ ts

-- strings.Split(s, sep)
unfoldable pub split : Char → String → List String
split sep String.[] = "" ∷ []
split sep (String.◌∷◌ c s) =
    let rest = split sep s in if same_char c sep then "" ∷ rest else cons_first c rest

-- strings.Join(texts, sep)
unfoldable pub join : String → List String → String
join sep [] = ""
join sep (t ∷ []) = t
join sep (t ∷ u ∷ ts) = concat t (concat sep (join sep (u ∷ ts)))

abbrev before_with : Char → Option (String × String) → Option (String × String)
before_with c none = none
before_with c (some (before, after)) = some (String.◌∷◌ c before, after)

-- strings.Cut(s, sep): none if it is not found.
unfoldable pub cut : Char → String → Option (String × String)
cut sep String.[] = none
cut sep (String.◌∷◌ c s) =
    let rest = cut sep s in if same_char c sep then some ("", s) else before_with c rest

unfoldable pub has_char : Char → String → Bool
has_char sep String.[] = false
has_char sep (String.◌∷◌ c s) = same_char c sep || has_char sep s

pub split-cons :
    (sep : Char) (s : String) → (t : String) × (ts : List String) × (split sep s ≡ t ∷ ts)
unfolding split
split-cons sep String.[] = ("", [], refl)
split-cons sep (String.◌∷◌ c s) =
    let (t, ts, e) = split-cons sep s in
    elim (Bool-cases (same_char c sep)) [
      | inl found ↦ ("", split sep s, rw found refl)
      | inr other ↦ (String.◌∷◌ c t, ts, rw (other, e) refl)
    ]

join-cons_first :
    (sep : String) (c : Char) (ts : List String)
    → join sep (cons_first c ts) ≡ String.◌∷◌ c (join sep ts)
unfolding join
join-cons_first sep c [] = refl
join-cons_first sep c (t ∷ []) = refl
join-cons_first sep c (t ∷ u ∷ ts) = cons-append c t (concat sep (join sep (u ∷ ts)))

-- Joining what was split gives the text back.
pub join-split : (sep : Char) (s : String) → join (String.◌∷◌ sep "") (split sep s) ≡ s
unfolding split join
join-split sep String.[] = refl
join-split sep (String.◌∷◌ c s) = elim (Bool-cases (same_char c sep)) [
  | inl found ↦
      let (t, ts, e) = split-cons sep s in
      rw
        (
          found,
          e,
          nil-append,
          cons-append sep "" (join (String.◌∷◌ sep "") (t ∷ ts)),
          nil-append,
          sym e,
          join-split sep s,
        )
        (ap (λ d. String.◌∷◌ d s) (sym (same_char-equal c sep found)))
  | inr other ↦
      rw (other, join-cons_first (String.◌∷◌ sep "") c (split sep s), join-split sep s) refl
]

split-none : (sep : Char) (t : String) → has_char sep t ≡ false → split sep t ≡ t ∷ []
unfolding split has_char
split-none sep String.[] free = refl
split-none sep (String.◌∷◌ c t) free = rw (split-none sep t (ground arith)) (ground arith)

split-append :
    (sep : Char) (t rest : String)
    → has_char sep t ≡ false
    → split sep (concat t (String.◌∷◌ sep rest)) ≡ t ∷ split sep rest
unfolding split has_char
split-append sep String.[] rest free = rw nil-append (ground arith)
split-append sep (String.◌∷◌ c t) rest free =
    rw (cons-append c t (String.◌∷◌ sep rest), split-append sep t rest (ground arith))
      (ground arith)

-- None of the texts has the separator in it.
abbrev pub free_of : Char → List String → Bool
free_of sep [] = true
free_of sep (t ∷ ts) = not (has_char sep t) && free_of sep ts

pub split-join :
    (sep : Char) (t : String) (ts : List String)
    → free_of sep (t ∷ ts) ≡ true
    → split sep (join (String.◌∷◌ sep "") (t ∷ ts)) ≡ t ∷ ts
unfolding join
split-join sep t [] free = split-none sep t (ground arith)
split-join sep t (u ∷ ts) free =
    rw (cons-append sep "" (join (String.◌∷◌ sep "") (u ∷ ts)), nil-append)
      (split-append sep t _ (ground arith) ∙ ap (λ l. t ∷ l) (split-join sep u ts (ground arith)))
