-- ===== src/Help/Shortened.antt =====
-- What shortenParagraph gives.
use go_component.Prelude.{
  ℕ, ◌+◌, ◌-◌, ◌≤◌, ◌≡◌, refl, Bool, true, not, ◌&&◌, some, [], ◌∷◌, ◌++◌, length, ◌==◌, leb, arith,
  length-append, Bool-cases, ◌⊎◌, inl, inr,
}
use go_component.Help.{Bytes, take, single_line, shorten_paragraph}

abbrev pub no_newline : Bytes → Bool
no_newline [] = true
no_newline (c ∷ s) = not (c == 10) && no_newline s

length-single_line : (s : Bytes) → length (single_line s) ≡ length s
unfolding single_line
length-single_line [] = refl
length-single_line (c ∷ s) = omega (arith, length-single_line s)

no_newline-single_line : (s : Bytes) → no_newline (single_line s) ≡ true
unfolding single_line
no_newline-single_line [] = refl
no_newline-single_line (c ∷ s) = ground (arith, no_newline-single_line s)

length-take : (n : ℕ) (s : Bytes) → length (take n s) ≤ n
length-take ℕ.zero s = omega arith
length-take (ℕ.suc n) [] = omega arith
length-take (ℕ.suc n) (c ∷ s) = omega (arith, length-take n s)

no_newline-take :
    (n : ℕ) (s t : Bytes)
    → no_newline s ≡ true
    → no_newline t ≡ true
    → no_newline (take n s ++ t) ≡ true
no_newline-take ℕ.zero s t single tail = tail
no_newline-take (ℕ.suc n) [] t single tail = tail
no_newline-take (ℕ.suc n) (c ∷ s) t single tail = ground (arith, no_newline-take n s t)

-- At a width of 3 bytes or more, shortenParagraph does not panic. It gives a single line of at most
-- that many bytes, which is the text with spaces for newlines if that is short enough.
pub shorten_paragraph_lem :
    (text : Bytes) (width : ℕ)
    → 3 ≤ width
    → (t : Bytes) × (shorten_paragraph text width ≡ some t)
      × (length t ≤ width)
      × (no_newline t ≡ true)
      × ((t ≡ single_line text) ⊎ (width + 1 ≤ length text))
unfolding shorten_paragraph
shorten_paragraph_lem text width wide = elim (Bool-cases (leb (length (single_line text)) width)) [
  | inl short ↦
      (single_line text, rw short refl, ground arith, no_newline-single_line text, inl refl)
  | inr long ↦ (
    take (width - 3) (single_line text) ++ 46 ∷ 46 ∷ 46 ∷ [],
    ground arith,
    omega (
      arith,
      length-append (take (width - 3) (single_line text)) (46 ∷ 46 ∷ 46 ∷ []),
      length-take (width - 3) (single_line text),
    ),
    no_newline-take (width - 3) (single_line text) (46 ∷ 46 ∷ 46 ∷ []) (no_newline-single_line text)
        refl,
    inr (ground (arith, length-single_line text)),
  )
]
