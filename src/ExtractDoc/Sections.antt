-- ===== src/ExtractDoc/Sections.antt =====
-- The sections of a text that is put together from an introduction and headed sections.
use go_component.Prelude.{ℕ, ◌≡◌, refl, ap, ◌∙◌, Bool, true, not, ◌&&◌, List, [], ◌∷◌, ◌++◌, arith}
use go_component.Help.{Bytes}
use go_component.ExtractDoc.{is_heading, sections}

-- No heading starts in the text.
abbrev pub headless : Bytes → Bool
headless [] = true
headless (c ∷ s) = not (is_heading (c ∷ s)) && headless s

-- The introduction, then each section under a heading.
abbrev pub headed : Bytes → List Bytes → Bytes
headed intro [] = intro
headed intro (s ∷ ss) = intro ++ 10 ∷ 35 ∷ 32 ∷ headed s ss

abbrev pub all_headless : List Bytes → Bool
all_headless [] = true
all_headless (s ∷ ss) = headless s && all_headless ss

is_heading-append : (c : ℕ) (s rest : Bytes) → is_heading (c ∷ s ++ 10 ∷ rest) ≡ is_heading (c ∷ s)
is_heading-append c [] [] = refl
is_heading-append c [] (e ∷ rest) = ground arith
is_heading-append c (d ∷ []) rest = ground arith
is_heading-append c (d ∷ e ∷ s) rest = refl

sections-headless : (s : Bytes) → headless s ≡ true → sections 0 s ≡ s ∷ []
unfolding sections
sections-headless [] free = refl
sections-headless (c ∷ s) free = rw (sections-headless s (ground arith)) (ground arith)

sections-append :
    (s rest : Bytes)
    → headless s ≡ true
    → sections 0 (s ++ 10 ∷ 35 ∷ 32 ∷ rest) ≡ s ∷ sections 0 rest
unfolding sections
sections-append [] rest free = refl
sections-append (c ∷ s) rest free =
    rw (is_heading-append c s (35 ∷ 32 ∷ rest), sections-append s rest (ground arith))
      (ground arith)

-- Splitting gives the introduction and the sections back.
pub sections-headed :
    (intro : Bytes) (ss : List Bytes)
    → all_headless (intro ∷ ss) ≡ true
    → sections 0 (headed intro ss) ≡ intro ∷ ss
sections-headed intro [] free = sections-headless intro (ground arith)
sections-headed intro (s ∷ ss) free =
    sections-append intro (headed s ss) (ground arith)
    ∙ ap (λ l. intro ∷ l) (sections-headed s ss (ground arith))
