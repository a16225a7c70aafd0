-- ===== src/Help/Filled.antt =====
-- How long the lines of a filled text are, and what it says.
use go_component.Prelude.{
  ℕ, ◌+◌, ◌≤◌, ◌≡◌, refl, sym, ap, ◌∙◌, true, ◌&&◌, some, List, [], ◌∷◌, ◌++◌, map, ◌==◌, arith,
  append-nil, Bool-cases, inl, inr,
}
use go_component.Help.{
  Bytes, is_space, end_word, fields, fill_words, fill_paragraph, cons_first, paragraphs,
  join_paragraphs, cons_filled, fill_all, fill_paragraphs,
}
use go_component.Help.Words.{
  fields-all_words, fields-fill_words, lines_within, lines_within-fill_words, greater, longest,
  all_within-longest,
}

abbrev all_fields : List Bytes → List Bytes
all_fields [] = []
all_fields (p ∷ ps) = fields [] p ++ all_fields ps

end_word-append : (w : Bytes) (u v : List Bytes) → end_word w (u ++ v) ≡ end_word w u ++ v
end_word-append [] u v = refl
end_word-append (c ∷ w) u v = refl

-- A newline ends a word.
fields-newline : (w s t : Bytes) → fields w (s ++ 10 ∷ t) ≡ fields w s ++ fields [] t
unfolding fields
fields-newline w [] t = end_word-append w [] (fields [] t)
fields-newline w (c ∷ s) t = elim (Bool-cases (is_space c)) [
  | inl space ↦ rw (space, fields-newline [] s t) (end_word-append w (fields [] s) (fields [] t))
  | inr letter ↦ rw letter (fields-newline (w ++ c ∷ []) s t)
]

fields-join_paragraphs : (ps : List Bytes) → fields [] (join_paragraphs ps) ≡ all_fields ps
unfolding join_paragraphs fields
fields-join_paragraphs [] = refl
fields-join_paragraphs (p ∷ []) = sym (append-nil (fields [] p))
fields-join_paragraphs (p ∷ q ∷ ps) =
    fields-newline [] p (10 ∷ join_paragraphs (q ∷ ps))
    ∙ ap (λ ws. fields [] p ++ ws) (fields-join_paragraphs (q ∷ ps))

join_paragraphs-cons_first :
    (c : ℕ) (ps : List Bytes) → join_paragraphs (cons_first c ps) ≡ c ∷ join_paragraphs ps
unfolding join_paragraphs
join_paragraphs-cons_first c [] = refl
join_paragraphs-cons_first c (p ∷ []) = refl
join_paragraphs-cons_first c (p ∷ q ∷ ps) = refl

cons_first-cons :
    (c : ℕ) (ps : List Bytes) → (q : Bytes) × (qs : List Bytes) × (cons_first c ps ≡ q ∷ qs)
cons_first-cons c [] = (c ∷ [], [], refl)
cons_first-cons c (p ∷ ps) = (c ∷ p, ps, refl)

paragraphs-cons : (s : Bytes) → (p : Bytes) × (ps : List Bytes) × (paragraphs s ≡ p ∷ ps)
unfolding paragraphs
paragraphs-cons [] = ([], [], refl)
paragraphs-cons (c ∷ []) = (c ∷ [], [], refl)
paragraphs-cons (c ∷ d ∷ s) = elim (Bool-cases (c == 10 && d == 10)) [
  | inl ends ↦ ([], paragraphs s, rw ends refl)
  | inr inside ↦ let (q, qs, e) = cons_first-cons c (paragraphs (d ∷ s)) in (q, qs, rw inside e)
]

join_paragraphs-nil :
    (ps : List Bytes)
    → (p : Bytes) × (qs : List Bytes) × (ps ≡ p ∷ qs)
    → join_paragraphs ([] ∷ ps) ≡ 10 ∷ 10 ∷ join_paragraphs ps
unfolding join_paragraphs
join_paragraphs-nil ps (p, qs, e) = rw e refl

join_paragraphs-paragraphs : (s : Bytes) → join_paragraphs (paragraphs s) ≡ s
unfolding paragraphs join_paragraphs
join_paragraphs-paragraphs [] = refl
join_paragraphs-paragraphs (c ∷ []) = refl
join_paragraphs-paragraphs (c ∷ d ∷ s) = elim (Bool-cases (c == 10 && d == 10)) [
  | inl ends ↦ rw ends (
      join_paragraphs-nil (paragraphs s) (paragraphs-cons s)
      ∙ ground (arith, join_paragraphs-paragraphs s))
  | inr inside ↦ rw inside (
      join_paragraphs-cons_first c (paragraphs (d ∷ s))
      ∙ ap (λ t. c ∷ t) (join_paragraphs-paragraphs (d ∷ s)))
]

-- What the loop gives for paragraphs that are not to panic.
abbrev filled : ℕ → List Bytes → List Bytes
filled width = map (λ p. fill_words width 0 (fields [] p))

fill_all-filled :
    (width : ℕ) (ps : List Bytes) → 1 ≤ width → fill_all width ps ≡ some (filled width ps)
unfolding fill_all fill_paragraph cons_filled
fill_all-filled width [] wide = refl
fill_all-filled width (p ∷ ps) wide = rw (fill_all-filled width ps wide) (ground arith)

all_fields-filled : (width : ℕ) (ps : List Bytes) → all_fields (filled width ps) ≡ all_fields ps
all_fields-filled width [] = refl
all_fields-filled width (p ∷ ps) =
    rw
      (
        fields-fill_words width 0 (fields [] p) (fields-all_words [] p refl),
        all_fields-filled width ps,
      )
      refl

lines_within-newline :
    (bound line : ℕ) (s t : Bytes)
    → lines_within bound line s ≡ true
    → lines_within bound 0 t ≡ true
    → lines_within bound line (s ++ 10 ∷ t) ≡ true
lines_within-newline bound line [] t first rest = ground arith
lines_within-newline bound line (c ∷ s) t first rest =
    ground (arith, lines_within-newline bound 0 s t, lines_within-newline bound (line + 1) s t)

longest-append :
    (bound : ℕ) (u v : List Bytes)
    → longest (u ++ v) ≤ bound
    → (longest u ≤ bound) × (longest v ≤ bound)
longest-append bound [] v short = (ground arith, short)
longest-append bound (w ∷ u) v short = ground (arith, longest-append bound u v)

lines_within-paragraph :
    (width bound : ℕ) (p : Bytes)
    → width ≤ bound
    → longest (fields [] p) ≤ bound
    → lines_within (bound + 1) 0 (fill_words width 0 (fields [] p)) ≡ true
lines_within-paragraph width bound p wide short =
    lines_within-fill_words width bound 0 (fields [] p) (fields-all_words [] p refl)
      (all_within-longest bound (fields [] p) short) wide (ground arith)

lines_within-filled :
    (width bound : ℕ) (ps : List Bytes)
    → width ≤ bound
    → longest (all_fields ps) ≤ bound
    → lines_within (bound + 1) 0 (join_paragraphs (filled width ps)) ≡ true
unfolding join_paragraphs
lines_within-filled width bound [] wide short = ground arith
lines_within-filled width bound (p ∷ []) wide short =
    let (first, rest) = longest-append bound (fields [] p) [] short in
    lines_within-paragraph width bound p wide first
lines_within-filled width bound (p ∷ q ∷ ps) wide short =
    let (first, rest) = longest-append bound (fields [] p) (all_fields (q ∷ ps)) short in
    let filled_rest = join_paragraphs (filled width (q ∷ ps)) in
    lines_within-newline (bound + 1) 0 (fill_words width 0 (fields [] p)) (10 ∷ filled_rest)
      (lines_within-paragraph width bound p wide first)
      (lines_within-newline (bound + 1) 0 [] filled_rest (ground arith)
        (lines_within-filled width bound (q ∷ ps) wide rest))

-- A text filled to a width that is not 0 has the words of the text, in order. None of its lines is
-- longer than the width and one trailing space, unless a single word is longer than the width; then
-- none is longer than the longest word and one trailing space.
pub fill_paragraphs_lem :
    (text : Bytes) (width : ℕ)
    → 1 ≤ width
    → (t : Bytes) × (fill_paragraphs text width ≡ some t)
      × (fields [] t ≡ fields [] text)
      × (lines_within (greater width (longest (fields [] text)) + 1) 0 t ≡ true)
unfolding fill_paragraphs
fill_paragraphs_lem text width wide =
    let ps = paragraphs text in
    let same : fields [] text ≡ all_fields ps =
      ap (fields []) (sym (join_paragraphs-paragraphs text)) ∙ fields-join_paragraphs ps in
    let bound = greater width (longest (fields [] text)) in
    (
      join_paragraphs (filled width ps),
      rw (fill_all-filled width ps wide) refl,
      fields-join_paragraphs (filled width ps) ∙ all_fields-filled width ps ∙ sym same,
      lines_within-filled width bound ps (ground arith) (rw (sym same) (ground arith)),
    )
