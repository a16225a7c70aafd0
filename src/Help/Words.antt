-- ===== src/Help/Words.antt =====
-- The words of a paragraph, and how long the lines are that the loop over the words makes of them.
use go_component.Prelude.{
  ℕ, ◌+◌, ◌≤◌, ◌≡◌, refl, ap, ◌∙◌, Bool, true, false, not, ◌&&◌, List, [], ◌∷◌, ◌++◌, length, ◌==◌,
  leb, ltb, if◌then◌else◌, arith, append_assoc, append-nil, Bool-cases, inl, inr,
}
use go_component.Help.{Bytes, is_space, end_word, fields, fill_words}

abbrev pub no_spaces : Bytes → Bool
no_spaces [] = true
no_spaces (c ∷ s) = not (is_space c) && no_spaces s

-- Words as Fields gives them.
abbrev pub all_words : List Bytes → Bool
all_words [] = true
all_words ([] ∷ ws) = false
all_words ((c ∷ w) ∷ ws) = no_spaces (c ∷ w) && all_words ws

abbrev pub all_within : ℕ → List Bytes → Bool
all_within width [] = true
all_within width (w ∷ ws) = leb (length w) width && all_within width ws

-- No line is longer than the bound, where `line` bytes of the first one stand before the text.
abbrev pub lines_within : (bound line : ℕ) → Bytes → Bool
lines_within bound line [] = leb line bound
lines_within bound line (c ∷ s) =
    if c == 10 then leb line bound && lines_within bound 0 s else lines_within bound (line + 1) s

no_spaces-append : (v w : Bytes) → no_spaces (v ++ w) ≡ (no_spaces v && no_spaces w)
no_spaces-append [] w = refl
no_spaces-append (c ∷ v) w = ground (arith, no_spaces-append v w)

all_words-end_word :
    (w : Bytes) (ws : List Bytes)
    → no_spaces w ≡ true
    → all_words ws ≡ true
    → all_words (end_word w ws) ≡ true
all_words-end_word [] ws word words = words
all_words-end_word (c ∷ w) ws word words = ground arith

pub fields-all_words : (w s : Bytes) → no_spaces w ≡ true → all_words (fields w s) ≡ true
unfolding fields
fields-all_words w [] word = all_words-end_word w [] word refl
fields-all_words w (c ∷ s) word = elim (Bool-cases (is_space c)) [
  | inl space ↦ rw space (all_words-end_word w (fields [] s) word (fields-all_words [] s refl))
  | inr letter ↦
      rw letter (fields-all_words (w ++ c ∷ []) s (ground (arith, no_spaces-append w (c ∷ []))))
]

lines_within-append :
    (bound line : ℕ) (w s : Bytes)
    → no_spaces w ≡ true
    → lines_within bound line (w ++ s) ≡ lines_within bound (line + length w) s
lines_within-append bound line [] s word = ground arith
lines_within-append bound line (c ∷ w) s word =
    ground (arith, lines_within-append bound (line + 1) w s)

pub lines_within-fill_words :
    (width bound line : ℕ) (ws : List Bytes)
    → all_words ws ≡ true
    → all_within bound ws ≡ true
    → width ≤ bound
    → line ≤ bound + 1
    → lines_within (bound + 1) line (fill_words width line ws) ≡ true
unfolding fill_words
lines_within-fill_words width bound line [] words within wide short = ground arith
lines_within-fill_words width bound line ([] ∷ ws) words within wide short = ground arith
lines_within-fill_words width bound line ((c ∷ w) ∷ ws) words within wide short = ground (
  arith,
  lines_within-append (bound + 1) 0 (c ∷ w) (32 ∷ fill_words width (0 + (length (c ∷ w) + 1)) ws),
  lines_within-append (bound + 1) line (c ∷ w)
      (32 ∷ fill_words width (line + (length (c ∷ w) + 1)) ws),
  lines_within-fill_words width bound (0 + (length (c ∷ w) + 1)) ws,
  lines_within-fill_words width bound (line + (length (c ∷ w) + 1)) ws,
)

fields-append : (v w s : Bytes) → no_spaces w ≡ true → fields v (w ++ s) ≡ fields (v ++ w) s
unfolding fields
fields-append v [] s word = rw append-nil refl
fields-append v (c ∷ w) s word =
    let rest = fields-append (v ++ c ∷ []) w s (ground arith) in
    let moved = append_assoc v (c ∷ []) w in
    elim (Bool-cases (is_space c)) [
      | inl space ↦ ground arith
      | inr letter ↦ rw letter (rest ∙ ap (λ u. fields u s) moved)
    ]

pub fields-fill_words :
    (width line : ℕ) (ws : List Bytes)
    → all_words ws ≡ true
    → fields [] (fill_words width line ws) ≡ ws
unfolding fill_words fields
fields-fill_words width line [] words = refl
fields-fill_words width line ([] ∷ ws) words = ground arith
fields-fill_words width line ((c ∷ w) ∷ ws) words =
    let overflows = ltb width (line + length (c ∷ w)) in
    let word : no_spaces (c ∷ w) ≡ true = ground arith in
    elim (Bool-cases overflows) [
      | inl over ↦ rw over (
          fields-append [] (c ∷ w) (32 ∷ fill_words width (0 + (length (c ∷ w) + 1)) ws) word
          ∙ ap (λ t. (c ∷ w) ∷ t)
              (fields-fill_words width (0 + (length (c ∷ w) + 1)) ws (ground arith)))
      | inr fits ↦ rw fits (
          fields-append [] (c ∷ w) (32 ∷ fill_words width (line + (length (c ∷ w) + 1)) ws) word
          ∙ ap (λ t. (c ∷ w) ∷ t)
              (fields-fill_words width (line + (length (c ∷ w) + 1)) ws (ground arith)))
    ]

abbrev pub greater : ℕ → ℕ → ℕ
greater a b = if leb a b then b else a

abbrev pub longest : List Bytes → ℕ
longest [] = 0
longest (w ∷ ws) = greater (length w) (longest ws)

pub all_within-longest :
    (bound : ℕ) (ws : List Bytes) → longest ws ≤ bound → all_within bound ws ≡ true
all_within-longest bound [] short = refl
all_within-longest bound (w ∷ ws) short = ground (arith, all_within-longest bound ws)
