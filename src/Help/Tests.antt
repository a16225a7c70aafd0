-- ===== src/Help/Tests.antt =====
-- A paragraph of two words on two lines, and instances of the theorems.
use go_component.Prelude.{◌≡◌, refl, ◌+◌, arith, true, some, [], ◌∷◌}
use go_component.Help.{
  Bytes, fields, fill_words, fill_paragraph, fill_all, fill_paragraphs, paragraphs, join_paragraphs,
  ff_env_name,
}
use go_component.Help.Words.{lines_within, longest, greater}
use go_component.Help.Filled.{fill_paragraphs_lem}

-- "ab", a newline and "cd"
abbrev words : Bytes
words = 97 ∷ 98 ∷ 10 ∷ 99 ∷ 100 ∷ []

fills :
    fill_paragraphs (97 ∷ 32 ∷ 98 ∷ 10 ∷ 10 ∷ 99 ∷ []) 3
    ≡ some (97 ∷ 32 ∷ 98 ∷ 32 ∷ 10 ∷ 10 ∷ 99 ∷ 32 ∷ [])
unfolding fill_paragraphs fill_all paragraphs join_paragraphs fill_paragraph fill_words fields
fills = refl

-- "a-b" with the prefix "p" becomes "P_A_B".
names_variable : ff_env_name (97 ∷ 45 ∷ 98 ∷ []) (112 ∷ []) ≡ 80 ∷ 95 ∷ 65 ∷ 95 ∷ 66 ∷ []
unfolding ff_env_name
names_variable = refl

fill_paragraphs_example :
    (t : Bytes) × (fill_paragraphs words 3 ≡ some t)
    × (fields [] t ≡ fields [] words)
    × (lines_within (greater 3 (longest (fields [] words)) + 1) 0 t ≡ true)
fill_paragraphs_example = fill_paragraphs_lem words 3 (omega arith)
