-- ===== src/Help.antt =====
-- The help texts of loader/loaderflags/help.go: fillParagraphs and shortenParagraph, and the name of
-- a flag's environment variable in parse.go. A text is the list of its bytes, with white space and
-- letters as in ASCII.
pub mod Words
pub mod Filled
pub mod Shortened
mod Tests
use mathlib.Core.Option.{map as map_option}
use go_component.Prelude.{
  ℕ, ◌+◌, ◌-◌, Bool, ◌&&◌, ◌||◌, Option, none, some, List, [], ◌∷◌, ◌++◌, map, length, ◌==◌, leb,
  ltb, if◌then◌else◌,
}

abbrev pub Bytes : Type 0
Bytes = List ℕ

abbrev pub is_space : ℕ → Bool
is_space c = c == 32 || (leb 9 c && leb c 13)

abbrev pub end_word : Bytes → List Bytes → List Bytes
end_word [] words = words
end_word (c ∷ word) words = (c ∷ word) ∷ words

-- strings.Fields, after the bytes of a word that has begun
unfoldable pub fields : Bytes → Bytes → List Bytes
fields word [] = end_word word []
fields word (c ∷ s) = if is_space c then end_word word (fields [] s) else fields (word ++ c ∷ []) s

-- The loop of fillParagraphs over the words of a paragraph; `line` is the variable of that name.
unfoldable pub fill_words : (width line : ℕ) → List Bytes → Bytes
fill_words width line [] = []
fill_words width line (w ∷ ws) =
    if ltb width (line + length w)
    then 10 ∷ (w ++ 32 ∷ fill_words width (0 + (length w + 1)) ws)
    else w ++ 32 ∷ fill_words width (line + (length w + 1)) ws

-- The body of the loop over the paragraphs: `none` is the panic of a division by a width of 0.
unfoldable pub fill_paragraph : ℕ → Bytes → Option Bytes
fill_paragraph width p = if width == 0 then none else some (fill_words width 0 (fields [] p))

abbrev pub cons_first : ℕ → List Bytes → List Bytes
cons_first c [] = (c ∷ []) ∷ []
cons_first c (t ∷ ts) = (c ∷ t) ∷ ts

-- strings.Split at two newlines
unfoldable pub paragraphs : Bytes → List Bytes
paragraphs [] = [] ∷ []
paragraphs (c ∷ []) = (c ∷ []) ∷ []
paragraphs (c ∷ d ∷ s) =
    let after = paragraphs s in
    let rest = paragraphs (d ∷ s) in if c == 10 && d == 10 then [] ∷ after else cons_first c rest

-- strings.Join with two newlines
unfoldable pub join_paragraphs : List Bytes → Bytes
join_paragraphs [] = []
join_paragraphs (p ∷ []) = p
join_paragraphs (p ∷ q ∷ ps) = p ++ 10 ∷ 10 ∷ join_paragraphs (q ∷ ps)

cons_filled : Option Bytes → Option (List Bytes) → Option (List Bytes)
cons_filled (some p) (some ps) = some (p ∷ ps)
cons_filled p ps = none

-- The loop over the paragraphs.
unfoldable pub fill_all : ℕ → List Bytes → Option (List Bytes)
unfolding cons_filled
fill_all width [] = some []
fill_all width (p ∷ ps) = cons_filled (fill_paragraph width p) (fill_all width ps)

unfoldable pub fill_paragraphs : Bytes → ℕ → Option Bytes
fill_paragraphs text width = map_option join_paragraphs (fill_all width (paragraphs text))

abbrev pub take : ℕ → Bytes → Bytes
take ℕ.zero s = []
take (ℕ.suc n) [] = []
take (ℕ.suc n) (c ∷ s) = c ∷ take n s

-- strings.ReplaceAll of newlines by spaces
unfoldable pub single_line : Bytes → Bytes
single_line [] = []
single_line (c ∷ s) = (if c == 10 then 32 else c) ∷ single_line s

-- shortenParagraph: `none` is the panic of a slice that ends below 0.
unfoldable pub shorten_paragraph : Bytes → ℕ → Option Bytes
shorten_paragraph text width =
    let line = single_line text in
    if leb (length line) width
    then some line
    else if leb 3 width
    then some (take (width - 3) line ++ 46 ∷ 46 ∷ 46 ∷ [])
    else none

abbrev upper : ℕ → ℕ
upper c = if leb 97 c && leb c 122 then c - 32 else c

abbrev underscored : ℕ → ℕ
underscored c = if c == 45 || c == 46 || c == 47 then 95 else c

abbrev with_prefix : Bytes → Bytes → Bytes
with_prefix [] key = key
with_prefix (c ∷ prefix) key = map upper (c ∷ prefix) ++ 95 ∷ key

-- ffEnvName
unfoldable pub ff_env_name : Bytes → Bytes → Bytes
ff_env_name name prefix = with_prefix prefix (map underscored (map upper name))
