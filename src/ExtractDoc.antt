-- ===== src/ExtractDoc.antt =====
-- ExtractDoc of extractdoc.go, from the text of the package's doc comment on. A text is the list of
-- its bytes, with white space as in ASCII.
pub mod Sections
pub mod Found
mod Tests
use go_component.Prelude.{
  ℕ, zero, suc, Bool, false, ◌&&◌, ◌||◌, Option, none, some, List, [], ◌∷◌, ◌++◌, ◌==◌,
  if◌then◌else◌,
}
use go_component.Help.{Bytes, is_space, cons_first}

-- strings.CutPrefix: what follows the prefix, if the text has it.
unfoldable pub after_prefix : (prefix s : Bytes) → Option Bytes
after_prefix [] s = some s
after_prefix (p ∷ prefix) [] = none
after_prefix (p ∷ prefix) (c ∷ s) =
    let rest = after_prefix prefix s in if p == c then rest else none

-- Whether a heading starts here: a newline, `#` and a space.
abbrev pub is_heading : Bytes → Bool
is_heading (c ∷ d ∷ e ∷ s) = c == 10 && d == 35 && e == 32
is_heading _ = false

-- strings.SplitSeq at "\n# ", with as many bytes of a separator left as `skip` tells
unfoldable pub sections : (skip : ℕ) → Bytes → List Bytes
sections skip [] = [] ∷ []
sections (suc skip) (c ∷ s) = sections skip s
sections zero (c ∷ s) =
    let after = sections 2 s in
    let rest = sections 0 s in if is_heading (c ∷ s) then [] ∷ after else cons_first c rest

-- strings.TrimSpace
unfoldable pub trim_left : Bytes → Bytes
trim_left [] = []
trim_left (c ∷ s) = let rest = trim_left s in if is_space c then rest else c ∷ s

abbrev trimmed_cons : ℕ → Bytes → Bytes
trimmed_cons c [] = if is_space c then [] else c ∷ []
trimmed_cons c (d ∷ s) = c ∷ d ∷ s

unfoldable pub trim_right : Bytes → Bytes
trim_right [] = []
trim_right (c ∷ s) = trimmed_cons c (trim_right s)

unfoldable pub trim_space : Bytes → Bytes
trim_space s = trim_right (trim_left s)

-- "Service "
abbrev pub service : Bytes
service = 83 ∷ 101 ∷ 114 ∷ 118 ∷ 105 ∷ 99 ∷ 101 ∷ 32 ∷ []

-- What the condition of the loop comes to for a section: a panic of body[0], false, or true with
-- `body`.
pub data Verdict : Type 0 where
  crashes skips : Verdict
  takes : Bytes → Verdict

-- Where the heading is not the service's, `body` is the section, and only the last test is left.
other_section : Bytes → Verdict
other_section [] = crashes
other_section (c ∷ s) = if c == 10 then takes (c ∷ s) else skips

-- Where it is, `body` is what follows. The last test is made also if it is empty.
own_section : Bytes → Verdict
own_section [] = crashes
own_section (c ∷ s) = if c == 13 || c == 10 then takes (c ∷ s) else skips

judge_body : Bytes → Option Bytes → Verdict
unfolding other_section own_section
judge_body section none = other_section section
judge_body section (some body) = own_section body

unfoldable pub judge : (name section : Bytes) → Verdict
unfolding judge_body
judge name section = judge_body section (after_prefix (service ++ name) section)

pub data Extracted : Type 0 where
  found : Bytes → Extracted
  panicked empty_source invalid_source no_comment no_summary no_heading : Extracted

summary_after : Option Bytes → Extracted
summary_after none = no_summary
summary_after (some rest) = found (trim_space rest)

-- The body of the loop where the condition is true: 58 is the colon.
unfoldable pub summary : (name body : Bytes) → Extracted
unfolding summary_after
summary name body = summary_after (after_prefix (name ++ 58 ∷ []) (trim_space body))

decide : Bytes → Verdict → Extracted → Extracted
decide name crashes rest = panicked
decide name skips rest = rest
decide name (takes body) rest = summary name body

unfoldable pub search_sections : (name : Bytes) → List Bytes → Extracted
unfolding decide
search_sections name [] = no_heading
search_sections name (s ∷ ss) = decide name (judge name s) (search_sections name ss)

-- What go/parser makes of the content: nothing if it is empty, no Go file, a file without a package
-- comment, or the text of that comment. The text of a comment is empty or ends with a newline.
pub data Source : Type 0 where
  empty invalid undocumented : Source
  documented : Bytes → Source

unfoldable pub extract_doc : Source → (name : Bytes) → Extracted
extract_doc empty name = empty_source
extract_doc invalid name = invalid_source
extract_doc undocumented name = no_comment
extract_doc (documented text) name = search_sections name (sections 0 text)
