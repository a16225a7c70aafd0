-- ===== src/ExtractDoc/Found.antt =====
-- What ExtractDoc returns for a doc comment of the documented form.
use go_component.Prelude.{
  ℕ, ◌≡◌, refl, sym, ap, ◌∙◌, Bool, true, false, not, ◌&&◌, ◌||◌, Option, none, some, List, [], ◌∷◌,
  ◌++◌, ◌==◌, arith, append_assoc, append-nil, Bool-cases, inl, inr,
}
use go_component.Help.{Bytes, is_space}
use go_component.ExtractDoc.{
  after_prefix, trim_left, trim_right, trim_space, trimmed_cons, service, crashes, skips, takes,
  other_section, own_section, judge_body, judge, found, panicked, summary_after, summary, decide,
  search_sections, documented, extract_doc,
}
use go_component.ExtractDoc.Sections.{headed, all_headless, sections-headed}

after_prefix-append : (p s : Bytes) → after_prefix p (p ++ s) ≡ some s
unfolding after_prefix
after_prefix-append [] s = refl
after_prefix-append (c ∷ p) s = ground (arith, after_prefix-append p s)

-- A byte that begins a line's end.
abbrev is_end : Bytes → Bool
is_end [] = true
is_end (c ∷ s) = c == 13 || c == 10

abbrev other_heading : Option Bytes → Bool
other_heading none = true
other_heading (some body) = not (is_end body)

abbrev begins_line : Bytes → Bool
begins_line [] = false
begins_line (c ∷ s) = not (c == 10)

-- A section that begins with some text on its first line, which is not the heading of the service.
abbrev pub is_other : (name section : Bytes) → Bool
is_other name s = begins_line s && other_heading (after_prefix (service ++ name) s)

abbrev pub all_other : Bytes → List Bytes → Bool
all_other name [] = true
all_other name (s ∷ ss) = is_other name s && all_other name ss

judge_body-skips :
    (s : Bytes) (o : Option Bytes)
    → begins_line s ≡ true
    → other_heading o ≡ true
    → judge_body s o ≡ skips
unfolding judge_body other_section own_section
judge_body-skips [] o line other = ground arith
judge_body-skips (c ∷ s) none line other = ground arith
judge_body-skips (c ∷ s) (some []) line other = ground arith
judge_body-skips (c ∷ s) (some (d ∷ body)) line other = ground arith

judge-skips : (name s : Bytes) → is_other name s ≡ true → judge name s ≡ skips
unfolding judge
judge-skips name s other =
    judge_body-skips s (after_prefix (service ++ name) s) (ground arith) (ground arith)

search_sections-append :
    (name : Bytes) (before after : List Bytes)
    → all_other name before ≡ true
    → search_sections name (before ++ after) ≡ search_sections name after
unfolding search_sections decide
search_sections-append name [] after other = refl
search_sections-append name (s ∷ before) after other =
    rw (judge-skips name s (ground arith)) (search_sections-append name before after (ground arith))

trimmed_cons-ink : (c : ℕ) (s : Bytes) → is_space c ≡ false → trimmed_cons c s ≡ c ∷ s
trimmed_cons-ink c [] ink = ground arith
trimmed_cons-ink c (d ∷ s) ink = refl

trimmed_cons-append : (d c : ℕ) (s t : Bytes) → trimmed_cons d (s ++ c ∷ t) ≡ d ∷ s ++ c ∷ t
trimmed_cons-append d c [] t = refl
trimmed_cons-append d c (e ∷ s) t = refl

trim_right-append :
    (s t : Bytes) (c : ℕ) → is_space c ≡ false → trim_right (s ++ c ∷ t) ≡ s ++ c ∷ trim_right t
unfolding trim_right
trim_right-append [] t c ink = trimmed_cons-ink c (trim_right t) ink
trim_right-append (d ∷ s) t c ink =
    rw (trim_right-append s t c ink) (trimmed_cons-append d c s (trim_right t))

trim_left-trimmed_cons :
    (c : ℕ) (s : Bytes) → is_space c ≡ true → trim_left (trimmed_cons c s) ≡ trim_left s
unfolding trim_left
trim_left-trimmed_cons c [] space = ground arith
trim_left-trimmed_cons c (d ∷ s) space = ground arith

trim_left-trim_right : (s : Bytes) → trim_left (trim_right s) ≡ trim_right (trim_left s)
unfolding trim_left trim_right
trim_left-trim_right [] = refl
trim_left-trim_right (c ∷ s) = elim (Bool-cases (is_space c)) [
  | inl space ↦ rw space (trim_left-trimmed_cons c (trim_right s) space ∙ trim_left-trim_right s)
  | inr ink ↦ rw (ink, trimmed_cons-ink c (trim_right s) ink) (ground arith)
]

trim_right-trimmed_cons :
    (c : ℕ) (s : Bytes) → trim_right s ≡ s → trim_right (trimmed_cons c s) ≡ trimmed_cons c s
unfolding trim_right
trim_right-trimmed_cons c [] done = ground arith
trim_right-trimmed_cons c (d ∷ s) done = ap (trimmed_cons c) done

trim_right-trim_right : (s : Bytes) → trim_right (trim_right s) ≡ trim_right s
unfolding trim_right
trim_right-trim_right [] = refl
trim_right-trim_right (c ∷ s) = trim_right-trimmed_cons c (trim_right s) (trim_right-trim_right s)

trim_space-trim_right : (s : Bytes) → trim_space (trim_right s) ≡ trim_space s
unfolding trim_space
trim_space-trim_right s =
    ap trim_right (trim_left-trim_right s) ∙ trim_right-trim_right (trim_left s)

-- A name that is not empty and does not begin with white space.
abbrev pub is_name : Bytes → Bool
is_name [] = false
is_name (c ∷ name) = not (is_space c)

-- What stands under the heading of the service: an empty line, the name, a colon and the text.
abbrev pub described : (name text : Bytes) → Bytes
described name text = 10 ∷ 10 ∷ name ++ 58 ∷ text

trim_left-name : (name s : Bytes) → is_name name ≡ true → trim_left (name ++ s) ≡ name ++ s
unfolding trim_left
trim_left-name [] s named = ground arith
trim_left-name (c ∷ name) s named = ground arith

trim_left-described :
    (name text : Bytes) → is_name name ≡ true → trim_left (described name text) ≡ name ++ 58 ∷ text
unfolding trim_left
trim_left-described name text named = trim_left-name name (58 ∷ text) named

summary-described :
    (name text : Bytes)
    → is_name name ≡ true
    → summary name (described name text) ≡ found (trim_space text)
unfolding summary trim_space summary_after
summary-described name text named =
    let trimmed =
      ap trim_right (trim_left-described name text named) ∙ trim_right-append name text 58 refl in
    let rest =
      ap (after_prefix (name ++ 58 ∷ []))
        (trimmed ∙ sym (append_assoc name (58 ∷ []) (trim_right text)))
      ∙ after_prefix-append (name ++ 58 ∷ []) (trim_right text) in
    ap summary_after rest ∙ ap found (trim_space-trim_right text)

judge-own :
    (name text : Bytes)
    → judge name (service ++ name ++ described name text) ≡ takes (described name text)
unfolding judge judge_body own_section
judge-own name text = rw (after_prefix-append (service ++ name) (described name text)) refl

judge-bare : (name : Bytes) → judge name (service ++ name) ≡ crashes
unfolding judge judge_body own_section
judge-bare name = ap (judge_body (service ++ name)) (
    ap (after_prefix (service ++ name)) (sym (append-nil (service ++ name)))
    ∙ after_prefix-append (service ++ name) [])

-- Up to the first section that may be the service's, nothing is found.
extract_doc-others :
    (name intro s : Bytes) (before after : List Bytes)
    → all_headless (intro ∷ before ++ s ∷ after) ≡ true
    → all_other name (intro ∷ before) ≡ true
    → extract_doc (documented (headed intro (before ++ s ∷ after))) name
      ≡ search_sections name (s ∷ after)
unfolding extract_doc
extract_doc-others name intro s before after free others =
    ap (search_sections name) (sections-headed intro (before ++ s ∷ after) free)
    ∙ search_sections-append name (intro ∷ before) (s ∷ after) others

-- Where a doc comment has a section of the documented form, which is the heading of the service, an
-- empty line, the name, a colon and a text, and each section before it begins with a line that is
-- not that heading, ExtractDoc gives the text, up to the next heading, without the white space around
-- it. The name is not empty and does not begin with white space.
pub extract_doc-found :
    (name intro text : Bytes) (before after : List Bytes)
    → is_name name ≡ true
    → all_headless (intro ∷ before ++ (service ++ name ++ described name text) ∷ after) ≡ true
    → all_other name (intro ∷ before) ≡ true
    → extract_doc
        (documented (headed intro (before ++ (service ++ name ++ described name text) ∷ after)))
        name
      ≡ found (trim_space text)
unfolding search_sections decide
extract_doc-found name intro text before after named free others =
    let own = service ++ name ++ described name text in
    extract_doc-others name intro own before after free others
    ∙ ap (λ v. decide name v (search_sections name after)) (judge-own name text)
    ∙ summary-described name text named

-- Where another heading stands on the line below the heading of a service, and each section before
-- begins with a line that is not that heading, ExtractDoc panics.
pub extract_doc-panicked :
    (name intro next : Bytes) (before after : List Bytes)
    → all_headless (intro ∷ before ++ (service ++ name) ∷ next ∷ after) ≡ true
    → all_other name (intro ∷ before) ≡ true
    → extract_doc (documented (headed intro (before ++ (service ++ name) ∷ next ∷ after))) name
      ≡ panicked
unfolding search_sections decide
extract_doc-panicked name intro next before after free others =
    extract_doc-others name intro (service ++ name) before (next ∷ after) free others
    ∙ ap (λ v. decide name v (search_sections name (next ∷ after))) (judge-bare name)
