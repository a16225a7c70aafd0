-- ===== src/ExtractDoc/Tests.antt =====
-- A doc comment with the sections of two services, one of whose names begins with the other.
use go_component.Prelude.{◌≡◌, refl, [], ◌∷◌, ◌++◌}
use go_component.Help.{Bytes}
use go_component.ExtractDoc.{
  service, found, panicked, documented, extract_doc, after_prefix, trim_space, trim_left,
  trim_right,
}
use go_component.ExtractDoc.Sections.{headed}
use go_component.ExtractDoc.Found.{described, extract_doc-found, extract_doc-panicked}

-- "foo"
abbrev foo : Bytes
foo = 102 ∷ 111 ∷ 111 ∷ []

-- "food"
abbrev food : Bytes
food = 102 ∷ 111 ∷ 111 ∷ 100 ∷ []

-- "Package foo" and an empty line
abbrev intro : Bytes
intro = 80 ∷ 97 ∷ 99 ∷ 107 ∷ 97 ∷ 103 ∷ 101 ∷ 32 ∷ foo ++ 10 ∷ []

-- " do" and an empty line
abbrev summary_text : Bytes
summary_text = 32 ∷ 100 ∷ 111 ∷ 10 ∷ 10 ∷ []

extract_doc-found_example :
    extract_doc
      (documented (
        headed intro (
          (service ++ food ++ described food summary_text)
          ∷ (service ++ foo ++ described foo summary_text)
          ∷ [])))
      foo
    ≡ found (100 ∷ 111 ∷ [])
unfolding trim_space trim_left trim_right after_prefix
extract_doc-found_example =
    extract_doc-found foo intro summary_text ((service ++ food ++ described food summary_text) ∷ [])
      [] refl refl refl

extract_doc-panicked_example :
    extract_doc
      (documented (headed intro ((service ++ foo) ∷ (service ++ food ++ 10 ∷ []) ∷ [])))
      foo
    ≡ panicked
unfolding after_prefix
extract_doc-panicked_example =
    extract_doc-panicked foo intro (service ++ food ++ 10 ∷ []) [] [] refl refl
