-- ===== src/Targets.antt =====
-- The check of the targets that a footprint maps: validateTargets of fileloader/fileloader.go.
pub mod Agree
use go_component.Prelude.{String, none, some, List, [], ◌∷◌, ◌++◌, if◌then◌else◌, Dict, read}
use go_component.Linker.{Descriptor, contains}

-- An error of validateTargets.
pub data TargetError : Type 0 where
  footprint_missing_aspect descriptor_missing_aspect : String → TargetError
  footprint_missing_interest descriptor_missing_interest : String → TargetError

-- The keys of a map made of the names: each name once.
unfoldable pub lookup_set : List String → List String
lookup_set [] = []
lookup_set (name ∷ names) =
    let rest = lookup_set names in if contains rest name then rest else name ∷ rest

-- for name := range names { if _, ok := targets[name]; !ok { errs = append(errs, …) } }
unfoldable pub missing_in_footprint :
    (String → TargetError) → List String → Dict String → List TargetError
missing_in_footprint err [] targets = []
missing_in_footprint err (name ∷ names) targets =
    let rest = missing_in_footprint err names targets in
    elim (read targets name) [ none ↦ err name ∷ rest | some topic ↦ rest ]

-- for name := range targets { if _, ok := lookup[name]; !ok { errs = append(errs, …) } }
unfoldable pub missing_in_descriptor :
    (String → TargetError) → List String → Dict String → List TargetError
missing_in_descriptor err lookup [] = []
missing_in_descriptor err lookup ((name, topic) ∷ targets) =
    let rest = missing_in_descriptor err lookup targets in
    if contains lookup name then rest else err name ∷ rest

-- validateTargets: the errors that it joins.
unfoldable pub validate_targets : Descriptor → (aspects interests : Dict String) → List TargetError
validate_targets d aspects interests =
    missing_in_footprint footprint_missing_aspect (lookup_set d.aspects) aspects
    ++ missing_in_descriptor descriptor_missing_aspect (lookup_set d.aspects) aspects
    ++ missing_in_footprint footprint_missing_interest d.interests interests
    ++ missing_in_descriptor descriptor_missing_interest (lookup_set d.interests) interests
