-- ===== src/Targets/Agree.antt =====
-- What validateTargets accepts.
use go_component.Prelude.{
  String, Bool, true, false, ◌≡◌, ◌↔◌, refl, none, some, List, [], ◌∷◌, ◌++◌, Dict, read, arith,
  eq_iff,
}
use go_component.Linker.{Descriptor, contains}
use go_component.Targets.{
  TargetError, footprint_missing_aspect, descriptor_missing_aspect, footprint_missing_interest,
  descriptor_missing_interest, lookup_set, missing_in_footprint, missing_in_descriptor,
  validate_targets,
}

-- Whether the map has the key.
abbrev pub has {ℓ} : {V : Type ℓ} → Dict V → String → Bool
has entries key = elim (read entries key) [ none ↦ false | some v ↦ true ]

append-empty : {A : Type 0} (k l : List A) → k ++ l ≡ [] → (k ≡ []) × (l ≡ [])
append-empty [] l empty = (refl, empty)
append-empty (a ∷ k) l empty = ground arith

four_empty :
    {A : Type 0} (k l m n : List A)
    → k ++ l ++ m ++ n ≡ []
    → (k ≡ []) × (l ≡ []) × (m ≡ []) × (n ≡ [])
four_empty k l m n empty =
    ground (arith, append-empty (k ++ l ++ m) n, append-empty (k ++ l) m, append-empty k l)

pub contains-lookup_set :
    (names : List String) (name : String) → contains (lookup_set names) name ≡ contains names name
unfolding lookup_set contains
contains-lookup_set [] name = refl
contains-lookup_set (n ∷ names) name =
    ground (arith, contains-lookup_set names name, contains-lookup_set names n, eq_iff n name)

module _ (err : String → TargetError) where
  missing_in_footprint-has :
      (names : List String) (targets : Dict String) (name : String)
      → missing_in_footprint err names targets ≡ []
      → contains names name ≡ true
      → has targets name ≡ true
  unfolding missing_in_footprint contains
  missing_in_footprint-has [] targets name none_missing listed = ground arith
  missing_in_footprint-has (n ∷ names) targets name none_missing listed =
      ground (arith, missing_in_footprint-has names targets name, eq_iff n name)

  missing_in_footprint-empty :
      (names : List String) (targets : Dict String)
      → ((name : String) → contains names name ≡ true → has targets name ≡ true)
      → missing_in_footprint err names targets ≡ []
  unfolding missing_in_footprint contains
  missing_in_footprint-empty [] targets all_there = refl
  missing_in_footprint-empty (n ∷ names) targets all_there = ground (
    arith,
    all_there n,
    eq_iff n n,
    missing_in_footprint-empty names targets (λ m listed. all_there m (ground arith)),
  )

  missing_in_descriptor-contains :
      (lookup : List String) (targets : Dict String) (name : String)
      → missing_in_descriptor err lookup targets ≡ []
      → has targets name ≡ true
      → contains lookup name ≡ true
  unfolding missing_in_descriptor
  missing_in_descriptor-contains lookup [] name none_missing mapped = ground arith
  missing_in_descriptor-contains lookup ((n, topic) ∷ targets) name none_missing mapped =
      ground (arith, missing_in_descriptor-contains lookup targets name, eq_iff n name)

  missing_in_descriptor-empty :
      (lookup : List String) (targets : Dict String)
      → ((name : String) → has targets name ≡ true → contains lookup name ≡ true)
      → missing_in_descriptor err lookup targets ≡ []
  unfolding missing_in_descriptor
  missing_in_descriptor-empty lookup [] all_listed = refl
  missing_in_descriptor-empty lookup ((n, topic) ∷ targets) all_listed = ground (
    arith,
    all_listed n,
    eq_iff n n,
    missing_in_descriptor-empty lookup targets (λ m mapped. all_listed m (ground arith)),
  )

-- If validateTargets returns no error, then the aspects and interests mapped to topics are exactly
-- those of the descriptor.
pub validate_targets-agree :
    (d : Descriptor) (aspects interests : Dict String)
    → validate_targets d aspects interests ≡ []
    → (name : String)
    → (has aspects name ≡ contains d.aspects name)
      × (has interests name ≡ contains d.interests name)
unfolding validate_targets
validate_targets-agree d aspects interests valid name =
    let (aspects_there, aspects_listed, interests_there, interests_listed) =
      four_empty (missing_in_footprint footprint_missing_aspect (lookup_set d.aspects) aspects)
        (missing_in_descriptor descriptor_missing_aspect (lookup_set d.aspects) aspects)
        (missing_in_footprint footprint_missing_interest d.interests interests)
        (missing_in_descriptor descriptor_missing_interest (lookup_set d.interests) interests)
        valid in
    ground (
      arith,
      missing_in_footprint-has _ _ aspects name aspects_there,
      missing_in_descriptor-contains _ _ aspects name aspects_listed,
      missing_in_footprint-has _ _ interests name interests_there,
      missing_in_descriptor-contains _ _ interests name interests_listed,
      contains-lookup_set d.aspects name,
      contains-lookup_set d.interests name,
    )

-- If the aspects and interests mapped to topics are exactly those of the descriptor, then
-- validateTargets returns no error.
pub validate_targets-accepts :
    (d : Descriptor) (aspects interests : Dict String)
    → ((name : String) → has aspects name ≡ contains d.aspects name)
    → ((name : String) → has interests name ≡ contains d.interests name)
    → validate_targets d aspects interests ≡ []
unfolding validate_targets
validate_targets-accepts d aspects interests same_aspects same_interests =
    rw
      (
        missing_in_footprint-empty _ (lookup_set d.aspects) aspects
            (λ name listed. cc (same_aspects name, contains-lookup_set d.aspects name)),
        missing_in_descriptor-empty _ (lookup_set d.aspects) aspects
            (λ name mapped. cc (same_aspects name, contains-lookup_set d.aspects name)),
        missing_in_footprint-empty _ d.interests interests
            (λ name listed. cc (same_interests name)),
        missing_in_descriptor-empty _ (lookup_set d.interests) interests
            (λ name mapped. cc (same_interests name, contains-lookup_set d.interests name)),
      )
      refl

-- validateTargets returns no error just where the aspects and interests mapped to topics are exactly
-- those of the descriptor.
pub validate_targets-exact :
    (d : Descriptor) (aspects interests : Dict String)
    → (validate_targets d aspects interests ≡ []) ↔ (
        (name : String)
        → (has aspects name ≡ contains d.aspects name)
          × (has interests name ≡ contains d.interests name))
validate_targets-exact d aspects interests = (
  validate_targets-agree d aspects interests,
  (λ agree.
      validate_targets-accepts d aspects interests (λ name. (agree name).0)
        (λ name. (agree name).1)),
)
