-- ===== src/FileLoader/Formats.antt =====
-- The two formats of a footprint: what YAMLLoader makes of a message that UnmarshalFootprintJSON
-- accepts.
use go_component.Prelude.{
  ℕ, String, Bool, ◌≡◌, refl, ap, ◌∙◌, subst, true, Bool-cases, inl, inr, Option, none, some, List,
  [], ◌∷◌, Dict, read,
}
use go_component.Linker.{Descriptor}
use go_component.FileLoader.{
  Claim, ComponentMessage, FootprintMessage, Footprint, Result, ok, failed, bind_claim,
  with_options, with_targets, claim_component, add_claim, add_known, claim_all, by_name,
  with_allocations, footprint_json, footprint_yaml, unmarshal_options_json, options_yaml, is_empty,
  is_null,
}
use go_component.Targets.{TargetError}
use go_component.FileLoader.Loaded.{with_allocations-ok}

-- The second result is that of the first, if the first is no error.
SomeFollows : {A : Type 0} → Option A → Option A → Type 0
SomeFollows none o' = true ≡ true
SomeFollows (some a) o' = o' ≡ some a

OkFollows : {A : Type 0} → Result A → Result A → Type 0
OkFollows (failed e) r' = true ≡ true
OkFollows (ok a) r' = r' ≡ ok a

SomeFollows-refl : {A : Type 0} (o : Option A) → SomeFollows o o
unfolding SomeFollows
SomeFollows-refl none = refl
SomeFollows-refl (some a) = refl

OkFollows-refl : {A : Type 0} (r : Result A) → OkFollows r r
unfolding OkFollows
OkFollows-refl (failed e) = refl
OkFollows-refl (ok a) = refl

ok-OkFollows : {A : Type 0} (r r' : Result A) (a : A) → OkFollows r r' → r ≡ ok a → r' ≡ ok a
unfolding OkFollows
ok-OkFollows r r' a follows succeeded = subst (λ q. OkFollows q r') succeeded follows

module _ {Value : Type 0} (decode : String → List ℕ → Option Value) where
  options_yaml-unmarshal_options_json :
      (rt : Option String) (bytes : List ℕ)
      → SomeFollows (unmarshal_options_json decode rt bytes) (options_yaml decode rt bytes)
  unfolding unmarshal_options_json options_yaml SomeFollows is_empty
  options_yaml-unmarshal_options_json none [] = refl
  options_yaml-unmarshal_options_json none (b ∷ bytes) = elim (Bool-cases (is_null (b ∷ bytes))) [
    | inl null ↦ rw null refl
    | inr other ↦ rw other refl
  ]
  options_yaml-unmarshal_options_json (some rt) bytes = SomeFollows-refl _

  module _ (config_ok : Bool) (identifier : String) where
    with_options-OkFollows :
        (name : String) (d : Descriptor) (req : ComponentMessage (List ℕ))
        → (o o' : Option (Option Value)) → SomeFollows o o'
        → OkFollows
            (with_options
              (unmarshal_options_json decode)
              config_ok
              identifier
              name
              d
              req.aspects
              req.interests
              o)
            (with_options
              (options_yaml decode)
              config_ok
              identifier
              name
              d
              req.aspects
              req.interests
              o')
    unfolding with_options bind_claim OkFollows SomeFollows
    with_options-OkFollows name d req none o' follows = refl
    with_options-OkFollows name d req (some value) o' follows = rw follows (OkFollows-refl _)

    with_targets-OkFollows :
        (name : String) (d : Descriptor) (req : ComponentMessage (List ℕ)) (errs : List TargetError)
        → OkFollows
            (with_targets (unmarshal_options_json decode) config_ok identifier name d req errs)
            (with_targets (options_yaml decode) config_ok identifier name d req errs)
    unfolding with_targets OkFollows
    with_targets-OkFollows name d req [] =
        with_options-OkFollows name d req _ _
          (options_yaml-unmarshal_options_json d.options_type req.options)
    with_targets-OkFollows name d req (e ∷ errs) = refl

    add_claim-OkFollows :
        (r r' : Result (Claim Value)) (rest rest' : Result (List (Claim Value)))
        → OkFollows r r'
        → OkFollows rest rest'
        → OkFollows
            (add_claim (unmarshal_options_json decode) config_ok identifier r rest)
            (add_claim (options_yaml decode) config_ok identifier r' rest')
    unfolding add_claim OkFollows
    add_claim-OkFollows (failed e) r' rest rest' follows follow = refl
    add_claim-OkFollows (ok c) r' (failed e) rest' follows follow = refl
    add_claim-OkFollows (ok c) r' (ok cs) rest' follows follow = rw (follows, follow) refl

    add_known-OkFollows :
        (name : String) (req : ComponentMessage (List ℕ)) (known : Option Descriptor)
        → (rest rest' : Result (List (Claim Value))) → OkFollows rest rest'
        → OkFollows
            (add_known (unmarshal_options_json decode) config_ok identifier name req known rest)
            (add_known (options_yaml decode) config_ok identifier name req known rest')
    unfolding add_known claim_component
    add_known-OkFollows name req none rest rest' follow = follow
    add_known-OkFollows name req (some d) rest rest' follow =
        add_claim-OkFollows _ _ rest rest' (with_targets-OkFollows name d req _) follow

    claim_all-OkFollows :
        (components : Dict Descriptor) (reqs : Dict (ComponentMessage (List ℕ)))
        → OkFollows
            (claim_all (unmarshal_options_json decode) config_ok identifier components reqs)
            (claim_all (options_yaml decode) config_ok identifier components reqs)
    unfolding claim_all OkFollows
    claim_all-OkFollows components [] = refl
    claim_all-OkFollows components ((name, req) ∷ reqs) =
        add_known-OkFollows name req (read components name) _ _
          (claim_all-OkFollows components reqs)

  -- Whatever message UnmarshalFootprintJSON accepts, YAMLLoader accepts with the same claims, if
  -- both decode options alike. The footprint has no solution and revision 0 then, and is otherwise
  -- the same.
  pub footprint_yaml-footprint_json :
      (config_ok : Bool) (descriptors : List Descriptor) (msg : FootprintMessage (List ℕ))
      → (fp : Footprint Value) → footprint_json decode config_ok descriptors msg ≡ ok fp
      → footprint_yaml decode config_ok descriptors msg
        ≡ ok (record fp { solution = ""; revision = 0 })
  unfolding footprint_json footprint_yaml with_allocations OkFollows
  footprint_yaml-footprint_json config_ok descriptors msg fp loaded =
      let components = by_name [] descriptors in
      let (cs, claimed, made) = with_allocations-ok _ _ fp loaded in
      let follows = claim_all-OkFollows config_ok msg.identifier components msg.components in
      ap (with_allocations _) (ok-OkFollows _ _ cs follows claimed)
      ∙ ap (λ (f : Footprint Value). ok (record f { solution = ""; revision = 0 })) made
