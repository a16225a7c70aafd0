-- ===== src/FileLoader/Loaded.antt =====
-- The claims of a loaded footprint, and what the two formats make of one message.
use go_component.Prelude.{
  ℕ, String, Bool, true, ◌≡◌, ◌≢◌, refl, ap, inl, inr, Option, none, some, List, [], ◌∷◌, Dict,
  read, arith, Bool-cases, subst,
}
use Prim.Native.String.{◌++◌ as concat}
use go_component.Linker.{Descriptor, target_unknown, Linker, kafka_linker, protect_linker}
use go_component.FileLoader.{
  Claim, ComponentMessage, FootprintMessage, Footprint, Result, ok, failed, bind_claim,
  with_options, with_targets, claim_component, add_claim, add_known, claim_all, with_allocations,
  footprint_json, unmarshal_options_json,
}
use go_component.Targets.{TargetError, validate_targets}
use go_component.Targets.Agree.{validate_targets-agree}

-- The component of a claim, with targets that validateTargets accepts.
pub IsValid : {Value : Type 0} → Claim Value → Type 0
IsValid c = validate_targets c.component c.binding.aspects c.binding.interests ≡ []

-- For results: of the claim or claims, if there is no error.
OkValid : {Value : Type 0} → Result (Claim Value) → Type 0
OkValid (failed e) = true ≡ true
OkValid (ok c) = IsValid c

pub AllValid : {Value : Type 0} → List (Claim Value) → Type 0
AllValid [] = true ≡ true
AllValid (c ∷ cs) = IsValid c × AllValid cs

AllOk : {Value : Type 0} → Result (List (Claim Value)) → Type 0
AllOk (failed e) = true ≡ true
AllOk (ok cs) = AllValid cs

pub data In {Value : Type 0} (c : Claim Value) : List (Claim Value) → Type 0 where
  here : {cs : List (Claim Value)} → In c (c ∷ cs)
  there : {b : Claim Value} {cs : List (Claim Value)} → In c cs → In c (b ∷ cs)

AllValid-In :
    {Value : Type 0} {c : Claim Value} {cs : List (Claim Value)} → In c cs → AllValid cs → IsValid c
unfolding AllValid
AllValid-In here (valid, others) = valid
AllValid-In (there found) (valid, others) = AllValid-In found others

module _ {Opened : Type 0} (open_topic : String → Opened)
    (open_subscription : String → String → Opened) where
  -- The linker that Bootstrap gets from Claim.Exec.
  abbrev pub claim_linker : {Value : Type 0} → Claim Value → Linker Opened
  claim_linker c =
      protect_linker
        (kafka_linker open_topic open_subscription c.binding.group c.binding.aspects
          c.binding.interests)
        c.component

  pub claim_linker-known :
      {Value : Type 0} (c : Claim Value) (target : String)
      → IsValid c
      → ((claim_linker c).link_aspect target ≢ target_unknown)
        × ((claim_linker c).link_interest target ≢ target_unknown)
  unfolding protect_linker kafka_linker IsValid
  claim_linker-known c target valid =
      ground (
        arith,
        validate_targets-agree c.component c.binding.aspects c.binding.interests valid target,
      )

module _ {Raw Value : Type 0} (options : Option String → Raw → Option (Option Value))
    (config_ok : Bool) (identifier : String) where
  with_options-OkValid :
      (name : String) (d : Descriptor) (req : ComponentMessage Raw) (o : Option (Option Value))
      → validate_targets d req.aspects req.interests ≡ []
      → OkValid (with_options options config_ok identifier name d req.aspects req.interests o)
  unfolding OkValid IsValid with_options bind_claim
  with_options-OkValid name d req none valid = refl
  with_options-OkValid name d req (some value) valid = elim (Bool-cases config_ok) [
    | inl fine ↦ rw fine valid
    | inr broken ↦ rw broken refl
  ]

  with_targets-OkValid :
      (name : String) (d : Descriptor) (req : ComponentMessage Raw) (errs : List TargetError)
      → validate_targets d req.aspects req.interests ≡ errs
      → OkValid (with_targets options config_ok identifier name d req errs)
  unfolding OkValid with_targets
  with_targets-OkValid name d req [] valid =
      with_options-OkValid name d req (options d.options_type req.options) valid
  with_targets-OkValid name d req (e ∷ errs) invalid = refl

  add_claim-AllOk :
      (r : Result (Claim Value)) (rest : Result (List (Claim Value)))
      → OkValid r
      → AllOk rest
      → AllOk (add_claim options config_ok identifier r rest)
  unfolding OkValid AllOk AllValid add_claim
  add_claim-AllOk (failed e) rest valid others = refl
  add_claim-AllOk (ok c) (failed e) valid others = refl
  add_claim-AllOk (ok c) (ok cs) valid others = (valid, others)

  add_known-AllOk :
      (name : String) (req : ComponentMessage Raw) (known : Option Descriptor)
      → (rest : Result (List (Claim Value))) → AllOk rest
      → AllOk (add_known options config_ok identifier name req known rest)
  unfolding add_known claim_component
  add_known-AllOk name req none rest others = others
  add_known-AllOk name req (some d) rest others =
      add_claim-AllOk _ rest (with_targets-OkValid name d req _ refl) others

  claim_all-AllOk :
      (components : Dict Descriptor) (reqs : Dict (ComponentMessage Raw))
      → AllOk (claim_all options config_ok identifier components reqs)
  unfolding claim_all AllOk AllValid
  claim_all-AllOk components [] = refl
  claim_all-AllOk components ((name, req) ∷ reqs) =
      add_known-AllOk name req (read components name) _ (claim_all-AllOk components reqs)

  claim_all-IsValid :
      (components : Dict Descriptor) (reqs : Dict (ComponentMessage Raw)) (cs : List (Claim Value))
      → claim_all options config_ok identifier components reqs ≡ ok cs
      → AllValid cs
  unfolding AllOk
  claim_all-IsValid components reqs cs claimed =
      subst AllOk claimed (claim_all-AllOk components reqs)

pub claim_component-ok :
    {Raw Value : Type 0} (options : Option String → Raw → Option (Option Value))
    → (identifier name : String) (d : Descriptor) (req : ComponentMessage Raw)
    → (value : Option Value) → validate_targets d req.aspects req.interests ≡ []
    → options d.options_type req.options ≡ some value
    → claim_component options true identifier name d req
      ≡ ok (record {
        component = d;
        options = value;
        binding = record {
          group = concat identifier (concat "/" d.name);
          aspects = req.aspects;
          interests = req.interests;
        };
      })
unfolding claim_component with_targets with_options bind_claim
claim_component-ok options identifier name d req value valid decoded = rw (valid, decoded) refl

pub with_allocations-ok :
    {Value : Type 0} (fp : List (Claim Value) → Footprint Value) (r : Result (List (Claim Value)))
    → (loaded : Footprint Value) → with_allocations fp r ≡ ok loaded
    → (cs : List (Claim Value)) × (r ≡ ok cs) × (fp cs ≡ loaded)
unfolding with_allocations
with_allocations-ok fp (failed e) loaded succeeded = ground arith
with_allocations-ok fp (ok cs) loaded succeeded = (cs, refl, ground arith)

module _ {Value : Type 0} (decode : String → List ℕ → Option Value) (config_ok : Bool)
    (descriptors : List Descriptor) where
  pub footprint_json-IsValid :
      (msg : FootprintMessage (List ℕ)) (fp : Footprint Value)
      → footprint_json decode config_ok descriptors msg ≡ ok fp
      → AllValid fp.allocations
  unfolding footprint_json
  footprint_json-IsValid msg fp loaded =
      let (cs, claimed, made) = with_allocations-ok _ _ fp loaded in
      subst AllValid (ap (λ f. f.allocations) made)
        (claim_all-IsValid (unmarshal_options_json decode) config_ok msg.identifier _ _ cs claimed)

  -- A component of a footprint that UnmarshalFootprintJSON accepts never gets ErrTargetUnknown from
  -- the linker that Claim.Exec hands to its Bootstrap, for any name of an aspect or an interest.
  pub footprint_json-links :
      {Opened : Type 0}
      → (open_topic : String → Opened) (open_subscription : String → String → Opened)
      → (msg : FootprintMessage (List ℕ)) (fp : Footprint Value) (c : Claim Value) (target : String)
      → footprint_json decode config_ok descriptors msg ≡ ok fp
      → In c fp.allocations
      → ((claim_linker open_topic open_subscription c).link_aspect target ≢ target_unknown)
        × ((claim_linker open_topic open_subscription c).link_interest target ≢ target_unknown)
  footprint_json-links open_topic open_subscription msg fp c target loaded allocated =
      claim_linker-known open_topic open_subscription c target
        (AllValid-In allocated (footprint_json-IsValid msg fp loaded))
