-- ===== src/FileLoader.antt =====
-- From the message of a footprint to its claims: fileloader/jsonloader.go and
-- fileloader/yamlloader.go. A message is what the JSON or YAML decoder made of the text; decoding the options
-- of a component is a parameter, `Raw` their text and `Value` what they decode to.
pub mod Loaded
pub mod Formats
pub mod Grown
pub mod Reordered
pub mod Command
mod Tests
use go_component.Prelude.{
  ℕ, String, Bool, true, false, not, ◌&&◌, ◌||◌, ◌+◌, ◌==◌, Option, none, some, List, [], ◌∷◌,
  if◌then◌else◌, Dict, read, write,
}
use Prim.Native.String.{◌++◌ as concat}
use go_component.Linker.{Descriptor}
use go_component.Targets.{TargetError, validate_targets}

-- kafkalinker.KafkaLinker, the fields that kafkalinker.New sets from its arguments
pub record Binding : Type 0 where
  pub group : String
  pub aspects : Dict String
  pub interests : Dict String

-- The exported fields of loader.Claim.
pub record Claim (Value : Type 0) : Type 0 where
  pub component : Descriptor
  pub options : Option Value
  pub binding : Binding

-- ComponentJSON, and the values of FootprintYAML.Components
pub record ComponentMessage (Raw : Type 0) : Type 0 where
  pub options : Raw
  pub aspects : Dict String
  pub interests : Dict String

-- FootprintJSON and FootprintYAML
pub record FootprintMessage (Raw : Type 0) : Type 0 where
  pub name : String
  pub metadata : String
  pub solution : String
  pub identifier : String
  pub revision : ℕ
  pub locations : List String
  pub components : Dict (ComponentMessage Raw)

-- loader.Footprint
pub record Footprint (Value : Type 0) : Type 0 where
  pub name : String
  pub metadata : String
  pub identifier : String
  pub revision : ℕ
  pub locations : List String
  pub solution : String
  pub allocations : List (Claim Value)

-- The errors of a loader, with the name of the component.
pub data LoadError : Type 0 where
  bad_targets : String → List TargetError → LoadError
  bad_options bad_binding : String → LoadError

pub data Result (A : Type 0) : Type 0 where
  ok : A → Result A
  failed : LoadError → Result A

-- for _, d := range loader.Descriptors { components[d.Name] = d }
unfoldable pub by_name : Dict Descriptor → List Descriptor → Dict Descriptor
by_name components [] = components
by_name components (d ∷ ds) = by_name (write components d.name d) ds

fold_equal : ℕ → ℕ → Bool
fold_equal byte letter = byte == letter || byte + 32 == letter

-- bytes.EqualFold(data, []byte("null"))
unfoldable pub is_null : List ℕ → Bool
unfolding fold_equal
is_null (a ∷ b ∷ c ∷ d ∷ []) =
    fold_equal a 110 && fold_equal b 117 && fold_equal c 108 && fold_equal d 108
is_null _ = false

is_empty : List ℕ → Bool
is_empty [] = true
is_empty _ = false

-- unmarshalOptionsJSON: outside it is whether it fails, inside whether the options are nil.
unfoldable pub unmarshal_options_json :
    {Value : Type 0}
    → (decode : (options_type : String) → List ℕ → Option Value) → Option String
    → List ℕ
    → Option (Option Value)
unfolding is_empty
unmarshal_options_json decode none bytes =
    if not (is_empty bytes) && not (is_null bytes) then none else some none
unmarshal_options_json decode (some rt) bytes = elim (decode rt bytes) [
  | none ↦ none
  | some value ↦ some (some value)
]

-- YAMLLoader.options
unfoldable pub options_yaml :
    {Raw Value : Type 0}
    → (decode : (options_type : String) → Raw → Option Value) → Option String
    → Raw
    → Option (Option Value)
options_yaml decode none node = some none
options_yaml decode (some rt) node = elim (decode rt node) [
  | none ↦ none
  | some value ↦ some (some value)
]

-- `config_ok` tells whether kafkalinker.Config is valid, else kafkalinker.New fails.
module _ {Raw Value : Type 0} (options : Option String → Raw → Option (Option Value))
    (config_ok : Bool) (identifier : String) where
  bind_claim : String → Descriptor → Dict String → Dict String → Option Value → Result (Claim Value)
  bind_claim name d aspects interests value =
      if config_ok
      then ok (record {
        component = d;
        options = value;
        binding = record {
          group = concat identifier (concat "/" d.name);
          aspects = aspects;
          interests = interests;
        };
      })
      else failed (bad_binding name)

  with_options :
      String → Descriptor → Dict String → Dict String → Option (Option Value) → Result (Claim Value)
  with_options name d aspects interests none = failed (bad_options name)
  with_options name d aspects interests (some value) = bind_claim name d aspects interests value

  with_targets :
      String → Descriptor → ComponentMessage Raw → List TargetError → Result (Claim Value)
  with_targets name d req [] =
      with_options name d req.aspects req.interests (options d.options_type req.options)
  with_targets name d req (e ∷ errs) = failed (bad_targets name (e ∷ errs))

  -- The body of the loop over msg.Components, for a component that is known.
  unfoldable pub claim_component : String → Descriptor → ComponentMessage Raw → Result (Claim Value)
  unfolding with_targets with_options bind_claim
  claim_component name d req =
      with_targets name d req (validate_targets d req.aspects req.interests)

  add_claim : Result (Claim Value) → Result (List (Claim Value)) → Result (List (Claim Value))
  add_claim (failed e) rest = failed e
  add_claim (ok c) (failed e) = failed e
  add_claim (ok c) (ok cs) = ok (c ∷ cs)

  add_known :
      String
      → ComponentMessage Raw
      → Option Descriptor
      → Result (List (Claim Value))
      → Result (List (Claim Value))
  unfolding add_claim
  add_known name req none rest = rest
  add_known name req (some d) rest = add_claim (claim_component name d req) rest

  -- for name, req := range msg.Components, which skips the components that are not known. The entries
  -- stand in the order in which the range visits them, which may be any.
  unfoldable pub claim_all :
      Dict Descriptor → Dict (ComponentMessage Raw) → Result (List (Claim Value))
  unfolding add_known
  claim_all components [] = ok []
  claim_all components ((name, req) ∷ reqs) =
      add_known name req (read components name) (claim_all components reqs)

pub with_allocations :
    {Value : Type 0}
    → (List (Claim Value) → Footprint Value)
    → Result (List (Claim Value))
    → Result (Footprint Value)
with_allocations fp (failed e) = failed e
with_allocations fp (ok claims) = ok (fp claims)

-- UnmarshalFootprintJSON, from the decoded message on
unfoldable pub footprint_json :
    {Value : Type 0}
    → (decode : (options_type : String) → List ℕ → Option Value)
    → (config_ok : Bool) (descriptors : List Descriptor) → FootprintMessage (List ℕ)
    → Result (Footprint Value)
unfolding with_allocations
footprint_json decode config_ok descriptors msg =
    with_allocations
      (λ claims. record {
        name = msg.name;
        metadata = msg.metadata;
        solution = msg.solution;
        identifier = msg.identifier;
        revision = msg.revision;
        locations = msg.locations;
        allocations = claims;
      })
      (claim_all (unmarshal_options_json decode) config_ok msg.identifier (by_name [] descriptors)
        msg.components)

-- YAMLLoader.footprint, from the decoded message on: Solution and Revision keep their zero values.
unfoldable pub footprint_yaml :
    {Raw Value : Type 0}
    → (decode : (options_type : String) → Raw → Option Value)
    → (config_ok : Bool) (descriptors : List Descriptor) → FootprintMessage Raw
    → Result (Footprint Value)
unfolding with_allocations
footprint_yaml decode config_ok descriptors msg =
    with_allocations
      (λ claims. record {
        name = msg.name;
        metadata = msg.metadata;
        solution = "";
        identifier = msg.identifier;
        revision = 0;
        locations = msg.locations;
        allocations = claims;
      })
      (claim_all (options_yaml decode) config_ok msg.identifier (by_name [] descriptors)
        msg.components)
