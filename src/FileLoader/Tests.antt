-- ===== src/FileLoader/Tests.antt =====
-- A footprint of one component, and instances of the theorems.
use go_component.Prelude.{ℕ, String, true, ◌≡◌, ◌≢◌, ◌↔◌, refl, Option, none, List, [], ◌∷◌, Dict}
use go_component.Linker.{Descriptor, contains, target_unknown}
use go_component.FileLoader.{
  Claim, FootprintMessage, Footprint, ok, by_name, is_null, is_empty, unmarshal_options_json,
  claim_component, claim_all, bind_claim, with_options, with_targets, add_claim, add_known,
  with_allocations, footprint_json, footprint_yaml,
}
use go_component.Targets.{
  footprint_missing_aspect, descriptor_missing_interest, lookup_set, missing_in_footprint,
  missing_in_descriptor, validate_targets,
}
use go_component.Targets.Agree.{has, validate_targets-exact}
use go_component.FileLoader.Loaded.{here, claim_linker, footprint_json-links}
use go_component.FileLoader.Formats.{footprint_yaml-footprint_json}

abbrev shop : Descriptor
shop = record { name = "shop"; options_type = none; aspects = "orders" ∷ []; interests = [] }

abbrev topics : Dict String
topics = ("orders", "t") ∷ []

bad_targets_reported :
    validate_targets shop [] topics
    ≡ footprint_missing_aspect "orders" ∷ descriptor_missing_interest "orders" ∷ []
unfolding validate_targets lookup_set missing_in_footprint missing_in_descriptor contains
bad_targets_reported = refl

validate_targets-exact_example : (validate_targets shop topics [] ≡ []) ↔ (
    (name : String)
    → (has topics name ≡ contains shop.aspects name)
      × (has {V = String} [] name ≡ contains shop.interests name))
validate_targets-exact_example = validate_targets-exact shop topics []

-- No component of the tests has a type of options.
abbrev no_decode : String → List ℕ → Option ℕ
no_decode rt bytes = none

abbrev message : FootprintMessage (List ℕ)
message = record {
  name = "demo";
  metadata = "";
  solution = "retail";
  identifier = "id";
  revision = 4;
  locations = [];
  components = ("shop", record { options = []; aspects = topics; interests = [] }) ∷ [];
}

abbrev shop_claim : Claim ℕ
shop_claim = record {
  component = shop;
  options = none;
  binding = record { group = "id/shop"; aspects = topics; interests = [] };
}

abbrev loaded : Footprint ℕ
loaded = record {
  name = "demo";
  metadata = "";
  identifier = "id";
  revision = 4;
  locations = [];
  solution = "retail";
  allocations = shop_claim ∷ [];
}

message_loads : footprint_json no_decode true (shop ∷ []) message ≡ ok loaded
unfolding footprint_json with_allocations claim_all add_known add_claim claim_component with_targets
    with_options bind_claim unmarshal_options_json is_empty is_null by_name validate_targets
    lookup_set missing_in_footprint missing_in_descriptor contains
message_loads = refl

footprint_json-links_example :
    ((claim_linker (λ (host : String). host) (λ host query. host) shop_claim).link_aspect "orders"
      ≢ target_unknown)
    × ((claim_linker (λ (host : String). host) (λ host query. host) shop_claim).link_interest
          "orders"
        ≢ target_unknown)
footprint_json-links_example =
    footprint_json-links no_decode true (shop ∷ []) (λ host. host) (λ host query. host) message
      loaded shop_claim "orders" message_loads here

footprint_yaml-footprint_json_example :
    footprint_yaml no_decode true (shop ∷ []) message
    ≡ ok (record loaded { solution = ""; revision = 0 })
footprint_yaml-footprint_json_example =
    footprint_yaml-footprint_json no_decode true (shop ∷ []) message loaded message_loads
