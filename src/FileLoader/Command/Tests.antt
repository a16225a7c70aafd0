-- ===== src/FileLoader/Command/Tests.antt =====
-- A JSON footprint in a file, with a flag that leaves the format open, and an instance of the theorem.
use go_component.Prelude.{String, ℕ, true, ◌≡◌, ◌≢◌, ◌↔◌, refl, none, some, List, [], ◌∷◌}
use go_component.FileLoader.{
  FootprintMessage, Footprint, by_name, claim_all, footprint_json, with_allocations,
}
use go_component.FileLoader.Command.{
  format_auto, set_format, has_suffix, invalid_argument, panicked, loads, Invocation, Decoders,
  detect_format, load_format, content, main,
}
use go_component.FileLoader.Command.Detected.{IsAskedFor, main-loads}

abbrev message : FootprintMessage (List ℕ)
message = record {
  name = "demo";
  metadata = "";
  solution = "retail";
  identifier = "id";
  revision = 4;
  locations = [];
  components = [];
}

abbrev footprint : Footprint ℕ
footprint = record {
  name = "demo";
  metadata = "";
  identifier = "id";
  revision = 4;
  locations = [];
  solution = "retail";
  allocations = [];
}

-- Data is known by a number, and 7 is the message.
abbrev decoders : Decoders ℕ ℕ ℕ
decoders = record {
  yaml_message = λ bytes. none;
  json_message = λ bytes. some message;
  yaml_options = λ type node. none;
  json_options = λ type bytes. none;
  config_ok = true;
  descriptors = [];
}

abbrev invocation : Invocation ℕ
invocation = record {
  format = format_auto;
  args = "f.json" ∷ [];
  stdin = none;
  file = λ name. some 7;
}

loads_json : main decoders invocation ≡ loads footprint
unfolding main content detect_format has_suffix load_format footprint_json with_allocations
    claim_all by_name
loads_json = refl

-- The standard input has no suffix.
refuses_stdin :
    main decoders (record invocation { args = "-" ∷ []; stdin = some 7 })
    ≡ invalid_argument "cannot auto-detect format from stdin"
unfolding main content detect_format has_suffix load_format
refuses_stdin = refl

main-loads_example :
    ((fp : Footprint ℕ) → (main decoders invocation ≡ loads fp) ↔ IsAskedFor decoders invocation fp)
    × ((why : String) → main decoders invocation ≢ panicked why)
unfolding set_format
main-loads_example = main-loads decoders invocation refl
