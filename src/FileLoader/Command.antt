-- ===== src/FileLoader/Command.antt =====
-- The command of fileloader/fileloader.go: FormatFlag, Main and Load.
pub mod Decoded
pub mod Detected
mod Tests
use go_component.Prelude.{
  String, Bool, true, not, ◌||◌, Option, none, some, List, [], ◌∷◌, same, if◌then◌else◌, ℕ, ◌⊎◌,
  inl, inr,
}
use go_component.Linker.{Descriptor}
use go_component.FileLoader.{
  FootprintMessage, Footprint, Result, ok, failed, footprint_json, footprint_yaml,
}

-- The values of FormatFlag.
abbrev pub format_auto : String
format_auto = "auto"

abbrev pub format_yaml : String
format_yaml = "yaml"

abbrev pub format_json : String
format_json = "json"

-- FormatFlag.Set: `none` is its error.
unfoldable pub set_format : String → Option String
set_format s =
    if same s format_yaml || same s format_json || same s format_auto then some s else none

-- strings.HasSuffix
unfoldable pub has_suffix : String → String → Bool
has_suffix suffix String.[] = same "" suffix
has_suffix suffix (String.◌∷◌ c s) =
    let rest = has_suffix suffix s in same (String.◌∷◌ c s) suffix || rest

-- How Main ends: InvalidArgument exits the process, a panic, or the footprint that loader.Load is
-- called with. A text ends where that of an error or a format follows.
pub data Ending (A : Type 0) : Type 0 where
  invalid_argument panicked : String → Ending A
  loads : A → Ending A

-- What the command line, once parsed, and the operating system give: the value of
-- -footprint-format, the positional arguments, and what reading the standard input or a file gives.
pub record Invocation (Data : Type 0) : Type 0 where
  pub format : String
  pub args : List String
  pub stdin : Option Data
  pub file : String → Option Data

-- What the decoders make of data, and the descriptors that ParseFlags left.
pub record Decoders (Data Raw Value : Type 0) : Type 0 where
  pub yaml_message : Data → Option (FootprintMessage Raw)
  pub json_message : Data → Option (FootprintMessage (List ℕ))
  pub yaml_options : String → Raw → Option Value
  pub json_options : String → List ℕ → Option Value
  pub config_ok : Bool
  pub descriptors : List Descriptor

-- The switch on the name of the footprint.
unfoldable pub detect_format : {A : Type 0} → String → Ending A ⊎ String
detect_format name =
    if has_suffix ".yaml" name || has_suffix ".yml" name
    then inr format_yaml
    else if has_suffix ".json" name
    then inr format_json
    else if same name "-"
    then inl (invalid_argument "cannot auto-detect format from stdin")
    else inl (invalid_argument "cannot auto-detect format from file extension")

module _ {Data Raw Value : Type 0} (decoders : Decoders Data Raw Value) where
  -- YAMLLoader.footprint
  yaml_footprint : Option (FootprintMessage Raw) → Option (Result (Footprint Value))
  yaml_footprint none = none
  yaml_footprint (some msg) =
      some (footprint_yaml decoders.yaml_options decoders.config_ok decoders.descriptors msg)

  -- UnmarshalFootprintJSON
  json_footprint : Option (FootprintMessage (List ℕ)) → Option (Result (Footprint Value))
  json_footprint none = none
  json_footprint (some msg) =
      some (footprint_json decoders.json_options decoders.config_ok decoders.descriptors msg)

  -- loader.Load, or the exit where there is no footprint.
  load_footprint : Option (Result (Footprint Value)) → Ending (Footprint Value)
  load_footprint none = invalid_argument "cannot load footprint: "
  load_footprint (some (failed e)) = invalid_argument "cannot load footprint: "
  load_footprint (some (ok fp)) = loads fp

  -- Load: `parsed` is loader.CommandLine.Parsed().
  unfoldable pub load_format : (parsed : Bool) → Data → (format : String) → Ending (Footprint Value)
  unfolding yaml_footprint json_footprint load_footprint
  load_format parsed bytes format =
      if not parsed
      then panicked "component/fileloader: loader.ParseFlags must be called"
      else if same format format_yaml
      then load_footprint (yaml_footprint (decoders.yaml_message bytes))
      else if same format format_json
      then load_footprint (json_footprint (decoders.json_message bytes))
      else if same format format_auto
      then panicked "component/fileloader: cannot auto-detect format from bytes"
      else panicked "component/fileloader: unknown format: "

  unread : String → String
  unread name = if same name "-" then "cannot read stdin: " else "cannot read file: "

  load_read : (name : String) → Option Data → String → Ending (Footprint Value)
  unfolding unread
  load_read name none format = invalid_argument (unread name)
  load_read name (some bytes) format = load_format true bytes format

  load_detected :
      (name : String) → Option Data → Ending (Footprint Value) ⊎ String → Ending (Footprint Value)
  unfolding load_read
  load_detected name bytes (inl end) = end
  load_detected name bytes (inr format) = load_read name bytes format

  -- What the standard input or the file gives.
  unfoldable pub content : Invocation Data → String → Option Data
  content inv name = if same name "-" then inv.stdin else inv.file name

  load_argument : Invocation Data → List String → Ending (Footprint Value)
  unfolding load_detected
  load_argument inv (name ∷ []) =
      load_detected name (content inv name)
        (if same inv.format format_auto then detect_format name else inr inv.format)
  load_argument inv args = invalid_argument "missing required footprint argument"

  -- Main, from the return of ParseFlags to the call of loader.Load
  unfoldable pub main : Invocation Data → Ending (Footprint Value)
  unfolding load_argument
  main inv = load_argument inv inv.args
