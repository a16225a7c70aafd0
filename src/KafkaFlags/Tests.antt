-- ===== src/KafkaFlags/Tests.antt =====
-- A configuration of a few fields, and instances of the theorems.
use go_component.Prelude.{
  String, true, false, ◌≡◌, ◌↔◌, ◌⊎◌, refl, arith, none, some, [], ◌∷◌, split, cut, dot,
  equals_sign, pos, ℤ, parse_int, magnitude, digits_value,
}
use go_component.KafkaFlags.{
  Kind, int, unsupported, FieldType, integer, external, Value, leaf, struct, no_fields, field,
  Parsers, bad_value, panicked, updated, find, field_named, fields_of, put, replace, set, set_pair,
  set_found, store, new_value, set_field, set_kind,
}
use go_component.KafkaFlags.Paths.{diverge}
use go_component.KafkaFlags.Stored.{set-updated}
use go_component.KafkaFlags.Leads.{Leads, set-outcomes}
use go_component.KafkaFlags.Typed.{well_typed, set-typed}

abbrev plain : Kind → FieldType
plain k = record {
  unmarshals_text = false;
  is_bytes = false;
  pointer_unmarshals_text = false;
  is_duration = false;
  is_version = false;
  kind = k;
}

-- The versions are known by texts.
abbrev parsers : Parsers String
parsers = record {
  unmarshal_text = λ v s. none;
  parse_duration = λ s. none;
  parse_version = λ s. some (
      struct (record (plain unsupported) { is_version = true })
        (field "version" false (leaf (plain unsupported) (external s)) no_fields));
  parse_float = λ bits s. none;
  zero_external = λ ty. "";
}

abbrev config_with : ℤ → Value String
config_with size = struct (plain unsupported) (
    field "ChannelBufferSize" true (leaf (plain (int 8)) (integer size)) (
      field "Version" true
        (struct (record (plain unsupported) { is_version = true })
          (field "version" false (leaf (plain unsupported) (external "3.2.1")) no_fields))
        no_fields))

sets_size :
    set parsers "ChannelBufferSize=100" (config_with (pos 0)) ≡ updated (config_with (pos 100))
unfolding set set_pair set_found store new_value set_field set_kind find field_named fields_of put
    replace split cut parse_int magnitude digits_value
sets_size = refl

refuses_size : set parsers "ChannelBufferSize=128" (config_with (pos 0)) ≡ bad_value
unfolding set set_pair set_found store new_value set_field set_kind find field_named fields_of put
    replace split cut parse_int magnitude digits_value
refuses_size = refl

size_cut : cut equals_sign "ChannelBufferSize=100" ≡ some ("ChannelBufferSize", "100")
unfolding cut
size_cut = refl

set-updated_example :
    ((old : Value String) × (new : Value String) × (find
          (split dot "ChannelBufferSize")
          true
          (config_with (pos 0))
        ≡ some (true, old))
      × (new_value parsers old "100" ≡ some new)
      × (find (split dot "ChannelBufferSize") true (config_with (pos 100)) ≡ some (true, new)))
    × ((diverge (split dot "ChannelBufferSize") ("Version" ∷ []) ≡ false)
        ⊎ (find ("Version" ∷ []) true (config_with (pos 100))
            ≡ find ("Version" ∷ []) true (config_with (pos 0))))
set-updated_example =
    set-updated parsers "ChannelBufferSize=100" "ChannelBufferSize" "100" ("Version" ∷ [])
      (config_with (pos 0)) (config_with (pos 100)) size_cut sets_size

version_cut : cut equals_sign "Version.version=nil" ≡ some ("Version.version", "nil")
unfolding cut
version_cut = refl

version_panics : set parsers "Version.version=nil" (config_with (pos 0)) ≡ panicked
unfolding set set_pair set_found find field_named fields_of split cut
version_panics = refl

set-outcomes_example :
    ((set parsers "Version.version=nil" (config_with (pos 0)) ≡ panicked) ↔ (
      (old : Value String) × Leads (split dot "Version.version") (config_with (pos 0)) false old))
    × (((cfg' : Value String) × (set parsers "Version.version=nil" (config_with (pos 0))
            ≡ updated cfg'))
        ↔ ((old : Value String) × (new : Value String) × Leads
              (split dot "Version.version")
              (config_with (pos 0))
              true
              old
            × (new_value parsers old "nil" ≡ some new)))
set-outcomes_example =
    set-outcomes parsers "Version.version=nil" "Version.version" "nil" (config_with (pos 0))
      version_cut

no_unmarshal :
    (v w : Value String) (value : String)
    → parsers.unmarshal_text v value ≡ some w
    → well_typed w ≡ true
no_unmarshal v w value made = ground arith

version_typed :
    (w : Value String) (value : String) → parsers.parse_version value ≡ some w → well_typed w ≡ true
unfolding well_typed
version_typed w value made = ground arith

set-typed_example : well_typed (config_with (pos 100)) ≡ true
unfolding well_typed
set-typed_example =
    set-typed parsers no_unmarshal version_typed "ChannelBufferSize=100" "ChannelBufferSize" "100"
      (config_with (pos 0)) (config_with (pos 100)) size_cut refl sets_size
