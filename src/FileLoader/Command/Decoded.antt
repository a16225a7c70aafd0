-- ===== src/FileLoader/Command/Decoded.antt =====
-- What Load makes of data in a format that FormatFlag.Set accepts.
use go_component.Prelude.{
  String, true, false, Option, none, some, List, same, ℕ, ◌⊎◌, inl, inr, ◌≡◌, refl, arith, eq_iff,
  Bool-cases,
}
use go_component.FileLoader.{
  FootprintMessage, Footprint, Result, ok, failed, footprint_json, footprint_yaml,
}
use go_component.FileLoader.Command.{
  format_auto, format_yaml, format_json, set_format, invalid_argument, loads, Decoders,
  yaml_footprint, json_footprint, load_footprint, load_format,
}

same-equal : (s t : String) → same s t ≡ true → s ≡ t
same-equal s t equal = ground (arith, eq_iff s t)

module _ {Data Raw Value : Type 0} (decoders : Decoders Data Raw Value) where
  -- A footprint that data decodes to in a format.
  pub data Decodes (data_read : Data) : String → Footprint Value → Type 0 where
    as_yaml :
        {msg : FootprintMessage Raw} {fp : Footprint Value}
        → decoders.yaml_message data_read ≡ some msg
        → footprint_yaml decoders.yaml_options decoders.config_ok decoders.descriptors msg ≡ ok fp
        → Decodes data_read format_yaml fp
    as_json :
        {msg : FootprintMessage (List ℕ)} {fp : Footprint Value}
        → decoders.json_message data_read ≡ some msg
        → footprint_json decoders.json_options decoders.config_ok decoders.descriptors msg ≡ ok fp
        → Decodes data_read format_json fp

  load_footprint-cases :
      (o : Option (Result (Footprint Value)))
      → ((why : String) × (load_footprint decoders o ≡ invalid_argument why))
        ⊎ ((fp : Footprint Value) × (o ≡ some (ok fp)) × (load_footprint decoders o ≡ loads fp))
  unfolding load_footprint
  load_footprint-cases none = inl ("cannot load footprint: ", refl)
  load_footprint-cases (some (failed e)) = inl ("cannot load footprint: ", refl)
  load_footprint-cases (some (ok fp)) = inr (fp, refl, refl)

  yaml_footprint-Decodes :
      (bytes : Data) (o : Option (FootprintMessage Raw)) {fp : Footprint Value}
      → decoders.yaml_message bytes ≡ o
      → yaml_footprint decoders o ≡ some (ok fp)
      → Decodes bytes format_yaml fp
  unfolding yaml_footprint
  yaml_footprint-Decodes bytes none read e = ground arith
  yaml_footprint-Decodes bytes (some msg) read e = as_yaml read (ground arith)

  json_footprint-Decodes :
      (bytes : Data) (o : Option (FootprintMessage (List ℕ))) {fp : Footprint Value}
      → decoders.json_message bytes ≡ o
      → json_footprint decoders o ≡ some (ok fp)
      → Decodes bytes format_json fp
  unfolding json_footprint
  json_footprint-Decodes bytes none read e = ground arith
  json_footprint-Decodes bytes (some msg) read e = as_json read (ground arith)

  -- A footprint, or an exit for want of one.
  abbrev pub Loads : Data → String → Type 0
  Loads bytes format =
      ((why : String) × (load_format decoders true bytes format ≡ invalid_argument why))
      ⊎ ((fp : Footprint Value) × Decodes bytes format fp
          × (load_format decoders true bytes format ≡ loads fp))

  yaml_Loads : (bytes : Data) → Loads bytes format_yaml
  unfolding load_format
  yaml_Loads bytes =
      let o = decoders.yaml_message bytes in
      elim (load_footprint-cases (yaml_footprint decoders o)) [
        | inl exits ↦ inl exits
        | inr (fp, e, l) ↦ inr (fp, yaml_footprint-Decodes bytes o refl e, l)
      ]

  json_Loads : (bytes : Data) → Loads bytes format_json
  unfolding load_format
  json_Loads bytes =
      let o = decoders.json_message bytes in
      elim (load_footprint-cases (json_footprint decoders o)) [
        | inl exits ↦ inl exits
        | inr (fp, e, l) ↦ inr (fp, json_footprint-Decodes bytes o refl e, l)
      ]

  -- A format that FormatFlag.Set accepts, other than auto.
  pub set_Loads :
      (bytes : Data) (format : String)
      → set_format format ≡ some format
      → same format format_auto ≡ false
      → Loads bytes format
  unfolding set_format
  set_Loads bytes format accepted chosen = elim (Bool-cases (same format format_yaml)) [
    | inl yaml ↦ rw (same-equal format format_yaml yaml) (yaml_Loads bytes)
    | inr other ↦ rw (same-equal format format_json (ground arith)) (json_Loads bytes)
  ]

  pub load_format-Decodes :
      {bytes : Data} {format : String} {fp : Footprint Value}
      → Decodes bytes format fp
      → load_format decoders true bytes format ≡ loads fp
  unfolding load_format yaml_footprint json_footprint load_footprint
  load_format-Decodes (as_yaml read decoded) = rw (read, decoded) refl
  load_format-Decodes (as_json read decoded) = rw (read, decoded) refl
