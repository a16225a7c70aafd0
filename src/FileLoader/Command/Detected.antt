-- ===== src/FileLoader/Command/Detected.antt =====
-- What Main loads, and that it does not panic.
use go_component.Prelude.{
  String, true, false, ◌||◌, Option, none, some, List, [], ◌∷◌, same, ◌⊎◌, inl, inr, ◌≡◌, refl, ap,
  ◌∙◌, ◌↔◌, ◌≢◌, Bool-cases,
}
use go_component.FileLoader.{Footprint}
use go_component.FileLoader.Command.{
  format_auto, format_yaml, format_json, set_format, has_suffix, Ending, invalid_argument, panicked,
  loads, Invocation, Decoders, detect_format, load_format, unread, load_read, load_detected,
  content, load_argument, main,
}
use go_component.FileLoader.Command.Decoded.{Decodes, set_Loads, load_format-Decodes}

-- The format that the flag and the name of the footprint ask for.
pub data Asks (flag name : String) : String → Type 0 where
  by_flag : same flag format_auto ≡ false → Asks flag name flag
  by_yaml :
      same flag format_auto ≡ true
      → (has_suffix ".yaml" name || has_suffix ".yml" name) ≡ true
      → Asks flag name format_yaml
  by_json :
      same flag format_auto ≡ true
      → (has_suffix ".yaml" name || has_suffix ".yml" name) ≡ false
      → has_suffix ".json" name ≡ true
      → Asks flag name format_json

module _ {Data Raw Value : Type 0} (decoders : Decoders Data Raw Value) where
  -- The footprint is what the file or the standard input decodes to, in the format asked for.
  abbrev pub IsAskedFor : Invocation Data → Footprint Value → Type 0
  IsAskedFor inv fp =
      (name : String) × (bytes : Data) × (format : String) × (inv.args ≡ name ∷ [])
      × (content decoders inv name ≡ some bytes)
      × Asks inv.format name format
      × Decodes decoders bytes format fp

  abbrev EndsWell : Invocation Data → Ending (Footprint Value) → Type 0
  EndsWell inv end =
      ((why : String) × (end ≡ invalid_argument why))
      ⊎ ((fp : Footprint Value) × (end ≡ loads fp) × IsAskedFor inv fp)

  load_read-EndsWell :
      (inv : Invocation Data) (name format : String) (o : Option Data)
      → inv.args ≡ name ∷ []
      → content decoders inv name ≡ o
      → Asks inv.format name format
      → set_format format ≡ some format
      → same format format_auto ≡ false
      → EndsWell inv (load_read decoders name o format)
  unfolding load_read
  load_read-EndsWell inv name format none named given asked accepted chosen =
      inl (unread decoders name, refl)
  load_read-EndsWell inv name format (some bytes) named given asked accepted chosen =
      elim (set_Loads decoders bytes format accepted chosen) [
        | inl exits ↦ inl exits
        | inr (fp, decoded, l) ↦ inr (fp, l, (name, bytes, format, named, given, asked, decoded))
      ]

  detect_format-EndsWell :
      (inv : Invocation Data) (name : String)
      → inv.args ≡ name ∷ []
      → same inv.format format_auto ≡ true
      → EndsWell inv (load_detected decoders name (content decoders inv name) (detect_format name))
  unfolding detect_format load_detected set_format
  detect_format-EndsWell inv name named auto =
      let o = content decoders inv name in
      elim (Bool-cases (has_suffix ".yaml" name || has_suffix ".yml" name)) [
        | inl yaml ↦
            rw yaml
              (load_read-EndsWell inv name format_yaml o named refl (by_yaml auto yaml) refl refl)
        | inr not_yaml ↦ elim (Bool-cases (has_suffix ".json" name)) [
          | inl json ↦
              rw (not_yaml, json)
                (load_read-EndsWell inv name format_json o named refl (by_json auto not_yaml json)
                  refl refl)
          | inr not_json ↦ elim (Bool-cases (same name "-")) [
            | inl stdin ↦
                rw (not_yaml, not_json, stdin) (inl ("cannot auto-detect format from stdin", refl))
            | inr file ↦
                rw (not_yaml, not_json, file)
                  (inl ("cannot auto-detect format from file extension", refl))
          ]
        ]
      ]

  load_argument-EndsWell :
      (inv : Invocation Data) (args : List String)
      → inv.args ≡ args
      → set_format inv.format ≡ some inv.format
      → EndsWell inv (load_argument decoders inv args)
  unfolding load_argument load_detected
  load_argument-EndsWell inv [] named accepted = inl ("missing required footprint argument", refl)
  load_argument-EndsWell inv (a ∷ b ∷ args) named accepted =
      inl ("missing required footprint argument", refl)
  load_argument-EndsWell inv (name ∷ []) named accepted =
      elim (Bool-cases (same inv.format format_auto)) [
        | inl auto ↦ rw auto (detect_format-EndsWell inv name named auto)
        | inr chosen ↦ rw chosen (
            load_read-EndsWell inv name inv.format (content decoders inv name) named refl
              (by_flag chosen) accepted chosen)
      ]

  main-EndsWell :
      (inv : Invocation Data)
      → set_format inv.format ≡ some inv.format
      → EndsWell inv (main decoders inv)
  unfolding main
  main-EndsWell inv accepted = load_argument-EndsWell inv inv.args refl accepted

  load_detected-Asks :
      (inv : Invocation Data) (name : String) {bytes : Data} {format : String}
      → content decoders inv name ≡ some bytes
      → Asks inv.format name format
      → load_argument decoders inv (name ∷ []) ≡ load_format decoders true bytes format
  unfolding load_argument load_detected load_read detect_format
  load_detected-Asks inv name given (by_flag chosen) = rw (chosen, given) refl
  load_detected-Asks inv name given (by_yaml auto yaml) = rw (auto, yaml, given) refl
  load_detected-Asks inv name given (by_json auto not_yaml json) =
      rw (auto, not_yaml, json, given) refl

  main-IsAskedFor :
      (inv : Invocation Data) (fp : Footprint Value)
      → IsAskedFor inv fp
      → main decoders inv ≡ loads fp
  unfolding main
  main-IsAskedFor inv fp (name, bytes, format, named, given, asked, decoded) =
      ap (load_argument decoders inv) named
      ∙ load_detected-Asks inv name given asked
      ∙ load_format-Decodes decoders decoded

  loads_of_EndsWell :
      (inv : Invocation Data) {end : Ending (Footprint Value)} (fp : Footprint Value)
      → EndsWell inv end
      → end ≡ loads fp
      → IsAskedFor inv fp
  loads_of_EndsWell inv fp (inl (why, exits)) e = cc
  loads_of_EndsWell inv fp (inr (fp2, l, asked)) e =
      let same_footprint : fp ≡ fp2 = cc in rw same_footprint asked

  no_panic_of_EndsWell :
      (inv : Invocation Data) {end : Ending (Footprint Value)} {why : String}
      → EndsWell inv end
      → end ≢ panicked why
  no_panic_of_EndsWell inv (inl (other, exits)) e = cc
  no_panic_of_EndsWell inv (inr (fp, l, asked)) e = cc

  -- Where ParseFlags has returned and the value of -footprint-format is one that FormatFlag.Set accepts, Main
  -- comes to the call of loader.Load with a footprint just where there is one positional argument, the file of that name or the standard input can be read,
  -- and its content decodes to that footprint in the format that the flag names, or, at auto, the
  -- suffix of the argument. Between the return of ParseFlags and that call it does not panic.
  pub main-loads :
      (inv : Invocation Data)
      → set_format inv.format ≡ some inv.format
      → ((fp : Footprint Value) → (main decoders inv ≡ loads fp) ↔ IsAskedFor inv fp)
        × ((why : String) → main decoders inv ≢ panicked why)
  main-loads inv accepted = (
    (λ fp. (loads_of_EndsWell inv fp (main-EndsWell inv accepted), main-IsAskedFor inv fp)),
    (λ why e. no_panic_of_EndsWell inv (main-EndsWell inv accepted) e),
  )
