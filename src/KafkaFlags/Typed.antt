-- ===== src/KafkaFlags/Typed.antt =====
-- A number that ConfigFlag.Set stores fits into its field.
use go_component.Prelude.{
  String, Bool, true, false, ◌&&◌, ◌||◌, ◌≡◌, refl, Option, none, some, List, [], ◌∷◌,
  if◌then◌else◌, arith, split, cut, dot, equals_sign, parse_int, parse_uint, parse_int-fits,
  pow-pos, ◌-◌, parse_uint-fits, fits_int, fits_uint, Option-cases, Bool-cases, inl, inr, subst,
}
use mathlib.Core.Option.{map as map_option}
use go_component.KafkaFlags.Stored.{set_found-updated}
use go_component.KafkaFlags.{
  stored, Kind, string, bool, int, uint, float, unsupported, FieldType, Content, text, bytes,
  boolean, integer, natural, external, Value, leaf, nil_pointer, pointer, struct, Fields, no_fields,
  field, Parsers, updated, type_of, find, put, replace, zero, zero_fields, zero_kind, zero_content,
  set_kind, set_field, new_value, set_pair, set,
}

module _ {Ext : Type 0} where
  -- A content that a field of the kind can hold.
  abbrev pub holds_kind : Kind → Content Ext → Bool
  holds_kind string (text s) = true
  holds_kind bool (boolean b) = true
  holds_kind (int bits) (integer z) = fits_int bits z
  holds_kind (uint bits) (natural n) = fits_uint bits n
  holds_kind (float bits) (external e) = true
  holds_kind unsupported (external e) = true
  holds_kind _ _ = false

  abbrev pub is_external : Content Ext → Bool
  is_external (external e) = true
  is_external _ = false

  abbrev pub is_text_bytes : Content Ext → Bool
  is_text_bytes (bytes s) = true
  is_text_bytes _ = false

  abbrev pub holds : FieldType → Content Ext → Bool
  holds ty c =
      if ty.is_bytes
      then is_text_bytes c
      else if ty.is_duration || ty.is_version
      then is_external c
      else holds_kind ty.kind c

  unfoldable mutual
    -- Every value in the tree is one of its type.
    pub well_typed : Value Ext → Bool
    well_typed (leaf ty c) = holds ty c
    well_typed (nil_pointer ty) = true
    well_typed (pointer ty v) = well_typed v
    well_typed (struct ty fs) = fields_typed fs

    fields_typed : Fields Ext → Bool
    fields_typed no_fields = true
    fields_typed (field name exported v fs) = well_typed v && fields_typed fs

  replace-typed :
      (name : String) (f : Value Ext → Value Ext) (fs : Fields Ext)
      → ((v : Value Ext) → well_typed v ≡ true → well_typed (f v) ≡ true)
      → fields_typed fs ≡ true
      → fields_typed (replace name f fs) ≡ true
  unfolding replace well_typed
  replace-typed name f no_fields keeps typed = refl
  replace-typed name f (field n exported v fs) keeps typed =
      ground (arith, keeps v, replace-typed name f fs keeps)

  put-typed :
      (path : List String) (new v : Value Ext)
      → well_typed new ≡ true
      → well_typed v ≡ true
      → well_typed (put path new v) ≡ true
  unfolding put well_typed
  put-typed [] new v fits typed = fits
  put-typed (name ∷ names) new (struct ty fs) fits typed =
      replace-typed name (put names new) fs (λ w. put-typed names new w fits) typed
  put-typed (name ∷ names) new (pointer ty (struct ty' fs)) fits typed =
      replace-typed name (put names new) fs (λ w. put-typed names new w fits) typed
  put-typed (name ∷ names) new (pointer ty (leaf ty' c)) fits typed = typed
  put-typed (name ∷ names) new (pointer ty (nil_pointer ty')) fits typed = typed
  put-typed (name ∷ names) new (pointer ty (pointer ty' v)) fits typed = typed
  put-typed (name ∷ names) new (leaf ty c) fits typed = typed
  put-typed (name ∷ names) new (nil_pointer ty) fits typed = typed

  module _ (p : Parsers Ext) where
    zero_content-holds : (ty : FieldType) → holds ty (zero_content p ty) ≡ true
    zero_content-holds ty = elim (Bool-cases ty.is_bytes) [
      | inl raw ↦ rw raw refl
      | inr cooked ↦ elim (Bool-cases (ty.is_duration || ty.is_version)) [
        | inl special ↦ rw (cooked, special) refl
        | inr plain ↦ rw (cooked, plain) (holds_zero _ ty.kind)
      ]
    ]
      where
        holds_zero : (t : FieldType) (k : Kind) → holds_kind k (zero_kind p t k) ≡ true
        holds_zero t string = refl
        holds_zero t bool = refl
        holds_zero t (int bits) = ground (arith, pow-pos (bits - 1))
        holds_zero t (uint bits) = ground (arith, pow-pos bits)
        holds_zero t (float bits) = refl
        holds_zero t unsupported = refl

    mutual
      unfolding zero well_typed

      zero-typed : (v : Value Ext) → well_typed (zero p v) ≡ true
      zero-typed (leaf ty c) = zero_content-holds ty
      zero-typed (nil_pointer ty) = refl
      zero-typed (pointer ty v) = refl
      zero-typed (struct ty fs) = zero_fields-typed fs

      zero_fields-typed : (fs : Fields Ext) → fields_typed (zero_fields p fs) ≡ true
      zero_fields-typed no_fields = refl
      zero_fields-typed (field name exported v fs) =
          ground (arith, zero-typed v, zero_fields-typed fs)

    set_kind-holds :
        (k : Kind) (value : String) (c : Content Ext)
        → set_kind p k value ≡ some c
        → holds_kind k c ≡ true
    unfolding set_kind
    set_kind-holds string value c made = ground arith
    set_kind-holds bool value c made = ground arith
    set_kind-holds (int bits) value c made = elim (Option-cases (parse_int bits value)) [
      | inl bad ↦ ground arith
      | inr (n, parsed) ↦ ground (arith, parse_int-fits bits value n parsed)
    ]
    set_kind-holds (uint bits) value c made = elim (Option-cases (parse_uint bits value)) [
      | inl bad ↦ ground arith
      | inr (n, parsed) ↦ ground (arith, parse_uint-fits bits value n parsed)
    ]
    set_kind-holds (float bits) value c made = ground arith
    set_kind-holds unsupported value c made = ground arith

    stored_external-typed :
        (ty : FieldType) (o : Option Ext) (w : Value Ext)
        → ty.is_bytes ≡ false
        → ty.is_duration || ty.is_version ≡ true
        → stored ty (map_option external o) ≡ some w
        → well_typed w ≡ true
    unfolding well_typed
    stored_external-typed ty none w cooked special made = ground arith
    stored_external-typed ty (some e) w cooked special made = ground arith

    stored_kind-typed :
        (ty : FieldType) (value : String) (o : Option (Content Ext)) (w : Value Ext)
        → set_kind p ty.kind value ≡ o
        → ty.is_bytes ≡ false
        → ty.is_duration || ty.is_version ≡ false
        → stored ty o ≡ some w
        → well_typed w ≡ true
    unfolding well_typed
    stored_kind-typed ty value none w set cooked plain made = ground arith
    stored_kind-typed ty value (some c) w set cooked plain made =
        ground (arith, set_kind-holds ty.kind value c set)

    stored_bytes-typed :
        (ty : FieldType) (value : String) (w : Value Ext)
        → ty.is_bytes ≡ true
        → some (leaf ty (bytes value)) ≡ some w
        → well_typed w ≡ true
    unfolding well_typed
    stored_bytes-typed ty value w raw made = ground arith

    module _
        (unmarshals : (v w : Value Ext) (value : String)
          → p.unmarshal_text v value ≡ some w
          → well_typed w ≡ true)
        (versions : (w : Value Ext) (value : String)
          → p.parse_version value ≡ some w
          → well_typed w ≡ true) where
      set_field-typed :
          (v w : Value Ext) (value : String) → set_field p v value ≡ some w → well_typed w ≡ true
      unfolding set_field
      set_field-typed v w value made = ground (
        arith,
        unmarshals v w value,
        stored_bytes-typed (type_of v) value w,
        stored_external-typed (type_of v) (p.parse_duration value) w,
        versions w value,
        stored_kind-typed (type_of v) value (set_kind p (type_of v).kind value) w refl,
      )

      new_value-typed :
          (v w : Value Ext) (value : String) → new_value p v value ≡ some w → well_typed w ≡ true
      unfolding new_value
      new_value-typed v w value made = ground (arith, zero-typed v, set_field-typed v w value)

      -- If UnmarshalText and ParseKafkaVersion leave numbers that fit into their types, then after a success of
      -- ConfigFlag.Set on a configuration whose numbers do, every number in it still fits: ParseInt
      -- and ParseUint are given the width of the field.
      pub set-typed :
          (s key value : String) (cfg cfg' : Value Ext)
          → cut equals_sign s ≡ some (key, value)
          → well_typed cfg ≡ true
          → set p s cfg ≡ updated cfg'
          → well_typed cfg' ≡ true
      unfolding set set_pair
      set-typed s key value cfg cfg' pair typed done =
          let path = split dot key in
          let (old, new, led, made, put_there) =
            set_found-updated p path value cfg cfg' (find path true cfg)
              (subst (λ o. set_pair p cfg o ≡ updated cfg') pair done) in
          subst (λ v. well_typed v ≡ true) put_there
            (put-typed path new cfg (new_value-typed old new value made) typed)
