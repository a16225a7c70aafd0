-- ===== src/KafkaFlags.antt =====
-- The flag values of kafkalinker/kafkaflags.go: ConfigFlag, which sets a field of sarama.Config that
-- a path names. BrokersFlag and the brokers of the footprint bus stand in Brokers.
-- The configuration is the tree that reflect shows: structs of named fields, pointers, and other
-- values. Embedded fields and pointers to a shared value are not modelled. The parsers of other
-- packages are parameters.
pub mod Paths
pub mod Stored
pub mod Leads
pub mod Typed
pub mod Brokers
mod Tests
use mathlib.Core.Option.{map as map_option}
use go_component.Prelude.{
  ℕ, String, Bool, true, false, ◌&&◌, ◌||◌, Option, none, some, List, [], ◌∷◌, same, if◌then◌else◌,
  dot, equals_sign, split, cut, ℤ, pos, parse_bool, parse_int, parse_uint,
}

-- reflect.Kind, with the width of a number in bits.
pub data Kind : Type 0 where
  string bool unsupported : Kind
  int uint float : ℕ → Kind

-- What setField asks of the type of a field.
pub record FieldType : Type 0 where
  pub unmarshals_text : Bool
  pub is_bytes : Bool
  pub pointer_unmarshals_text : Bool
  pub is_duration : Bool
  pub is_version : Bool
  pub kind : Kind

-- A value that is no struct and no pointer; `external` is one of another package's type, or a
-- floating-point number.
pub data Content (Ext : Type 0) : Type 0 where
  text bytes : String → Content Ext
  boolean : Bool → Content Ext
  integer : ℤ → Content Ext
  natural : ℕ → Content Ext
  external : Ext → Content Ext

mutual
  pub data Value (Ext : Type 0) : Type 0 where
    leaf : FieldType → Content Ext → Value Ext
    nil_pointer : FieldType → Value Ext
    pointer : FieldType → Value Ext → Value Ext
    struct : FieldType → Fields Ext → Value Ext

  -- The fields of a struct: name, whether it is exported, value.
  pub data Fields (Ext : Type 0) : Type 0 where
    no_fields : Fields Ext
    field : String → Bool → Value Ext → Fields Ext → Fields Ext

-- UnmarshalText on a value, time.ParseDuration, sarama.ParseKafkaVersion and strconv.ParseFloat,
-- and the zero value of a type of another package.
pub record Parsers (Ext : Type 0) : Type 0 where
  pub unmarshal_text : Value Ext → String → Option (Value Ext)
  pub parse_duration : String → Option Ext
  pub parse_version : String → Option (Value Ext)
  pub parse_float : ℕ → String → Option Ext
  pub zero_external : FieldType → Ext

-- What Set comes to.
pub data Outcome (Ext : Type 0) : Type 0 where
  missing_value unknown_field bad_value panicked : Outcome Ext
  updated : Value Ext → Outcome Ext

module _ {Ext : Type 0} where
  abbrev pub type_of : Value Ext → FieldType
  type_of (leaf ty c) = ty
  type_of (nil_pointer ty) = ty
  type_of (pointer ty v) = ty
  type_of (struct ty fs) = ty

  -- The fields of a struct, or of the struct that a pointer leads to.
  unfoldable pub fields_of : Value Ext → Option (Fields Ext)
  fields_of (struct ty fs) = some fs
  fields_of (pointer ty (struct ty' fs)) = some fs
  fields_of _ = none

  -- reflect.Value.FieldByName
  unfoldable pub field_named : String → Fields Ext → Option (Bool × Value Ext)
  field_named name no_fields = none
  field_named name (field other exported v fs) =
      let rest = field_named name fs in if same other name then some (exported, v) else rest

  abbrev pub named : String → Option (Fields Ext) → Option (Bool × Value Ext)
  named name none = none
  named name (some fs) = field_named name fs

  abbrev pub at_field :
      (Bool → Value Ext → Option (Bool × Value Ext))
      → Option (Bool × Value Ext)
      → Option (Bool × Value Ext)
  at_field next none = none
  at_field next (some (exported, v)) = next exported v

  -- ConfigFlag.findFieldByName: the value, and whether reflect lets it be set, as it does not below
  -- a field that is not exported.
  unfoldable pub find : List String → (settable : Bool) → Value Ext → Option (Bool × Value Ext)
  find [] settable v = some (settable, v)
  find (name ∷ names) settable v =
      at_field (λ exported w. find names (settable && exported) w) (named name (fields_of v))

  unfoldable pub replace : String → (Value Ext → Value Ext) → Fields Ext → Fields Ext
  replace name f no_fields = no_fields
  replace name f (field other exported v fs) =
      let rest = replace name f fs in
      if same other name then field other exported (f v) fs else field other exported v rest

  abbrev pub over_fields : (Fields Ext → Fields Ext) → Value Ext → Value Ext
  over_fields f (struct ty fs) = struct ty (f fs)
  over_fields f (pointer ty (struct ty' fs)) = pointer ty (struct ty' (f fs))
  over_fields f v = v

  -- The configuration after field.Set on the field at the path.
  unfoldable pub put : List String → Value Ext → Value Ext → Value Ext
  put [] new v = new
  put (name ∷ names) new v = over_fields (replace name (put names new)) v

  -- reflect.Zero of the type of a value
  abbrev pub zero_kind : Parsers Ext → FieldType → Kind → Content Ext
  zero_kind p ty string = text ""
  zero_kind p ty bool = boolean false
  zero_kind p ty (int bits) = integer (pos 0)
  zero_kind p ty (uint bits) = natural 0
  zero_kind p ty (float bits) = external (p.zero_external ty)
  zero_kind p ty unsupported = external (p.zero_external ty)

  abbrev pub zero_content : Parsers Ext → FieldType → Content Ext
  zero_content p ty =
      if ty.is_bytes
      then bytes ""
      else if ty.is_duration || ty.is_version
      then external (p.zero_external ty)
      else zero_kind p ty ty.kind

  mutual
    zero : Parsers Ext → Value Ext → Value Ext
    zero p (leaf ty c) = leaf ty (zero_content p ty)
    zero p (nil_pointer ty) = nil_pointer ty
    zero p (pointer ty v) = nil_pointer ty
    zero p (struct ty fs) = struct ty (zero_fields p fs)

    zero_fields : Parsers Ext → Fields Ext → Fields Ext
    zero_fields p no_fields = no_fields
    zero_fields p (field name exported v fs) = field name exported (zero p v) (zero_fields p fs)

  abbrev pub stored : FieldType → Option (Content Ext) → Option (Value Ext)
  stored ty none = none
  stored ty (some c) = some (leaf ty c)

  -- The switch at the end of setField: `none` is an error.
  unfoldable pub set_kind : Parsers Ext → Kind → String → Option (Content Ext)
  set_kind p string value = some (text value)
  set_kind p bool value = map_option boolean (parse_bool value)
  set_kind p (int bits) value = map_option integer (parse_int bits value)
  set_kind p (uint bits) value = map_option natural (parse_uint bits value)
  set_kind p (float bits) value = map_option external (p.parse_float bits value)
  set_kind p unsupported value = none

  -- ConfigFlag.setField
  unfoldable pub set_field : Parsers Ext → Value Ext → String → Option (Value Ext)
  set_field p v value =
      let ty = type_of v in
      if ty.unmarshals_text
      then p.unmarshal_text v value
      else if ty.is_bytes
      then some (leaf ty (bytes value))
      else if ty.pointer_unmarshals_text
      then p.unmarshal_text v value
      else if ty.is_duration
      then stored ty (map_option external (p.parse_duration value))
      else if ty.is_version
      then p.parse_version value
      else stored ty (set_kind p ty.kind value)

  -- The value that Set gives to a field.
  unfoldable pub new_value : Parsers Ext → Value Ext → String → Option (Value Ext)
  unfolding zero
  new_value p v value = if same value "nil" then some (zero p v) else set_field p v value

  store : List String → Value Ext → Option (Value Ext) → Outcome Ext
  store path cfg none = bad_value
  store path cfg (some new) = updated (put path new cfg)

  pub set_found :
      Parsers Ext → List String → String → Value Ext → Option (Bool × Value Ext) → Outcome Ext
  unfolding store
  set_found p path value cfg none = unknown_field
  set_found p path value cfg (some (settable, v)) =
      if settable then store path cfg (new_value p v value) else panicked

  pub set_pair : Parsers Ext → Value Ext → Option (String × String) → Outcome Ext
  unfolding set_found
  set_pair p cfg none = missing_value
  set_pair p cfg (some (key, value)) =
      set_found p (split dot key) value cfg (find (split dot key) true cfg)

  -- ConfigFlag.Set. Setting a field that reflect does not let be set panics.
  unfoldable pub set : Parsers Ext → String → Value Ext → Outcome Ext
  unfolding set_pair
  set p s cfg = set_pair p cfg (cut equals_sign s)
