-- ===== src/KafkaFlags/Paths.antt =====
-- What findFieldByName finds after a field was set.
use go_component.Prelude.{
  String, Bool, true, false, ◌&&◌, ◌≡◌, refl, inl, inr, Option, none, some, List, [], ◌∷◌, same,
  if◌then◌else◌, arith, eq_iff, Bool-cases, ◌∙◌,
}
use text.Mathlib.TextPositions.{eq_refl}
use go_component.KafkaFlags.{
  Value, leaf, nil_pointer, pointer, struct, Fields, no_fields, field, fields_of, field_named,
  named, at_field, find, replace, over_fields, put,
}

-- Two paths that part at some segment.
abbrev pub diverge : List String → List String → Bool
diverge [] other = false
diverge (name ∷ names) [] = false
diverge (name ∷ names) (other ∷ others) = if same name other then diverge names others else true

module _ {Ext : Type 0} where
  abbrev over_found :
      (Value Ext → Value Ext) → Option (Bool × Value Ext) → Option (Bool × Value Ext)
  over_found f none = none
  over_found f (some (exported, v)) = some (exported, f v)

  field_named-replace :
      (name other : String) (f : Value Ext → Value Ext) (fs : Fields Ext)
      → field_named other (replace name f fs)
        ≡ (if same name other then over_found f (field_named other fs) else field_named other fs)
  unfolding field_named replace
  field_named-replace name other f no_fields = ground arith
  field_named-replace name other f (field n exported v fs) =
      ground (
        arith,
        field_named-replace name other f fs,
        eq_iff n name,
        eq_iff n other,
        eq_iff name other,
      )

  named-over_fields :
      (name other : String) (f : Value Ext → Value Ext) (v : Value Ext)
      → named other (fields_of (over_fields (replace name f) v)) ≡ (
          if same name other
          then over_found f (named other (fields_of v))
          else named other (fields_of v))
  unfolding fields_of
  named-over_fields name other f (struct ty fs) = field_named-replace name other f fs
  named-over_fields name other f (pointer ty (struct ty' fs)) = field_named-replace name other f fs
  named-over_fields name other f (pointer ty (leaf ty' c)) = ground arith
  named-over_fields name other f (pointer ty (nil_pointer ty')) = ground arith
  named-over_fields name other f (pointer ty (pointer ty' v)) = ground arith
  named-over_fields name other f (leaf ty c) = ground arith
  named-over_fields name other f (nil_pointer ty) = ground arith

  at_field-over_found :
      (next : Bool → Value Ext → Option (Bool × Value Ext)) (f : Value Ext → Value Ext)
      → (o : Option (Bool × Value Ext)) (r r' : Option (Bool × Value Ext))
      → ((exported : Bool) (v : Value Ext) → next exported v ≡ r → next exported (f v) ≡ r')
      → (none ≡ r → none ≡ r')
      → at_field next o ≡ r
      → at_field next (over_found f o) ≡ r'
  at_field-over_found next f none r r' kept missed e = missed e
  at_field-over_found next f (some (exported, v)) r r' kept missed e = kept exported v e

  pub find-put :
      (path : List String) (settable found : Bool) (new old v : Value Ext)
      → find path settable v ≡ some (found, old)
      → find path settable (put path new v) ≡ some (found, new)
  unfolding find put
  find-put [] settable found new old v e = ground arith
  find-put (name ∷ names) settable found new old v e =
      rw (named-over_fields name name (put names new) v, eq_refl name)
        (at_field-over_found (λ exported w. find names (settable && exported) w) (put names new)
          (named name (fields_of v)) _ _
          (λ exported w. find-put names (settable && exported) found new old w)
          (λ missed. ground arith) e)

  pub find-put_other :
      (path other : List String) (settable : Bool) (new v : Value Ext)
      → diverge path other ≡ true
      → find other settable (put path new v) ≡ find other settable v
  unfolding find put
  find-put_other [] other settable new v apart = ground arith
  find-put_other (name ∷ names) [] settable new v apart = ground arith
  find-put_other (name ∷ names) (other ∷ others) settable new v apart =
      elim (Bool-cases (same name other)) [
        | inl shared ↦
            rw (named-over_fields name other (put names new) v, shared)
              (at_field-over_found (λ exported w. find others (settable && exported) w)
                (put names new) (named other (fields_of v)) _ _
                (λ exported w e.
                  find-put_other names others (settable && exported) new w (ground arith) ∙ e)
                (λ missed. missed) refl)
        | inr parted ↦ rw (named-over_fields name other (put names new) v, parted) refl
      ]
