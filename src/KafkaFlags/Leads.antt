-- ===== src/KafkaFlags/Leads.antt =====
-- Where the path of a key leads, told without the search of findFieldByName, and how ConfigFlag.Set ends.
use go_component.Prelude.{
  String, Bool, true, false, ◌&&◌, ◌≡◌, ◌↔◌, refl, sym, subst, ap, ◌∙◌, some, List, [], ◌∷◌, same,
  arith, inl, inr, Bool-cases, Option-cases, split, cut, dot, equals_sign,
}
use go_component.KafkaFlags.{
  Value, Fields, no_fields, field, Parsers, panicked, updated, fields_of, field_named, named,
  at_field, find, put, new_value, set_pair, set,
}
use go_component.KafkaFlags.Stored.{set_found-updated, set_found-panicked, set_found-accepts}

module _ {Ext : Type 0} where
  -- The first field of a name among the fields of a struct.
  pub data HasField (name : String) (exported : Bool) (v : Value Ext) : Fields Ext → Type 0 where
    here :
        {other : String} {fs : Fields Ext}
        → same other name ≡ true
        → HasField name exported v (field other exported v fs)
    there :
        {other : String} {public : Bool} {w : Value Ext} {fs : Fields Ext}
        → same other name ≡ false
        → HasField name exported v fs
        → HasField name exported v (field other public w fs)

  -- A path leads from one value to another, through fields that are all exported or not.
  pub data Leads : List String → Value Ext → (all_exported : Bool) → Value Ext → Type 0 where
    arrives : {v : Value Ext} → Leads [] v true v
    enters :
        {name : String} {names : List String} {v w old : Value Ext} {fs : Fields Ext}
        {exported all : Bool}
        → fields_of v ≡ some fs
        → HasField name exported w fs
        → Leads names w all old
        → Leads (name ∷ names) v (exported && all) old

  field_named-HasField :
      (name : String) (fs : Fields Ext) {exported : Bool} {v : Value Ext}
      → field_named name fs ≡ some (exported, v)
      → HasField name exported v fs
  unfolding field_named
  field_named-HasField name no_fields e = absurd (ground arith)
  field_named-HasField name (field other public w fs) {exported} {v} e =
      elim (Bool-cases (same other name)) [
        | inl own ↦
            let is_public : public ≡ exported = ground arith in
            let is_value : w ≡ v = ground arith in
            subst (λ b. HasField name b v (field other public w fs)) is_public
              (subst (λ x. HasField name public x (field other public w fs)) is_value (here own))
        | inr apart ↦ there apart (field_named-HasField name fs (ground arith))
      ]

  HasField-field_named :
      (name : String) {exported : Bool} {v : Value Ext} {fs : Fields Ext}
      → HasField name exported v fs
      → field_named name fs ≡ some (exported, v)
  unfolding field_named
  HasField-field_named name (here {other} own) = rw own refl
  HasField-field_named name (there {other} apart h) = rw apart (HasField-field_named name h)

  Leads-find :
      {path : List String} {v old : Value Ext} {all : Bool} (settable : Bool)
      → Leads path v all old
      → find path settable v ≡ some (settable && all, old)
  unfolding find
  Leads-find settable arrives = ground arith
  Leads-find settable (enters {name} {names} {v} {w} {old} {fs} {exported} {all} inner has more) =
      ap (at_field (λ public x. find names (settable && public) x))
        (ap (named name) inner ∙ HasField-field_named name has)
      ∙ Leads-find (settable && exported) more
      ∙ ap (λ b. some (b, old)) (ground arith)

  -- What is found is what the path leads to.
  find-Leads :
      (path : List String) (settable : Bool) (v : Value Ext) {found : Bool} {old : Value Ext}
      → find path settable v ≡ some (found, old)
      → (all : Bool) × Leads path v all old × (found ≡ (settable && all))
  unfolding find
  find-Leads [] settable v {found} {old} e =
      let it : v ≡ old = ground arith in
      (true, subst (λ x. Leads [] v true x) it arrives, ground arith)
  find-Leads (name ∷ names) settable v e = elim (Option-cases (fields_of v)) [
    | inl lacks ↦ absurd (ground arith)
    | inr (fs, inner) ↦ elim (Option-cases (field_named name fs)) [
      | inl lacks ↦ absurd (ground arith)
      | inr ((exported, w), has) ↦
          let (all, more, ends) = find-Leads names (settable && exported) w (
            sym (
              ap (at_field (λ public x. find names (settable && public) x))
                (ap (named name) inner ∙ has))
            ∙ e) in
          (exported && all, enters inner (field_named-HasField name fs has) more, ground arith)
    ]
  ]

module _ {Ext : Type 0} (p : Parsers Ext) where
  -- For key=value, ConfigFlag.Set panics exactly if the key's path leads to a field through one that is
  -- not exported, or to such a field; and it succeeds exactly if the path leads to a field through
  -- fields that are all exported, as it is itself, and a value is made for it.
  pub set-outcomes :
      (s key value : String) (cfg : Value Ext)
      → cut equals_sign s ≡ some (key, value)
      → ((set p s cfg ≡ panicked) ↔ ((old : Value Ext) × Leads (split dot key) cfg false old))
        × (((cfg' : Value Ext) × (set p s cfg ≡ updated cfg')) ↔ (
            (old : Value Ext) × (new : Value Ext) × Leads (split dot key) cfg true old
            × (new_value p old value ≡ some new)))
  unfolding set set_pair
  set-outcomes s key value cfg pair =
      let path = split dot key in
      let crash = set_found-panicked p path value cfg (find path true cfg) in
      rw pair (
        (
          (λ e.
              let (old, led) = crash.0 e in
              let (all, leads, ends) = find-Leads path true cfg led in
              (old, subst (λ b. Leads path cfg b old) (sym ends) leads)),
          (λ (old, leads). crash.1 (old, Leads-find true leads)),
        ),
        (
          (λ (cfg', done).
              let (old, new, led, made, stored) =
                set_found-updated p path value cfg cfg' (find path true cfg) done in
              let (all, leads, ends) = find-Leads path true cfg led in
              (old, new, subst (λ b. Leads path cfg b old) (sym ends) leads, made)),
          (λ (old, new, leads, made). (
            put path new cfg,
            rw (Leads-find true leads) (set_found-accepts p path value cfg old made),
          )),
        ),
      )
