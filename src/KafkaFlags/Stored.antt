-- ===== src/KafkaFlags/Stored.antt =====
-- What ConfigFlag.Set does to the configuration.
use go_component.Prelude.{
  String, Bool, true, false, ◌≡◌, ◌↔◌, refl, sym, subst, ◌⊎◌, inl, inr, Option, none, some, List,
  arith, Bool-cases, Option-cases, split, cut, dot, equals_sign,
}
use go_component.KafkaFlags.{
  Value, Parsers, panicked, updated, find, put, new_value, store, set_found, set_pair, set,
}
use go_component.KafkaFlags.Paths.{diverge, find-put, find-put_other}

module _ {Ext : Type 0} (p : Parsers Ext) where
  pub set_found-updated :
      (path : List String) (value : String) (cfg cfg' : Value Ext)
      → (o : Option (Bool × Value Ext)) → set_found p path value cfg o ≡ updated cfg'
      → (old : Value Ext) × (new : Value Ext) × (o ≡ some (true, old))
        × (new_value p old value ≡ some new)
        × (put path new cfg ≡ cfg')
  unfolding set_found store
  set_found-updated path value cfg cfg' none e = ground arith
  set_found-updated path value cfg cfg' (some (false, old)) e = ground arith
  set_found-updated path value cfg cfg' (some (true, old)) e =
      elim (Option-cases (new_value p old value)) [
        | inl bad ↦ ground arith
        | inr (new, made) ↦ (old, new, refl, made, ground arith)
      ]

  pub set_found-panicked :
      (path : List String) (value : String) (cfg : Value Ext) (o : Option (Bool × Value Ext))
      → (set_found p path value cfg o ≡ panicked) ↔ ((old : Value Ext) × (o ≡ some (false, old)))
  unfolding set_found store
  set_found-panicked path value cfg none = (λ e. ground arith, λ (old, e). ground arith)
  set_found-panicked path value cfg (some (false, old)) = (λ e. (old, refl), λ found. refl)
  set_found-panicked path value cfg (some (true, old)) = (λ e. ground arith, λ (w, e). ground arith)

  -- If ConfigFlag.Set succeeds for key=value, then the key's path led to a field that can be set and
  -- leads to the value that was made for it, and every path that parts from it at some segment leads
  -- to what it led to before.
  pub set-updated :
      (s key value : String) (other : List String) (cfg cfg' : Value Ext)
      → cut equals_sign s ≡ some (key, value)
      → set p s cfg ≡ updated cfg'
      → ((old : Value Ext) × (new : Value Ext) × (find (split dot key) true cfg ≡ some (true, old))
          × (new_value p old value ≡ some new)
          × (find (split dot key) true cfg' ≡ some (true, new)))
        × ((diverge (split dot key) other ≡ false) ⊎ (find other true cfg' ≡ find other true cfg))
  unfolding set set_pair
  set-updated s key value other cfg cfg' pair done =
      let path = split dot key in
      let found = find path true cfg in
      let (old, new, led, made, stored) =
        set_found-updated path value cfg cfg' found
          (subst (λ o. set_pair p cfg o ≡ updated cfg') pair done) in
      (
        (old, new, led, made, rw (sym stored) (find-put path true true new old cfg led)),
        (elim (Bool-cases (diverge path other)) [
          | inl apart ↦ inr (rw (sym stored) (find-put_other path other true new cfg apart))
          | inr together ↦ inl together
        ]),
      )

  pub set_found-accepts :
      (path : List String) (value : String) (cfg old : Value Ext) {new : Value Ext}
      → new_value p old value ≡ some new
      → set_found p path value cfg (some (true, old)) ≡ updated (put path new cfg)
  unfolding set_found store
  set_found-accepts path value cfg old made = rw made refl
