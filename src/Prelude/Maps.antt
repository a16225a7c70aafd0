-- ===== src/Prelude/Maps.antt =====
-- Go maps with string keys, as association lists in which a key stands once. A write keeps the
-- place of its key. Go leaves the order of iteration open: no theorem rests on the order.
use text.Mathlib.TextEquality.{eq_iff}
use mathlib.Core.Path.{◌≡◌, refl}
use mathlib.Core.Option.{Option, none, some}
use mathlib.Core.List.{List, [], ◌∷◌}
use native.Mathlib.Omega.{arith}
use Prim.Native.String.{String}
use go_component.Prelude.Tests.{same, if◌then◌else◌}

-- map[string]V
abbrev pub Dict {ℓ} : Type ℓ → Type ℓ
Dict V = List (String × V)

module _ {ℓ} {V : Type ℓ} where
  -- v, ok := entries[key]
  abbrev pub read : Dict V → String → Option V
  read [] key = none
  read ((name, v) ∷ entries) key = if same name key then some v else read entries key

  -- entries[key] = v
  abbrev pub write : Dict V → String → V → Dict V
  write [] key v = (key, v) ∷ []
  write ((name, old) ∷ entries) key v =
      if same name key then (name, v) ∷ entries else (name, old) ∷ write entries key v

  pub read-write :
      (entries : Dict V) (key other : String) (v : V)
      → read (write entries key v) other ≡ (if same key other then some v else read entries other)
  read-write [] key other v = refl
  read-write ((name, old) ∷ entries) key other v =
      ground (
        arith,
        read-write entries key other v,
        eq_iff name key,
        eq_iff name other,
        eq_iff key other,
      )
