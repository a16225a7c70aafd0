-- ===== src/Flags/Registration/Tests.antt =====
-- Two components, one of which has flags, and instances of the theorem.
use go_component.Prelude.{◌≡◌, refl, ◌&&◌, some, none, List, [], ◌∷◌, if◌then◌else◌, has_char}
use go_component.Linker.{contains}
use go_component.Flags.Registration.{
  Component, is_flag_name, define_var, define_flags, register_switch, register_all, core_flags,
}
use go_component.Flags.Registration.Distinct.{distinct, all_flag_names, names_of}
use go_component.Flags.Registration.Core.{switches, register_all-core_flags}

abbrev components : List Component
components =
    record { address = 1; name = "shop"; flags = "rate" ∷ "size" ∷ [] }
    ∷ record { address = 2; name = "bank"; flags = [] }
    ∷ []

registers_all :
    register_all [] components ("trace" ∷ [])
    ≡ some ("trace" ∷ "shop" ∷ "shop.rate" ∷ "shop.size" ∷ "bank" ∷ [])
unfolding register_all register_switch define_flags define_var is_flag_name has_char contains
registers_all = refl

-- A component with the name of another flag.
conflict_panics : register_all [] components ("bank" ∷ []) ≡ none
unfolding register_all register_switch define_flags define_var is_flag_name has_char contains
conflict_panics = refl

register_all-core_flags_example :
    (register_all [] components ("trace" ∷ []) ≡ (
      if distinct ("trace" ∷ names_of [] components) && all_flag_names (names_of [] components)
      then some ("trace" ∷ names_of [] components)
      else none))
    × (core_flags ("trace" ∷ names_of [] components)
        ≡ core_flags ("trace" ∷ switches [] components))
unfolding contains
register_all-core_flags_example = register_all-core_flags [] components ("trace" ∷ []) refl
