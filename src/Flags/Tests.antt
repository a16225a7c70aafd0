-- ===== src/Flags/Tests.antt =====
-- A command line that enables one of three components, and instances of the theorems.
use go_component.Prelude.{
  parse_bool, String, true, false, not, ◌≡◌, ◌≢◌, refl, some, none, List, [], ◌∷◌, if◌then◌else◌,
}
use go_component.Linker.{contains}
use go_component.Flags.{
  unset, on, off, is_on, is_off, set, tri_string, ComponentSet, register, has_true, has_false, keep,
  insert, sort, enabled, Flag, is_missed, missed, lookup_required, parsed, with_missing,
  with_components, parse_flags,
}
use go_component.Flags.Order.{is_sorted}
use go_component.Flags.Selected.{has_entry, enabled_lem, is_missing, parse_flags-parsed}

abbrev components : ComponentSet
components = ("shop", unset) ∷ ("pay", off) ∷ ("mail", unset) ∷ []

all_but_off : enabled components ≡ "mail" ∷ "shop" ∷ []
unfolding enabled has_true has_false keep sort insert
all_but_off = refl

set_by_name : set "True" ≡ some on
unfolding set parse_bool
set_by_name = refl

registered_once : register components "pay" ≡ components
unfolding register
registered_once = refl

enabled_example :
    (contains (enabled components) "shop" ≡ (
      if has_true components
      then has_entry is_on components "shop"
      else has_entry (λ f. not (is_off f)) components "shop"))
    × (is_sorted (enabled components) ≡ true)
enabled_example = enabled_lem components "shop"

abbrev brokers : Flag
brokers = record { name = "kafka-brokers"; is_set = true; required = some none }

abbrev pay_key : Flag
pay_key = record { name = "pay.key"; is_set = false; required = some (some "pay") }

abbrev picked : List String
picked = "mail" ∷ "shop" ∷ []

parses : parse_flags components (brokers ∷ pay_key ∷ []) ≡ parsed picked
unfolding parse_flags with_components with_missing enabled has_true has_false keep sort insert
    lookup_required missed is_missed contains
parses = refl

parse_flags-parsed_example :
    (picked ≡ enabled components)
    × (picked ≢ [])
    × (is_missing picked (brokers ∷ pay_key ∷ []) "pay.key" ≡ false)
parse_flags-parsed_example =
    parse_flags-parsed components (brokers ∷ pay_key ∷ []) picked "pay.key" parses

-- A flag that is not set prints a text that it cannot be set to.
unset_text : set (tri_string unset) ≡ none
unfolding set tri_string parse_bool
unset_text = refl
