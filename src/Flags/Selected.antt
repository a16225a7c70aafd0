-- ===== src/Flags/Selected.antt =====
-- Which components are enabled, in which order, and when ParseFlags succeeds.
use go_component.Prelude.{
  String, Bool, true, false, not, ◌&&◌, ◌||◌, ◌≡◌, ◌≢◌, refl, List, [], ◌∷◌, same, if◌then◌else◌,
  arith,
}
use go_component.Linker.{contains}
use go_component.Flags.{
  TriState, is_on, is_off, ComponentSet, has_true, has_false, keep, enabled, Flag, is_missed,
  missed, lookup_required, parsed, with_missing, with_components, parse_flags,
}
use go_component.Flags.Order.{is_sorted, is_sorted-sort, contains-sort}

-- Whether a component of this name is registered, with a flag that passes the test.
abbrev pub has_entry : (TriState → Bool) → ComponentSet → String → Bool
has_entry test [] name = false
has_entry test ((other, f) ∷ cs) name = (same other name && test f) || has_entry test cs name

contains-keep :
    (test : TriState → Bool) (cs : ComponentSet) (name : String)
    → contains (keep test cs) name ≡ has_entry test cs name
unfolding keep contains
contains-keep test [] name = refl
contains-keep test ((other, f) ∷ cs) name = ground (arith, contains-keep test cs name)

abbrev not_off : TriState → Bool
not_off f = not (is_off f)

has_entry-has_false :
    (cs : ComponentSet) (name : String)
    → has_false cs ≡ false
    → has_entry (λ f. true) cs name ≡ has_entry not_off cs name
unfolding has_false
has_entry-has_false [] name none_off = refl
has_entry-has_false ((other, f) ∷ cs) name none_off = ground (arith, has_entry-has_false cs name)

-- Enabled gives exactly the registered components whose flag is true, if there is any; else those
-- whose flag is not false. They are sorted by name.
pub enabled_lem :
    (cs : ComponentSet) (name : String)
    → (contains (enabled cs) name ≡ (
        if has_true cs then has_entry is_on cs name else has_entry (λ f. not (is_off f)) cs name))
      × (is_sorted (enabled cs) ≡ true)
unfolding enabled
enabled_lem cs name = (
  ground (
    arith,
    contains-sort (keep is_on cs) name,
    contains-sort (keep not_off cs) name,
    contains-sort (keep (λ f. true) cs) name,
    contains-keep is_on cs name,
    contains-keep not_off cs name,
    contains-keep (λ f. true) cs name,
    has_entry-has_false cs name,
  ),
  is_sorted-sort _,
)

-- Whether a flag of this name is required, for all components or for one of those, but not set.
abbrev pub is_missing : List String → List Flag → String → Bool
is_missing ds [] name = false
is_missing ds (f ∷ fs) name =
    (same f.name name && not f.is_set && is_missed ds f.required) || is_missing ds fs name

contains-missed :
    (ds : List String) (fs : List Flag) (name : String)
    → contains (missed ds fs) name ≡ is_missing ds fs name
unfolding missed contains
contains-missed ds [] name = refl
contains-missed ds (f ∷ fs) name = ground (arith, contains-missed ds fs name)

lookup_required-contains :
    (ds : List String) (fs : List Flag) (name : String)
    → contains (lookup_required ds fs) name ≡ is_missing ds fs name
unfolding lookup_required
lookup_required-contains ds fs name =
    ground (arith, contains-sort (missed ds fs) name, contains-missed ds fs name)

with_missing-parsed :
    (ds fs es : List String) (name : String)
    → with_missing ds fs ≡ parsed es
    → (es ≡ ds) × (contains fs name ≡ false)
unfolding with_missing contains
with_missing-parsed ds [] es name success = ground arith
with_missing-parsed ds (f ∷ fs) es name success = ground arith

with_components-parsed :
    (fs : List Flag) (ds es : List String) (name : String)
    → with_components fs ds ≡ parsed es
    → (es ≡ ds) × (es ≢ []) × (is_missing es fs name ≡ false)
unfolding with_components
with_components-parsed fs [] es name success = ground arith
with_components-parsed fs (d ∷ ds) es name success = ground (
  arith,
  with_missing-parsed (d ∷ ds) (lookup_required (d ∷ ds) fs) es name success,
  lookup_required-contains (d ∷ ds) fs name,
)

-- If ParseFlags succeeds, then it returns the enabled components, at least one, and every flag that
-- is required, for all components or for one of those, is set.
pub parse_flags-parsed :
    (cs : ComponentSet) (fs : List Flag) (ds : List String) (name : String)
    → parse_flags cs fs ≡ parsed ds
    → (ds ≡ enabled cs) × (ds ≢ []) × (is_missing ds fs name ≡ false)
unfolding parse_flags
parse_flags-parsed cs fs ds name success = with_components-parsed fs (enabled cs) ds name success
