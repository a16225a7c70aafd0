-- ===== src/Flags.antt =====
-- Which components the command line enables, and which required flags it misses:
-- loader/loaderflags/enabled.go, required.go and ParseFlags of parse.go, after the flags are parsed.
-- A descriptor is known by its name, which the flag-set keeps from standing for two.
pub mod Registration
pub mod Order
pub mod Selected
mod Tests
use go_component.Prelude.{
  String, Bool, true, false, not, ◌&&◌, ◌||◌, Option, none, some, List, [], ◌∷◌, same,
  if◌then◌else◌, Dict, parse_bool,
}
use Prim.Native.Nat.{Ordering}
use Prim.Native.String.{compare}
use go_component.Linker.{contains}

pub data TriState : Type 0 where
  unset on off : TriState

abbrev pub is_on : TriState → Bool
is_on on = true
is_on _ = false

abbrev pub is_off : TriState → Bool
is_off off = true
is_off _ = false

of_bool : Option Bool → Option TriState
of_bool none = none
of_bool (some true) = some on
of_bool (some false) = some off

-- triState.Set: `none` is its error.
unfoldable pub set : String → Option TriState
unfolding of_bool
set value = of_bool (parse_bool value)

-- triState.String
unfoldable pub tri_string : TriState → String
tri_string unset = "unset"
tri_string on = "true"
tri_string off = "false"

-- ComponentSet
abbrev pub ComponentSet : Type 0
ComponentSet = Dict TriState

-- ComponentSet.Register: a component that is registered already keeps its flag.
unfoldable pub register : ComponentSet → String → ComponentSet
register [] name = (name, unset) ∷ []
register ((other, f) ∷ cs) name =
    let rest = register cs name in if same other name then (other, f) ∷ cs else (other, f) ∷ rest

-- The variables hasTrue and hasFalse.
unfoldable pub has_true : ComponentSet → Bool
has_true [] = false
has_true ((name, f) ∷ cs) = is_on f || has_true cs

unfoldable pub has_false : ComponentSet → Bool
has_false [] = false
has_false ((name, f) ∷ cs) = is_off f || has_false cs

-- for d, f := range cs { if … { keep = append(keep, d) } }
unfoldable pub keep : (TriState → Bool) → ComponentSet → List String
keep test [] = []
keep test ((name, f) ∷ cs) = let rest = keep test cs in if test f then name ∷ rest else rest

-- Go's `<` on strings.
abbrev pub less : String → String → Bool
less s t = elim (compare s t) [ Ordering.lt ↦ true | _ ↦ false ]

-- sort.Slice by name. No two names are equal, so that it has one result.
unfoldable pub insert : String → List String → List String
insert name [] = name ∷ []
insert name (other ∷ names) =
    let rest = insert name names in if less other name then other ∷ rest else name ∷ other ∷ names

unfoldable pub sort : List String → List String
sort [] = []
sort (name ∷ names) = insert name (sort names)

-- ComponentSet.Enabled
unfoldable pub enabled : ComponentSet → List String
enabled cs = sort (
    if has_true cs
    then keep is_on cs
    else if has_false cs
    then keep (λ f. not (is_off f)) cs
    else keep (λ f. true) cs)

-- A flag of the command line: whether it was set, and what RequiredFlag made of its value, with the
-- component that it is bound to, if any.
pub record Flag : Type 0 where
  pub name : String
  pub is_set : Bool
  pub required : Option (Option String)

-- The test of LookupRequired for a flag that is not set.
unfoldable pub is_missed : (enabled : List String) → Option (Option String) → Bool
is_missed ds none = false
is_missed ds (some none) = true
is_missed ds (some (some d)) = contains ds d

unfoldable pub missed : List String → List Flag → List String
missed ds [] = []
missed ds (f ∷ fs) =
    let rest = missed ds fs in
    if not f.is_set && is_missed ds f.required then f.name ∷ rest else rest

-- LookupRequired: the names of the flags.
unfoldable pub lookup_required : List String → List Flag → List String
lookup_required ds fs = sort (missed ds fs)

pub data Parsed : Type 0 where
  parsed : List String → Parsed
  no_components : Parsed
  missing_flags : List String → Parsed

with_missing : List String → List String → Parsed
with_missing ds [] = parsed ds
with_missing ds (f ∷ fs) = missing_flags (f ∷ fs)

with_components : List Flag → List String → Parsed
unfolding with_missing
with_components fs [] = no_components
with_components fs (d ∷ ds) = with_missing (d ∷ ds) (lookup_required (d ∷ ds) fs)

-- ParseFlags in multi mode, from the parsed flags on
unfoldable pub parse_flags : ComponentSet → List Flag → Parsed
unfolding with_components
parse_flags cs fs = with_components fs (enabled cs)

-- ParseFlags of loader/flags.go: it panics if it has run before, and exits the process on an error;
-- otherwise these are the Descriptors from then on.
pub data Started : Type 0 where
  repeated exits : Started
  starts : List String → Started

started_with : Parsed → Started
started_with (parsed ds) = starts ds
started_with no_components = exits
started_with (missing_flags fs) = exits

unfoldable pub parse_flags_once : (has_parsed : Bool) → ComponentSet → List Flag → Started
unfolding started_with
parse_flags_once has_parsed cs fs =
    if has_parsed then repeated else started_with (parse_flags cs fs)
