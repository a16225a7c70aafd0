-- ===== src/Flags/Registration.antt =====
-- The flags that loaderflags.ParseFlags of loader/loaderflags/parse.go defines before it parses the
-- command line, and those that Help of loader/loaderflags/help.go shows as the core ones. A
-- flag-set is the list of the names defined, in order; `none` is a panic.
pub mod Distinct
pub mod Core
mod Tests
use Prim.Native.String.{◌++◌ as concat}
use go_component.Prelude.{
  ℕ, String, Bool, false, not, ◌&&◌, ◌||◌, Option, none, some, List, [], ◌∷◌, ◌++◌, same, ◌==◌,
  if◌then◌else◌, equals_sign, dot, has_char,
}
use go_component.Linker.{contains}

-- A component.Descriptor, known by its address, with the names of its flags.
pub record Component : Type 0 where
  pub address : ℕ
  pub name : String
  pub flags : List String

begins_with_dash : String → Bool
begins_with_dash String.[] = false
begins_with_dash (String.◌∷◌ c s) = same (String.◌∷◌ c "") "-"

-- A name that package flag accepts.
unfoldable pub is_flag_name : String → Bool
unfolding begins_with_dash
is_flag_name name = not (begins_with_dash name) && not (has_char equals_sign name)

-- FlagSet.Var panics on other names, and on one that is defined already.
unfoldable pub define_var : List String → String → Option (List String)
define_var fs name =
    if is_flag_name name && not (contains fs name) then some (fs ++ name ∷ []) else none

and_then : Option (List String) → (List String → Option (List String)) → Option (List String)
and_then none next = none
and_then (some fs) next = next fs

-- d.Flags.VisitAll: a conflict panics before Var does.
unfoldable pub define_flags : (prefix : String) → List String → List String → Option (List String)
unfolding and_then
define_flags prefix [] fs = some fs
define_flags prefix (f ∷ flags) fs =
    let name = concat prefix f in
    if contains fs name then none else and_then (define_var fs name) (define_flags prefix flags)

abbrev pub is_registered : List ℕ → ℕ → Bool
is_registered [] d = false
is_registered (e ∷ seen) d = e == d || is_registered seen d

-- ComponentSet.Register
unfoldable pub register_switch : (seen : List ℕ) → Component → List String → Option (List String)
register_switch seen d fs = if is_registered seen d.address then some fs else define_var fs d.name

-- The loop of ParseFlags over the descriptors, in multi mode
unfoldable pub register_all : (seen : List ℕ) → List Component → List String → Option (List String)
unfolding and_then
register_all seen [] fs = some fs
register_all seen (d ∷ ds) fs = and_then (register_switch seen d fs) (λ fs.
    and_then (define_flags (concat d.name ".") d.flags fs) (register_all (d.address ∷ seen) ds))

-- Help: the flags that it shows as the core command-line flags.
unfoldable pub core_flags : List String → List String
core_flags [] = []
core_flags (f ∷ fs) = let rest = core_flags fs in if has_char dot f then rest else f ∷ rest
