-- ===== src/Flags/Registration/Core.antt =====
-- The command line after registration, and the core flags of the help.
use Prim.Native.String.{◌++◌ as concat}
use text.Mathlib.TextLemmas.{nil-append, cons-append}
use go_component.Prelude.{
  ℕ, String, true, ◌&&◌, none, some, List, [], ◌∷◌, ◌++◌, if◌then◌else◌, dot, has_char, ◌≡◌, refl,
  sym, ap, ◌∙◌, arith,
}
use go_component.Flags.Registration.{Component, register_all, core_flags}
use go_component.Flags.Registration.Distinct.{
  prefixed, switch_names, names_of, distinct, all_flag_names, register_all-defined,
}

core_flags-append : (u v : List String) → core_flags (u ++ v) ≡ core_flags u ++ core_flags v
unfolding core_flags
core_flags-append [] v = refl
core_flags-append (f ∷ u) v = ground (arith, core_flags-append u v)

has_dot-prefixed : (name f : String) → has_char dot (concat (concat name ".") f) ≡ true
unfolding has_char
has_dot-prefixed String.[] f = rw (nil-append, cons-append dot "" f) refl
has_dot-prefixed (String.◌∷◌ c name) f =
    rw (cons-append c name ".", cons-append c (concat name ".") f)
      (ground (arith, has_dot-prefixed name f))

core_flags-prefixed :
    (name : String) (flags rest : List String)
    → core_flags (prefixed (concat name ".") flags ++ rest) ≡ core_flags rest
unfolding core_flags
core_flags-prefixed name [] rest = refl
core_flags-prefixed name (f ∷ flags) rest =
    rw (has_dot-prefixed name f) (core_flags-prefixed name flags rest)

abbrev pub switches : List ℕ → List Component → List String
switches seen [] = []
switches seen (d ∷ ds) = switch_names seen d ++ switches (d.address ∷ seen) ds

core_flags-names_of :
    (seen : List ℕ) (ds : List Component)
    → core_flags (names_of seen ds) ≡ core_flags (switches seen ds)
core_flags-names_of seen [] = refl
core_flags-names_of seen (d ∷ ds) =
    core_flags-append (switch_names seen d) _
    ∙ ap (λ l. core_flags (switch_names seen d) ++ l)
        (core_flags-prefixed d.name d.flags (names_of (d.address ∷ seen) ds)
          ∙ core_flags-names_of (d.address ∷ seen) ds)
    ∙ sym (core_flags-append (switch_names seen d) (switches (d.address ∷ seen) ds))

-- On a command line on which no flag is defined twice, ParseFlags defines, for each component in
-- turn, its switch, once, and its flags under its name, if no name is then defined twice and
-- package flag accepts each; otherwise it panics. Of these, the help shows no more than the switches as core flags.
pub register_all-core_flags :
    (seen : List ℕ) (ds : List Component) (fs : List String)
    → distinct fs ≡ true
    → (register_all seen ds fs ≡ (
        if distinct (fs ++ names_of seen ds) && all_flag_names (names_of seen ds)
        then some (fs ++ names_of seen ds)
        else none))
      × (core_flags (fs ++ names_of seen ds) ≡ core_flags (fs ++ switches seen ds))
register_all-core_flags seen ds fs start = (
  register_all-defined seen ds fs start,
  core_flags-append fs (names_of seen ds)
      ∙ ap (λ l. core_flags fs ++ l) (core_flags-names_of seen ds)
      ∙ sym (core_flags-append fs (switches seen ds)),
)
