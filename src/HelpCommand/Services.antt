-- ===== src/HelpCommand/Services.antt =====
-- The help on services that the command line names.
use go_component.Prelude.{
  ℕ, suc, ◌≡◌, refl, Bool, true, false, not, ◌&&◌, ◌||◌, Option, none, some, List, [], ◌∷◌, ◌++◌,
  arith, append_assoc, Bool-cases, inl, inr,
}
use go_component.Help.{Bytes}
use go_component.HelpCommand.{
  Service, Printed, Ending, returned, fatal, same_bytes, find_service, gap, service_help, answered,
  help_services, help_command,
}

abbrev pub is_known : List Service → Bytes → Bool
is_known [] arg = false
is_known (d ∷ ds) arg = same_bytes d.name arg || is_known ds arg

abbrev pub all_known : List Service → List Bytes → Bool
all_known ds [] = true
all_known ds (arg ∷ args) = is_known ds arg && all_known ds args

abbrev pub begins_unknown : List Service → List Bytes → Bool
begins_unknown ds [] = true
begins_unknown ds (arg ∷ args) = not (is_known ds arg)

abbrev pub section_of : Option Service → List Printed
section_of none = []
section_of (some d) = service_help d

-- The help on each service, with a gap between two.
abbrev pub separated : List Service → List Bytes → List Printed
separated ds [] = []
separated ds (a ∷ []) = section_of (find_service ds a)
separated ds (a ∷ b ∷ args) = section_of (find_service ds a) ++ (gap 1 ++ separated ds (b ∷ args))

-- What the first service that is not known adds.
abbrev pub trailing : List Bytes → List Printed
trailing [] = []
trailing (arg ∷ args) = gap 1

abbrev pub ending_of : List Bytes → Ending
ending_of [] = returned
ending_of (arg ∷ args) = fatal arg

find_service-known :
    (ds : List Service) (arg : Bytes)
    → is_known ds arg ≡ true
    → (d : Service) × (find_service ds arg ≡ some d)
unfolding find_service
find_service-known [] arg known = elim (Bool-cases false) [ inl e ↦ cc | inr e ↦ cc ]
find_service-known (d ∷ ds) arg known = elim (Bool-cases (same_bytes d.name arg)) [
  | inl here ↦ (d, rw here refl)
  | inr later ↦
      let (e, found) = find_service-known ds arg (ground arith) in (e, rw (later, found) refl)
]

find_service-unknown :
    (ds : List Service) (arg : Bytes) → is_known ds arg ≡ false → find_service ds arg ≡ none
unfolding find_service
find_service-unknown [] arg unknown = refl
find_service-unknown (d ∷ ds) arg unknown = ground (arith, find_service-unknown ds arg)

help_services-unknown :
    (ds : List Service) (i : ℕ) (after : List Bytes)
    → begins_unknown ds after ≡ true
    → help_services ds (suc i) after ≡ (trailing after, ending_of after)
unfolding help_services answered
help_services-unknown ds i [] unknown = refl
help_services-unknown ds i (arg ∷ args) unknown =
    rw (find_service-unknown ds arg (ground arith)) refl

answered-known :
    (ds : List Service) (i : ℕ) (arg : Bytes) (out : List Printed) (end : Ending)
    → is_known ds arg ≡ true
    → answered i arg (find_service ds arg) (out, end)
      ≡ (gap i ++ (section_of (find_service ds arg) ++ out), end)
unfolding answered
answered-known ds i arg out end known =
    let (d, found) = find_service-known ds arg known in rw found refl

help_services-from :
    (ds : List Service) (i : ℕ) (arg : Bytes) (before after : List Bytes)
    → all_known ds (arg ∷ before) ≡ true
    → begins_unknown ds after ≡ true
    → help_services ds i (arg ∷ before ++ after)
      ≡ (gap i ++ (separated ds (arg ∷ before) ++ trailing after), ending_of after)
unfolding help_services
help_services-from ds i arg [] after known unknown =
    rw (help_services-unknown ds i after unknown)
      (answered-known ds i arg (trailing after) (ending_of after) (ground arith))
help_services-from ds i arg (next ∷ before) after known unknown =
    rw
      (
        help_services-from ds (suc i) next before after (ground arith) unknown,
        answered-known ds i arg _ (ending_of after) (ground arith),
        append_assoc (section_of (find_service ds arg)),
      )
      refl

-- If the services in front are known and the next one, if there is any, is not, Help prints the
-- help on those in front, in order, with a gap between two, and returns if there is no next one;
-- else it prints a gap and calls log.Fatalf for the next one, whatever follows.
pub help_command-services :
    (progname : Bytes) (flags : List Bytes) (ds : List Service) (a arg : Bytes)
    (before after : List Bytes)
    → all_known ds (arg ∷ before) ≡ true
    → begins_unknown ds after ≡ true
    → help_command progname flags ds (a ∷ arg ∷ before ++ after)
      ≡ (separated ds (arg ∷ before) ++ trailing after, ending_of after)
unfolding help_command
help_command-services progname flags ds a arg before after known unknown =
    help_services-from ds 0 arg before after known unknown
