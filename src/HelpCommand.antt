-- ===== src/HelpCommand.antt =====
-- The help subcommand: Help of loader/loaderflags/help.go, without the loops over words and lines,
-- which stand in Help. What a call prints is a list of texts and of flag-sets whose defaults are
-- printed. Texts are bytes, as in Help. Two components of one name may stand in the summary in either
-- order. The names of the flags are those of a command line that ParseFlags has accepted, so that
-- defining them again does not panic.
pub mod Summary
pub mod Services
mod Tests
use Prim.Native.Char.{code}
use Prim.Native.String
use Prim.Native.String.{String}
use go_component.Prelude.{
  ℕ, zero, suc, ◌-◌, Bool, true, false, not, ◌&&◌, ◌||◌, Option, none, some, List, [], ◌∷◌, ◌++◌,
  map, length, ◌==◌, ltb, if◌then◌else◌,
}
use go_component.Help.{Bytes, paragraphs, join_paragraphs, fill_paragraphs, shorten_paragraph}
use go_component.ExtractDoc.{after_prefix, trim_space}

abbrev pub codes : String → Bytes
codes String.[] = []
codes (String.◌∷◌ c s) = code c ∷ codes s

-- What the help reads of a component.Descriptor; the names of the flags as VisitAll visits them.
pub record Service : Type 0 where
  pub name : Bytes
  pub doc : Bytes
  pub flags : List Bytes

-- Text, and what PrintDefaults prints of a flag-set in which the flags of these names are defined.
pub data Printed : Type 0 where
  text : Bytes → Printed
  defaults : List Bytes → Printed

-- The output of a call, and how it ends: `fatal` is the call of log.Fatalf for a service.
pub data Ending : Type 0 where
  panicked returned : Ending
  fatal : Bytes → Ending

abbrev pub Output : Type 0
Output = List Printed × Ending

-- a < b of two strings
unfoldable pub bytes_less : Bytes → Bytes → Bool
bytes_less a [] = false
bytes_less [] (d ∷ b) = true
bytes_less (c ∷ a) (d ∷ b) = let rest = bytes_less a b in if c == d then rest else ltb c d

unfoldable pub insert_by_name : Service → List Service → List Service
insert_by_name d [] = d ∷ []
insert_by_name d (e ∷ ds) =
    let rest = insert_by_name d ds in if bytes_less e.name d.name then e ∷ rest else d ∷ e ∷ ds

-- sort.Slice by name
unfoldable pub sort_by_name : List Service → List Service
sort_by_name [] = []
sort_by_name (d ∷ ds) = insert_by_name d (sort_by_name ds)

unfoldable pub spaces : ℕ → Bytes
spaces zero = []
spaces (suc n) = 32 ∷ spaces n

-- The runes of a text in UTF-8: the bytes 128 to 191 go on with the rune before.
unfoldable pub runes : Bytes → ℕ
runes [] = 0
runes (c ∷ s) = let rest = runes s in if not (ltb c 128) && ltb c 192 then rest else suc rest

-- The verb %-12s, which counts runes
unfoldable pub padded : ℕ → Bytes → Bytes
unfolding runes
padded width s = s ++ spaces (width - runes s)

abbrev pub head : List Bytes → Bytes
head [] = []
head (p ∷ ps) = p

abbrev pub tail : List Bytes → List Bytes
tail [] = []
tail (p ∷ ps) = ps

abbrev pub line_of : Bytes → Option Bytes → Option Bytes
line_of name none = none
line_of name (some title) = some (spaces 4 ++ padded 12 name ++ 32 ∷ (title ++ 10 ∷ []))

-- The line of a component in the summary; `none` is a panic of shortenParagraph.
unfoldable pub summary_line : Service → Option Bytes
summary_line d = line_of d.name (shorten_paragraph (head (paragraphs d.doc)) 80)

abbrev pub cons_line : Option Bytes → Option (List Bytes) → Option (List Bytes)
cons_line (some l) (some ls) = some (l ∷ ls)
cons_line l ls = none

unfoldable pub summary_lines : List Service → Option (List Bytes)
summary_lines [] = some []
summary_lines (d ∷ ds) = cons_line (summary_line d) (summary_lines ds)

-- strings.ReplaceAll, with as many bytes of a match left as `skip` tells
unfoldable pub replace_all : (old new : Bytes) → (skip : ℕ) → Bytes → Bytes
replace_all old new skip [] = []
replace_all old new (suc skip) (c ∷ s) = replace_all old new skip s
replace_all old new zero (c ∷ s) =
    let after = replace_all old new (length old - 1) s in
    let rest = replace_all old new 0 s in
    elim (after_prefix old (c ∷ s)) [ none ↦ c ∷ rest | some t ↦ new ++ after ]

abbrev pub has_dot : Bytes → Bool
has_dot [] = false
has_dot (c ∷ s) = c == 46 || has_dot s

-- The flags of the command line whose names have no dot.
unfoldable pub core_names : List Bytes → List Bytes
core_names [] = []
core_names (f ∷ fs) = let rest = core_names fs in if has_dot f then rest else f ∷ rest

pub flat : List Bytes → Bytes
flat [] = []
flat (l ∷ ls) = l ++ flat ls

abbrev enabling : Bytes
enabling =
    codes "\nBy default all service components are run.\n"
    ++ (codes "To enabled them specifically, use the -NAME flag for each one,\n"
        ++ codes " or -NAME=false to run all those not explicitly disabled.\n")

-- The constant help
unfoldable pub help : Bytes
unfolding flat
help = flat (
    codes "\n"
    ∷ codes "PROGNAME is a host for loading of system service components.\n"
    ∷ codes "\n"
    ∷ codes "PROGNAME responds to footprints in a dedicated system deployment,\n"
    ∷ codes "and loads the appropriate service components. It can be used to\n"
    ∷ codes "load a single service component or a set of service components,\n"
    ∷ codes "linked together over pub-sub. PROGNAME is designed to be used as\n"
    ∷ codes "a Docker container in a Kubernetes cluster or run as a standalone\n"
    ∷ codes "process. PROGNAME allows environment variable values to be split\n"
    ∷ codes "into separate arguments at semicolons. This enables parsing of\n"
    ∷ codes "compound environment variable values as individual configuration\n"
    ∷ codes "parameters.\n"
    ∷ codes "\n"
    ∷ codes "For example:\n"
    ∷ codes "\n"
    ∷ codes
        "export KAFKA_CONFIG=ChannelBufferSize=100;Consumer.Offset.Initial=sarama.OffsetOldest\n"
    ∷ [])

pub summary_of :
    (progname : Bytes) (flags : List Bytes) → Option Bytes → Option (List Bytes) → Output
unfolding core_names flat
summary_of progname flags (some prologue) (some lines) = (
  text (prologue ++ codes "\n\nRegistered service components:\n\n")
      ∷ text (flat lines)
      ∷ text (enabling ++ codes "\nCore flags:\n\n")
      ∷ defaults (core_names flags)
      ∷ text (
          codes "\nTo see details and flags of a specific service, run '"
          ++ (progname ++ codes " help name'.\n"))
      ∷ [],
  returned,
)
summary_of progname flags prologue lines = ([], panicked)

-- Help without arguments
unfoldable pub help_summary : (progname : Bytes) (flags : List Bytes) → List Service → Output
unfolding summary_of
help_summary progname flags ds =
    summary_of progname flags (fill_paragraphs (replace_all (codes "PROGNAME") progname 0 help) 69)
      (summary_lines (sort_by_name ds))

abbrev pub qualified : Bytes → List Bytes → List Bytes
qualified name flags = map (λ (f : Bytes). name ++ 46 ∷ f) flags

abbrev pub flags_heading : List Bytes → Bytes
flags_heading [] = []
flags_heading (f ∷ fs) = codes "\nService flags:\n\n"

abbrev pub details : List Bytes → Bytes
details [] = []
details (p ∷ ps) = codes "\n" ++ (join_paragraphs (p ∷ ps) ++ codes "\n")

-- What Help prints of one service.
unfoldable pub service_help : Service → List Printed
service_help d =
    let paras = paragraphs d.doc in
    text
      (d.name ++ (codes ": " ++ (trim_space (head paras) ++ (codes "\n" ++ flags_heading d.flags))))
    ∷ defaults (qualified d.name d.flags)
    ∷ text (details (tail paras))
    ∷ []

-- d.Name == arg
abbrev pub same_bytes : Bytes → Bytes → Bool
same_bytes [] [] = true
same_bytes (c ∷ a) (d ∷ b) = c == d && same_bytes a b
same_bytes a b = false

-- The loop over the descriptors: the first of the name.
unfoldable pub find_service : List Service → Bytes → Option Service
find_service [] arg = none
find_service (d ∷ ds) arg =
    let rest = find_service ds arg in if same_bytes d.name arg then some d else rest

-- Between the services.
abbrev pub gap : ℕ → List Printed
gap zero = []
gap (suc i) = text (codes "\n\n") ∷ []

pub answered : ℕ → Bytes → Option Service → Output → Output
answered i arg none rest = (gap i, fatal arg)
answered i arg (some d) (out, end) = (gap i ++ (service_help d ++ out), end)

-- The loop over the arguments from the one with the index on.
unfoldable pub help_services : List Service → ℕ → List Bytes → Output
unfolding answered
help_services ds i [] = ([], returned)
help_services ds i (arg ∷ args) =
    answered i arg (find_service ds arg) (help_services ds (suc i) args)

-- Help; `args` are those of the command line, of which the first is `help`. There is a panic if
-- there are none.
unfoldable pub help_command :
    (progname : Bytes) (flags : List Bytes) → List Service → (args : List Bytes) → Output
help_command progname flags ds [] = ([], panicked)
help_command progname flags ds (a ∷ []) = help_summary progname flags ds
help_command progname flags ds (a ∷ arg ∷ args) = help_services ds 0 (arg ∷ args)
