-- ===== src/Flags/Registration/Distinct.antt =====
-- Registration comes to one test of all the names together.
use Prim.Native.String.{◌++◌ as concat}
use go_component.Prelude.{
  ℕ, String, Bool, true, false, not, ◌&&◌, ◌||◌, Option, none, some, List, [], ◌∷◌, ◌++◌, same,
  if◌then◌else◌, ◌≡◌, refl, sym, ap, subst, ◌∙◌, arith, append_assoc, append-nil, Bool-cases, inl,
  inr, eq_iff,
}
use go_component.Linker.{contains}
use go_component.Flags.Registration.{
  Component, is_flag_name, define_var, and_then, define_flags, is_registered, register_switch,
  register_all,
}

-- The flags of a component under its name.
abbrev pub prefixed : String → List String → List String
prefixed prefix [] = []
prefixed prefix (f ∷ flags) = concat prefix f ∷ prefixed prefix flags

abbrev pub switch_names : List ℕ → Component → List String
switch_names seen d = if is_registered seen d.address then [] else d.name ∷ []

-- The names that the components ask for: a switch for each descriptor, once, and its flags each
-- time that it is given.
abbrev pub names_of : List ℕ → List Component → List String
names_of seen [] = []
names_of seen (d ∷ ds) =
    switch_names seen d ++ (prefixed (concat d.name ".") d.flags ++ names_of (d.address ∷ seen) ds)

-- No name stands in the list twice.
abbrev pub distinct : List String → Bool
distinct [] = true
distinct (n ∷ ns) = not (contains ns n) && distinct ns

abbrev pub all_flag_names : List String → Bool
all_flag_names [] = true
all_flag_names (n ∷ ns) = is_flag_name n && all_flag_names ns

contains-append :
    (u v : List String) (n : String) → contains (u ++ v) n ≡ (contains u n || contains v n)
unfolding contains
contains-append [] v n = refl
contains-append (m ∷ u) v n = ground (arith, contains-append u v n)

distinct-before : (u v : List String) → distinct (u ++ v) ≡ true → distinct u ≡ true
distinct-before [] v h = refl
distinct-before (n ∷ u) v h = ground (arith, contains-append u v n, distinct-before u v)

same-sym : (s t : String) → same s t ≡ same t s
same-sym s t = elim (Bool-cases (same s t)) [
  | inl equal ↦ ground (arith, eq_iff s t, eq_iff t s)
  | inr unequal ↦ elim (Bool-cases (same t s)) [
    | inl equal ↦ ground (arith, eq_iff s t, eq_iff t s)
    | inr other ↦ unequal ∙ sym other
  ]
]

distinct-last :
    (fs : List String) (n : String) → distinct (fs ++ n ∷ []) ≡ (distinct fs && not (contains fs n))
unfolding contains
distinct-last [] n = refl
distinct-last (m ∷ fs) n =
    ground (arith, contains-append fs (n ∷ []) m, distinct-last fs n, same-sym m n)

-- What defining some names comes to.
abbrev pub defined : List String → List String → Option (List String)
defined fs ns = if distinct (fs ++ ns) && all_flag_names ns then some (fs ++ ns) else none

define_var-defined :
    (fs : List String) (n : String) → distinct fs ≡ true → define_var fs n ≡ defined fs (n ∷ [])
unfolding define_var
define_var-defined fs n start = ground (arith, distinct-last fs n)

defined-nil : (fs : List String) → distinct fs ≡ true → some fs ≡ defined fs []
defined-nil fs start = rw append-nil (ground arith)

some_of_if :
    (b : Bool) (l : List String) {gs : List String}
    → (if b then some l else none) ≡ some gs
    → (b ≡ true) × (l ≡ gs)
some_of_if true l e = (refl, ground arith)
some_of_if false l e = ground arith

defined-distinct :
    (fs ns : List String) {gs : List String} → defined fs ns ≡ some gs → distinct gs ≡ true
defined-distinct fs ns e =
    let (fine, l) = some_of_if (distinct (fs ++ ns) && all_flag_names ns) (fs ++ ns) e in
    subst (λ x. distinct x ≡ true) l (ground arith)

all_flag_names-append :
    (u v : List String) → all_flag_names (u ++ v) ≡ (all_flag_names u && all_flag_names v)
all_flag_names-append [] v = refl
all_flag_names-append (n ∷ u) v = ground (arith, all_flag_names-append u v)

defined-append :
    (fs u v : List String) → and_then (defined fs u) (λ gs. defined gs v) ≡ defined fs (u ++ v)
unfolding and_then
defined-append fs u v = elim (Bool-cases (distinct (fs ++ u) && all_flag_names u)) [
  | inl fine ↦ rw (fine, append_assoc fs u v, all_flag_names-append u v) (ground arith)
  | inr bad ↦
      rw (bad, all_flag_names-append u v, sym (append_assoc fs u v))
        (ground (arith, distinct-before (fs ++ u) v))
]

and_then-ap :
    (o : Option (List String)) (f g : List String → Option (List String))
    → ((fs : List String) → o ≡ some fs → f fs ≡ g fs)
    → and_then o f ≡ and_then o g
unfolding and_then
and_then-ap none f g same_next = refl
and_then-ap (some fs) f g same_next = same_next fs refl

-- One step after another.
defined_then :
    (fs u v : List String) (next : List String → Option (List String))
    → ((gs : List String) → distinct gs ≡ true → next gs ≡ defined gs v)
    → and_then (defined fs u) next ≡ defined fs (u ++ v)
defined_then fs u v next goes =
    and_then-ap (defined fs u) next (λ gs. defined gs v) (λ gs e. goes gs (defined-distinct fs u e))
    ∙ defined-append fs u v

-- The test for a conflict comes to what Var does.
define_flags-cons :
    (prefix f : String) (flags fs : List String)
    → define_flags prefix (f ∷ flags) fs
      ≡ and_then (define_var fs (concat prefix f)) (define_flags prefix flags)
unfolding define_flags define_var and_then
define_flags-cons prefix f flags fs = elim (Bool-cases (contains fs (concat prefix f))) [
  | inl conflict ↦ rw conflict (ground arith)
  | inr free ↦ rw free refl
]

define_flags-defined :
    (prefix : String) (flags fs : List String)
    → distinct fs ≡ true
    → define_flags prefix flags fs ≡ defined fs (prefixed prefix flags)
unfolding define_flags
define_flags-defined prefix [] fs start = defined-nil fs start
define_flags-defined prefix (f ∷ flags) fs start =
    define_flags-cons prefix f flags fs
    ∙ ap (λ o. and_then o (define_flags prefix flags))
        (define_var-defined fs (concat prefix f) start)
    ∙ defined_then fs (concat prefix f ∷ []) (prefixed prefix flags) (define_flags prefix flags)
        (λ gs fine. define_flags-defined prefix flags gs fine)

register_switch-defined :
    (seen : List ℕ) (d : Component) (fs : List String)
    → distinct fs ≡ true
    → register_switch seen d fs ≡ defined fs (switch_names seen d)
unfolding register_switch
register_switch-defined seen d fs start = elim (Bool-cases (is_registered seen d.address)) [
  | inl again ↦ rw again (defined-nil fs start)
  | inr first ↦ rw first (define_var-defined fs d.name start)
]

pub register_all-defined :
    (seen : List ℕ) (ds : List Component) (fs : List String)
    → distinct fs ≡ true
    → register_all seen ds fs ≡ defined fs (names_of seen ds)
unfolding register_all
register_all-defined seen [] fs start = defined-nil fs start
register_all-defined seen (d ∷ ds) fs start =
    let flags = prefixed (concat d.name ".") d.flags in
    let rest = names_of (d.address ∷ seen) ds in
    ap
      (λ o. and_then o (λ fs.
        and_then (define_flags (concat d.name ".") d.flags fs)
          (register_all (d.address ∷ seen) ds)))
      (register_switch-defined seen d fs start)
    ∙ defined_then fs (switch_names seen d) (flags ++ rest)
        (λ fs.
          and_then (define_flags (concat d.name ".") d.flags fs)
            (register_all (d.address ∷ seen) ds))
        (λ gs fine.
          ap (λ o. and_then o (register_all (d.address ∷ seen) ds))
            (define_flags-defined (concat d.name ".") d.flags gs fine)
          ∙ defined_then gs flags rest (register_all (d.address ∷ seen) ds)
              (λ hs good. register_all-defined (d.address ∷ seen) ds hs good))
