-- ===== src/Flags/Order.antt =====
-- Go's order on strings, and sorting by it.
use go_component.Prelude.{Bool, true, false, not, ◌&&◌, ◌≡◌, refl, List, arith, same, ◌||◌}
use mathlib.Core.List.{[] as nil, ◌∷◌ as cons}
use Prim.Native.String.{String, [], ◌∷◌}
use Prim.Native.String.compare
use go_component.Linker.{contains}
use go_component.Flags.{less, insert, sort}

less_asym : (s t : String) → less s t ≡ true → less t s ≡ false
less_asym [] [] first = ground arith
less_asym [] (d ∷ t) first = ground (arith, compare.cons-nil d t)
less_asym (c ∷ s) [] first = ground (arith, compare.cons-nil c s)
less_asym (c ∷ s) (d ∷ t) first =
    ground (arith, compare.cons-cons c d s t, compare.cons-cons d c t s, less_asym s t)

-- The first of the names does not come before the name.
abbrev pub is_below : String → List String → Bool
is_below name nil = true
is_below name (cons next names) = not (less next name)

abbrev pub is_sorted : List String → Bool
is_sorted nil = true
is_sorted (cons name names) = is_below name names && is_sorted names

is_below-insert :
    (other name : String) (names : List String)
    → is_below other names ≡ true
    → less other name ≡ true
    → is_below other (insert name names) ≡ true
unfolding insert
is_below-insert other name nil below before = ground (arith, less_asym other name before)
is_below-insert other name (cons next names) below before =
    ground (arith, less_asym other name before)

is_sorted-insert :
    (name : String) (names : List String)
    → is_sorted names ≡ true
    → is_sorted (insert name names) ≡ true
unfolding insert
is_sorted-insert name nil sorted = refl
is_sorted-insert name (cons next names) sorted =
    ground (arith, is_sorted-insert name names, is_below-insert next name names)

pub is_sorted-sort : (names : List String) → is_sorted (sort names) ≡ true
unfolding sort
is_sorted-sort nil = refl
is_sorted-sort (cons name names) = is_sorted-insert name (sort names) (is_sorted-sort names)

contains-insert :
    (name : String) (names : List String) (target : String)
    → contains (insert name names) target ≡ (same name target || contains names target)
unfolding insert contains
contains-insert name nil target = ground arith
contains-insert name (cons next names) target = ground (arith, contains-insert name names target)

pub contains-sort :
    (names : List String) (target : String) → contains (sort names) target ≡ contains names target
unfolding sort contains
contains-sort nil target = refl
contains-sort (cons name names) target =
    ground (arith, contains-insert name (sort names) target, contains-sort names target)
