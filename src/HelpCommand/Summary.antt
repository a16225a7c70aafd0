-- ===== src/HelpCommand/Summary.antt =====
-- The summary of the registered components.
use mathlib.Core.List.Perm
use mathlib.Core.List.{Perm}
use go_component.Prelude.{◌+◌, ◌-◌, Bool, true, false, not, ◌&&◌, List, [], ◌∷◌, length, leb}
use go_component.Help.{Bytes}
use go_component.HelpCommand.{Service, bytes_less, runes}

-- No component stands before one whose name is smaller.
abbrev pub in_order : List Service → Bool
in_order [] = true
in_order (d ∷ []) = true
in_order (d ∷ e ∷ ds) = not (bytes_less e.name d.name) && in_order (e ∷ ds)

-- Each line is that of a component: no longer than the name, the spaces that fill it up to 12 runes,
-- and 86 bytes more.
abbrev pub lines_fit : List Service → List Bytes → Bool
lines_fit [] [] = true
lines_fit (d ∷ ds) (l ∷ ls) =
    leb (length l) (length d.name + (12 - runes d.name) + 86) && lines_fit ds ls
lines_fit ds ls = false
