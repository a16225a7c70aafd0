-- ===== src/Cleanup/Appended.antt =====
-- Two cleanup stacks, the one above the other.
use go_component.Prelude.{
  ◌+◌, ◌≡◌, refl, sym, ap, ◌∙◌, List, [], ◌∷◌, ◌++◌, arith, append_assoc, append-nil,
}
use go_component.Cleanup.{CleanupFunc, Registered, nil, cons, to_list}
use go_component.Cleanup.Order.{of_list, order, order_fn, IsQuiet, size}

pub order-append :
    (u v : List CleanupFunc) → order (of_list (u ++ v)) ≡ order (of_list v) ++ order (of_list u)
order-append [] v = sym (append-nil (order (of_list v)))
order-append (f ∷ u) v =
    ap (λ l. l ++ order_fn f) (order-append u v)
    ∙ append_assoc (order (of_list v)) (order (of_list u)) (order_fn f)

pub IsQuiet-append :
    (u v : List CleanupFunc)
    → IsQuiet (of_list u)
    → IsQuiet (of_list v)
    → IsQuiet (of_list (u ++ v))
IsQuiet-append [] v quiet more = more
IsQuiet-append (f ∷ u) v quiet more = (quiet.0, IsQuiet-append u v quiet.1 more)

pub size-append :
    (u v : List CleanupFunc) → size (of_list (u ++ v)) ≡ size (of_list u) + size (of_list v)
size-append [] v = omega arith
size-append (f ∷ u) v = omega (arith, size-append u v)

pub IsQuiet-split :
    (u v : List CleanupFunc)
    → IsQuiet (of_list (u ++ v))
    → IsQuiet (of_list u) × IsQuiet (of_list v)
IsQuiet-split [] v quiet = (tt, quiet)
IsQuiet-split (f ∷ u) v quiet =
    let (above, below) = IsQuiet-split u v quiet.1 in ((quiet.0, above), below)

pub of_list-to_list : (r : Registered) → of_list (to_list r) ≡ r
of_list-to_list nil = refl
of_list-to_list (cons f fs) = ap (cons f) (of_list-to_list fs)
