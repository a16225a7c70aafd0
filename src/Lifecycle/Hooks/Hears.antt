-- ===== src/Lifecycle/Hooks/Hears.antt =====
-- What each step of a lifecycle tells the hooks, and what is known of each name before and after.
use go_component.Prelude.{ℕ, ◌+◌, ◌≤◌, String, ◌≡◌, refl, Bool, Option, none, some, arith}
use go_component.Health.Alive.{Event, completed, first_some}
use go_component.Lifecycle.{Cause, L, Forest, leaf, node, cancelled, cancel_all, new_lifecycle}
use go_component.Lifecycle.Step.{Returns}
use go_component.Lifecycle.Guards.{forked}
use go_component.Lifecycle.Hooks.{completed_name, own_count, occurrences, own_status, status, told}

pub status-of_none : (name : String) (t : Forest) → occurrences name t ≡ 0 → status name t ≡ none
status-of_none name leaf h = refl
status-of_none name (node l ts s) h = ground (arith, status-of_none name ts, status-of_none name s)

pub occurrences-cancel_all :
    (name : String) (c : Cause) (t : Forest)
    → occurrences name (cancel_all c t) ≡ occurrences name t
unfolding cancel_all
occurrences-cancel_all name c leaf = refl
occurrences-cancel_all name c (node l ts s) =
    rw (occurrences-cancel_all name c ts, occurrences-cancel_all name c s) refl

pub status-cancel_all :
    (name : String) (c : Cause) (t : Forest) → status name (cancel_all c t) ≡ status name t
unfolding cancel_all
status-cancel_all name c leaf = refl
status-cancel_all name c (node l ts s) =
    rw (status-cancel_all name c ts, status-cancel_all name c s) refl

-- What a step does to the count of a name, and to what is known of it.
pub record Hears (name : String) (n n' : ℕ) (e : Option Event) (o o' : Option Bool) : Type 0 where
  pub grows : n ≤ n'
  pub concerns : n ≡ 0 → told name e ≡ none
  pub tells : n' ≤ 1 → o' ≡ first_some (told name e) o

pub Hears-before :
    (name : String) (a n n' : ℕ) (e : Option Event) (x o o' : Option Bool)
    → (a ≡ 0 → x ≡ none)
    → Hears name n n' e o o'
    → Hears name (a + n) (a + n') e (first_some x o) (first_some x o')
Hears-before name a n n' e x o o' absent h = record {
  grows = omega (arith, h.grows);
  concerns = λ z. h.concerns (omega arith);
  tells = λ once. ground (arith, h.tells, h.grows, h.concerns, absent);
}

Hears-after :
    (name : String) (b n n' : ℕ) (e : Option Event) (y o o' : Option Bool)
    → Hears name n n' e o o'
    → Hears name (n + b) (n' + b) e (first_some o y) (first_some o' y)
Hears-after name b n n' e y o o' h = record {
  grows = omega (arith, h.grows);
  concerns = λ z. h.concerns (omega arith);
  tells = λ once. ground (arith, h.tells);
}

own_status-of_none : (name : String) (l : L) → own_count name l ≡ 0 → own_status name l ≡ none
own_status-of_none name l h = ground arith

pub Hears-node :
    (name : String) (l : L) (e : Option Event) (n n' : ℕ) (o o' : Option Bool)
    → Hears name n n' e o o'
    → Hears name
        (own_count name l + n)
        (own_count name l + n')
        e
        (first_some (own_status name l) o)
        (first_some (own_status name l) o')
Hears-node name l e n n' o o' =
    Hears-before name (own_count name l) n n' e (own_status name l) o o' (own_status-of_none name l)

pub Hears-Returns :
    (name : String) {t u : Forest} (r : Returns t u)
    → Hears name
        (occurrences name t)
        (occurrences name u)
        (some (completed (completed_name r)))
        (status name t)
        (status name u)
Hears-Returns name (Returns.here {l} {ts} {s} e) = record {
  grows = omega arith;
  concerns = λ z. ground arith;
  tells = λ once. ground arith;
}
Hears-Returns name (Returns.next {l} {ts} {s} {s'} r) =
    let e = some (completed (completed_name r)) in
    Hears-node name l e (occurrences name ts + occurrences name s)
      (occurrences name ts + occurrences name s') (first_some (status name ts) (status name s))
      (first_some (status name ts) (status name s'))
      (Hears-before name (occurrences name ts) (occurrences name s) (occurrences name s') e
        (status name ts) (status name s) (status name s') (status-of_none name ts)
        (Hears-Returns name r))

pub Hears-children :
    (name : String) (l : L) (ts ts' s : Forest) (e : Option Event)
    → Hears name (occurrences name ts) (occurrences name ts') e (status name ts) (status name ts')
    → Hears name
        (occurrences name (node l ts s))
        (occurrences name (node l ts' s))
        e
        (status name (node l ts s))
        (status name (node l ts' s))
Hears-children name l ts ts' s e h =
    Hears-node name l e (occurrences name ts + occurrences name s)
      (occurrences name ts' + occurrences name s) (first_some (status name ts) (status name s))
      (first_some (status name ts') (status name s))
      (Hears-after name (occurrences name s) (occurrences name ts) (occurrences name ts') e
        (status name s) (status name ts) (status name ts') h)

pub Hears-cancelled :
    (name : String) (c : Cause) (l : L) (ts s : Forest)
    → Hears name
        (occurrences name (node l ts s))
        (occurrences name (node (cancelled c l) (cancel_all c ts) s))
        none
        (status name (node l ts s))
        (status name (node (cancelled c l) (cancel_all c ts) s))
Hears-cancelled name c l ts s =
    rw (occurrences-cancel_all name c ts, status-cancel_all name c ts)
      (record { grows = omega arith; concerns = λ z. refl; tells = λ once. refl })

pub Hears-forked :
    (name n : String) (l : L) (ts s : Forest)
    → Hears n
        (occurrences n (node l ts s))
        (occurrences n (node (record l { wg = l.wg + 1 }) (forked name l ts) s))
        none
        (status n (node l ts s))
        (status n (node (record l { wg = l.wg + 1 }) (forked name l ts) s))
unfolding new_lifecycle
Hears-forked name n l ts s = record {
  grows = omega arith;
  concerns = λ z. refl;
  tells = λ once. ground arith;
}
