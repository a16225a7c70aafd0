-- ===== src/Lifecycle/Hooks/Alive.antt =====
-- The health probe behind the hooks, and the lifecycles that have returned.
use go_component.Prelude.{
  ◌≤◌, String, ◌≡◌, ◌≢◌, ◌↔◌, inl, inr, refl, sym, ap, ◌∙◌, subst, Bool, true, false, ◌&&◌,
  Bool-cases, Option, none, some, List, [], ◌∷◌, arith, same, eq_iff, if◌then◌else◌,
}
use text.Mathlib.TextPositions.{eq_refl}
use go_component.Health.{init, alive}
use go_component.Health.Alive.{
  Event, completed, run_events, first_some, last_heard, run_events_health,
}
use go_component.Lifecycle.{
  Cause, L, Forest, leaf, node, is_done, new_lifecycle, run_root, signal_stop, propagate_stop,
  reap_grace, reap_ctx, terminate, exec_error,
}
use go_component.Lifecycle.Step.{Local, starts, forks, registers, fails, ends, child_returns, Step}
use go_component.Lifecycle.Guards.{fork-eq-some, cleanup-eq-some, fatal-eq-some}
use go_component.Lifecycle.Signals.{AllRoots}
use go_component.Lifecycle.Drain.{IsDone}
use go_component.Lifecycle.Run.{
  Runs, executes, steps, shut, cancels, broadcasts, completes, IsDone-Step,
}
use go_component.Lifecycle.Hooks.{
  local_event, step_event, heard, root_name, hook_events, occurrences, none_returned, status, told,
}
use go_component.Lifecycle.Hooks.Hears.{status-of_none, Hears-Returns, Hears-cancelled}
use go_component.Lifecycle.Hooks.Steps.{Hears-Step}

eq_of : (s u : String) → same s u ≡ true → s ≡ u
eq_of s u = (eq_iff s u).0

last_heard-heard :
    (name : String) (es : List Event) (e : Option Event)
    → last_heard name (heard es e) ≡ first_some (told name e) (last_heard name es)
last_heard-heard name es none = refl
last_heard-heard name [] (some e) = ground arith
last_heard-heard name (d ∷ es) (some e) = ground (arith, last_heard-heard name es (some e))

Runs-completed :
    {orderly has_done : Bool} {s : Forest} {stopper : Bool} {t : Forest} {broadcast over : Bool}
    → Runs orderly has_done s stopper t broadcast over
    → over ≡ true
    → AllRoots IsDone t
Runs-completed executes e = cc
Runs-completed (steps r st) e = IsDone-Step st (Runs-completed r e)
Runs-completed (shut r) e = Runs-completed r e
Runs-completed (cancels c r) e = Runs-completed r e
Runs-completed (broadcasts h d r) e = d
Runs-completed (completes d r) e = d

name-exec_error : (err : Option Cause) (l : L) (ts : Forest) → (exec_error err l ts).0.name ≡ l.name
unfolding exec_error
name-exec_error none l ts = refl
name-exec_error (some err) l ts = refl

name-Local :
    {orderly stopper : Bool} {l : L} {ts : Forest} {l' : L} {ts' : Forest}
    → Local orderly stopper l ts l' ts'
    → l'.name ≡ l.name
unfolding signal_stop propagate_stop reap_grace reap_ctx terminate
name-Local (forks {l} {ts} name e k) = rw ((fork-eq-some name l ts e).2)
name-Local (registers {l} f e k) = rw ((cleanup-eq-some f l e).1)
name-Local (fails {l} {ts} err e) = rw ((fatal-eq-some err l ts e).1)
name-Local (ends {l} {ts} err e) = name-exec_error err l ts
name-Local _ = refl

root_name-Step :
    {orderly stopper : Bool} {t u : Forest} → Step orderly stopper t u → root_name u ≡ root_name t
root_name-Step (Step.here st) = name-Local st
root_name-Step (Step.below st) = refl
root_name-Step (Step.beside st) = refl

told_root-Local :
    {orderly stopper : Bool} {l : L} {ts : Forest} {l' : L} {ts' : Forest}
    (st : Local orderly stopper l ts l' ts')
    → is_done l.phase ≡ true
    → occurrences l.name ts ≡ 0
    → told l.name (local_event st) ≡ none
told_root-Local (starts e) d z = absurd (ground arith)
told_root-Local (child_returns {l} r) d z = (Hears-Returns l.name r).concerns z
told_root-Local _ d z = refl

-- Once the root is done, its hooks are silent, up to the completed hook.
told_root :
    {orderly stopper : Bool} {t u : Forest} (st : Step orderly stopper t u)
    → AllRoots IsDone t
    → occurrences (root_name t) t ≤ 1
    → told (root_name t) (step_event st) ≡ none
told_root (Step.here {l} st) d once = told_root-Local st d.0 (ground (arith, eq_refl l.name))
told_root (Step.below {l} st) d once =
    (Hears-Step l.name st).concerns (ground (arith, eq_refl l.name))
told_root (Step.beside {l} st) d once =
    (Hears-Step l.name st).concerns (ground (arith, eq_refl l.name))

-- What the hooks have told of a name.
abbrev known_status : String → (over : Bool) → Forest → Option Bool
known_status name over t = if over && same (root_name t) name then some false else status name t

known_status-Step :
    (name : String) {orderly stopper : Bool} {over : Bool} {t u : Forest}
    (st : Step orderly stopper t u)
    → (over ≡ true → AllRoots IsDone t)
    → occurrences name u ≤ 1
    → known_status name over u ≡ first_some (told name (step_event st)) (known_status name over t)
known_status-Step name {over = false} st done once =
    let h = Hears-Step name st in ground (arith, h.tells)
known_status-Step name {over = true} {t = t} {u = u} st done once =
    let h = Hears-Step name st in
    let named = root_name-Step st in
    elim (Bool-cases (same (root_name t) name)) [
      | inl own ↦
          let e : root_name t ≡ name = eq_of _ _ own in
          let silent : told name (step_event st) ≡ none =
            subst (λ n. told n (step_event st) ≡ none) e
              (told_root st (done refl) (rw e (ground (arith, h.grows)))) in
          rw (named, own, silent) refl
      | inr other ↦ rw (named, other) (h.tells once)
    ]

last_heard-Runs :
    (name : String) (root : String) (ctx : Option Cause) (has_stopper : Bool) {orderly : Bool}
    {has_done stopper broadcast over : Bool} {t : Forest}
    (r : Runs orderly has_done (run_root root ctx has_stopper) stopper t broadcast over)
    → occurrences name t ≤ 1
    → last_heard name (hook_events r) ≡ known_status name over t
unfolding hook_events new_lifecycle
last_heard-Runs name root ctx has_stopper executes once = ground arith
last_heard-Runs name root ctx has_stopper (steps r st) once =
    let before =
      last_heard-Runs name root ctx has_stopper r
        (ground (arith, once, (Hears-Step name st).grows)) in
    last_heard-heard name (hook_events r) (step_event st)
    ∙ ap (first_some (told name (step_event st))) before
    ∙ sym (known_status-Step name st (Runs-completed r) once)
last_heard-Runs name root ctx has_stopper (shut r) once =
    last_heard-Runs name root ctx has_stopper r once
last_heard-Runs name root ctx has_stopper (cancels {completed = over} {l} {ts} c r) once =
    let h = Hears-cancelled name c l ts leaf in
    let before = last_heard-Runs name root ctx has_stopper r (ground (arith, once, h.grows)) in
    before ∙ ap (λ s. if over && same l.name name then some false else s) (sym (h.tells once))
last_heard-Runs name root ctx has_stopper (broadcasts h d r) once =
    last_heard-Runs name root ctx has_stopper r once
last_heard-Runs name root ctx has_stopper (completes {t} d r) once =
    last_heard-heard name (hook_events r) (some (completed (root_name t)))
    ∙ ground (arith, last_heard-Runs name root ctx has_stopper r once)

none_returned-status :
    (name : String) (t : Forest) → none_returned t ≡ true → status name t ≢ some false
none_returned-status name leaf h = cc
none_returned-status name (node l ts s) h =
    ground (arith, none_returned-status name ts, none_returned-status name s)

status-of_returned :
    (t : Forest)
    → ((name : String) → occurrences name t ≤ 1)
    → ((name : String) → status name t ≢ some false)
    → none_returned t ≡ true
status-of_returned leaf once h = refl
status-of_returned (node l ts s) once h = ground (
  arith,
  h l.name,
  eq_refl l.name,
  status-of_returned ts (λ name. ground (arith, once name))
      (λ name e. h name (ground (arith, once name, status-of_none name ts))),
  status-of_returned s (λ name. ground (arith, once name))
      (λ name e. h name (ground (arith, once name, status-of_none name s, status-of_none name ts))),
)

-- Run of a program whose lifecycles all have different names, with the health probe of the loader
-- behind its hooks: in every state that it comes to, whatever the order of the steps, Alive is true
-- exactly if the completed hook of the root has not been called, and no lifecycle below it has returned.
pub Runs-alive :
    (root : String) (ctx : Option Cause) (has_stopper : Bool) {orderly : Bool}
    {has_done stopper broadcast over : Bool} {t : Forest}
    (r : Runs orderly has_done (run_root root ctx has_stopper) stopper t broadcast over)
    → ((name : String) → occurrences name t ≤ 1)
    → (alive (run_events init (hook_events r)) ≡ true) ↔ ((over ≡ false) × (none_returned t ≡ true))
Runs-alive root ctx has_stopper {over = true} {t = t} r once =
    let health = (run_events_health (hook_events r)).1 in
    let ended =
      last_heard-Runs (root_name t) root ctx has_stopper r (once (root_name t))
      ∙ ground (arith, eq_refl (root_name t)) in
    ((λ h. absurd (health.0 h (root_name t) ended)), (λ h. absurd (ground arith)))
Runs-alive root ctx has_stopper {over = false} {t = t} r once =
    let health = (run_events_health (hook_events r)).1 in
    let known = λ (name : String). last_heard-Runs name root ctx has_stopper r (once name) in
    (
      (λ h. (refl, status-of_returned t once (λ name. rw (← known name) (health.0 h name)))),
      (λ h. health.1 (λ name. rw (known name) (none_returned-status name t h.1))),
    )
