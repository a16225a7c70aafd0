-- ===== src/Lifecycle/Hooks.antt =====
-- What the health of the loader hears from a lifecycle and those below it: Started and Completed of
-- procedure.go, as execute calls them, with the hooks that Load of loader.go registers. Fork hands
-- the hooks on to the child. The completed hook of a child and wg.Done of its parent, which follows
-- at once, are one step, and so are the started hook and the beginning of l.exec. The completed hook of
-- the root is called once l.exec has returned, by the step `completes` of Run.antt.
pub mod Hears
pub mod Steps
pub mod Alive
use go_component.Prelude.{
  ℕ, ◌+◌, String, Bool, true, false, not, ◌&&◌, Option, none, some, List, [], ◌∷◌, ◌++◌, same,
  if◌then◌else◌,
}
use go_component.Health.Alive.{Event, started, completed, about, first_some}
use go_component.Lifecycle.{Phase, starting, returned, L, Forest, leaf, node}
use go_component.Lifecycle.Step.{Returns, Local, starts, child_returns, Step}
use go_component.Lifecycle.Joined.{is_returned}
use go_component.Lifecycle.Run.{Runs, executes, steps, shut, cancels, broadcasts, completes}

-- The child that completes.
abbrev pub completed_name : {t u : Forest} → Returns t u → String
completed_name (Returns.here {l} e) = l.name
completed_name (Returns.next r) = completed_name r

-- options.Started, and the deferred options.Completed
abbrev pub local_event :
    {orderly stopper : Bool} {l : L} {ts : Forest} {l' : L} {ts' : Forest}
    → Local orderly stopper l ts l' ts'
    → Option Event
local_event (starts {l} e) = some (started l.name)
local_event (child_returns r) = some (completed (completed_name r))
local_event _ = none

abbrev pub step_event :
    {orderly stopper : Bool} {t u : Forest} → Step orderly stopper t u → Option Event
step_event (Step.here st) = local_event st
step_event (Step.below st) = step_event st
step_event (Step.beside st) = step_event st

abbrev pub heard : List Event → Option Event → List Event
heard es none = es
heard es (some e) = es ++ e ∷ []

abbrev pub root_name : Forest → String
root_name leaf = ""
root_name (node l ts s) = l.name

-- What the hooks have been called with in a call of Run, in the order of the calls.
unfoldable pub hook_events :
    {orderly has_done : Bool} {s : Forest} {stopper : Bool} {t : Forest}
    {broadcast completed : Bool}
    → Runs orderly has_done s stopper t broadcast completed
    → List Event
hook_events executes = []
hook_events (steps r st) = heard (hook_events r) (step_event st)
hook_events (shut r) = hook_events r
hook_events (cancels c r) = hook_events r
hook_events (broadcasts h d r) = hook_events r
hook_events (completes {t} d r) = heard (hook_events r) (some (completed (root_name t)))

abbrev pub own_count : String → L → ℕ
own_count name l = if same l.name name then 1 else 0

-- How many lifecycles have a name.
abbrev pub occurrences : String → Forest → ℕ
occurrences name leaf = 0
occurrences name (node l ts s) = own_count name l + (occurrences name ts + occurrences name s)

abbrev pub none_returned : Forest → Bool
none_returned leaf = true
none_returned (node l ts s) = not (is_returned l.phase) && none_returned ts && none_returned s

-- What the hooks have told of a lifecycle that has come to a phase.
abbrev pub said : Phase → Option Bool
said starting = none
said returned = some false
said _ = some true

abbrev pub own_status : String → L → Option Bool
own_status name l = if same l.name name then said l.phase else none

abbrev pub status : String → Forest → Option Bool
status name leaf = none
status name (node l ts s) =
    first_some (own_status name l) (first_some (status name ts) (status name s))

abbrev pub told : String → Option Event → Option Bool
told name none = none
told name (some e) = about name e
