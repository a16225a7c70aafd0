-- ===== src/Lifecycle/Tests.antt =====
-- Runs of a lifecycle with one child, and instances of the theorems at states that they come to.
use Prim.Native.Nat.{◌^◌}
use go_component.Prelude.{
  Bool, magnitude, digits_value, itoa, parse_int, fits_int, ℤ, pos, ◌≤◌, String, arith, eq_iff, ◌≡◌,
  ◌≢◌, ◌↔◌, ◌⊎◌, ◌+◌, ◌++◌, refl, true, false, none, some, [], ◌∷◌,
}
use go_component.Cleanup.{fn, nil, returns, push, pop}
use go_component.Lifecycle.{
  is_done, terminated, stopped, executing, cleaning, closed, L, Forest, leaf, node, run_root,
  new_lifecycle, fork, cleanup, signal_stop, terminate, cancel_all, exec_error,
}
use go_component.Lifecycle.Guards.{forked}
use go_component.Lifecycle.Nodes.{At, AllNodes}
use go_component.Lifecycle.Causes.{Reach-causes}
use go_component.Lifecycle.Causes.Given.{gives_stopped}
use go_component.Lifecycle.Joined.{HasReturned, Reach-complete}
use go_component.Lifecycle.Signals.{AllRoots, IsCancelled, Reach-IsCancelled}
use go_component.Lifecycle.Drain.{Steps, IsDone, Reach-drain}
use go_component.Lifecycle.Hooks.{hook_events, occurrences, own_count, none_returned}
use go_component.Lifecycle.Hooks.Alive.{Runs-alive}
use go_component.Health.{init, alive}
use go_component.Health.Alive.{run_events}
use go_component.Lifecycle.Run.{Runs, broadcasts, Runs-of_Reach, Runs-returned, Runs-returns}
use go_component.Lifecycle.Records.{
  Level, if_enabled, completions, run_records, logged, Runs-completions,
}
use go_component.Lifecycle.Depth.{depth_label, pprof_increment_label, depth_label_lem}
use go_component.Lifecycle.Late.{late_calls-escape}
use go_component.Lifecycle.Step.{
  starts, forks, registers, stops, terminates, ends, joins, cleans, cleaned, records, closes,
  child_returns, Returns, here, below, Reach, start, then,
}

abbrev State : Type 0
State = (t : Forest) × Reach true (run_root "app" none true) false t

-- The lifecycle `app` and its child `app/db`, both in their procedures.
abbrev forked_state : State
unfolding new_lifecycle fork
forked_state = (
  _,
  then (then (then start (here (starts refl))) (here (forks "db" refl (λ e. refl))))
      (below (here (starts refl))),
)

-- Both procedures have returned, that of `app` after it registered a cleanup function.
abbrev idle_state : State
unfolding new_lifecycle fork exec_error cleanup push
idle_state = (
  _,
  then
      (then (then forked_state.1 (below (here (ends none refl))))
        (here (registers (fn 1 nil returns) refl (λ e. refl))))
      (here (ends none refl)),
)

-- The child is done and has returned, and then `app` is done.
abbrev complete_state : State
unfolding new_lifecycle fork exec_error cleanup push pop
complete_state = (
  _,
  then
      (then
        (then
          (then
            (then
              (then
                (then
                  (then
                    (then (then idle_state.1 (below (here (joins refl refl))))
                      (below (here (cleaned refl refl))))
                    (below (here (records refl))))
                  (below (here (closes refl))))
                (here (child_returns (Returns.here refl))))
              (here (joins refl refl)))
            (here (cleans refl refl refl)))
          (here (cleaned refl refl)))
        (here (records refl)))
      (here (closes refl)),
)

abbrev stopped_state : State
unfolding new_lifecycle fork signal_stop
stopped_state = (_, then forked_state.1 (here stops))

abbrev terminated_state : State
unfolding new_lifecycle fork terminate cancel_all
terminated_state = (_, then forked_state.1 (here terminates))

abbrev top : Forest → L
top leaf = new_lifecycle "" none false
top (node l ts s) = l

abbrev children : Forest → Forest
children leaf = leaf
children (node l ts s) = ts

Reach-complete_example :
    ((top complete_state.0).wg ≡ 0)
    × ((top complete_state.0).cleanups ≡ [])
    × AllNodes HasReturned (children complete_state.0)
unfolding new_lifecycle fork exec_error cleanup push pop
Reach-complete_example = Reach-complete "app" none true complete_state.1 At.root refl

Reach-causes_example :
    (((top terminated_state.0).grace_ctx ≡ (top terminated_state.0).ctx)
      ⊎ (((top terminated_state.0).grace_ctx ≡ some stopped)
          × ((top terminated_state.0).stopping ≡ true)))
    × (((top terminated_state.0).ctx ≢ some stopped)
        ⊎ (gives_stopped none terminated_state.1 ≡ true))
unfolding new_lifecycle fork terminate cancel_all
Reach-causes_example = Reach-causes "app" none true terminated_state.1 At.root

Reach-IsCancelled_example : AllNodes IsCancelled (children terminated_state.0)
unfolding new_lifecycle fork terminate cancel_all
Reach-IsCancelled_example = Reach-IsCancelled "app" none true terminated_state.1 At.root refl

Reach-drain_example : (u : Forest) × Steps true false idle_state.0 u × AllRoots IsDone u
unfolding new_lifecycle fork exec_error cleanup push
Reach-drain_example =
    Reach-drain "app" none true idle_state.1 ((refl, (tt, tt)), ((refl, tt), tt, tt), tt)

abbrev stopping_app : L
unfolding new_lifecycle signal_stop
stopping_app = signal_stop (record (new_lifecycle "app" none true) { phase = executing })

abbrev terminated_app : L
unfolding new_lifecycle
terminated_app = record (new_lifecycle "app" (some terminated) true) { phase = closed }

abbrev cleaning_app : L
unfolding new_lifecycle
cleaning_app = record (new_lifecycle "app" none false) { phase = cleaning }

late_calls-escape_example : Reach false (node cleaning_app leaf leaf) false (
    node
      (record cleaning_app {
        wg = cleaning_app.wg + 1;
        cleanups = cleaning_app.cleanups ++ fn 1 nil returns ∷ [];
        phase = closed;
      })
      (forked "db" cleaning_app leaf)
      leaf)
unfolding new_lifecycle
late_calls-escape_example =
    late_calls-escape "db" (fn 1 nil returns) cleaning_app leaf leaf refl refl refl

differ_once :
    (name : String) (l k : L)
    → l.name ≢ k.name
    → own_count name l + (own_count name k + (0 + 0) + 0) ≤ 1
differ_once name l k h = ground (arith, eq_iff l.name name, eq_iff k.name name)

complete_once : (name : String) → occurrences name complete_state.0 ≤ 1
unfolding new_lifecycle fork exec_error cleanup push pop complete_state idle_state forked_state
complete_once name =
    differ_once name (new_lifecycle "app" none true) (new_lifecycle "app/db" none true) (cc)

depth_label_wraps : pprof_increment_label (some "9223372036854775807") ≡ some "-9223372036854775808"
unfolding pprof_increment_label parse_int itoa magnitude digits_value
depth_label_wraps = refl

depth_label_example :
    (z : ℤ) × (depth_label none 3 ≡ some (itoa z))
    × (fits_int 64 z ≡ true)
    × ((z ≡ pos 3) ⊎ (2 ^ 63 ≤ 3))
depth_label_example = depth_label_lem 3

-- Run of `app` has returned.
Runs-idle : Runs true true (run_root "app" none true) false idle_state.0 false false
unfolding new_lifecycle fork exec_error cleanup push forked_state idle_state
Runs-idle = Runs-of_Reach idle_state.1

Runs-returns_example :
    (u : Forest) × Steps true false idle_state.0 u
    × Runs true true (run_root "app" none true) false u true false
unfolding new_lifecycle fork exec_error cleanup push idle_state forked_state
Runs-returns_example =
    Runs-returns "app" none true Runs-idle ((refl, (tt, tt)), ((refl, tt), tt, tt), tt)

Runs-returned_example :
    (◌≡◌ {A = Bool} true true)
    × (is_done (top complete_state.0).phase ≡ true)
    × ((top complete_state.0).wg ≡ 0)
    × ((top complete_state.0).cleanups ≡ [])
    × AllNodes HasReturned (children complete_state.0)
unfolding new_lifecycle fork exec_error cleanup push pop complete_state idle_state forked_state
Runs-returned_example =
    Runs-returned "app" none true (broadcasts refl (refl, tt) (Runs-of_Reach complete_state.1))

abbrev returned_run : Runs true true (run_root "app" none true) false complete_state.0 true false
unfolding new_lifecycle fork exec_error cleanup push pop complete_state idle_state forked_state
returned_run = broadcasts refl (refl, tt) (Runs-of_Reach complete_state.1)

-- The handler is enabled for both levels.
abbrev all_levels : Level → Bool
all_levels level = true

Runs-completions_example :
    (completions "app/db" (run_records all_levels returned_run)
      ≡ if_enabled true (logged "app/db" complete_state.0))
    × ((true ≡ false)
        ⊎ (completions "app/db" (run_records all_levels returned_run)
            ≡ if_enabled true (occurrences "app/db" complete_state.0)))
Runs-completions_example = Runs-completions all_levels "app/db" "app" none true returned_run

Runs-alive_example :
    (alive (run_events init (hook_events returned_run)) ≡ true)
    ↔ ((◌≡◌ {A = Bool} false false) × (none_returned complete_state.0 ≡ true))
Runs-alive_example = Runs-alive "app" none true returned_run complete_once
