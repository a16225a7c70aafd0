-- ===== src/Health/Tests.antt =====
-- A process that loads two components, one of which ends, and instances of the theorems.
use go_component.Prelude.{String, ◌≡◌, ◌≢◌, ◌↔◌, refl, true, false, some, List, [], ◌∷◌}
use go_component.Health.{
  init, alive, loading_completed, proc_started, proc_completed, monitor, serving, not_serving, ok,
  check,
}
use go_component.Health.Alive.{
  Event, loading, started, completed, run_events, handle_event, was_loaded, last_heard,
}
use go_component.Health.Probe.{liveness_serving}

abbrev calls : List Event
calls = started "loader" ∷ started "loader/db" ∷ loading ∷ completed "loader/db" ∷ []

not_alive : check (monitor (run_events init calls)) "liveness" ≡ ok not_serving
unfolding check run_events handle_event init alive loading_completed proc_started proc_completed
not_alive = refl

liveness_serving_example :
    (check (monitor (run_events init calls)) "liveness" ≡ ok serving)
    ↔ ((was_loaded calls ≡ true) × ((name : String) → last_heard name calls ≢ some false))
liveness_serving_example = liveness_serving calls
