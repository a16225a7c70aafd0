-- ===== src/Loader/Tests.antt =====
-- Two calls of Exec, footprints with a component that is not enabled, and instances of the theorems.
use go_component.Prelude.{
  ◌++◌, some, ◌⊎◌, ℕ, true, false, ◌≡◌, ◌↔◌, ◌+◌, ◌≤◌, refl, arith, List, [], ◌∷◌,
}
use go_component.Health.{init}
use go_component.Cleanup.{fn, nil, returns, CleanupFunc, completed, run_cleanup}
use go_component.Loader.Resources.{
  Settings, Host, Fatal, exited, running, close_listener, stop_cpu_profile, close_cpu_profile,
  load_shared_resources,
}
use go_component.Loader.Resources.Released.{all_acquired, load_shared_resources-releases}
use go_component.Loader.{
  fails, exec_panics, new_claim, start_exec, finish_exec, is_enabled, forked, Signals, is_ready,
  terminated, WaitsFor, nobody, selects, load_footprint_components, Received, malformed, footprint,
  panicked, exec_loop,
}
use go_component.Loader.Once.{
  new, starts, finishes, Reach-once, all_enabled, all_ready, load_footprint_components-completes,
  exec_loop-loop_result,
}

-- Two calls of Exec start; the first returns with an error.
Reach-once_example :
    let c = finish_exec fails (start_exec (start_exec new_claim)) in
    (c.bootstrapping + c.bootstrapped + c.terminates ≤ 1)
    × (c.closes ≡ c.bootstrapped)
    × (c.closes ≤ 1)
unfolding start_exec new_claim exec_panics
Reach-once_example = Reach-once (finishes fails (omega arith) (starts (starts new)))

-- A claim that is ready, and one whose lifecycle has completed.
abbrev seen : List Signals
seen =
    record { ready = true; completed = false; ctx_done = false }
    ∷ record { ready = false; completed = true; ctx_done = false }
    ∷ []

one_ready : WaitsFor seen (true ∷ false ∷ [])
one_ready = selects (is_ready refl) (selects (terminated refl) nobody)

load_footprint_components-completes_example :
    ((load_footprint_components (1 ∷ 2 ∷ 3 ∷ []) (true ∷ false ∷ []) init).loaded ≡ true)
    ↔ ((all_enabled (3 ∷ 1 ∷ []) (1 ∷ 2 ∷ 3 ∷ []) ≡ true) × (all_ready (true ∷ false ∷ []) ≡ true))
unfolding forked is_enabled init
load_footprint_components-completes_example =
    load_footprint_components-completes (3 ∷ 1 ∷ []) (1 ∷ 2 ∷ 3 ∷ []) seen (true ∷ false ∷ []) init
      refl one_ready refl

abbrev received : List (Received ℕ)
received = footprint 7 ∷ malformed ∷ footprint 8 ∷ []

exec_loop-loop_result_example : exec_loop false received ≡ panicked (7 ∷ [])
exec_loop-loop_result_example = exec_loop-loop_result false received

-- A CPU profile and the health server are asked for, and given.
abbrev settings : Settings
settings = record { cpu_profile = "cpu"; trace = ""; mem_profile = ""; health_address = ":80" }

abbrev host : Host
host = record {
  creates = λ name. true;
  listens = λ address. true;
  starts_cpu_profile = true;
  starts_trace = true;
  writes_heap = true;
}

load_shared_resources-releases_example :
    ((all_acquired settings host ≡ false)
      × (f : Fatal) × (load_shared_resources settings host [] ≡ exited f))
    ⊎ ((all_acquired settings host ≡ true)
        × (p : List CleanupFunc) × (load_shared_resources settings host [] ≡ running p true)
        × (run_cleanup 10 (p ++ fn 8 nil returns ∷ [])
            ≡ some (record {
              called = 8 ∷ close_listener ∷ stop_cpu_profile ∷ close_cpu_profile ∷ [];
              left = [];
              finish = completed;
            })))
load_shared_resources-releases_example =
    load_shared_resources-releases settings host [] (fn 8 nil returns ∷ []) 10 tt (tt, tt) refl
      (omega arith)
