-- ===== src/Health/Probe.antt =====
-- The two probe servers give the same answers, and what they answer of the loading process.
use go_component.Prelude.{String, ◌≡◌, ◌≢◌, ◌↔◌, true, false, some, List, arith}
use go_component.Health.{
  Monitor, monitor, init, serving, not_serving, before_startup, unsupported, CheckResult, ok, err,
  check, json, text, Response, handle_startup_request, handle_liveness_request,
}
use go_component.Health.Alive.{Event, run_events, was_loaded, last_heard, run_events_health}

-- An answer of the gRPC server as the HTTP server gives it.
abbrev pub as_http : CheckResult → Response
as_http (ok serving) = record { code = 200; body = json serving }
as_http (ok not_serving) = record { code = 500; body = json not_serving }
as_http (err before_startup) = record { code = 503; body = text "liveness called before startup" }
as_http (err (unsupported service)) = record { code = 404; body = text service }

-- For every monitor, the HTTP server answers each of its two endpoints with what the gRPC server
-- answers for the service of that name: 200 for serving, 500 for not serving and 503 for an error.
pub probes_agree :
    (m : Monitor)
    → (handle_startup_request m ≡ as_http (check m "startup"))
      × (handle_liveness_request m ≡ as_http (check m "liveness"))
unfolding handle_startup_request handle_liveness_request check
probes_agree m = (ground arith, ground arith)

check-liveness :
    (m : Monitor) → (check m "liveness" ≡ ok serving) ↔ ((m.is_loaded ≡ true) × (m.is_alive ≡ true))
unfolding check
check-liveness m = ground arith

-- After any calls of LoadingCompleted, ProcStarted and ProcCompleted, the liveness probe answers
-- serving exactly if LoadingCompleted was among them and there is no name whose last call was
-- ProcCompleted.
pub liveness_serving :
    (es : List Event)
    → (check (monitor (run_events init es)) "liveness" ≡ ok serving)
      ↔ ((was_loaded es ≡ true) × ((name : String) → last_heard name es ≢ some false))
liveness_serving es =
    let (loaded, running) = run_events_health es in
    let probe = check-liveness (monitor (run_events init es)) in
    (
      (λ h. let (l, a) = probe.0 h in (rw (← loaded) l, running.0 a)),
      (λ h. probe.1 (rw loaded (h.0), running.1 h.1)),
    )
