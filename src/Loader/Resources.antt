-- ===== src/Loader/Resources.antt =====
-- loadSharedResources of loader/loader.go: the profiles, the trace and the health endpoint that the
-- command line asks for, and the functions that it registers with Cleanup.
-- log.Fatalf exits the process, and no cleanup function runs any more. The goroutine of the health server,
-- StartGRPC, registers its own cleanup function on the same stack at a later time: see
-- Health/Servers.antt.
pub mod Released
use go_component.Prelude.{ℕ, String, Bool, true, false, not, List, same, if◌then◌else◌}
use go_component.Cleanup.{CleanupFunc, Ending, fn, nil, returns, panics, push}

-- The variables that CommandLine sets.
pub record Settings : Type 0 where
  pub cpu_profile : String
  pub trace : String
  pub mem_profile : String
  pub health_address : String

-- What the operating system and the runtime answer: os.Create and net.Listen by the name given to
-- them, pprof.StartCPUProfile, gotrace.Start and pprof.WriteHeapProfile.
pub record Host : Type 0 where
  pub creates : String → Bool
  pub listens : String → Bool
  pub starts_cpu_profile : Bool
  pub starts_trace : Bool
  pub writes_heap : Bool

-- The functions registered, by numbers.
abbrev pub close_cpu_profile : ℕ
close_cpu_profile = 1

abbrev pub stop_cpu_profile : ℕ
stop_cpu_profile = 2

abbrev pub close_trace : ℕ
close_trace = 3

abbrev pub stop_trace : ℕ
stop_trace = 4

abbrev pub close_mem_profile : ℕ
close_mem_profile = 5

abbrev pub write_mem_profile : ℕ
write_mem_profile = 6

abbrev pub close_listener : ℕ
close_listener = 7

-- The calls of log.Fatalf.
pub data Fatal : Type 0 where
  no_cpu_file no_cpu_profile no_trace_file no_trace no_mem_file no_listener : Fatal

-- The cleanup stack so far, and whether the goroutine of the health server has been started.
pub data Setup : Type 0 where
  exited : Fatal → Setup
  running : (q : List CleanupFunc) (serves_health : Bool) → Setup

abbrev pub is_set : String → Bool
is_set s = not (same s "")

abbrev pub cleanup_fn : ℕ → CleanupFunc
cleanup_fn i = fn i nil returns

-- log.Fatalf exits the process: nothing else runs, as after a panic.
abbrev pub write_end : Bool → Ending
write_end true = returns
write_end false = panics 1

-- Where it is asked for, a file for something that has to be started, and to be stopped before the
-- file is closed.
unfoldable pub load_file :
    (no_file no_start : Fatal) (close : ℕ) (stop : CleanupFunc) (asked creates starts : Bool)
    → List CleanupFunc
    → Setup
load_file no_file no_start close stop asked creates starts q =
    if asked
    then if creates
      then if starts then running (push (push q (cleanup_fn close)) stop) false else exited no_start
      else exited no_file
    else running q false

abbrev pub load_cpu_profile : Settings → Host → List CleanupFunc → Setup
load_cpu_profile s host =
    load_file no_cpu_file no_cpu_profile close_cpu_profile (cleanup_fn stop_cpu_profile)
      (is_set s.cpu_profile) (host.creates s.cpu_profile) host.starts_cpu_profile

abbrev pub load_trace : Settings → Host → List CleanupFunc → Setup
load_trace s host =
    load_file no_trace_file no_trace close_trace (cleanup_fn stop_trace) (is_set s.trace)
      (host.creates s.trace) host.starts_trace

-- Nothing is started for the memory profile, which is written where it is cleaned up.
abbrev pub load_mem_profile : Settings → Host → List CleanupFunc → Setup
load_mem_profile s host =
    load_file no_mem_file no_mem_file close_mem_profile
      (fn write_mem_profile nil (write_end host.writes_heap)) (is_set s.mem_profile)
      (host.creates s.mem_profile) true

unfoldable pub load_health : Settings → Host → List CleanupFunc → Setup
load_health s host q =
    if is_set s.health_address
    then if host.listens s.health_address
      then running (push q (cleanup_fn close_listener)) true
      else exited no_listener
    else running q false

and_then : Setup → (List CleanupFunc → Setup) → Setup
and_then (exited f) next = exited f
and_then (running q serves) next = next q

unfoldable pub load_shared_resources : Settings → Host → List CleanupFunc → Setup
unfolding and_then
load_shared_resources s host q = and_then (load_cpu_profile s host q) (λ q.
    and_then (load_trace s host q) (λ q. and_then (load_mem_profile s host q) (load_health s host)))
