-- ===== src/Health.antt =====
-- The health of the process: loader/health.go, and the answers to probes in healthprobe/grpc.go and
-- healthprobe/http.go. The mutex makes each method one step.
pub mod Alive
pub mod Probe
pub mod Servers
mod Tests
use go_component.Prelude.{ℕ, String, Bool, true, false, [], ◌∷◌, same, if◌then◌else◌, Dict, write}

pub record Health : Type 0 where
  pub loaded : Bool
  pub procs : Dict Bool  -- map[name]running

-- The value that init gives to the variable Health.
unfoldable pub init : Health
init = record { loaded = false; procs = [] }

unfoldable pub loading_completed : Health → Health
loading_completed h = record h { loaded = true }

unfoldable pub proc_started : String → Health → Health
proc_started name h = record h { procs = write h.procs name true }

unfoldable pub proc_completed : String → Health → Health
proc_completed name h = record h { procs = write h.procs name false }

-- The loop of Alive: it returns at the first procedure that does not run.
unfoldable pub all_running : Dict Bool → Bool
all_running [] = true
all_running ((name, running) ∷ procs) =
    let rest = all_running procs in if running then rest else false

unfoldable pub alive : Health → Bool
unfolding all_running
alive h = all_running h.procs

-- healthprobe.Monitor
pub record Monitor : Type 0 where
  pub is_alive : Bool
  pub is_loaded : Bool

abbrev pub monitor : Health → Monitor
monitor h = record { is_alive = alive h; is_loaded = h.loaded }

pub data ServingStatus : Type 0 where
  serving not_serving : ServingStatus

pub data CheckError : Type 0 where
  before_startup : CheckError
  unsupported : String → CheckError

pub data CheckResult : Type 0 where
  ok : ServingStatus → CheckResult
  err : CheckError → CheckResult

-- gRPCServer.Check
unfoldable pub check : Monitor → String → CheckResult
check m service =
    if same service "startup"
    then (if m.is_loaded then ok serving else ok not_serving)
    else if same service "liveness"
    then (if m.is_loaded
        then (if m.is_alive then ok serving else ok not_serving)
        else err before_startup)
    else err (unsupported service)

-- What an HTTP handler writes: the status code, with a JSON body or the text of http.Error.
pub data Body : Type 0 where
  json : ServingStatus → Body
  text : String → Body

pub record Response : Type 0 where
  pub code : ℕ
  pub body : Body

-- HandleStartupRequest
unfoldable pub handle_startup_request : Monitor → Response
handle_startup_request m =
    if m.is_loaded
    then record { code = 200; body = json serving }
    else record { code = 500; body = json not_serving }

-- HandleLivenessRequest
unfoldable pub handle_liveness_request : Monitor → Response
handle_liveness_request m =
    if m.is_loaded
    then (if m.is_alive
        then record { code = 200; body = json serving }
        else record { code = 500; body = json not_serving })
    else record { code = 503; body = text "liveness called before startup" }
