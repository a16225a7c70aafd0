-- ===== src/Entrypoint.antt =====
-- The signal handlers of loader/entrypoint.go: softStop and hardStop of signalMiddleware.
-- A channel registered by signal.Notify takes a signal while it has room, and drops it else.
pub mod Answers
mod Tests
use go_component.Prelude.{ℕ, ◌+◌, ◌-◌, ltb, ◌==◌, Bool, true, false, not, ◌||◌, if◌then◌else◌}

-- The two goroutines: whether they have called signal.Notify; what their channels hold; whether softStop has called Stop, and returned
-- because the lifecycle was done; how many signals hardStop has received, whether it has called
-- Terminate, and returned because the lifecycle was done.
pub record Handlers : Type 0 where
  pub soft_listens : Bool
  pub soft_held : ℕ
  pub has_stopped : Bool
  pub soft_gone : Bool
  pub hard_listens : Bool
  pub hard_held : ℕ
  pub hard_received : ℕ
  pub has_terminated : Bool
  pub hard_gone : Bool

-- signalMiddleware.Exec, which starts both goroutines
unfoldable pub new_handlers : Handlers
new_handlers = record {
  soft_listens = false;
  soft_held = 0;
  has_stopped = false;
  soft_gone = false;
  hard_listens = false;
  hard_held = 0;
  hard_received = 0;
  has_terminated = false;
  hard_gone = false;
}

-- A signal arrives at a channel of the capacity.
abbrev pub notified : (capacity held : ℕ) → ℕ
notified capacity held = if ltb held capacity then held + 1 else held

-- The calls of signal.Notify
unfoldable pub soft_notify : Handlers → Handlers
soft_notify h = record h { soft_listens = true }

unfoldable pub hard_notify : Handlers → Handlers
hard_notify h = record h { hard_listens = true }

-- SIGTERM is notified to softStop from its signal.Notify to its signal.Stop.
unfoldable pub on_sigterm : Handlers → Handlers
on_sigterm h =
    if not h.soft_listens || h.has_stopped || h.soft_gone
    then h
    else record h { soft_held = notified 1 h.soft_held }

-- SIGINT is notified to both.
unfoldable pub on_sigint : Handlers → Handlers
unfolding on_sigterm
on_sigint h =
    let soft = on_sigterm h in
    if not h.hard_listens || h.has_terminated || h.hard_gone
    then soft
    else record soft { hard_held = notified 2 h.hard_held }

-- softStop receives a signal and calls Stop.
unfoldable pub soft_receive : Handlers → Handlers
soft_receive h = record h { soft_held = h.soft_held - 1; has_stopped = true }

-- A round of the loop of hardStop: after the second signal it calls Terminate.
unfoldable pub hard_receive : Handlers → Handlers
hard_receive h = record h {
  hard_held = h.hard_held - 1;
  hard_received = h.hard_received + 1;
  has_terminated = h.hard_received + 1 == 2;
}

-- The goroutines return because the lifecycle is done.
unfoldable pub soft_leave : Handlers → Handlers
soft_leave h = record h { soft_gone = true }

unfoldable pub hard_leave : Handlers → Handlers
hard_leave h = record h { hard_gone = true }
