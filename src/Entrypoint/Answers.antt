-- ===== src/Entrypoint/Answers.antt =====
-- What the process does after some signals.
use go_component.Prelude.{Bool, ℕ, ◌+◌, ◌≤◌, ◌≡◌, ◌⊎◌, true, false, arith}
use go_component.Entrypoint.{
  Handlers, new_handlers, soft_notify, hard_notify, on_sigterm, on_sigint, soft_receive,
  hard_receive, soft_leave, hard_leave,
}

abbrev pub if_listens : Bool → ℕ
if_listens true = 1
if_listens false = 0

-- What the two goroutines come to, with steps in any order: `signals` is how many SIGINT and SIGTERM have
-- arrived since softStop has called signal.Notify, and `ints` how many SIGINT since hardStop has. The
-- first signals may come before, and are missed.
pub data Reach : (ints signals : ℕ) → Handlers → Type 0 where
  begins : Reach 0 0 new_handlers
  soft_notifies :
      {ints signals : ℕ} {h : Handlers}
      → h.soft_listens ≡ false
      → Reach ints signals h
      → Reach ints signals (soft_notify h)
  hard_notifies :
      {ints signals : ℕ} {h : Handlers}
      → h.hard_listens ≡ false
      → Reach ints signals h
      → Reach ints signals (hard_notify h)
  sigint :
      {ints signals : ℕ} {h : Handlers}
      → Reach ints signals h
      → Reach (ints + if_listens h.hard_listens) (signals + if_listens h.soft_listens) (on_sigint h)
  sigterm :
      {ints signals : ℕ} {h : Handlers}
      → Reach ints signals h
      → Reach ints (signals + if_listens h.soft_listens) (on_sigterm h)
  soft_receives :
      {ints signals : ℕ} {h : Handlers}
      → 1 ≤ h.soft_held
      → h.has_stopped ≡ false
      → h.soft_gone ≡ false
      → Reach ints signals h
      → Reach ints signals (soft_receive h)
  hard_receives :
      {ints signals : ℕ} {h : Handlers}
      → 1 ≤ h.hard_held
      → h.has_terminated ≡ false
      → h.hard_gone ≡ false
      → Reach ints signals h
      → Reach ints signals (hard_receive h)
  soft_leaves :
      {ints signals : ℕ} {h : Handlers}
      → h.soft_listens ≡ true
      → h.has_stopped ≡ false
      → Reach ints signals h
      → Reach ints signals (soft_leave h)
  hard_leaves :
      {ints signals : ℕ} {h : Handlers}
      → h.hard_listens ≡ true
      → h.has_terminated ≡ false
      → Reach ints signals h
      → Reach ints signals (hard_leave h)

Reach-hard :
    {ints signals : ℕ} {h : Handlers}
    → Reach ints signals h
    → (h.hard_received + h.hard_held ≤ ints)
      × (((h.hard_received ≡ 2) × (h.has_terminated ≡ true))
          ⊎ ((h.hard_received ≤ 1) × (h.has_terminated ≡ false)))
      × ((h.hard_gone ≡ true)
          ⊎ (h.hard_received + h.hard_held ≡ ints)
          ⊎ (2 ≤ h.hard_received + h.hard_held))
unfolding new_handlers soft_notify hard_notify on_sigterm on_sigint soft_receive hard_receive
    soft_leave hard_leave
Reach-hard begins = ground arith
Reach-hard (soft_notifies e r) = ground (arith, Reach-hard r)
Reach-hard (hard_notifies e r) = ground (arith, Reach-hard r)
Reach-hard (sigint {h = h} r) = ground (arith, Reach-hard r)
Reach-hard (sigterm {h = h} r) = ground (arith, Reach-hard r)
Reach-hard (soft_receives held waits stays r) = ground (arith, Reach-hard r)
Reach-hard (hard_receives held waits stays r) = ground (arith, Reach-hard r)
Reach-hard (soft_leaves listens waits r) = ground (arith, Reach-hard r)
Reach-hard (hard_leaves listens waits r) = ground (arith, Reach-hard r)

Reach-soft :
    {ints signals : ℕ} {h : Handlers}
    → Reach ints signals h
    → ((h.has_stopped ≡ false) ⊎ (1 ≤ signals))
      × (h.soft_held ≤ signals)
      × ((h.soft_gone ≡ true) ⊎ (h.has_stopped ≡ true) ⊎ (signals ≡ 0) ⊎ (1 ≤ h.soft_held))
unfolding new_handlers soft_notify hard_notify on_sigterm on_sigint soft_receive hard_receive
    soft_leave hard_leave
Reach-soft begins = ground arith
Reach-soft (soft_notifies e r) = ground (arith, Reach-soft r)
Reach-soft (hard_notifies e r) = ground (arith, Reach-soft r)
Reach-soft (sigint {h = h} r) = ground (arith, Reach-soft r)
Reach-soft (sigterm {h = h} r) = ground (arith, Reach-soft r)
Reach-soft (soft_receives held waits stays r) = ground (arith, Reach-soft r)
Reach-soft (hard_receives held waits stays r) = ground (arith, Reach-soft r)
Reach-soft (soft_leaves listens waits r) = ground (arith, Reach-soft r)
Reach-soft (hard_leaves listens waits r) = ground (arith, Reach-soft r)

-- Whatever the goroutines have done, and whatever signals have arrived; a goroutine misses those that
-- arrive before it has called signal.Notify. If the handlers have called Terminate, at least two SIGINT
-- have arrived since hardStop called signal.Notify; if they have called Stop, a signal has since
-- softStop did. If softStop has not returned because the lifecycle is done, and a SIGINT or SIGTERM has
-- arrived since it called signal.Notify, it has called Stop or its channel holds a signal on which it
-- does so. If hardStop has not returned for that reason, and two SIGINT have arrived since it called
-- signal.Notify, it has called Terminate or does so after receiving one or two signals that its
-- channel holds.
pub Reach-answers :
    {ints signals : ℕ} {h : Handlers}
    → Reach ints signals h
    → ((h.has_terminated ≡ false) ⊎ (2 ≤ ints))
      × ((h.has_stopped ≡ false) ⊎ (1 ≤ signals))
      × ((h.soft_gone ≡ true)
          ⊎ (signals ≡ 0)
          ⊎ (h.has_stopped ≡ true)
          ⊎ ((1 ≤ h.soft_held) × ((soft_receive h).has_stopped ≡ true)))
      × ((h.hard_gone ≡ true)
          ⊎ (ints ≤ 1)
          ⊎ (h.has_terminated ≡ true)
          ⊎ ((1 ≤ h.hard_held) × ((hard_receive h).has_terminated ≡ true))
          ⊎ ((2 ≤ h.hard_held) × ((hard_receive (hard_receive h)).has_terminated ≡ true)))
unfolding soft_receive hard_receive
Reach-answers {h = h} r = ground (arith, Reach-hard r, Reach-soft r)
