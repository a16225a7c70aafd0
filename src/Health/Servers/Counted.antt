-- ===== src/Health/Servers/Counted.antt =====
-- The wait group of a health server, in every state that can be reached.
use go_component.Prelude.{Option, ℕ, ◌+◌, Bool, true, false, not, ◌||◌, ◌==◌, ◌≡◌, arith}
use go_component.Health.Servers.{
  Signal, on_stopping, on_done, on_abort, Call, Stage, launched, started, Shutdown, not_launched,
  selecting, calling, ended, Serving, not_started, serving, served, Cleaning, not_called, cleaned,
  Server, new_server, Step, registers, launches, starts, stops, cancels, selects, call_returns,
  serve_returns, serve_fails, cleans, wait_returns, Run, here, then,
}

abbrev pub shutting_count : Shutdown → ℕ
shutting_count not_launched = 0
shutting_count selecting = 1
shutting_count (calling c) = 1
shutting_count (ended c) = 0

abbrev pub serving_count : Serving → ℕ
serving_count not_started = 0
serving_count serving = 1
serving_count served = 0

abbrev pub launched_at : Stage → Bool
launched_at launched = true
launched_at started = true
launched_at _ = false

abbrev pub started_at : Stage → Bool
started_at started = true
started_at _ = false

abbrev pub is_launched : Shutdown → Bool
is_launched not_launched = false
is_launched _ = true

abbrev pub is_started : Serving → Bool
is_started not_started = false
is_started _ = true

abbrev pub has_acted : Shutdown → Bool
has_acted (calling c) = true
has_acted (ended c) = true
has_acted _ = false

abbrev pub is_called : Cleaning → Bool
is_called not_called = false
is_called _ = true

abbrev pub is_cleaned : Cleaning → Bool
is_cleaned cleaned = true
is_cleaned _ = false

-- The wait group counts the goroutines that have not returned, the stage tells which have begun, and
-- the value that the cleanup function has sent is there until the select is left.
abbrev pub IsCounted : Bool → Server → Type 0
IsCounted concurrent s =
    (s.wg ≡ shutting_count s.shutting + serving_count s.serves)
    × (is_launched s.shutting ≡ launched_at s.stage)
    × (is_started s.serves ≡ started_at s.stage)
    × ((concurrent || not (is_called s.cleaning) || started_at s.stage) ≡ true)
    × ((not (is_called s.cleaning) || has_acted s.shutting || s.abort) ≡ true)
    × ((concurrent || not (is_cleaned s.cleaning) || s.wg == 0) ≡ true)
    × ((not s.abort || is_called s.cleaning) ≡ true)

pub Step-IsCounted :
    {call : Signal → Option Call} {concurrent : Bool} {s t : Server}
    → IsCounted concurrent s
    → Step call concurrent s t
    → IsCounted concurrent t
Step-IsCounted h (registers e) = ground arith
Step-IsCounted h (launches e) = ground arith
Step-IsCounted h (starts e) = ground arith
Step-IsCounted h stops = h
Step-IsCounted h cancels = h
Step-IsCounted h (selects on_stopping e ready) = ground arith
Step-IsCounted h (selects on_done e ready) = ground arith
Step-IsCounted h (selects on_abort e ready) = ground arith
Step-IsCounted h (call_returns e) = ground arith
Step-IsCounted h (serve_returns e shut) = ground arith
Step-IsCounted h (serve_fails e) = ground arith
Step-IsCounted {concurrent = true} h (cleans e can) = ground arith
Step-IsCounted {concurrent = false} h (cleans e can) = ground arith
Step-IsCounted h (wait_returns e z) = ground arith

pub new_server-IsCounted :
    (stopping done concurrent : Bool) → IsCounted concurrent (new_server stopping done)
unfolding new_server
new_server-IsCounted stopping done concurrent = ground arith

pub Run-IsCounted :
    {call : Signal → Option Call} {concurrent : Bool} {s t : Server}
    → IsCounted concurrent s
    → Run call concurrent s t
    → IsCounted concurrent t
Run-IsCounted h here = h
Run-IsCounted h (then r step) = Step-IsCounted (Run-IsCounted h r) step
