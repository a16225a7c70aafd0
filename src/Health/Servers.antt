-- ===== src/Health/Servers.antt =====
-- StartGRPC of healthprobe/grpc.go and StartHTTP of healthprobe/http.go: the goroutine that shuts the server
-- down, the one that serves, and the cleanup function that waits for both. When the calls that shut a
-- server down return is not the code's: such a step may come at any time after the call.
pub mod Counted
pub mod Cleaned
pub mod Released
mod Tests
use go_component.Prelude.{Option, none, some, ℕ, ◌+◌, ◌-◌, Bool, true, false, ◌≡◌, ◌≢◌}

-- The cases of the select.
pub data Signal : Type 0 where
  on_stopping on_done on_abort : Signal

-- The calls that shut a server down. ctx is the context of the lifecycle.
pub data Call : Type 0 where
  graceful_stop stop shutdown close shutdown_background : Call

-- The body of each case; `none` would be one that calls nothing.
unfoldable pub grpc_call : Signal → Option Call
grpc_call on_stopping = some graceful_stop
grpc_call on_done = some stop
grpc_call on_abort = some stop

unfoldable pub http_call : Signal → Option Call
http_call on_stopping = some shutdown
http_call on_done = some close
http_call on_abort = some shutdown_background

unfoldable pub server_call : (is_http : Bool) → Signal → Option Call
unfolding grpc_call http_call
server_call false sig = grpc_call sig
server_call true sig = http_call sig

-- How far the function has come: after l.Cleanup, after wg.Go, after wg.Add and the go statement.
pub data Stage : Type 0 where
  entered registered launched started : Stage

-- The goroutine that shuts the server down.
pub data Shutdown : Type 0 where
  not_launched selecting : Shutdown
  calling ended : Option Call → Shutdown

-- A call that shuts the server down has been made.
abbrev pub is_shut : Shutdown → Bool
is_shut (calling (some c)) = true
is_shut (ended (some c)) = true
is_shut _ = false

-- The goroutine that serves.
pub data Serving : Type 0 where
  not_started serving served : Serving

-- The cleanup function.
pub data Cleaning : Type 0 where
  not_called waiting cleaned : Cleaning

-- The channels of the lifecycle that are closed, whether the channel abort holds a value, and the
-- counter of the wait group.
pub record Server : Type 0 where
  pub stopping : Bool
  pub done : Bool
  pub abort : Bool
  pub wg : ℕ
  pub stage : Stage
  pub shutting : Shutdown
  pub serves : Serving
  pub cleaning : Cleaning

unfoldable pub new_server : (stopping done : Bool) → Server
new_server stopping done = record {
  stopping = stopping;
  done = done;
  abort = false;
  wg = 0;
  stage = entered;
  shutting = not_launched;
  serves = not_started;
  cleaning = not_called;
}

-- Whether a case of the select can be taken.
abbrev pub IsReady : Server → Signal → Type 0
IsReady s on_stopping = s.stopping ≡ true
IsReady s on_done = s.done ≡ true
IsReady s on_abort = s.abort ≡ true

-- The effect of taking it: a receive from abort empties the channel.
abbrev pub received : Signal → Server → Server
received on_abort s = record s { abort = false }
received sig s = s

-- When the cleanup function can be called: it has to be registered. Where the function runs on the
-- goroutine of the lifecycle, it returns first.
abbrev pub CanClean : (concurrent : Bool) → Stage → Type 0
CanClean true stage = stage ≢ entered
CanClean false stage = stage ≡ started

-- The steps: those of the function, the signals of the lifecycle, those of the two goroutines, and those of
-- the cleanup function.
pub data Step (call : Signal → Option Call) (concurrent : Bool) : Server → Server → Type 0 where
  registers :
      {s : Server} → s.stage ≡ entered → Step call concurrent s (record s { stage = registered })
  launches :
      {s : Server}
      → s.stage ≡ registered
      → Step call concurrent s (record s { stage = launched; wg = s.wg + 1; shutting = selecting })
  starts :
      {s : Server}
      → s.stage ≡ launched
      → Step call concurrent s (record s { stage = started; wg = s.wg + 1; serves = serving })
  stops : {s : Server} → Step call concurrent s (record s { stopping = true })
  cancels : {s : Server} → Step call concurrent s (record s { done = true })
  selects :
      {s : Server} (sig : Signal)
      → s.shutting ≡ selecting
      → IsReady s sig
      → Step call concurrent s (received sig (record s { shutting = calling (call sig) }))
  call_returns :
      {s : Server} {c : Option Call}
      → s.shutting ≡ calling c
      → Step call concurrent s (record s { shutting = ended c; wg = s.wg - 1 })
  -- Serve and ListenAndServe return once a call that shuts the server down has been made.
  serve_returns :
      {s : Server}
      → s.serves ≡ serving
      → is_shut s.shutting ≡ true
      → Step call concurrent s (record s { serves = served; wg = s.wg - 1 })
  -- They return too where the server fails, as when its listener has been closed.
  serve_fails :
      {s : Server}
      → s.serves ≡ serving
      → Step call concurrent s (record s { serves = served; wg = s.wg - 1 })
  cleans :
      {s : Server}
      → s.cleaning ≡ not_called
      → CanClean concurrent s.stage
      → Step call concurrent s (record s { cleaning = waiting; abort = true })
  wait_returns :
      {s : Server}
      → s.cleaning ≡ waiting
      → s.wg ≡ 0
      → Step call concurrent s (record s { cleaning = cleaned })

pub data Run (call : Signal → Option Call) (concurrent : Bool) : Server → Server → Type 0 where
  here : {s : Server} → Run call concurrent s s
  then :
      {s t u : Server}
      → Run call concurrent s t
      → Step call concurrent t u
      → Run call concurrent s u
