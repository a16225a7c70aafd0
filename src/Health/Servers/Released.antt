-- ===== src/Health/Servers/Released.antt =====
-- The cleanup function of a health server is not stuck.
use go_component.Prelude.{◌-◌, Bool, true, false, ◌≡◌, refl, ◌∙◌, ap, Option, arith}
use go_component.Health.Servers.{
  Signal, on_abort, Call, Shutdown, is_shut, not_launched, selecting, calling, ended, Serving,
  not_started, serving, served, waiting, cleaned, server_call, Server, new_server, Step, selects,
  call_returns, serve_returns, wait_returns, Run,
}
use go_component.Health.Servers.Counted.{
  shutting_count, IsCounted, Step-IsCounted, new_server-IsCounted, Run-IsCounted, has_acted,
  is_launched,
}
use go_component.Health.Servers.Cleaned.{IsAnswer, Step-IsAnswer, Run-IsAnswer, server_call_lem}

-- The steps of the two goroutines and of the cleanup function by which it comes to its end: none is a
-- signal of the lifecycle, and the server does not fail by itself.
abbrev pub IsOwn :
    {call : Signal → Option Call} {concurrent : Bool} {s t : Server}
    → Step call concurrent s t
    → Type 0
IsOwn (selects sig e ready) = Unit
IsOwn (call_returns e) = Unit
IsOwn (serve_returns e shut) = Unit
IsOwn (wait_returns e z) = Unit
IsOwn _ = ⊥

pub data Steps (call : Signal → Option Call) (concurrent : Bool) (s : Server)
    : Server → Type 0 where
  stay : Steps call concurrent s s
  then :
      {t u : Server}
      → Steps call concurrent s t
      → (step : Step call concurrent t u) → IsOwn step
      → Steps call concurrent s u

module _ (is_http concurrent : Bool) where
  -- Some such steps bring a state on, with the cleanup function still waiting.
  abbrev Goes : Server → Server → Type 0
  Goes s t =
      Steps (server_call is_http) concurrent s t
      × IsCounted concurrent t
      × IsAnswer (server_call is_http) t t.shutting
      × (t.cleaning ≡ waiting)

  goes_on :
      {s t u : Server}
      → Goes s t
      → (step : Step (server_call is_http) concurrent t u) → IsOwn step
      → u.cleaning ≡ t.cleaning
      → Goes s u
  goes_on (r, h, a, e) step own kept =
      (then r step own, Step-IsCounted h step, Step-IsAnswer h a step, kept ∙ e)

  -- A goroutine that has made its call has shut the server down.
  shut_of_answer :
      (s : Server) (x : Shutdown)
      → IsAnswer (server_call is_http) s x
      → has_acted x ≡ true
      → is_shut x ≡ true
  shut_of_answer s not_launched a e = cc
  shut_of_answer s selecting a e = cc
  shut_of_answer s (calling c) (sig, answer, given) e =
      let (d, shuts) = server_call_lem is_http sig in rw (answer ∙ shuts) refl
  shut_of_answer s (ended c) (sig, answer, given) e =
      let (d, shuts) = server_call_lem is_http sig in rw (answer ∙ shuts) refl

  -- The goroutine that shuts the server down comes to its end, if it has been launched.
  shutting_ends :
      {s t : Server} (x : Shutdown)
      → Goes s t
      → t.shutting ≡ x
      → (u : Server) × Goes s u × (shutting_count u.shutting ≡ 0)
  shutting_ends {t = t} not_launched g e = (t, g, ap shutting_count e)
  shutting_ends {t = t} (ended c) g e = (t, g, ap shutting_count e)
  shutting_ends {t = t} (calling c) g e =
      (record t { shutting = ended c; wg = t.wg - 1 }, goes_on g (call_returns e) tt refl, refl)
  shutting_ends {t = t} selecting g e =
      let (r, h, a, waits) = g in
      let c = server_call is_http on_abort in
      let selected = goes_on g (selects on_abort e (ground arith)) tt refl in
      (
        record t { abort = false; shutting = ended c; wg = t.wg - 1 },
        goes_on selected (call_returns refl) tt refl,
        refl,
      )

  acted : (x : Shutdown) → shutting_count x ≡ 0 → is_launched x ≡ true → has_acted x ≡ true
  acted x z e = ground arith

  serving_ends :
      {s t : Server} (x : Serving)
      → Goes s t
      → shutting_count t.shutting ≡ 0
      → t.serves ≡ x
      → (u : Server) × Goes s u × (u.wg ≡ 0)
  serving_ends {t = t} not_started g z e = let (r, h, a, waits) = g in (t, g, ground arith)
  serving_ends {t = t} served g z e = let (r, h, a, waits) = g in (t, g, ground arith)
  serving_ends {t = t} serving g z e =
      let (r, h, a, waits) = g in
      let shut = shut_of_answer t t.shutting a (acted t.shutting z (ground arith)) in
      (
        record t { serves = served; wg = t.wg - 1 },
        goes_on g (serve_returns e shut) tt refl,
        ground arith,
      )

new_server-IsAnswer :
    (is_http stopping done : Bool)
    → IsAnswer (server_call is_http) (new_server stopping done) (new_server stopping done).shutting
unfolding new_server
new_server-IsAnswer is_http stopping done = tt

-- However StartGRPC or StartHTTP is called, once its cleanup function has been called it can return, by
-- steps of that function and of the two goroutines, with no signal of the lifecycle and no failure of
-- the server: the value that the function sends to the channel abort is there for the select, unless
-- that has been left for another signal; the call that the select leads to shuts the server down, so
-- that it no longer serves; and the wait group comes to 0.
pub Run-cleans :
    (is_http : Bool) {concurrent : Bool} (stopping done : Bool) {s : Server}
    → Run (server_call is_http) concurrent (new_server stopping done) s
    → s.cleaning ≡ waiting
    → (t : Server) × Steps (server_call is_http) concurrent s t × (t.cleaning ≡ cleaned)
Run-cleans is_http {concurrent} stopping done {s} r e =
    let start = new_server-IsCounted stopping done concurrent in
    let h = Run-IsCounted start r in
    let a = Run-IsAnswer start (new_server-IsAnswer is_http stopping done) r in
    let (t, g, z) = shutting_ends is_http concurrent s.shutting (stay, h, a, e) refl in
    let (u, (run, counted, answered, waits), none_left) =
      serving_ends is_http concurrent t.serves g z refl in
    (record u { cleaning = cleaned }, then run (wait_returns waits none_left) tt, refl)
