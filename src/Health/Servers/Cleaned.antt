-- ===== src/Health/Servers/Cleaned.antt =====
-- What holds when the cleanup function of a health server has returned.
use go_component.Prelude.{
  Option, some, ◌∙◌, Bool, true, false, ◌≡◌, refl, sym, subst, ap, ◌⊎◌, inl, inr, arith,
}
use go_component.Health.Servers.{
  Signal, on_stopping, on_done, on_abort, Call, Shutdown, not_launched, selecting, calling, ended,
  Serving, not_started, serving, served, cleaned, grpc_call, http_call, server_call, Server,
  new_server, Step, registers, launches, starts, stops, cancels, selects, call_returns,
  serve_returns, serve_fails, cleans, wait_returns, Run, here, then,
}
use go_component.Health.Servers.Counted.{
  shutting_count, serving_count, is_launched, is_started, is_called, IsCounted,
  new_server-IsCounted, Run-IsCounted,
}

abbrev pub IsGivenBy : (stopping done called : Bool) → Signal → Type 0
IsGivenBy stopping done called on_stopping = stopping ≡ true
IsGivenBy stopping done called on_done = done ≡ true
IsGivenBy stopping done called on_abort = called ≡ true

-- The signal has been given: for abort, by the cleanup function.
abbrev pub IsGiven : Server → Signal → Type 0
IsGiven s sig = IsGivenBy s.stopping s.done (is_called s.cleaning) sig

-- A call that shuts the server down answers a signal.
abbrev pub IsAnswer : (Signal → Option Call) → Server → Shutdown → Type 0
IsAnswer call s not_launched = Unit
IsAnswer call s selecting = Unit
IsAnswer call s (calling c) = (sig : Signal) × (c ≡ call sig) × IsGiven s sig
IsAnswer call s (ended c) = (sig : Signal) × (c ≡ call sig) × IsGiven s sig

IsAnswer-map :
    (call : Signal → Option Call) (s t : Server) (x : Shutdown)
    → ((sig : Signal) → IsGiven s sig → IsGiven t sig)
    → IsAnswer call s x
    → IsAnswer call t x
IsAnswer-map call s t not_launched keeps h = tt
IsAnswer-map call s t selecting keeps h = tt
IsAnswer-map call s t (calling c) keeps (sig, e, given) = (sig, e, keeps sig given)
IsAnswer-map call s t (ended c) keeps (sig, e, given) = (sig, e, keeps sig given)

Step-IsGiven :
    {call : Signal → Option Call} {concurrent : Bool} {s t : Server}
    → Step call concurrent s t
    → (sig : Signal) → IsGiven s sig
    → IsGiven t sig
Step-IsGiven (registers e) sig given = given
Step-IsGiven (launches e) sig given = given
Step-IsGiven (starts e) sig given = given
Step-IsGiven (selects on_stopping e ready) sig given = given
Step-IsGiven (selects on_done e ready) sig given = given
Step-IsGiven (selects on_abort e ready) sig given = given
Step-IsGiven (call_returns e) sig given = given
Step-IsGiven (serve_returns e shut) sig given = given
Step-IsGiven (serve_fails e) sig given = given
Step-IsGiven stops on_stopping given = refl
Step-IsGiven stops on_done given = given
Step-IsGiven stops on_abort given = given
Step-IsGiven cancels on_stopping given = given
Step-IsGiven cancels on_done given = refl
Step-IsGiven cancels on_abort given = given
Step-IsGiven (cleans e can) on_stopping given = given
Step-IsGiven (cleans e can) on_done given = given
Step-IsGiven (cleans e can) on_abort given = refl
Step-IsGiven (wait_returns e z) on_stopping given = given
Step-IsGiven (wait_returns e z) on_done given = given
Step-IsGiven (wait_returns e z) on_abort given = refl

-- A step leaves the goroutine where it was, or brings it to a call that answers a signal.
Step-shutting :
    {call : Signal → Option Call} {concurrent : Bool} {s t : Server}
    → IsCounted concurrent s
    → IsAnswer call s s.shutting
    → Step call concurrent s t
    → (t.shutting ≡ s.shutting) ⊎ IsAnswer call t t.shutting
Step-shutting h a (registers e) = inl refl
Step-shutting h a (launches e) = inr tt
Step-shutting h a (starts e) = inl refl
Step-shutting h a stops = inl refl
Step-shutting h a cancels = inl refl
Step-shutting h a (selects on_stopping e ready) = inr (on_stopping, refl, ready)
Step-shutting h a (selects on_done e ready) = inr (on_done, refl, ready)
Step-shutting h a (selects on_abort e ready) = inr (on_abort, refl, ground arith)
Step-shutting {call} {s = s} h a (call_returns {c = c} e) = inr (subst (IsAnswer call s) e a)
Step-shutting h a (serve_returns e shut) = inl refl
Step-shutting h a (serve_fails e) = inl refl
Step-shutting h a (cleans e can) = inl refl
Step-shutting h a (wait_returns e z) = inl refl

pub Step-IsAnswer :
    {call : Signal → Option Call} {concurrent : Bool} {s t : Server}
    → IsCounted concurrent s
    → IsAnswer call s s.shutting
    → Step call concurrent s t
    → IsAnswer call t t.shutting
Step-IsAnswer {call} {s = s} {t} h a step = elim (Step-shutting h a step) [
  | inl same_place ↦
      subst (IsAnswer call t) (sym same_place)
        (IsAnswer-map call s t s.shutting (Step-IsGiven step) a)
  | inr answer ↦ answer
]

pub Run-IsAnswer :
    {call : Signal → Option Call} {concurrent : Bool} {s t : Server}
    → IsCounted concurrent s
    → IsAnswer call s s.shutting
    → Run call concurrent s t
    → IsAnswer call t t.shutting
Run-IsAnswer h a here = a
Run-IsAnswer h a (then r step) = Step-IsAnswer (Run-IsCounted h r) (Run-IsAnswer h a r) step

ended_of_counted :
    (call : Signal → Option Call) (s : Server) (x : Shutdown)
    → is_launched x ≡ true
    → shutting_count x ≡ 0
    → IsAnswer call s x
    → (sig : Signal) × (x ≡ ended (call sig)) × IsGiven s sig
ended_of_counted call s not_launched l z a = ground arith
ended_of_counted call s selecting l z a = ground arith
ended_of_counted call s (calling c) l z a = ground arith
ended_of_counted call s (ended c) l z (sig, e, given) = (sig, ap ended e, given)

served_of_counted : (x : Serving) → is_started x ≡ true → serving_count x ≡ 0 → x ≡ served
served_of_counted not_started l z = ground arith
served_of_counted serving l z = ground arith
served_of_counted served l z = refl

-- Every case of the select shuts the server down.
pub server_call_lem :
    (is_http : Bool) (sig : Signal) → (c : Call) × (server_call is_http sig ≡ some c)
unfolding server_call grpc_call http_call
server_call_lem false on_stopping = (_, refl)
server_call_lem false on_done = (_, refl)
server_call_lem false on_abort = (_, refl)
server_call_lem true on_stopping = (_, refl)
server_call_lem true on_done = (_, refl)
server_call_lem true on_abort = (_, refl)

-- Where StartGRPC or StartHTTP is called on the goroutine of the lifecycle, which runs the cleanup
-- functions afterwards (and not on one of its own, as loadSharedResources does): when the cleanup
-- function of the server has returned, the server no longer serves, and the goroutine that shuts it
-- down has ended, after one call that shuts the server down and answers a signal that was given: the
-- lifecycle was stopping, its context was done, or the cleanup function had been called.
pub Run-cleaned :
    (is_http stopping done : Bool) {s : Server}
    → Run (server_call is_http) false (new_server stopping done) s
    → s.cleaning ≡ cleaned
    → (s.serves ≡ served)
      × (sig : Signal) × (c : Call) × (s.shutting ≡ ended (some c))
      × (server_call is_http sig ≡ some c)
      × IsGiven s sig
unfolding new_server
Run-cleaned is_http stopping done {s} r e =
    let call = server_call is_http in
    let h = Run-IsCounted (new_server-IsCounted stopping done false) r in
    let a = Run-IsAnswer (new_server-IsCounted stopping done false) tt r in
    let (sig, end, given) = ended_of_counted call s s.shutting (ground arith) (ground arith) a in
    let (c, shuts) = server_call_lem is_http sig in
    (
      served_of_counted s.serves (ground arith) (ground arith),
      sig,
      c,
      end ∙ ap ended shuts,
      shuts,
      given,
    )
