-- ===== src/Health/Servers/Tests.antt =====
-- A gRPC server that a stopping lifecycle shuts down while its cleanup function waits, instances of
-- the theorems, and a server that is started too late.
use go_component.Prelude.{some, true, false, ◌≡◌, refl, arith}
use go_component.Health.Servers.{
  Signal, on_stopping, Call, grpc_call, server_call, Server, new_server, graceful_stop, started,
  selecting, ended, calling, serving, served, waiting, cleaned, Run, here, then, registers,
  launches, starts, stops, selects, call_returns, serve_returns, cleans, wait_returns,
}
use go_component.Health.Servers.Cleaned.{IsGiven, Run-cleaned}
use go_component.Health.Servers.Released.{Steps, Run-cleans}

abbrev waits_for_both : Server
waits_for_both = record {
  stopping = true;
  done = false;
  abort = true;
  wg = 2;
  stage = started;
  shutting = calling (some graceful_stop);
  serves = serving;
  cleaning = waiting;
}

comes_to_wait : Run (server_call false) false (new_server false false) waits_for_both
unfolding new_server server_call grpc_call
comes_to_wait =
    then
      (then (then (then (then (then here (registers refl)) (launches refl)) (starts refl)) stops)
        (selects on_stopping refl refl))
      (cleans refl refl)

abbrev is_shut_down : Server
is_shut_down = record waits_for_both {
  wg = 0;
  shutting = ended (some graceful_stop);
  serves = served;
  cleaning = cleaned;
}

shuts_down : Run (server_call false) false (new_server false false) is_shut_down
unfolding new_server server_call grpc_call
shuts_down =
    then (then (then comes_to_wait (serve_returns refl refl)) (call_returns refl))
      (wait_returns refl refl)

Run-cleaned_example :
    (is_shut_down.serves ≡ served)
    × (sig : Signal) × (c : Call) × (is_shut_down.shutting ≡ ended (some c))
    × (server_call false sig ≡ some c)
    × IsGiven is_shut_down sig
Run-cleaned_example = Run-cleaned false false false shuts_down refl

Run-cleans_example :
    (t : Server) × Steps (server_call false) false waits_for_both t × (t.cleaning ≡ cleaned)
Run-cleans_example = Run-cleans false false false comes_to_wait refl

-- Where the function runs beside the lifecycle, as loadSharedResources starts it, the cleanup function can
-- return before the server serves.
serves_after_cleanup :
    (s : Server) × Run (server_call false) true (new_server false false) s
    × (s.cleaning ≡ cleaned)
    × (s.serves ≡ serving)
unfolding new_server
serves_after_cleanup = (
  record {
    stopping = false;
    done = false;
    abort = true;
    wg = 2;
    stage = started;
    shutting = selecting;
    serves = serving;
    cleaning = cleaned;
  },
  then
      (then
        (then (then (then here (registers refl)) (cleans refl (λ e. ground arith)))
          (wait_returns refl refl))
        (launches refl))
      (starts refl),
  refl,
  refl,
)
