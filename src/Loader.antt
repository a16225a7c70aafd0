-- ===== src/Loader.antt =====
-- Loading: Claim.Exec, forkGroup and Load of loader/loader.go, and the loop of kafkaloader.Loader in
-- kafkaloader/kafkaloader.go. Descriptors are known by their addresses.
pub mod Once
pub mod Resources
mod Tests
use go_component.Prelude.{
  ℕ, Bool, true, false, ◌+◌, ◌-◌, ◌==◌, List, [], ◌∷◌, if◌then◌else◌, length, ◌≡◌,
}
use go_component.Health.{Health, loading_completed}

-- A loader.Claim: whether Exec has started, how many calls of Exec are in Bootstrap, how many
-- bootstraps have succeeded, how often the channel ready has been closed, and how often Exec has
-- terminated the lifecycle of the claim.
pub record Claim : Type 0 where
  pub executed : Bool
  pub bootstrapping : ℕ
  pub bootstrapped : ℕ
  pub closes : ℕ
  pub terminates : ℕ

-- How a call of Bootstrap ends: it returns nil or an error, or it unwinds Exec by a panic or Goexit.
pub data Bootstrapped : Type 0 where
  succeeds fails unwinds : Bootstrapped

unfoldable pub new_claim : Claim
new_claim = record {
  executed = false;
  bootstrapping = 0;
  bootstrapped = 0;
  closes = 0;
  terminates = 0;
}

-- Whether a call of Exec panics where it starts.
unfoldable pub exec_panics : Claim → Bool
exec_panics c = c.executed

-- Exec up to Bootstrap, with the swap of executed.
unfoldable pub start_exec : Claim → Claim
unfolding exec_panics
start_exec c =
    if exec_panics c
    then record c { executed = true }
    else record c { executed = true; bootstrapping = c.bootstrapping + 1 }

-- setReady
unfoldable pub set_ready : Claim → Claim
set_ready c = record c { closes = c.closes + 1 }

-- Exec from the end of Bootstrap on: it marks the claim as ready, or terminates its lifecycle.
unfoldable pub finish_exec : Bootstrapped → Claim → Claim
unfolding set_ready
finish_exec succeeds c =
    set_ready (record c { bootstrapping = c.bootstrapping - 1; bootstrapped = c.bootstrapped + 1 })
finish_exec fails c = record c {
  bootstrapping = c.bootstrapping - 1;
  terminates = c.terminates + 1;
}
finish_exec unwinds c = record c { bootstrapping = c.bootstrapping - 1 }

-- IsEnabled
unfoldable pub is_enabled : (descriptors : List ℕ) → ℕ → Bool
is_enabled [] d = false
is_enabled (e ∷ es) d = if e == d then true else is_enabled es d

-- The claims that loadFootprintComponents hands to forkGroup.Fork, on a lifecycle that does not
-- refuse to fork.
unfoldable pub forked : (descriptors allocations : List ℕ) → List ℕ
forked descriptors [] = []
forked descriptors (d ∷ ds) =
    let rest = forked descriptors ds in if is_enabled descriptors d then d ∷ rest else rest

-- What the select of forkGroup.Wait can see of a claim: its channel ready is closed, its lifecycle
-- has completed, the context is done.
pub record Signals : Type 0 where
  pub ready : Bool
  pub completed : Bool
  pub ctx_done : Bool

-- The case that the select takes: any whose channel can be received from.
pub data Selects (s : Signals) : Bool → Type 0 where
  is_ready : s.ready ≡ true → Selects s true
  terminated : s.completed ≡ true → Selects s false
  not_in_time : s.ctx_done ≡ true → Selects s false

-- One select for each claim.
pub data WaitsFor : List Signals → List Bool → Type 0 where
  nobody : WaitsFor [] []
  selects :
      {s : Signals} {ss : List Signals} {b : Bool} {bs : List Bool}
      → Selects s b
      → WaitsFor ss bs
      → WaitsFor (s ∷ ss) (b ∷ bs)

-- The count n of forkGroup.Wait, from the cases taken.
unfoldable pub wait : List Bool → ℕ
wait [] = 0
wait (ready ∷ claims) = let n = wait claims in if ready then n + 1 else n

-- loadFootprintComponents, what it does to Health
unfoldable pub load_footprint_components : (allocations : List ℕ) → List Bool → Health → Health
load_footprint_components allocations taken h =
    if wait taken == length allocations then loading_completed h else h

-- What the loop of kafkaloader.Loader gets: Continue is false, Receive fails as it does when the
-- lifecycle is stopped or its context cancelled, or with another error; a message that is no Sarama
-- message, one that cannot be unmarshalled, or a footprint.
pub data Received (Fp : Type 0) : Type 0 where
  no_more stopped canceled receive_error not_sarama malformed : Received Fp
  footprint : Fp → Received Fp

-- How far the loop has come, with the footprints that Load has loaded.
pub data Progress (Fp : Type 0) : Type 0 where
  waiting returned panicked : List Fp → Progress Fp

module _ {Fp : Type 0} where
  after_load : Fp → Progress Fp → Progress Fp
  after_load fp (waiting fps) = waiting (fp ∷ fps)
  after_load fp (returned fps) = returned (fp ∷ fps)
  after_load fp (panicked fps) = panicked (fp ∷ fps)

  -- Load, then the rest of the loop: `loaded` is the guard of Load.
  load : Bool → Fp → Progress Fp → Progress Fp
  load loaded fp rest = if loaded then panicked [] else after_load fp rest

  -- Loader.Exec with handleFootprint
  unfoldable pub exec_loop : (loaded : Bool) → List (Received Fp) → Progress Fp
  unfolding load after_load
  exec_loop loaded [] = waiting []
  exec_loop loaded (no_more ∷ rs) = returned []
  exec_loop loaded (stopped ∷ rs) = returned []
  exec_loop loaded (canceled ∷ rs) = returned []
  exec_loop loaded (receive_error ∷ rs) = exec_loop loaded rs
  exec_loop loaded (not_sarama ∷ rs) = returned []
  exec_loop loaded (malformed ∷ rs) = exec_loop loaded rs
  exec_loop loaded (footprint fp ∷ rs) = load loaded fp (exec_loop true rs)
