-- ===== src/Loader/Once.antt =====
-- A claim is executed at most once; when loading completes; when the loop over footprints panics.
use go_component.Prelude.{
  ℕ, Bool, true, false, ◌+◌, ◌≤◌, List, [], ◌∷◌, length, ◌≡◌, ◌↔◌, refl, arith, ◌&&◌,
}
use go_component.Health.{Health, loading_completed}
use go_component.Loader.{
  Claim, Bootstrapped, new_claim, exec_panics, start_exec, finish_exec, set_ready, is_enabled,
  forked, Signals, WaitsFor, nobody, selects, wait, load_footprint_components, Received, no_more,
  stopped, canceled, receive_error, not_sarama, malformed, footprint, Progress, waiting, returned,
  panicked, load, after_load, exec_loop,
}

-- Calls of Exec from any goroutines: one starts, or one that is in Bootstrap returns.
pub data Reach : Claim → Type 0 where
  new : Reach new_claim
  starts : {c : Claim} → Reach c → Reach (start_exec c)
  finishes :
      {c : Claim} (end : Bootstrapped) → 1 ≤ c.bootstrapping → Reach c → Reach (finish_exec end c)

count : Bool → ℕ
count true = 1
count false = 0

Reach-counts :
    {c : Claim}
    → Reach c
    → (c.bootstrapping + c.bootstrapped + c.terminates ≤ count c.executed)
      × (c.closes ≡ c.bootstrapped)
unfolding new_claim start_exec exec_panics finish_exec set_ready count
Reach-counts new = ground arith
Reach-counts (starts {c} r) = ground (arith, Reach-counts r)
Reach-counts (finishes {c} end active r) = ground (arith, Reach-counts r)

-- However often and from wherever Exec is called, at most one call is in Bootstrap, has had it
-- succeed, or has terminated the lifecycle because it failed; these exclude each other. The channel
-- ready has been closed as often as a Bootstrap has succeeded, so at most once.
pub Reach-once :
    {c : Claim}
    → Reach c
    → (c.bootstrapping + c.bootstrapped + c.terminates ≤ 1)
      × (c.closes ≡ c.bootstrapped)
      × (c.closes ≤ 1)
unfolding count
Reach-once {c} r = ground (arith, Reach-counts r)

pub all_enabled : List ℕ → List ℕ → Bool
all_enabled descriptors [] = true
all_enabled descriptors (d ∷ ds) = is_enabled descriptors d && all_enabled descriptors ds

pub all_ready : List Bool → Bool
all_ready [] = true
all_ready (b ∷ bs) = b && all_ready bs

length-WaitsFor : {ss : List Signals} {bs : List Bool} → WaitsFor ss bs → length bs ≡ length ss
length-WaitsFor nobody = refl
length-WaitsFor (selects s w) = ground (arith, length-WaitsFor w)

wait-length :
    (bs : List Bool) → (wait bs ≤ length bs) × ((wait bs ≡ length bs) ↔ (all_ready bs ≡ true))
unfolding wait all_ready
wait-length [] = ground arith
wait-length (b ∷ bs) = ground (arith, wait-length bs)

forked-length :
    (descriptors allocations : List ℕ)
    → (length (forked descriptors allocations) ≤ length allocations)
      × ((length (forked descriptors allocations) ≡ length allocations)
          ↔ (all_enabled descriptors allocations ≡ true))
unfolding forked all_enabled
forked-length descriptors [] = ground arith
forked-length descriptors (d ∷ ds) = ground (arith, forked-length descriptors ds)

-- If loading had not completed before, then loadFootprintComponents completes it exactly if every
-- allocation of the footprint is enabled and every claim that it forked was found ready. An
-- allocation that is not enabled prevents it.
pub load_footprint_components-completes :
    (descriptors allocations : List ℕ) (signals : List Signals) (taken : List Bool) (h : Health)
    → length signals ≡ length (forked descriptors allocations)
    → WaitsFor signals taken
    → h.loaded ≡ false
    → ((load_footprint_components allocations taken h).loaded ≡ true)
      ↔ ((all_enabled descriptors allocations ≡ true) × (all_ready taken ≡ true))
unfolding load_footprint_components loading_completed
load_footprint_components-completes descriptors allocations signals taken h forks waits unloaded =
    ground (arith, length-WaitsFor waits, wait-length taken, forked-length descriptors allocations)

module _ {Fp : Type 0} where
  -- The footprints that arrive before the loop returns, in order.
  abbrev pub arrived : List (Received Fp) → List Fp
  arrived [] = []
  arrived (receive_error ∷ rs) = arrived rs
  arrived (malformed ∷ rs) = arrived rs
  arrived (footprint fp ∷ rs) = fp ∷ arrived rs
  arrived (_ ∷ rs) = []

  -- Whether the loop waits for more.
  abbrev pub goes_on : List (Received Fp) → Bool
  goes_on [] = true
  goes_on (receive_error ∷ rs) = goes_on rs
  goes_on (malformed ∷ rs) = goes_on rs
  goes_on (footprint fp ∷ rs) = goes_on rs
  goes_on (_ ∷ rs) = false

  -- How the loop ends with the footprints that arrived.
  abbrev pub loop_result : (loaded more : Bool) → List Fp → Progress Fp
  loop_result loaded true [] = waiting []
  loop_result loaded false [] = returned []
  loop_result true more (fp ∷ fps) = panicked []
  loop_result false true (fp ∷ []) = waiting (fp ∷ [])
  loop_result false false (fp ∷ []) = returned (fp ∷ [])
  loop_result false more (fp ∷ next ∷ fps) = panicked (fp ∷ [])

  after_load-loop_result :
      (fp : Fp) (more : Bool) (fps : List Fp)
      → after_load fp (loop_result true more fps) ≡ loop_result false more (fp ∷ fps)
  unfolding after_load
  after_load-loop_result fp true [] = refl
  after_load-loop_result fp false [] = refl
  after_load-loop_result fp true (next ∷ fps) = refl
  after_load-loop_result fp false (next ∷ fps) = refl

  -- If none was loaded before, the loop loads the first footprint that arrives and panics in Load at
  -- the second. With fewer it returns or waits as what it receives tells; if one was loaded before,
  -- it panics at the first.
  pub exec_loop-loop_result :
      (loaded : Bool) (rs : List (Received Fp))
      → exec_loop loaded rs ≡ loop_result loaded (goes_on rs) (arrived rs)
  unfolding exec_loop load
  exec_loop-loop_result loaded [] = refl
  exec_loop-loop_result loaded (no_more ∷ rs) = refl
  exec_loop-loop_result loaded (stopped ∷ rs) = refl
  exec_loop-loop_result loaded (canceled ∷ rs) = refl
  exec_loop-loop_result loaded (not_sarama ∷ rs) = refl
  exec_loop-loop_result loaded (receive_error ∷ rs) = exec_loop-loop_result loaded rs
  exec_loop-loop_result loaded (malformed ∷ rs) = exec_loop-loop_result loaded rs
  exec_loop-loop_result true (footprint fp ∷ rs) = refl
  exec_loop-loop_result false (footprint fp ∷ rs) =
      rw (exec_loop-loop_result true rs) (after_load-loop_result fp (goes_on rs) (arrived rs))
