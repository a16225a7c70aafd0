-- ===== src/Lifecycle/Run.antt =====
-- When Run and Stop return: the channel that Run waits for, which broadcastDone of lifecycle.go
-- closes, and the timer of L.Stop.
use go_component.Prelude.{String, ◌≡◌, refl, Bool, true, false, Option, []}
use go_component.Lifecycle.{Cause, L, Forest, leaf, node, cancelled, cancel_all, is_done, run_root}
use go_component.Lifecycle.Step.{Step, Reach}
use go_component.Lifecycle.Nodes.{At, AllNodes}
use go_component.Lifecycle.Growth.{Grows-Local}
use go_component.Lifecycle.Joined.{HasReturned, Reach-complete}
use go_component.Lifecycle.Signals.{AllRoots}
use go_component.Lifecycle.Drain.{IsDone, IsIdle, Steps, Reach-drain}

-- What a call of Run comes to: its lifecycles; whether the channel options.done is closed, for which
-- Run waits before it returns; and whether the completed hooks of the root have been called.
-- `has_done` tells whether that channel is not nil; nobody else closes it.
pub data Runs (orderly has_done : Bool) (s : Forest)
    : Bool → Forest → (broadcast completed : Bool) → Type 0 where
  executes : {stopper : Bool} → Runs orderly has_done s stopper s false false
  steps :
      {stopper broadcast completed : Bool} {t u : Forest}
      → Runs orderly has_done s stopper t broadcast completed
      → Step orderly stopper t u
      → Runs orderly has_done s stopper u broadcast completed
  shut :
      {broadcast completed : Bool} {t : Forest}
      → Runs orderly has_done s false t broadcast completed
      → Runs orderly has_done s true t broadcast completed
  -- The context given to Run is cancelled.
  cancels :
      {stopper broadcast completed : Bool} {l : L} {ts : Forest} (c : Cause)
      → Runs orderly has_done s stopper (node l ts leaf) broadcast completed
      → Runs orderly has_done s stopper
          (node (cancelled c l) (cancel_all c ts) leaf)
          broadcast
          completed
  -- broadcastDone, once l.done is closed
  broadcasts :
      {stopper completed : Bool} {t : Forest}
      → has_done ≡ true
      → AllRoots IsDone t
      → Runs orderly has_done s stopper t false completed
      → Runs orderly has_done s stopper t true completed
  -- The deferred call of options.Completed, once l.exec has returned
  completes :
      {stopper broadcast : Bool} {t : Forest}
      → AllRoots IsDone t
      → Runs orderly has_done s stopper t broadcast false
      → Runs orderly has_done s stopper t broadcast true

-- Whether the select of L.Stop may return a result, where the done channel is closed or not and the
-- timer has fired or not.
unfoldable pub stop_may_return : (result done expired : Bool) → Bool
stop_may_return true done expired = done
stop_may_return false done expired = expired

pub IsDone-Step :
    {orderly stopper : Bool} {t u : Forest}
    → Step orderly stopper t u
    → AllRoots IsDone t
    → AllRoots IsDone u
IsDone-Step (Step.here st) d = ((Grows-Local st).done d.0, d.1)
IsDone-Step (Step.below st) d = d
IsDone-Step (Step.beside st) d = (d.0, IsDone-Step st d.1)

module _ {orderly has_done : Bool} {s : Forest} where
  pub Runs-Reach :
      {stopper broadcast completed : Bool} {t : Forest}
      → Runs orderly has_done s stopper t broadcast completed
      → Reach orderly s stopper t
  Runs-Reach executes = Reach.start
  Runs-Reach (steps r st) = Reach.then (Runs-Reach r) st
  Runs-Reach (shut r) = Reach.shut (Runs-Reach r)
  Runs-Reach (cancels c r) = Reach.cancels c (Runs-Reach r)
  Runs-Reach (broadcasts h d r) = Runs-Reach r
  Runs-Reach (completes d r) = Runs-Reach r

  pub Runs-IsDone :
      {stopper broadcast completed : Bool} {t : Forest}
      → Runs orderly has_done s stopper t broadcast completed
      → broadcast ≡ true
      → (has_done ≡ true) × AllRoots IsDone t
  Runs-IsDone executes e = cc
  Runs-IsDone (steps r st) e = let h = Runs-IsDone r e in (h.0, IsDone-Step st h.1)
  Runs-IsDone (shut r) e = Runs-IsDone r e
  Runs-IsDone (cancels c r) e = Runs-IsDone r e
  Runs-IsDone (broadcasts h d r) e = (h, d)
  Runs-IsDone (completes d r) e = Runs-IsDone r e

  Runs-Steps :
      {stopper broadcast completed : Bool} {t u : Forest}
      → Runs orderly has_done s stopper t broadcast completed
      → Steps orderly stopper t u
      → Runs orderly has_done s stopper u broadcast completed
  Runs-Steps r Steps.stay = r
  Runs-Steps r (Steps.then more st own) = steps (Runs-Steps r more) st

  Runs-broadcast :
      {stopper broadcast completed : Bool} {t : Forest}
      → has_done ≡ true
      → AllRoots IsDone t
      → Runs orderly has_done s stopper t broadcast completed
      → Runs orderly has_done s stopper t true completed
  Runs-broadcast {broadcast = false} h d r = broadcasts h d r
  Runs-broadcast {broadcast = true} h d r = r

pub Runs-of_Reach :
    {orderly has_done : Bool} {s : Forest} {stopper : Bool} {t : Forest}
    → Reach orderly s stopper t
    → Runs orderly has_done s stopper t false false
Runs-of_Reach Reach.start = executes
Runs-of_Reach (Reach.then r st) = steps (Runs-of_Reach r) st
Runs-of_Reach (Reach.shut r) = shut (Runs-of_Reach r)
Runs-of_Reach (Reach.cancels c r) = cancels c (Runs-of_Reach r)

-- Run, with no call of Fork on a lifecycle once its wg.Wait has returned and none of Cleanup once
-- its runCleanup has. If it has returned, its channel options.done is not nil, and the root
-- lifecycle is done: its wait group stands at 0, its cleanup stack is empty, and every lifecycle
-- below it, at any depth, has returned with an empty cleanup stack.
pub Runs-returned :
    (name : String) (ctx : Option Cause) (has_stopper : Bool) {has_done stopper completed : Bool}
    {l : L} {ts s : Forest}
    → Runs true has_done (run_root name ctx has_stopper) stopper (node l ts s) true completed
    → (has_done ≡ true)
      × (is_done l.phase ≡ true)
      × (l.wg ≡ 0)
      × (l.cleanups ≡ [])
      × AllNodes HasReturned ts
Runs-returned name ctx has_stopper r =
    let (h, d) = Runs-IsDone r refl in
    let (w, q, below) = Reach-complete name ctx has_stopper (Runs-Reach r) At.root d.0 in
    (h, d.0, w, q, below)

-- Run, with the same restriction and a channel options.done that is not nil: from every state that it
-- comes to in which the procedures of all lifecycles have returned and no cleanup function on a stack,
-- nor any that it registers, panics, steps that the goroutines take by themselves, with no further call
-- of Stop, Terminate or Fatal, lead to one in which Run has returned. Each call of a cleanup function
-- is a step, so it is one that ends, by returning or by a Goexit.
pub Runs-returns :
    (name : String) (ctx : Option Cause) (has_stopper : Bool) {stopper broadcast completed : Bool}
    {t : Forest}
    → Runs true true (run_root name ctx has_stopper) stopper t broadcast completed
    → AllNodes IsIdle t
    → (u : Forest) × Steps true stopper t u
      × Runs true true (run_root name ctx has_stopper) stopper u true completed
Runs-returns name ctx has_stopper r idle =
    let (u, more, d) = Reach-drain name ctx has_stopper (Runs-Reach r) idle in
    (u, more, Runs-broadcast refl d (Runs-Steps r more))

-- If Stop may return true, whenever its timer fires, then the lifecycle on which it was called and
-- all below it have completed.
pub stop_may_return_complete :
    (name : String) (ctx : Option Cause) (has_stopper expired : Bool) {stopper : Bool} {t : Forest}
    → Reach true (run_root name ctx has_stopper) stopper t
    → {l : L} {ts : Forest} → At l ts t
    → stop_may_return true (is_done l.phase) expired ≡ true
    → (l.wg ≡ 0) × (l.cleanups ≡ []) × AllNodes HasReturned ts
unfolding stop_may_return
stop_may_return_complete name ctx has_stopper expired r a e =
    Reach-complete name ctx has_stopper r a e
