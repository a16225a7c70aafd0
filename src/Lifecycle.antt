-- ===== src/Lifecycle.antt =====
-- A lifecycle and its managed children: type L, execute, exec, Fork, Stop, Terminate and the helper
-- goroutines of lifecycle.go, and the adapters Proc and ProcE of procedure.go.
-- Each operation is a function on the lifecycle and its children; `none` is a panic. Which
-- goroutine acts next is left to the relation Step of the child module.
pub mod Step
pub mod Nodes
pub mod Guards
pub mod Causes
pub mod Joined
pub mod Growth
pub mod Signals
pub mod Drain
pub mod Late
pub mod Spec
pub mod Refine
pub mod Hooks
pub mod Depth
pub mod Run
pub mod Records
mod Tests
use go_component.Prelude.{
  ℕ, ◌+◌, String, Bool, true, false, not, Option, none, some, List, [], if◌then◌else◌,
}
use go_component.Cleanup.{CleanupFunc, push}
use Prim.Native.String.{◌++◌}

-- The errors that are the causes of cancelled contexts: ErrTerminated, ErrStopped, context.Canceled, any
-- other error, and what L.Fatal wraps one in.
pub data Cause : Type 0 where
  terminated stopped canceled : Cause
  failed fatality : ℕ → Cause

-- Where the goroutine of a lifecycle stands: before the started hooks; in logic.Exec; in the
-- deferred wg.Wait; in runCleanup; before and after the deferred log record; after close(l.done); and, of a child,
-- after wg.Done of its parent.
pub data Phase : Type 0 where
  starting executing waiting cleaning recording recorded closed returned : Phase

pub record L : Type 0 where
  pub name : String
  pub phase : Phase
  pub stopping : Bool  -- the channel is closed
  pub ctx : Option Cause
  pub grace_ctx : Option Cause
  pub wg : ℕ
  pub cleanups : List CleanupFunc
  pub watching : Bool  -- the goroutine of propagateStop waits
  pub reaping : Bool  -- the goroutine that reaps the graceful context waits

-- Lifecycles side by side, each with its children.
pub data Forest : Type 0 where
  leaf : Forest
  node : L → Forest → Forest → Forest

-- The channel l.done is closed.
abbrev pub is_done : Phase → Bool
is_done closed = true
is_done returned = true
is_done _ = false

-- A context keeps its first cause.
abbrev pub first : Option Cause → Cause → Option Cause
first (some c) d = some c
first none d = some d

abbrev pub cancelled : Cause → L → L
cancelled c l = record l { ctx = first l.ctx c; grace_ctx = first l.grace_ctx c }

-- Cancellation reaches the contexts derived from the cancelled one: the graceful context, and those
-- of the children.
unfoldable pub cancel_all : Cause → Forest → Forest
cancel_all c leaf = leaf
cancel_all c (node l ts s) = node (cancelled c l) (cancel_all c ts) (cancel_all c s)

-- l.cancel(c)
abbrev pub cancel : Cause → L → Forest → L × Forest
cancel c l ts = (cancelled c l, cancel_all c ts)

-- The lifecycle that execute makes, from the context and the stopper that it is given.
unfoldable pub new_lifecycle : String → Option Cause → Bool → L
new_lifecycle name ctx has_stopper = record {
  name = name;
  phase = starting;
  stopping = false;
  ctx = ctx;
  grace_ctx = ctx;
  wg = 0;
  cleanups = [];
  watching = has_stopper;
  reaping = true;
}

-- What Run hands to execute: one lifecycle, with no children yet.
abbrev pub run_root : String → Option Cause → Bool → Forest
run_root name ctx has_stopper = node (new_lifecycle name ctx has_stopper) leaf leaf

-- L.Fork, and so L.Go and L.ForkE: the child's contexts derive from the parent's.
unfoldable pub fork : String → L → Forest → Option (L × Forest)
unfolding new_lifecycle
fork name l ts =
    if l.stopping
    then none
    else if is_done l.phase
    then none
    else some (
      record l { wg = l.wg + 1 },
      node (new_lifecycle (l.name ++ "/" ++ name) l.ctx true) leaf ts,
    )

-- L.Cleanup
unfoldable pub cleanup : CleanupFunc → L → Option L
cleanup f l = if is_done l.phase then none else some (record l { cleanups = push l.cleanups f })

-- The first half of L.Stop. The channel is closed once, by stopOnce.
unfoldable pub signal_stop : L → L
signal_stop l = record l { stopping = true }

-- L.Continue
unfoldable pub continue : L → Bool
continue l = not l.stopping

-- L.propagateStop, once the parent's channel is closed.
unfoldable pub propagate_stop : L → L
unfolding signal_stop
propagate_stop l = record (signal_stop l) { watching = false }

-- The goroutine of execute that reaps the graceful context, once the stopping channel is closed.
unfoldable pub reap_grace : L → L
reap_grace l = record l { grace_ctx = first l.grace_ctx stopped; reaping = false }

-- The goroutine of execute that cancels the context once the lifecycle is done.
unfoldable pub reap_ctx : L → Forest → L × Forest
reap_ctx = cancel canceled

-- L.Terminate
unfoldable pub terminate : L → Forest → L × Forest
terminate = cancel terminated

-- L.Fatal, up to its runtime.Goexit
unfoldable pub fatal : ℕ → L → Forest → Option (L × Forest)
fatal err l ts = if is_done l.phase then none else some (cancel (fatality err) l ts)

-- ProcE.Exec, after the function has returned. The error itself is the cause, also where it is one of
-- those that the lifecycle uses.
unfoldable pub exec_error : Option Cause → L → Forest → L × Forest
exec_error none l ts = (l, ts)
exec_error (some err) l ts = cancel err l ts
