-- ===== src/Lifecycle/Spec.antt =====
-- What a lifecycle promises, with its goroutines, phases, channels, wait groups and cleanup stacks
-- forgotten: a tree of procedures, of each of which is known whether it has finished, has been told
-- to stop and is cancelled.
use go_component.Prelude.{◌≡◌, Bool, true, false, ◌&&◌}

pub record Proc : Type 0 where
  pub finished : Bool
  pub stopping : Bool
  pub cancelled : Bool

-- Procedures side by side, each with those that it has started.
pub data Procs : Type 0 where
  nothing : Procs
  proc : Proc → Procs → Procs → Procs

unfoldable pub cancel_procs : Procs → Procs
cancel_procs nothing = nothing
cancel_procs (proc p ps s) = proc (record p { cancelled = true }) (cancel_procs ps) (cancel_procs s)

abbrev pub all_finished : Procs → Bool
all_finished nothing = true
all_finished (proc p ps s) = p.finished && all_finished ps && all_finished s

-- What may happen to a procedure and those below it. It starts others only while it has neither
-- finished nor been told to stop, and they are cancelled if it is. It is cancelled with all below
-- it. It finishes after all below it.
pub data Move : Proc → Procs → Proc → Procs → Type 0 where
  stays : {p : Proc} {ps : Procs} → Move p ps p ps
  spawns :
      {p : Proc} {ps : Procs}
      → p.finished ≡ false
      → p.stopping ≡ false
      → Move p ps p
          (proc (record { finished = false; stopping = false; cancelled = p.cancelled }) nothing ps)
  is_stopped : {p : Proc} {ps : Procs} → Move p ps (record p { stopping = true }) ps
  is_cancelled :
      {p : Proc} {ps : Procs} → Move p ps (record p { cancelled = true }) (cancel_procs ps)
  finishes :
      {p : Proc} {ps : Procs} → all_finished ps ≡ true → Move p ps (record p { finished = true }) ps

pub data SpecStep : Procs → Procs → Type 0 where
  here :
      {p p' : Proc} {ps ps' s : Procs} → Move p ps p' ps' → SpecStep (proc p ps s) (proc p' ps' s)
  below : {p : Proc} {ps ps' s : Procs} → SpecStep ps ps' → SpecStep (proc p ps s) (proc p ps' s)
  beside : {p : Proc} {ps s s' : Procs} → SpecStep s s' → SpecStep (proc p ps s) (proc p ps s')

pub data SpecRun (ps : Procs) : Procs → Type 0 where
  start : SpecRun ps ps
  then : {qs rs : Procs} → SpecRun ps qs → SpecStep qs rs → SpecRun ps rs
