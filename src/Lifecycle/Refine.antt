-- ===== src/Lifecycle/Refine.antt =====
-- A lifecycle does what its specification allows.
use go_component.Lifecycle.{L, Forest, leaf, node, is_done, cancelled}
use go_component.Lifecycle.Step.{is_some, Step}
use go_component.Lifecycle.Spec.{Proc, Procs, nothing, proc}

abbrev pub view : L → Proc
view l = record { finished = is_done l.phase; stopping = l.stopping; cancelled = is_some l.ctx }

abbrev pub procs : Forest → Procs
procs leaf = nothing
procs (node l ts s) = proc (view l) (procs ts) (procs s)
