-- ===== src/Lifecycle/Hooks/Steps.antt =====
-- What each kind of step tells.
use go_component.Cleanup.{registered, push, push_all}
use go_component.Prelude.{false, String, ◌≡◌, refl, Bool, Option, none, some, arith}
use go_component.Health.Alive.{completed}
use go_component.Lifecycle.{
  Cause, terminated, canceled, fatality, waiting, L, Forest, node, cancelled, executing, cleaning,
  recording, recorded, closed, signal_stop, propagate_stop, reap_grace, reap_ctx, terminate,
  exec_error,
}
use go_component.Lifecycle.Step.{
  Local, starts, forks, registers, reaps_ctx, terminates, fails, ends, joins, cleaned, records,
  closes, child_returns, stops, propagates_stop, ignores_stop, reaps_grace, leaves_grace, cleans,
  Step,
}
use go_component.Lifecycle.Guards.{fork-eq-some, cleanup-eq-some, fatal-eq-some}
use go_component.Lifecycle.Hooks.{
  completed_name, local_event, step_event, occurrences, said, status,
}
use go_component.Lifecycle.Hooks.Hears.{
  status-of_none, occurrences-cancel_all, status-cancel_all, Hears, Hears-before, Hears-node,
  Hears-Returns, Hears-children, Hears-cancelled, Hears-forked,
}

-- A step that leaves the children alone, and tells nothing.
Hears-silent :
    (name : String) (l l' : L) (ts s : Forest)
    → l'.name ≡ l.name
    → said l'.phase ≡ said l.phase
    → Hears name
        (occurrences name (node l ts s))
        (occurrences name (node l' ts s))
        none
        (status name (node l ts s))
        (status name (node l' ts s))
Hears-silent name l l' ts s named says = record {
  grows = rw named (omega arith);
  concerns = λ z. refl;
  tells = λ once. rw (named, says) refl;
}

Hears-exec_error :
    (name : String) (err : Option Cause) (l : L) (ts s : Forest)
    → l.phase ≡ executing
    → Hears name
        (occurrences name (node l ts s))
        (occurrences name
          (node (record (exec_error err l ts).0 { phase = waiting }) (exec_error err l ts).1 s))
        none
        (status name (node l ts s))
        (status name
          (node (record (exec_error err l ts).0 { phase = waiting }) (exec_error err l ts).1 s))
unfolding exec_error
Hears-exec_error name none l ts s e =
    Hears-silent name l (record l { phase = waiting }) ts s refl (rw e refl)
Hears-exec_error name (some err) l ts s e =
    rw (occurrences-cancel_all name err ts, status-cancel_all name err ts)
      (Hears-silent name l (record (cancelled err l) { phase = waiting }) ts s refl (rw e refl))

module _ {orderly stopper : Bool} where
  Hears-Local :
      (name : String) (s : Forest) {l : L} {ts : Forest} {l' : L} {ts' : Forest}
      (st : Local orderly stopper l ts l' ts')
      → Hears name
          (occurrences name (node l ts s))
          (occurrences name (node l' ts' s))
          (local_event st)
          (status name (node l ts s))
          (status name (node l' ts' s))
  unfolding signal_stop propagate_stop reap_grace reap_ctx terminate
  Hears-Local n s (starts {l} {ts} e) = record {
    grows = omega arith;
    concerns = λ z. ground arith;
    tells = λ once. ground arith;
  }
  Hears-Local n s (child_returns {l} {ts} {ts'} r) =
      Hears-children n l ts ts' s (some (completed (completed_name r))) (Hears-Returns n r)
  Hears-Local n s (forks {l} {ts} name e k) =
      let inv = fork-eq-some name l ts e in rw (inv.2, inv.3) (Hears-forked name n l ts s)
  Hears-Local n s (registers {l} {l'} {ts} f e k) =
      rw ((cleanup-eq-some f l e).1)
        (Hears-silent n l (record l { cleanups = push l.cleanups f }) ts s refl refl)
  Hears-Local n s (fails {l} {ts = ts} err e) =
      let inv = fatal-eq-some err l ts e in
      rw (inv.1, inv.2) (Hears-cancelled n (fatality err) l ts s)
  Hears-Local n s (reaps_ctx {l} {ts} e) = Hears-cancelled n canceled l ts s
  Hears-Local n s (terminates {l} {ts}) = Hears-cancelled n terminated l ts s
  Hears-Local n s (ends {l} {ts} err e) = Hears-exec_error n err l ts s e
  Hears-Local n s (joins {l} {ts} e w) =
      Hears-silent n l (record l { phase = cleaning }) ts s refl (rw e refl)
  Hears-Local n s (cleaned {l} {ts} e p) =
      Hears-silent n l (record l { phase = recording }) ts s refl (rw e refl)
  Hears-Local n s (records {l} {ts} e) =
      Hears-silent n l (record l { phase = recorded }) ts s refl (rw e refl)
  Hears-Local n s (closes {l} {ts} e) =
      Hears-silent n l (record l { phase = closed }) ts s refl (rw e refl)
  Hears-Local n s (stops {l} {ts}) = Hears-silent n l (signal_stop l) ts s refl refl
  Hears-Local n s (propagates_stop {l} {ts} e w) =
      Hears-silent n l (propagate_stop l) ts s refl refl
  Hears-Local n s (ignores_stop {l} {ts} e) =
      Hears-silent n l (record l { watching = false }) ts s refl refl
  Hears-Local n s (reaps_grace {l} {ts} e w) = Hears-silent n l (reap_grace l) ts s refl refl
  Hears-Local n s (leaves_grace {l} {ts} e) =
      Hears-silent n l (record l { reaping = false }) ts s refl refl
  Hears-Local n s (cleans {l} {ts} {f} {q} e p calm) =
      Hears-silent n l (record l { cleanups = push_all q (registered f) }) ts s refl refl

pub Hears-Step :
    (name : String) {orderly stopper : Bool} {t u : Forest} (st : Step orderly stopper t u)
    → Hears name
        (occurrences name t)
        (occurrences name u)
        (step_event st)
        (status name t)
        (status name u)
Hears-Step name (Step.here {ts} {s} st) = Hears-Local name _ st
Hears-Step name (Step.below {l} {ts} {ts'} {s} st) =
    Hears-children name l ts ts' s (step_event st) (Hears-Step name st)
Hears-Step name (Step.beside {l} {ts} {s} {s'} st) = Hears-node name l (step_event st) _ _ _ _ (
    Hears-before name (occurrences name ts) (occurrences name s) (occurrences name s')
      (step_event st) (status name ts) (status name s) (status name s') (status-of_none name ts)
      (Hears-Step name st))
