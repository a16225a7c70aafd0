-- ===== src/Lifecycle/Growth.antt =====
-- What a lifecycle that has been told something never forgets.
use go_component.Prelude.{String, ◌≡◌, ◌⊎◌, Bool, true, false, ◌||◌, Option, none, some, arith}
use go_component.Lifecycle.{
  Cause, terminated, canceled, fatality, waiting, L, Forest, is_done, cancelled, fork, signal_stop,
  propagate_stop, reap_grace, reap_ctx, terminate, exec_error,
}
use go_component.Lifecycle.Step.{
  is_some, Local, starts, forks, registers, stops, propagates_stop, ignores_stop, reaps_grace,
  leaves_grace, reaps_ctx, terminates, fails, ends, joins, cleans, cleaned, records, closes,
  child_returns,
}
use go_component.Lifecycle.Guards.{fork-eq-some, cleanup-eq-some, fatal-eq-some}

-- What a step of a lifecycle keeps of it, whatever the step.
pub record Grows (l l' : L) : Type 0 where
  pub stopping : l.stopping ≡ true → l'.stopping ≡ true
  pub done : is_done l.phase ≡ true → is_done l'.phase ≡ true
  pub cause : (c : Cause) → l.ctx ≡ some c → l'.ctx ≡ some c
  pub watching :
      l.watching ≡ true
      → (l'.watching ≡ true) ⊎ (l'.stopping || is_done l'.phase || is_some l'.ctx ≡ true)

Grows-cancelled : (c : Cause) (l : L) → Grows l (cancelled c l)
Grows-cancelled c l = record {
  stopping = λ h. h;
  done = λ h. h;
  cause = λ d h. ground arith;
  watching = λ h. ground arith;
}

Grows-exec_error :
    (err : Option Cause) (l : L) (ts : Forest)
    → is_done l.phase ≡ false
    → Grows l (record (exec_error err l ts).0 { phase = waiting })
unfolding exec_error
Grows-exec_error none l ts e = ground arith
Grows-exec_error (some err) l ts e = ground arith

module _ {orderly stopper : Bool} where
  pub Grows-Local :
      {l : L} {ts : Forest} {l' : L} {ts' : Forest} → Local orderly stopper l ts l' ts' → Grows l l'
  unfolding signal_stop propagate_stop reap_grace reap_ctx terminate
  Grows-Local (forks {l} {ts} name e k) = rw ((fork-eq-some name l ts e).2) (ground arith)
  Grows-Local (registers {l} f e k) = rw ((cleanup-eq-some f l e).1) (ground arith)
  Grows-Local (fails {l} {ts} err e) =
      rw ((fatal-eq-some err l ts e).1) (Grows-cancelled (fatality err) l)
  Grows-Local (reaps_ctx {l} {ts} e) = Grows-cancelled canceled l
  Grows-Local (terminates {l} {ts}) = Grows-cancelled terminated l
  Grows-Local (ends {l} {ts} err e) = Grows-exec_error err l ts (ground arith)
  Grows-Local (starts e) = ground arith
  Grows-Local stops = ground arith
  Grows-Local (propagates_stop e w) = ground arith
  Grows-Local (ignores_stop e) = ground arith
  Grows-Local (reaps_grace e w) = ground arith
  Grows-Local (leaves_grace e) = ground arith
  Grows-Local (joins e w) = ground arith
  Grows-Local (cleans e p n) = ground arith
  Grows-Local (cleaned e p) = ground arith
  Grows-Local (records e) = ground arith
  Grows-Local (closes e) = ground arith
  Grows-Local (child_returns r) = ground arith

-- Where Fork panics on a lifecycle, it panics after any step of that lifecycle too.
pub fork-refused :
    {orderly stopper : Bool} {l : L} {ts : Forest} {l' : L} {ts' : Forest} (name : String)
    (us us' : Forest)
    → Local orderly stopper l ts l' ts'
    → fork name l us ≡ none
    → fork name l' us' ≡ none
unfolding fork
fork-refused {l} {l'} name us us' st e =
    let g = Grows-Local st in ground (arith, g.stopping, g.done)

-- Through any step of a lifecycle its context keeps the cause that it has.
pub cause-Local :
    {orderly stopper : Bool} {l : L} {ts : Forest} {l' : L} {ts' : Forest} {c : Cause}
    → Local orderly stopper l ts l' ts'
    → l.ctx ≡ some c
    → l'.ctx ≡ some c
cause-Local {c} st e = (Grows-Local st).cause c e
