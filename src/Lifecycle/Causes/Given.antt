-- ===== src/Lifecycle/Causes/Given.antt =====
-- Where the error ErrStopped comes from as the cause of a context: the errors that the procedures of
-- procedure.go return, and the context given to Run.
use go_component.Prelude.{
  ◌||◌, ◌≢◌, false, inl, inr, refl, ◌+◌, String, ◌≡◌, ◌⊎◌, Bool, true, Option, none, some, arith,
}
use go_component.Lifecycle.{
  Cause, terminated, stopped, canceled, fatality, waiting, L, Forest, leaf, node, cancelled,
  cancel_all, new_lifecycle, run_root, signal_stop, propagate_stop, reap_grace, reap_ctx, terminate,
  exec_error,
}
use go_component.Lifecycle.Step.{
  Local, forks, registers, stops, propagates_stop, reaps_grace, reaps_ctx, terminates, fails, ends,
  child_returns, Reach, Step,
}
use go_component.Lifecycle.Guards.{forked, fork-eq-some, cleanup-eq-some, fatal-eq-some}
use go_component.Lifecycle.Nodes.{AllNodes, cancel_all-AllNodes, Returns-AllNodes}

abbrev pub is_stopped : Option Cause → Bool
is_stopped (some stopped) = true
is_stopped _ = false

-- The error that a procedure returns in a step.
abbrev pub local_error :
    {orderly stopper : Bool} {l : L} {ts : Forest} {l' : L} {ts' : Forest}
    → Local orderly stopper l ts l' ts'
    → Option Cause
local_error (ends err e) = err
local_error _ = none

abbrev pub step_error :
    {orderly stopper : Bool} {t u : Forest} → Step orderly stopper t u → Option Cause
step_error (Step.here st) = local_error st
step_error (Step.below st) = step_error st
step_error (Step.beside st) = step_error st

-- Whether a procedure has returned ErrStopped, or the context given to Run has it as its cause.
abbrev pub gives_stopped :
    (ctx : Option Cause)
    → {orderly : Bool} {s : Forest} {stopper : Bool} {t : Forest} → Reach orderly s stopper t
    → Bool
gives_stopped ctx Reach.start = is_stopped ctx
gives_stopped ctx (Reach.then r st) = gives_stopped ctx r || is_stopped (step_error st)
gives_stopped ctx (Reach.shut r) = gives_stopped ctx r
gives_stopped ctx (Reach.cancels c r) = gives_stopped ctx r || is_stopped (some c)

-- ErrStopped is the cause of a context only where it was given.
abbrev pub Knows : Bool → L → Forest → Type 0
Knows given l ts = is_stopped l.ctx ≡ true → given ≡ true

Knows-cancelled :
    (given : Bool) (c : Cause) (l : L) (ts : Forest)
    → (is_stopped (some c) ≡ true → given ≡ true)
    → Knows given l ts × AllNodes (Knows given) ts
    → Knows given (cancelled c l) (cancel_all c ts) × AllNodes (Knows given) (cancel_all c ts)
Knows-cancelled given c l ts source h =
    (own l h.0, cancel_all-AllNodes {P = Knows given} c (λ l ts. own l) ts h.1)
  where
    own : (l : L) → Knows given l leaf → Knows given (cancelled c l) leaf
    own l h = ground arith

Knows-weaken :
    (given more : Bool) (t : Forest)
    → (given ≡ true → more ≡ true)
    → AllNodes (Knows given) t
    → AllNodes (Knows more) t
Knows-weaken given more leaf grows h = tt
Knows-weaken given more (node l ts s) grows h = (
  (λ e. grows (h.0 e)),
  Knows-weaken given more ts grows h.1,
  Knows-weaken given more s grows h.2,
)

Knows-fork :
    (given : Bool) (name : String) (l : L) (ts : Forest)
    → Knows given l ts × AllNodes (Knows given) ts
    → Knows given (record l { wg = l.wg + 1 }) (forked name l ts)
      × AllNodes (Knows given) (forked name l ts)
unfolding new_lifecycle
Knows-fork given name l ts h = (h.0, (h.0, tt, h.1))

Knows-exec_error :
    (given : Bool) (err : Option Cause) (l : L) (ts : Forest)
    → (is_stopped err ≡ true → given ≡ true)
    → Knows given l ts × AllNodes (Knows given) ts
    → Knows given (record (exec_error err l ts).0 { phase = waiting }) (exec_error err l ts).1
      × AllNodes (Knows given) (exec_error err l ts).1
unfolding exec_error
Knows-exec_error given none l ts source h = h
Knows-exec_error given (some err) l ts source h = Knows-cancelled given err l ts source h

module _ {orderly stopper : Bool} (given : Bool) where
  Knows-Local :
      {l : L} {ts : Forest} {l' : L} {ts' : Forest} (st : Local orderly stopper l ts l' ts')
      → (is_stopped (local_error st) ≡ true → given ≡ true)
      → Knows given l ts × AllNodes (Knows given) ts
      → Knows given l' ts' × AllNodes (Knows given) ts'
  unfolding signal_stop propagate_stop reap_grace reap_ctx terminate
  Knows-Local (forks {l} {ts} name e k) source h =
      let inv = fork-eq-some name l ts e in rw (inv.2, inv.3) (Knows-fork given name l ts h)
  Knows-Local (registers {l} f e k) source h = rw ((cleanup-eq-some f l e).1) h
  Knows-Local (reaps_ctx {l} {ts} e) source h =
      Knows-cancelled given canceled l ts (λ e. absurd (ground arith)) h
  Knows-Local (terminates {l} {ts}) source h =
      Knows-cancelled given terminated l ts (λ e. absurd (ground arith)) h
  Knows-Local (fails {l} {ts} err e) source h =
      let inv = fatal-eq-some err l ts e in
      rw (inv.1, inv.2) (Knows-cancelled given (fatality err) l ts (λ e. absurd (ground arith)) h)
  Knows-Local (ends {l} {ts} err e) source h = Knows-exec_error given err l ts source h
  Knows-Local (child_returns r) source h =
      (h.0, Returns-AllNodes {P = Knows given} (λ l ts e k. k) r h.1)
  Knows-Local stops source h = h
  Knows-Local (propagates_stop e w) source h = h
  Knows-Local (reaps_grace e w) source h = h
  Knows-Local _ source h = h

Knows-Step :
    (given : Bool) {orderly stopper : Bool} {t u : Forest} (st : Step orderly stopper t u)
    → (is_stopped (step_error st) ≡ true → given ≡ true)
    → AllNodes (Knows given) t
    → AllNodes (Knows given) u
Knows-Step given (Step.here st) source h =
    let k = Knows-Local given st source (h.0, h.1) in (k.0, k.1, h.2)
Knows-Step given (Step.below st) source h = (h.0, Knows-Step given st source h.1, h.2)
Knows-Step given (Step.beside st) source h = (h.0, h.1, Knows-Step given st source h.2)

pub Reach-Knows :
    (name : String) (ctx : Option Cause) (has_stopper : Bool) {orderly stopper : Bool} {t : Forest}
    (r : Reach orderly (run_root name ctx has_stopper) stopper t)
    → AllNodes (Knows (gives_stopped ctx r)) t
unfolding new_lifecycle
Reach-Knows name ctx has_stopper Reach.start = ((λ e. e), tt, tt)
Reach-Knows name ctx has_stopper (Reach.then {t} r st) =
    let more = gives_stopped ctx r || is_stopped (step_error st) in
    Knows-Step more st (λ e. ground arith)
      (Knows-weaken (gives_stopped ctx r) more t (λ e. ground arith)
        (Reach-Knows name ctx has_stopper r))
Reach-Knows name ctx has_stopper (Reach.shut r) = Reach-Knows name ctx has_stopper r
Reach-Knows name ctx has_stopper (Reach.cancels {l} {ts} c r) =
    let more = gives_stopped ctx r || is_stopped (some c) in
    let h =
      Knows-weaken (gives_stopped ctx r) more (node l ts leaf) (λ e. ground arith)
        (Reach-Knows name ctx has_stopper r) in
    let k = Knows-cancelled more c l ts (λ e. ground arith) (h.0, h.1) in (k.0, k.1, tt)

pub unstopped :
    (given : Bool) (l : L) → Knows given l leaf → (l.ctx ≢ some stopped) ⊎ (given ≡ true)
unstopped true l h = inr refl
unstopped false l h = inl (λ e. absurd (ground arith))
