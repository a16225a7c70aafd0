-- ===== src/Lifecycle/Causes.antt =====
-- Why the contexts of a lifecycle are cancelled.
pub mod Given
use go_component.Prelude.{
  ◌||◌, ◌≢◌, false, inl, inr, refl, ◌+◌, String, ◌≡◌, ◌⊎◌, Bool, true, Option, none, some, arith,
}
use go_component.Lifecycle.{
  Cause, terminated, stopped, canceled, fatality, waiting, L, Forest, leaf, node, cancelled,
  cancel_all, new_lifecycle, run_root, signal_stop, propagate_stop, reap_grace, reap_ctx, terminate,
  exec_error,
}
use go_component.Lifecycle.Step.{
  Local, forks, registers, stops, propagates_stop, reaps_grace, reaps_ctx, terminates, fails, ends,
  child_returns, Reach, Step,
}
use go_component.Lifecycle.Guards.{forked, fork-eq-some, cleanup-eq-some, fatal-eq-some}
use go_component.Lifecycle.Nodes.{
  At, AllNodes-At, AllNodes, Reach-AllNodes, cancel_all-AllNodes, Returns-AllNodes,
}
use go_component.Lifecycle.Causes.Given.{gives_stopped, Knows, Reach-Knows, unstopped}

-- What the two contexts of a lifecycle tell.
pub record HasCauses (l : L) : Type 0 where
  pub same_cause : (l.grace_ctx ≡ l.ctx) ⊎ ((l.grace_ctx ≡ some stopped) × (l.stopping ≡ true))

abbrev Causes : L → Forest → Type 0
Causes l ts = HasCauses l

HasCauses-cancelled : (c : Cause) (l : L) → HasCauses l → HasCauses (cancelled c l)
HasCauses-cancelled c l h = record { same_cause = ground (arith, h.same_cause) }

Causes-cancelled :
    (c : Cause) (l : L) (ts : Forest)
    → HasCauses l × AllNodes Causes ts
    → HasCauses (cancelled c l) × AllNodes Causes (cancel_all c ts)
Causes-cancelled c l ts h = (
  HasCauses-cancelled c l h.0,
  cancel_all-AllNodes {P = Causes} c (λ l ts. HasCauses-cancelled c l) ts h.1,
)

Causes-fork :
    (name : String) (l : L) (ts : Forest)
    → HasCauses l
    → AllNodes Causes ts
    → HasCauses (record l { wg = l.wg + 1 }) × AllNodes Causes (forked name l ts)
unfolding new_lifecycle
Causes-fork name l ts h hs = (ground arith, (record { same_cause = inl refl }, tt, hs))

Causes-exec_error :
    (err : Option Cause) (l : L) (ts : Forest)
    → HasCauses l
    → AllNodes Causes ts
    → HasCauses (record (exec_error err l ts).0 { phase = waiting })
      × AllNodes Causes (exec_error err l ts).1
unfolding exec_error
Causes-exec_error none l ts h hs = (ground arith, hs)
Causes-exec_error (some err) l ts h hs =
    let d = Causes-cancelled err l ts (h, hs) in (ground (arith, d.0), d.1)

module _ {orderly stopper : Bool} where
  Causes-Local :
      {l : L} {ts : Forest} {l' : L} {ts' : Forest}
      → Local orderly stopper l ts l' ts'
      → HasCauses l
      → AllNodes Causes ts
      → HasCauses l' × AllNodes Causes ts'
  unfolding signal_stop propagate_stop reap_grace reap_ctx terminate
  Causes-Local (forks {l} {ts} name e k) h hs =
      let inv = fork-eq-some name l ts e in rw (inv.2, inv.3) (Causes-fork name l ts h hs)
  Causes-Local (registers {l} f e k) h hs = rw ((cleanup-eq-some f l e).1) (ground arith, hs)
  Causes-Local (reaps_ctx {l} {ts} e) h hs = Causes-cancelled canceled l ts (h, hs)
  Causes-Local (terminates {l} {ts}) h hs = Causes-cancelled terminated l ts (h, hs)
  Causes-Local (fails {l} {ts} err e) h hs =
      let inv = fatal-eq-some err l ts e in
      rw (inv.1, inv.2) (Causes-cancelled (fatality err) l ts (h, hs))
  Causes-Local (ends {l} {ts} err e) h hs = Causes-exec_error err l ts h hs
  Causes-Local (child_returns r) h hs =
      (ground arith, Returns-AllNodes {P = Causes} (λ l ts e k. ground arith) r hs)
  Causes-Local stops h hs = (ground arith, hs)
  Causes-Local (propagates_stop e w) h hs = (ground arith, hs)
  Causes-Local (reaps_grace e w) h hs = (ground arith, hs)
  Causes-Local _ h hs = (ground arith, hs)

HasCauses-new_lifecycle :
    (name : String) (ctx : Option Cause) (has_stopper : Bool)
    → HasCauses (new_lifecycle name ctx has_stopper)
unfolding new_lifecycle
HasCauses-new_lifecycle name ctx has_stopper = record { same_cause = inl refl }

-- Run, in every state that it comes to, whatever the order of the steps. The graceful context of a
-- lifecycle is cancelled exactly if its context is, with the same cause, or else it is cancelled with
-- the cause ErrStopped, and the lifecycle has been told to stop. The cause of the context is not
-- ErrStopped, or that error was returned by a procedure or was the cause of the context given to Run.
pub Reach-causes :
    (name : String) (ctx : Option Cause) (has_stopper : Bool) {orderly stopper : Bool} {t : Forest}
    (r : Reach orderly (run_root name ctx has_stopper) stopper t) {l : L} {ts : Forest}
    → At l ts t
    → ((l.grace_ctx ≡ l.ctx) ⊎ ((l.grace_ctx ≡ some stopped) × (l.stopping ≡ true)))
      × ((l.ctx ≢ some stopped) ⊎ (gives_stopped ctx r ≡ true))
Reach-causes name ctx has_stopper r {l} a =
    let h =
      Reach-AllNodes {P = Causes} (λ b l l' ts ts' st h hs. Causes-Local st h hs)
        (λ b l ts ts' st h. h) Causes-cancelled r
        (HasCauses-new_lifecycle name ctx has_stopper, tt, tt) in
    (
      (AllNodes-At Causes h a).same_cause,
      unstopped (gives_stopped ctx r) l
          (AllNodes-At (Knows (gives_stopped ctx r)) (Reach-Knows name ctx has_stopper r) a),
    )
