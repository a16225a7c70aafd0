-- ===== src/Lifecycle/Nodes.antt =====
-- Properties of every lifecycle of a forest, and the rules by which they are kept.
use go_component.Prelude.{Bool}
use go_component.Prelude.{◌≡◌}
use go_component.Lifecycle.{Cause, L, Forest, leaf, node, closed, returned, cancelled, cancel_all}
use go_component.Lifecycle.Step.{
  Local, here, below, beside, Step, Reach, start, then, shut, cancels, Returns,
}

abbrev pub AllNodes : (L → Forest → Type 0) → Forest → Type 0
AllNodes P leaf = Unit
AllNodes P (node l ts s) = P l ts × AllNodes P ts × AllNodes P s

-- The lifecycle `l`, with the children `ts`, stands somewhere in a forest.
pub data At (l : L) (ts : Forest) : Forest → Type 0 where
  root : {s : Forest} → At l ts (node l ts s)
  under : {k : L} {us s : Forest} → At l ts us → At l ts (node k us s)
  after : {k : L} {us s : Forest} → At l ts s → At l ts (node k us s)

pub AllNodes-At :
    (P : L → Forest → Type 0) {l : L} {ts t : Forest} → AllNodes P t → At l ts t → P l ts
AllNodes-At P h root = h.0
AllNodes-At P h (under a) = AllNodes-At P h.1 a
AllNodes-At P h (after a) = AllNodes-At P h.2 a

-- It is enough that a lifecycle's own steps keep the property of it and of those below it, and that
-- steps below it keep the property of it.
module _ {orderly : Bool} {P : L → Forest → Type 0}
    (keeps_here : (stopper : Bool) (l l' : L) (ts ts' : Forest)
      → Local orderly stopper l ts l' ts'
      → P l ts
      → AllNodes P ts
      → P l' ts' × AllNodes P ts')
    (keeps_below : (stopper : Bool) (l : L) (ts ts' : Forest)
      → Step orderly stopper ts ts'
      → P l ts
      → P l ts') where
  pub Step-AllNodes :
      {stopper : Bool} {t u : Forest} → Step orderly stopper t u → AllNodes P t → AllNodes P u
  Step-AllNodes (here st) h = let k = keeps_here _ _ _ _ _ st h.0 h.1 in (k.0, k.1, h.2)
  Step-AllNodes (below {l} {ts} {ts'} st) h =
      (keeps_below l.stopping l ts ts' st h.0, Step-AllNodes st h.1, h.2)
  Step-AllNodes (beside st) h = (h.0, h.1, Step-AllNodes st h.2)

  pub Reach-AllNodes :
      (keeps_cancelled : (c : Cause) (l : L) (ts : Forest)
        → P l ts × AllNodes P ts
        → P (cancelled c l) (cancel_all c ts) × AllNodes P (cancel_all c ts))
      {s : Forest} {stopper : Bool} {t : Forest}
      → Reach orderly s stopper t
      → AllNodes P s
      → AllNodes P t
  Reach-AllNodes cancel start h = h
  Reach-AllNodes cancel (then r st) h = Step-AllNodes st (Reach-AllNodes cancel r h)
  Reach-AllNodes cancel (shut r) h = Reach-AllNodes cancel r h
  Reach-AllNodes cancel (cancels {l} {ts} c r) h =
      let k = Reach-AllNodes cancel r h in let d = cancel c l ts (k.0, k.1) in (d.0, d.1, tt)

-- What a cancellation keeps of each lifecycle and its children, it keeps of the whole forest.
pub cancel_all-AllNodes :
    {P : L → Forest → Type 0} (c : Cause)
    (keeps : (l : L) (ts : Forest) → P l ts → P (cancelled c l) (cancel_all c ts)) (t : Forest)
    → AllNodes P t
    → AllNodes P (cancel_all c t)
unfolding cancel_all
cancel_all-AllNodes c keeps leaf h = tt
cancel_all-AllNodes c keeps (node l ts s) h =
    (keeps l ts h.0, cancel_all-AllNodes c keeps ts h.1, cancel_all-AllNodes c keeps s h.2)

pub Returns-AllNodes :
    {P : L → Forest → Type 0}
    (keeps : (l : L) (ts : Forest)
      → l.phase ≡ closed
      → P l ts
      → P (record l { phase = returned }) ts)
    {t u : Forest}
    → Returns t u
    → AllNodes P t
    → AllNodes P u
Returns-AllNodes keeps (Returns.here e) h = (keeps _ _ e h.0, h.1, h.2)
Returns-AllNodes keeps (Returns.next r) h = (h.0, h.1, Returns-AllNodes keeps r h.2)
