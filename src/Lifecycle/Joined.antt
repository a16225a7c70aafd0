-- ===== src/Lifecycle/Joined.antt =====
-- A lifecycle waits for its children, and empties its cleanup stack, before it is done.
use go_component.Prelude.{
  ℕ, ◌+◌, String, ◌≡◌, refl, Bool, true, false, Option, none, some, [], arith, if◌then◌else◌,
}
use go_component.Cleanup.Stack.{pop-eq-none}
use go_component.Lifecycle.{
  Cause, terminated, canceled, fatality, is_done, Phase, returned, waiting, L, Forest, leaf, node,
  cancelled, cancel_all, new_lifecycle, run_root, signal_stop, propagate_stop, reap_grace, reap_ctx,
  terminate, exec_error,
}
use go_component.Lifecycle.Step.{
  is_joinable, is_cleanable, Returns, Local, starts, forks, registers, reaps_ctx, terminates, fails,
  ends, joins, cleans, cleaned, records, closes, child_returns, Step, here, below, beside, Reach,
}
use go_component.Lifecycle.Guards.{forked, fork-eq-some, cleanup-eq-some, fatal-eq-some}
use go_component.Lifecycle.Nodes.{
  At, AllNodes-At, AllNodes, Reach-AllNodes, cancel_all-AllNodes, Returns-AllNodes,
}

abbrev pub is_returned : Phase → Bool
is_returned returned = true
is_returned _ = false

-- The children whose goroutines have not ended.
abbrev pub live : Forest → ℕ
live leaf = 0
live (node l ts s) = (if is_returned l.phase then 0 else 1) + live s

pub live-cancel_all : (c : Cause) (t : Forest) → live (cancel_all c t) ≡ live t
unfolding cancel_all
live-cancel_all c leaf = refl
live-cancel_all c (node l ts s) = omega (arith, live-cancel_all c s)

pub live-Returns : {t u : Forest} → Returns t u → live t ≡ live u + 1
live-Returns (Returns.here e) = ground arith
live-Returns (Returns.next {l} r) = omega (arith, live-Returns r)

-- Only the parent's step ends the goroutine of a child.
module _ {orderly stopper : Bool} where
  is_returned-Local :
      {l : L} {ts : Forest} {l' : L} {ts' : Forest}
      → Local orderly stopper l ts l' ts'
      → is_returned l'.phase ≡ is_returned l.phase
  unfolding signal_stop propagate_stop reap_grace reap_ctx terminate
  is_returned-Local (forks {l} {ts} name e k) = rw ((fork-eq-some name l ts e).2)
  is_returned-Local (registers {l} f e k) = rw ((cleanup-eq-some f l e).1)
  is_returned-Local (fails {l} {ts} err e) = rw ((fatal-eq-some err l ts e).1)
  is_returned-Local (starts e) = ground arith
  is_returned-Local (ends err e) = ground arith
  is_returned-Local (joins e w) = ground arith
  is_returned-Local (cleaned e p) = ground arith
  is_returned-Local (records e) = ground arith
  is_returned-Local (closes e) = ground arith
  is_returned-Local _ = refl

pub live-Step : {orderly stopper : Bool} {t u : Forest} → Step orderly stopper t u → live u ≡ live t
live-Step (here st) = rw (is_returned-Local st)
live-Step (below st) = refl
live-Step (beside st) = omega (arith, live-Step st)

-- The counter of the wait group, and what is over in which phase.
pub record IsJoined (l : L) (ts : Forest) : Type 0 where
  pub counted : l.wg ≡ live ts
  pub joined : is_joinable l.phase ≡ false → l.wg ≡ 0
  pub drained : is_cleanable l.phase ≡ false → l.cleanups ≡ []

IsJoined-cancelled :
    (c : Cause) (l : L) (ts : Forest) → IsJoined l ts → IsJoined (cancelled c l) (cancel_all c ts)
IsJoined-cancelled c l ts h = record {
  counted = rw (live-cancel_all c ts) h.counted;
  joined = h.joined;
  drained = h.drained;
}

abbrev JoinedBelow : L → Forest → Type 0
JoinedBelow l ts = IsJoined l ts × AllNodes IsJoined ts

Joined-cancelled :
    (c : Cause) (l : L) (ts : Forest)
    → JoinedBelow l ts
    → JoinedBelow (cancelled c l) (cancel_all c ts)
Joined-cancelled c l ts h =
    (IsJoined-cancelled c l ts h.0, cancel_all-AllNodes c (IsJoined-cancelled c) ts h.1)

Joined-fork :
    (name : String) (l : L) (ts : Forest)
    → is_joinable l.phase ≡ true
    → JoinedBelow l ts
    → JoinedBelow (record l { wg = l.wg + 1 }) (forked name l ts)
unfolding new_lifecycle
Joined-fork name l ts e h = (ground arith, (ground arith, tt, h.1))

Joined-exec_error :
    (err : Option Cause) (l : L) (ts : Forest)
    → is_joinable l.phase ≡ true
    → JoinedBelow l ts
    → JoinedBelow (record (exec_error err l ts).0 { phase = waiting }) (exec_error err l ts).1
unfolding exec_error
Joined-exec_error none l ts e h = (ground arith, h.1)
Joined-exec_error (some err) l ts e h =
    (ground (arith, live-cancel_all err ts), (Joined-cancelled err l ts h).1)

module _ {stopper : Bool} where
  Joined-Local :
      {l : L} {ts : Forest} {l' : L} {ts' : Forest}
      → Local true stopper l ts l' ts'
      → IsJoined l ts
      → AllNodes IsJoined ts
      → JoinedBelow l' ts'
  unfolding signal_stop propagate_stop reap_grace reap_ctx terminate
  Joined-Local (forks {l} {ts} name e k) h hs =
      let inv = fork-eq-some name l ts e in
      rw (inv.2, inv.3) (Joined-fork name l ts (k refl) (h, hs))
  Joined-Local (registers {l} f e k) h hs =
      rw ((cleanup-eq-some f l e).1) (let t = k refl in ground arith, hs)
  Joined-Local (reaps_ctx {l} {ts} e) h hs = Joined-cancelled canceled l ts (h, hs)
  Joined-Local (terminates {l} {ts}) h hs = Joined-cancelled terminated l ts (h, hs)
  Joined-Local (fails {l} {ts} err e) h hs =
      let inv = fatal-eq-some err l ts e in
      rw (inv.1, inv.2) (Joined-cancelled (fatality err) l ts (h, hs))
  Joined-Local (ends {l} {ts} err e) h hs = Joined-exec_error err l ts (ground arith) (h, hs)
  Joined-Local (child_returns {ts} {ts'} r) h hs = (
    ground (arith, live-Returns r),
    Returns-AllNodes {P = IsJoined} (λ l ts e k. ground arith) r hs,
  )
  Joined-Local (cleaned {l} e p) h hs = (ground (arith, pop-eq-none l.cleanups p), hs)
  Joined-Local (starts e) h hs = (ground arith, hs)
  Joined-Local (joins e w) h hs = (ground arith, hs)
  Joined-Local (cleans e p n) h hs = (ground arith, hs)
  Joined-Local (records e) h hs = (ground arith, hs)
  Joined-Local (closes e) h hs = (ground arith, hs)
  Joined-Local _ h hs = (ground arith, hs)

IsJoined-below :
    (stopper : Bool) (l : L) (ts ts' : Forest)
    → Step true stopper ts ts'
    → IsJoined l ts
    → IsJoined l ts'
IsJoined-below stopper l ts ts' st h = ground (arith, live-Step st)

IsJoined-root :
    (name : String) (ctx : Option Cause) (has_stopper : Bool)
    → IsJoined (new_lifecycle name ctx has_stopper) leaf
unfolding new_lifecycle
IsJoined-root name ctx has_stopper = ground arith

pub Reach-IsJoined :
    (name : String) (ctx : Option Cause) (has_stopper : Bool) {stopper : Bool} {t : Forest}
    → Reach true (run_root name ctx has_stopper) stopper t
    → AllNodes IsJoined t
Reach-IsJoined name ctx has_stopper r =
    Reach-AllNodes {P = IsJoined} (λ b l l' ts ts' st h hs. Joined-Local st h hs) IsJoined-below
      Joined-cancelled r (IsJoined-root name ctx has_stopper, tt, tt)

-- A lifecycle whose goroutine has ended, with nothing left on its cleanup stack.
abbrev pub HasReturned : L → Forest → Type 0
HasReturned l ts = (l.phase ≡ returned) × (l.cleanups ≡ [])

pub HasReturned-of_live : (t : Forest) → AllNodes IsJoined t → live t ≡ 0 → AllNodes HasReturned t
HasReturned-of_live leaf h e = tt
HasReturned-of_live (node l ts s) h e = (
  (ground (arith, h.0), ground (arith, h.0)),
  HasReturned-of_live ts h.1 (ground (arith, h.0)),
  HasReturned-of_live s h.2 (ground (arith, h.0)),
)

joined_with_below : (t : Forest) → AllNodes IsJoined t → AllNodes JoinedBelow t
joined_with_below leaf h = tt
joined_with_below (node l ts s) h = ((h.0, h.1), joined_with_below ts h.1, joined_with_below s h.2)

-- Run, with no call of Fork on a lifecycle once its wg.Wait has returned and none of Cleanup once
-- its runCleanup has: in every state that it comes to, whatever the order of the steps, if the
-- done channel of a lifecycle is closed, then its wait group stands at 0, its cleanup stack is
-- empty, and every lifecycle below it, at any depth, has returned with an empty cleanup stack.
pub Reach-complete :
    (name : String) (ctx : Option Cause) (has_stopper : Bool) {stopper : Bool} {t : Forest}
    → Reach true (run_root name ctx has_stopper) stopper t
    → {l : L} {ts : Forest} → At l ts t
    → is_done l.phase ≡ true
    → (l.wg ≡ 0) × (l.cleanups ≡ []) × AllNodes HasReturned ts
Reach-complete name ctx has_stopper r {l} {ts} a d =
    let h =
      AllNodes-At JoinedBelow (joined_with_below _ (Reach-IsJoined name ctx has_stopper r)) a in
    (ground (arith, h.0), ground (arith, h.0), HasReturned-of_live ts h.1 (ground (arith, h.0)))
