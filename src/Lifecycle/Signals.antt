-- ===== src/Lifecycle/Signals.antt =====
-- How Stop and Terminate reach the lifecycles below the one on which they are called.
use go_component.Prelude.{
  ◌+◌, String, ◌≡◌, ◌⊎◌, inl, inr, Option-cases, refl, Bool, true, ◌||◌, Option, none, some, arith,
}
use go_component.Lifecycle.{
  Cause, terminated, canceled, fatality, waiting, L, Forest, leaf, node, is_done, first, cancelled,
  cancel_all, new_lifecycle, run_root, signal_stop, propagate_stop, reap_grace, reap_ctx, terminate,
  exec_error,
}
use go_component.Lifecycle.Step.{
  is_some, Returns, Local, forks, registers, stops, reaps_ctx, terminates, fails, ends,
  child_returns, Step, here, below, beside, Reach,
}
use go_component.Lifecycle.Guards.{forked, fork-eq-some, cleanup-eq-some, fatal-eq-some}
use go_component.Lifecycle.Growth.{Grows, Grows-Local}
use go_component.Lifecycle.Nodes.{
  At, AllNodes-At, AllNodes, Reach-AllNodes, cancel_all-AllNodes, Returns-AllNodes,
}

-- What every lifecycle of a list of siblings has.
abbrev pub AllRoots : (L → Type 0) → Forest → Type 0
AllRoots P leaf = Unit
AllRoots P (node l ts s) = P l × AllRoots P s

-- A child heeds its parent's stop signal, unless it has got one, is done or is cancelled; and it is
-- cancelled if its parent is.
record Heeds (parent_cancelled : Bool) (l : L) : Type 0 where
  heeds : (l.watching ≡ true) ⊎ (l.stopping || is_done l.phase || is_some l.ctx ≡ true)
  follows : parent_cancelled ≡ true → is_some l.ctx ≡ true

Heeds-Grows : (p : Bool) {l l' : L} → Grows l l' → Heeds p l → Heeds p l'
Heeds-Grows p {l} {l'} g h = record {
  heeds = elim h.heeds [
    | inl w ↦ g.watching w
    | inr e ↦ inr (ground (arith, g.stopping, g.done, kept l l' g))
  ];
  follows = λ e. kept l l' g (h.follows e);
}
  where
    kept : (l l' : L) → Grows l l' → is_some l.ctx ≡ true → is_some l'.ctx ≡ true
    kept l l' g e = elim (Option-cases l.ctx) [
      | inl n ↦ ground arith
      | inr (c, s) ↦ rw (g.cause c s)
    ]

abbrev HeedsBelow : L → Forest → Type 0
HeedsBelow l ts = AllRoots (Heeds (is_some l.ctx)) ts

Heeds-cancelled : (c : Cause) (p : Bool) (l : L) → Heeds p l → Heeds true (cancelled c l)
Heeds-cancelled c p l h = record { heeds = ground (arith, h.heeds); follows = λ e. ground arith }

Heeds-cancel_all :
    (c : Cause) (p : Bool) (t : Forest)
    → AllRoots (Heeds p) t
    → AllRoots (Heeds true) (cancel_all c t)
unfolding cancel_all
Heeds-cancel_all c p leaf h = tt
Heeds-cancel_all c p (node l ts s) h = (Heeds-cancelled c p l h.0, Heeds-cancel_all c p s h.1)

pub is_some-first : (o : Option Cause) (c : Cause) → is_some (first o c) ≡ true
is_some-first none c = refl
is_some-first (some d) c = refl

HeedsBelow-cancelled :
    (c : Cause) (l : L) (ts : Forest)
    → HeedsBelow l ts
    → HeedsBelow (cancelled c l) (cancel_all c ts)
HeedsBelow-cancelled c l ts h = rw (is_some-first l.ctx c) (Heeds-cancel_all c (is_some l.ctx) ts h)

Heeds-Step :
    (p : Bool) {orderly stopper : Bool} {t u : Forest}
    → Step orderly stopper t u
    → AllRoots (Heeds p) t
    → AllRoots (Heeds p) u
Heeds-Step p (here st) h = (Heeds-Grows p (Grows-Local st) h.0, h.1)
Heeds-Step p (below st) h = h
Heeds-Step p (beside st) h = (h.0, Heeds-Step p st h.1)

Heeds-Returns :
    (p : Bool) {t u : Forest} → Returns t u → AllRoots (Heeds p) t → AllRoots (Heeds p) u
Heeds-Returns p (Returns.here e) h =
    (record { heeds = ground (arith, h.0.heeds); follows = h.0.follows }, h.1)
Heeds-Returns p (Returns.next r) h = (h.0, Heeds-Returns p r h.1)

abbrev HeedsAll : L → Forest → Type 0
HeedsAll l ts = HeedsBelow l ts × AllNodes HeedsBelow ts

HeedsAll-cancelled :
    (c : Cause) (l : L) (ts : Forest) → HeedsAll l ts → HeedsAll (cancelled c l) (cancel_all c ts)
HeedsAll-cancelled c l ts h =
    (HeedsBelow-cancelled c l ts h.0, cancel_all-AllNodes c (HeedsBelow-cancelled c) ts h.1)

HeedsAll-fork :
    (name : String) (l : L) (ts : Forest)
    → HeedsAll l ts
    → HeedsAll (record l { wg = l.wg + 1 }) (forked name l ts)
unfolding new_lifecycle
HeedsAll-fork name l ts h = ((record { heeds = inl refl; follows = λ e. e }, h.0), (tt, tt, h.1))

HeedsAll-exec_error :
    (err : Option Cause) (l : L) (ts : Forest)
    → HeedsAll l ts
    → HeedsAll (record (exec_error err l ts).0 { phase = waiting }) (exec_error err l ts).1
unfolding exec_error
HeedsAll-exec_error none l ts h = h
HeedsAll-exec_error (some err) l ts h = HeedsAll-cancelled err l ts h

module _ {orderly stopper : Bool} where
  Heeds-Local :
      {l : L} {ts : Forest} {l' : L} {ts' : Forest}
      → Local orderly stopper l ts l' ts'
      → HeedsAll l ts
      → HeedsAll l' ts'
  unfolding signal_stop propagate_stop reap_grace reap_ctx terminate
  Heeds-Local (forks {l} {ts} name e k) h =
      let inv = fork-eq-some name l ts e in rw (inv.2, inv.3) (HeedsAll-fork name l ts h)
  Heeds-Local (registers {l} f e k) h = rw ((cleanup-eq-some f l e).1) h
  Heeds-Local (reaps_ctx {l} {ts} e) h = HeedsAll-cancelled canceled l ts h
  Heeds-Local (terminates {l} {ts}) h = HeedsAll-cancelled terminated l ts h
  Heeds-Local (fails {l} {ts} err e) h =
      let inv = fatal-eq-some err l ts e in
      rw (inv.1, inv.2) (HeedsAll-cancelled (fatality err) l ts h)
  Heeds-Local (ends {l} {ts} err e) h = HeedsAll-exec_error err l ts h
  Heeds-Local (child_returns {l} r) h =
      (Heeds-Returns (is_some l.ctx) r h.0, Returns-AllNodes {P = HeedsBelow} (λ l ts e k. k) r h.1)
  Heeds-Local stops h = h
  Heeds-Local _ h = h

Reach-HeedsBelow :
    (name : String) (ctx : Option Cause) (has_stopper : Bool) {orderly stopper : Bool} {t : Forest}
    → Reach orderly (run_root name ctx has_stopper) stopper t
    → AllNodes HeedsBelow t
Reach-HeedsBelow name ctx has_stopper r =
    Reach-AllNodes {P = HeedsBelow} (λ b l l' ts ts' st h hs. Heeds-Local st (h, hs))
      (λ b l ts ts' st h. Heeds-Step (is_some l.ctx) st h) HeedsAll-cancelled r (tt, tt, tt)

abbrev pub IsCancelled : L → Forest → Type 0
IsCancelled l ts = is_some l.ctx ≡ true

IsCancelled-below :
    (p : Bool) (t : Forest)
    → p ≡ true
    → AllRoots (Heeds p) t
    → AllNodes HeedsBelow t
    → AllNodes IsCancelled t
IsCancelled-below p leaf e h hs = tt
IsCancelled-below p (node l ts s) e h hs =
    let c = h.0.follows e in
    (c, IsCancelled-below (is_some l.ctx) ts c hs.0 hs.1, IsCancelled-below p s e h.1 hs.2)

with_below : (t : Forest) → AllNodes HeedsBelow t → AllNodes HeedsAll t
with_below leaf h = tt
with_below (node l ts s) h = ((h.0, h.1), with_below ts h.1, with_below s h.2)

-- In every state that Run comes to, whatever the order of the steps: below a lifecycle whose
-- context is cancelled, the context of every lifecycle, at any depth, is cancelled.
pub Reach-IsCancelled :
    (name : String) (ctx : Option Cause) (has_stopper : Bool) {orderly stopper : Bool} {t : Forest}
    → Reach orderly (run_root name ctx has_stopper) stopper t
    → {l : L} {ts : Forest} → At l ts t
    → is_some l.ctx ≡ true
    → AllNodes IsCancelled ts
Reach-IsCancelled name ctx has_stopper {t} r {l} {ts} a e =
    let h = AllNodes-At HeedsAll (with_below t (Reach-HeedsBelow name ctx has_stopper r)) a in
    IsCancelled-below (is_some l.ctx) ts e h.0 h.1

-- A lifecycle has been told to stop, is done, is cancelled, or can take the step that tells it.
abbrev pub HearsStop : Bool → L → Type 0
HearsStop stopper l =
    (l.stopping || is_done l.phase || is_some l.ctx ≡ true)
    ⊎ ((us : Forest) → Local true stopper l us (propagate_stop l) us)
