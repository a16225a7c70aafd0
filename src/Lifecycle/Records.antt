-- ===== src/Lifecycle/Records.antt =====
-- The log records that a lifecycle emits itself: the deferred record of L.exec and that of L.Fatal in
-- lifecycle.go, in the order in which the handler receives them.
use go_component.Prelude.{
  ℕ, ◌+◌, String, ◌≡◌, ◌⊎◌, inl, inr, refl, sym, ap, Bool, true, false, ◌∙◌, Bool-cases, Option,
  none, some, List, [], ◌∷◌, ◌++◌, arith, same, if◌then◌else◌,
}
use go_component.Lifecycle.{
  Cause, terminated, canceled, fatality, Phase, recorded, waiting, L, Forest, leaf, node, is_done,
  cancel_all, new_lifecycle, run_root, signal_stop, propagate_stop, reap_grace, reap_ctx, terminate,
  exec_error,
}
use go_component.Lifecycle.Step.{
  Returns, Local, starts, forks, registers, reaps_ctx, terminates, fails, ends, joins, cleaned,
  records, closes, child_returns, Step,
}
use go_component.Lifecycle.Guards.{fork-eq-some, cleanup-eq-some, fatal-eq-some}
use go_component.Lifecycle.Nodes.{AllNodes}
use go_component.Lifecycle.Joined.{IsJoined, HasReturned, HasReturned-of_live, Reach-IsJoined}
use go_component.Lifecycle.Signals.{AllRoots}
use go_component.Lifecycle.Drain.{IsDone}
use go_component.Lifecycle.Hooks.{own_count, occurrences}
use go_component.Lifecycle.Run.{
  Runs, executes, steps, shut, cancels, broadcasts, completes, Runs-Reach, Runs-IsDone,
}

-- "lifecycle completed", with the cause of the graceful context if it has one; "fatal error".
pub data Record : Type 0 where
  lifecycle_completed : (component : String) → (cause : Option Cause) → Record
  fatal_error : (component : String) → (err : ℕ) → Record

-- The deferred record reads the cause when it is emitted, and Fatal logs before it cancels.
abbrev pub local_record :
    {orderly stopper : Bool} {l : L} {ts : Forest} {l' : L} {ts' : Forest}
    → Local orderly stopper l ts l' ts'
    → Option Record
local_record (records {l} e) = some (lifecycle_completed l.name l.grace_ctx)
local_record (fails {l} err e) = some (fatal_error l.name err)
local_record _ = none

abbrev pub step_record :
    {orderly stopper : Bool} {t u : Forest} → Step orderly stopper t u → Option Record
step_record (Step.here st) = local_record st
step_record (Step.below st) = step_record st
step_record (Step.beside st) = step_record st

pub data Level : Type 0 where
  info error : Level

-- The methods of slog that emit them: InfoContext and ErrorContext
abbrev pub level_of : Record → Level
level_of (lifecycle_completed component cause) = info
level_of (fatal_error component err) = error

-- slog asks the handler first whether it is enabled for the level. The handler answers by the level
-- alone: the one that Run uses where it is given none is enabled for no level.
abbrev pub received : (enabled : Level → Bool) → List Record → Option Record → List Record
received enabled rs none = rs
received enabled rs (some r) = if enabled (level_of r) then rs ++ r ∷ [] else rs

-- What the handler has received in a call of Run.
unfoldable pub run_records :
    (enabled : Level → Bool)
    → {orderly has_done : Bool} {s : Forest} {stopper : Bool} {t : Forest}
      {broadcast completed : Bool}
    → Runs orderly has_done s stopper t broadcast completed
    → List Record
run_records enabled executes = []
run_records enabled (steps r st) = received enabled (run_records enabled r) (step_record st)
run_records enabled (shut r) = run_records enabled r
run_records enabled (cancels c r) = run_records enabled r
run_records enabled (broadcasts h d r) = run_records enabled r
run_records enabled (completes d r) = run_records enabled r

-- How many completion records name a component.
abbrev pub completion : String → Record → ℕ
completion name (lifecycle_completed component cause) = if same component name then 1 else 0
completion name (fatal_error component err) = 0

abbrev pub completions : String → List Record → ℕ
completions name [] = 0
completions name (r ∷ rs) = completion name r + completions name rs

abbrev pub is_logged : Phase → Bool
is_logged recorded = true
is_logged p = is_done p

abbrev pub own_logged : String → L → ℕ
own_logged name l = if is_logged l.phase then own_count name l else 0

-- How many lifecycles of a name have emitted their completion record.
abbrev pub logged : String → Forest → ℕ
logged name leaf = 0
logged name (node l ts s) = own_logged name l + (logged name ts + logged name s)

abbrev one_completion : String → Option Record → ℕ
one_completion name none = 0
one_completion name (some r) = completion name r

abbrev pub if_enabled : Bool → ℕ → ℕ
if_enabled true n = n
if_enabled false n = 0

completions-append :
    (name : String) (rs : List Record) (r : Record)
    → completions name (rs ++ r ∷ []) ≡ completions name rs + completion name r
completions-append name [] r = omega arith
completions-append name (q ∷ rs) r = omega (arith, completions-append name rs r)

completions-received :
    (enabled : Level → Bool) (name : String) (rs : List Record) (r : Option Record)
    → completions name (received enabled rs r)
      ≡ completions name rs + if_enabled (enabled info) (one_completion name r)
completions-received enabled name rs none = ground arith
completions-received enabled name rs (some (lifecycle_completed c cause)) =
    ground (arith, completions-append name rs (lifecycle_completed c cause))
completions-received enabled name rs (some (fatal_error c err)) =
    ground (arith, completions-append name rs (fatal_error c err))

logged-cancel_all :
    (name : String) (c : Cause) (t : Forest) → logged name (cancel_all c t) ≡ logged name t
unfolding cancel_all
logged-cancel_all name c leaf = refl
logged-cancel_all name c (node l ts s) =
    rw (logged-cancel_all name c ts, logged-cancel_all name c s) refl

logged-Returns : (name : String) {t u : Forest} → Returns t u → logged name u ≡ logged name t
logged-Returns name (Returns.here e) = ground arith
logged-Returns name (Returns.next r) = omega (arith, logged-Returns name r)

logged-exec_error :
    (name : String) (err : Option Cause) (l : L) (ts : Forest)
    → is_logged l.phase ≡ false
    → own_logged name (record (exec_error err l ts).0 { phase = waiting })
        + logged name (exec_error err l ts).1
      ≡ own_logged name l + logged name ts + 0
unfolding exec_error
logged-exec_error name none l ts e = ground arith
logged-exec_error name (some err) l ts e = ground (arith, logged-cancel_all name err ts)

module _ {orderly stopper : Bool} where
  logged-Local :
      (n : String) {l : L} {ts : Forest} {l' : L} {ts' : Forest}
      (st : Local orderly stopper l ts l' ts')
      → own_logged n l' + logged n ts'
        ≡ own_logged n l + logged n ts + one_completion n (local_record st)
  unfolding signal_stop propagate_stop reap_grace reap_ctx terminate new_lifecycle
  logged-Local n (forks {l} {ts} name e k) =
      let inv = fork-eq-some name l ts e in rw (inv.2, inv.3) (omega arith)
  logged-Local n (registers {l} f e k) = rw ((cleanup-eq-some f l e).1) (omega arith)
  logged-Local n (fails {l} {ts = ts} err e) =
      let inv = fatal-eq-some err l ts e in
      rw (inv.1, inv.2, logged-cancel_all n (fatality err) ts) (omega arith)
  logged-Local n (reaps_ctx {l} {ts} e) = rw (logged-cancel_all n canceled ts) (omega arith)
  logged-Local n (terminates {l} {ts}) = rw (logged-cancel_all n terminated ts) (omega arith)
  logged-Local n (ends {l} {ts} err e) = logged-exec_error n err l ts (rw e refl)
  logged-Local n (child_returns r) = omega (arith, logged-Returns n r)
  logged-Local n (starts e) = ground arith
  logged-Local n (joins e w) = ground arith
  logged-Local n (cleaned e p) = ground arith
  logged-Local n (records e) = ground arith
  logged-Local n (closes e) = ground arith
  logged-Local n _ = omega arith

logged-Step :
    (name : String) {orderly stopper : Bool} {t u : Forest} (st : Step orderly stopper t u)
    → logged name u ≡ logged name t + one_completion name (step_record st)
logged-Step name (Step.here st) = omega (arith, logged-Local name st)
logged-Step name (Step.below st) = omega (arith, logged-Step name st)
logged-Step name (Step.beside st) = omega (arith, logged-Step name st)

logged-HasReturned :
    (name : String) (t : Forest) → AllNodes HasReturned t → logged name t ≡ occurrences name t
logged-HasReturned name leaf h = refl
logged-HasReturned name (node l ts s) h =
    ground (arith, h.0.0, logged-HasReturned name ts h.1, logged-HasReturned name s h.2)

logged-IsDone :
    (name : String) (t : Forest)
    → AllNodes IsJoined t
    → AllRoots IsDone t
    → logged name t ≡ occurrences name t
logged-IsDone name leaf h d = refl
logged-IsDone name (node l ts s) h d =
    let below = HasReturned-of_live ts h.1 (ground (arith, h.0)) in
    ground (arith, logged-HasReturned name ts below, logged-IsDone name s h.2 d.1)

completions-logged :
    (enabled : Level → Bool) (name root : String) (ctx : Option Cause) (has_stopper : Bool)
    {orderly has_done stopper broadcast completed : Bool} {t : Forest}
    (r : Runs orderly has_done (run_root root ctx has_stopper) stopper t broadcast completed)
    → completions name (run_records enabled r) ≡ if_enabled (enabled info) (logged name t)
unfolding run_records new_lifecycle
completions-logged enabled name root ctx has_stopper executes = ground arith
completions-logged enabled name root ctx has_stopper (steps r st) = ground (
  arith,
  completions-received enabled name (run_records enabled r) (step_record st),
  completions-logged enabled name root ctx has_stopper r,
  logged-Step name st,
)
completions-logged enabled name root ctx has_stopper (shut r) =
    completions-logged enabled name root ctx has_stopper r
completions-logged enabled name root ctx has_stopper (cancels {l} {ts} c r) =
    completions-logged enabled name root ctx has_stopper r
    ∙ ap (λ n. if_enabled (enabled info) (own_logged name l + (n + 0)))
        (sym (logged-cancel_all name c ts))
completions-logged enabled name root ctx has_stopper (broadcasts h d r) =
    completions-logged enabled name root ctx has_stopper r
completions-logged enabled name root ctx has_stopper (completes d r) =
    completions-logged enabled name root ctx has_stopper r

-- Run, with no call of Fork on a lifecycle once its wg.Wait has returned and none of Cleanup once
-- its runCleanup has: of every name, a handler that is enabled for the level INFO has received one
-- completion record for each lifecycle of the name that has come past the deferred record, and no
-- more; once Run has returned, one for each lifecycle of the name that there is. A handler that is
-- not enabled for that level has received none.
pub Runs-completions :
    (enabled : Level → Bool) (name root : String) (ctx : Option Cause) (has_stopper : Bool)
    {has_done stopper broadcast completed : Bool} {t : Forest}
    (r : Runs true has_done (run_root root ctx has_stopper) stopper t broadcast completed)
    → (completions name (run_records enabled r) ≡ if_enabled (enabled info) (logged name t))
      × ((broadcast ≡ false)
          ⊎ (completions name (run_records enabled r)
              ≡ if_enabled (enabled info) (occurrences name t)))
Runs-completions enabled name root ctx has_stopper {broadcast = broadcast} {t = t} r =
    let counted = completions-logged enabled name root ctx has_stopper r in
    (
      counted,
      elim (Bool-cases broadcast) [
        | inr waits ↦ inl waits
        | inl done ↦ inr (
            counted
            ∙ ap (if_enabled (enabled info)) (
                logged-IsDone name t (Reach-IsJoined root ctx has_stopper (Runs-Reach r))
                  (Runs-IsDone r done).1))
      ],
    )
