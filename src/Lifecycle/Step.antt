-- ===== src/Lifecycle/Step.antt =====
-- The interleavings of the goroutines of lifecycle.go: each constructor is what one goroutine does
-- between two points where others may act. A panic ends the program, and is no step.
use go_component.Prelude.{ℕ, ◌-◌, String, ◌≡◌, Bool, true, false, ◌||◌, Option, none, some, List}
use go_component.Cleanup.{CleanupFunc, fn, panics, registered, pop, push_all}
use go_component.Lifecycle.{
  Cause, leaf, cancelled, cancel_all, Phase, starting, executing, waiting, cleaning, recording,
  recorded, closed, returned, L, Forest, node, is_done, fork, cleanup, signal_stop, propagate_stop,
  reap_grace, reap_ctx, terminate, fatal, exec_error,
}

abbrev pub is_some {ℓ} : {A : Type ℓ} → Option A → Bool
is_some none = false
is_some (some a) = true

-- The phases in which wg.Wait has not returned, and those in which runCleanup has not.
abbrev pub is_joinable : Phase → Bool
is_joinable executing = true
is_joinable waiting = true
is_joinable _ = false

abbrev pub is_cleanable : Phase → Bool
is_cleanable cleaning = true
is_cleanable p = is_joinable p

-- The call of the function ends by a panic, which runCleanup lets pass.
abbrev pub is_panic : CleanupFunc → Bool
is_panic (fn i r (panics reason)) = true
is_panic (fn i r e) = false

-- A child whose done channel is closed leaves the goroutine of Fork.
pub data Returns : Forest → Forest → Type 0 where
  here :
      {l : L} {ts s : Forest}
      → l.phase ≡ closed
      → Returns (node l ts s) (node (record l { phase = returned }) ts s)
  next : {l : L} {ts s s' : Forest} → Returns s s' → Returns (node l ts s) (node l ts s')

-- A step of one lifecycle with its children. `stopper` tells whether the channel that it watches is
-- closed: the stopping channel of its parent, or the one given to Run. With `orderly` there are no
-- calls of Fork and Cleanup from the moment that their work is no longer waited for.
pub data Local (orderly stopper : Bool) : L → Forest → L → Forest → Type 0 where
  starts :
      {l : L} {ts : Forest}
      → l.phase ≡ starting
      → Local orderly stopper l ts (record l { phase = executing }) ts
  forks :
      {l l' : L} {ts ts' : Forest} (name : String)
      → fork name l ts ≡ some (l', ts')
      → (orderly ≡ true → is_joinable l.phase ≡ true)
      → Local orderly stopper l ts l' ts'
  registers :
      {l l' : L} {ts : Forest} (f : CleanupFunc)
      → cleanup f l ≡ some l'
      → (orderly ≡ true → is_cleanable l.phase ≡ true)
      → Local orderly stopper l ts l' ts
  stops : {l : L} {ts : Forest} → Local orderly stopper l ts (signal_stop l) ts
  propagates_stop :
      {l : L} {ts : Forest}
      → stopper ≡ true
      → l.watching ≡ true
      → Local orderly stopper l ts (propagate_stop l) ts
  ignores_stop :
      {l : L} {ts : Forest}
      → is_done l.phase || is_some l.ctx ≡ true
      → Local orderly stopper l ts (record l { watching = false }) ts
  reaps_grace :
      {l : L} {ts : Forest}
      → l.stopping ≡ true
      → l.reaping ≡ true
      → Local orderly stopper l ts (reap_grace l) ts
  leaves_grace :
      {l : L} {ts : Forest}
      → is_done l.phase ≡ true
      → Local orderly stopper l ts (record l { reaping = false }) ts
  reaps_ctx :
      {l : L} {ts : Forest}
      → is_done l.phase ≡ true
      → Local orderly stopper l ts (reap_ctx l ts).0 (reap_ctx l ts).1
  terminates :
      {l : L} {ts : Forest} → Local orderly stopper l ts (terminate l ts).0 (terminate l ts).1
  fails :
      {l l' : L} {ts ts' : Forest} (err : ℕ)
      → fatal err l ts ≡ some (l', ts')
      → Local orderly stopper l ts l' ts'
  ends :
      {l : L} {ts : Forest} (err : Option Cause)
      → l.phase ≡ executing
      → Local orderly stopper l ts
          (record ((exec_error err l ts).0) { phase = waiting })
          (exec_error err l ts).1
  joins :
      {l : L} {ts : Forest}
      → l.phase ≡ waiting
      → l.wg ≡ 0
      → Local orderly stopper l ts (record l { phase = cleaning }) ts
  -- A round of runCleanup: the call of one function, and what it registers. A panic is no step.
  cleans :
      {l : L} {ts : Forest} {f : CleanupFunc} {q : List CleanupFunc}
      → l.phase ≡ cleaning
      → pop l.cleanups ≡ some (f, q)
      → is_panic f ≡ false
      → Local orderly stopper l ts (record l { cleanups = push_all q (registered f) }) ts
  cleaned :
      {l : L} {ts : Forest}
      → l.phase ≡ cleaning
      → pop l.cleanups ≡ none
      → Local orderly stopper l ts (record l { phase = recording }) ts
  records :
      {l : L} {ts : Forest}
      → l.phase ≡ recording
      → Local orderly stopper l ts (record l { phase = recorded }) ts
  closes :
      {l : L} {ts : Forest}
      → l.phase ≡ recorded
      → Local orderly stopper l ts (record l { phase = closed }) ts
  child_returns :
      {l : L} {ts ts' : Forest}
      → Returns ts ts'
      → Local orderly stopper l ts (record l { wg = l.wg - 1 }) ts'

-- A step of one lifecycle of a forest whose roots watch `stopper`.
pub data Step (orderly : Bool) : Bool → Forest → Forest → Type 0 where
  here :
      {stopper : Bool} {l l' : L} {ts ts' s : Forest}
      → Local orderly stopper l ts l' ts'
      → Step orderly stopper (node l ts s) (node l' ts' s)
  below :
      {stopper : Bool} {l : L} {ts ts' s : Forest}
      → Step orderly l.stopping ts ts'
      → Step orderly stopper (node l ts s) (node l ts' s)
  beside :
      {stopper : Bool} {l : L} {ts s s' : Forest}
      → Step orderly stopper s s'
      → Step orderly stopper (node l ts s) (node l ts s')

-- What Run comes to: between steps the stopper given to it may close, and stays closed, and the context
-- given to it may be cancelled, for any cause. There is one root.
pub data Reach (orderly : Bool) (s : Forest) : Bool → Forest → Type 0 where
  start : {stopper : Bool} → Reach orderly s stopper s
  then :
      {stopper : Bool} {t u : Forest}
      → Reach orderly s stopper t
      → Step orderly stopper t u
      → Reach orderly s stopper u
  shut : {t : Forest} → Reach orderly s false t → Reach orderly s true t
  cancels :
      {stopper : Bool} {l : L} {ts : Forest} (c : Cause)
      → Reach orderly s stopper (node l ts leaf)
      → Reach orderly s stopper (node (cancelled c l) (cancel_all c ts) leaf)
