-- ===== src/Health/Alive.antt =====
-- Alive tells whether the last thing heard of each procedure is that it started.
use text.Mathlib.TextPositions.{eq_refl}
use go_component.Prelude.{
  String, ◌≡◌, ◌≢◌, ◌↔◌, inl, inr, refl, Bool, true, false, ◌||◌, Option, none, some, List, [], ◌∷◌,
  arith, eq_iff, same, if◌then◌else◌, Dict, read, write, read-write, Bool-cases,
}
use go_component.Health.{
  Health, init, loading_completed, proc_started, proc_completed, all_running, alive,
}

-- The calls that the loader and the hooks make.
pub data Event : Type 0 where
  loading : Event
  started completed : String → Event

unfoldable pub handle_event : Health → Event → Health
unfolding loading_completed proc_started proc_completed
handle_event h loading = loading_completed h
handle_event h (started name) = proc_started name h
handle_event h (completed name) = proc_completed name h

unfoldable pub run_events : Health → List Event → Health
run_events h [] = h
run_events h (e ∷ es) = run_events (handle_event h e) es

-- What an event tells of a procedure: that it runs, that it does not, or nothing.
abbrev pub about : String → Event → Option Bool
about name loading = none
about name (started n) = if same n name then some true else none
about name (completed n) = if same n name then some false else none

abbrev pub first_some : Option Bool → Option Bool → Option Bool
first_some none o = o
first_some (some b) o = some b

-- What the last event that tells of it tells.
abbrev pub last_heard : String → List Event → Option Bool
last_heard name [] = none
last_heard name (e ∷ es) = first_some (last_heard name es) (about name e)

abbrev pub was_loaded : List Event → Bool
was_loaded [] = false
was_loaded (loading ∷ es) = true
was_loaded (e ∷ es) = was_loaded es

abbrev HasUniqueKeys : Dict Bool → Type 0
HasUniqueKeys [] = Unit
HasUniqueKeys ((k, v) ∷ m) = (read m k ≡ none) × HasUniqueKeys m

HasUniqueKeys-write :
    (k : String) (v : Bool) (m : Dict Bool) → HasUniqueKeys m → HasUniqueKeys (write m k v)
HasUniqueKeys-write k v [] h = (refl, tt)
HasUniqueKeys-write k v ((j, w) ∷ m) h = elim (Bool-cases (same j k)) [
  | inl e ↦ rw e h
  | inr e ↦ rw e (
    rw (read-write m k j v) (ground (arith, eq_iff j k, eq_iff k j, h.0)),
    HasUniqueKeys-write k v m h.1,
  )
]

all_running-read : (m : Dict Bool) (name : String) → all_running m ≡ true → read m name ≢ some false
unfolding all_running
all_running-read [] name h e = cc
all_running-read ((k, v) ∷ m) name h e = ground (arith, all_running-read m name)

read-all_running :
    (m : Dict Bool)
    → HasUniqueKeys m
    → ((name : String) → read m name ≢ some false)
    → all_running m ≡ true
unfolding all_running
read-all_running [] u h = refl
read-all_running ((k, v) ∷ m) u h = ground (
  arith,
  eq_refl k,
  h k,
  read-all_running m u.1 (λ name e. h name (ground (arith, eq_iff k name, u.0))),
)

first_some_assoc :
    (a b c : Option Bool) → first_some a (first_some b c) ≡ first_some (first_some a b) c
first_some_assoc none b c = refl
first_some_assoc (some a) b c = refl

read-handle_event :
    (name : String) (h : Health) (e : Event)
    → read (handle_event h e).procs name ≡ first_some (about name e) (read h.procs name)
unfolding handle_event
read-handle_event name h loading = refl
read-handle_event name h (started n) = rw read-write (ground arith)
read-handle_event name h (completed n) = rw read-write (ground arith)

read-run_events :
    (name : String) (h : Health) (es : List Event)
    → read (run_events h es).procs name ≡ first_some (last_heard name es) (read h.procs name)
unfolding run_events
read-run_events name h [] = refl
read-run_events name h (e ∷ es) = cc (
  read-run_events name (handle_event h e) es,
  read-handle_event name h e,
  first_some_assoc (last_heard name es) (about name e) (read h.procs name),
)

HasUniqueKeys-run_events :
    (h : Health) (es : List Event) → HasUniqueKeys h.procs → HasUniqueKeys (run_events h es).procs
unfolding run_events handle_event
HasUniqueKeys-run_events h [] u = u
HasUniqueKeys-run_events h (loading ∷ es) u = HasUniqueKeys-run_events (loading_completed h) es u
HasUniqueKeys-run_events h (started n ∷ es) u =
    HasUniqueKeys-run_events (proc_started n h) es (HasUniqueKeys-write n true h.procs u)
HasUniqueKeys-run_events h (completed n ∷ es) u =
    HasUniqueKeys-run_events (proc_completed n h) es (HasUniqueKeys-write n false h.procs u)

loaded-run_events :
    (h : Health) (es : List Event) → (run_events h es).loaded ≡ h.loaded || was_loaded es
unfolding run_events handle_event
loaded-run_events h [] = ground arith
loaded-run_events h (loading ∷ es) = ground (arith, loaded-run_events (loading_completed h) es)
loaded-run_events h (started n ∷ es) = loaded-run_events (proc_started n h) es
loaded-run_events h (completed n ∷ es) = loaded-run_events (proc_completed n h) es

-- After any calls of LoadingCompleted, ProcStarted and ProcCompleted, in any order, Loaded is true
-- exactly if LoadingCompleted was among them, and Alive exactly if there is no name whose last call
-- was ProcCompleted; a name that started again since counts as alive.
pub run_events_health :
    (es : List Event)
    → ((run_events init es).loaded ≡ was_loaded es)
      × ((alive (run_events init es) ≡ true) ↔ ((name : String) → last_heard name es ≢ some false))
unfolding init alive
run_events_health es =
    let known : (name : String) → read (run_events init es).procs name ≡ last_heard name es =
      λ name. ground (arith, read-run_events name init es) in
    (
      loaded-run_events init es,
      (
        (λ h name. rw (← known name) (all_running-read (run_events init es).procs name h)),
        (λ h.
            read-all_running (run_events init es).procs (HasUniqueKeys-run_events init es tt)
              (λ name. rw (known name) (h name))),
      ),
    )
