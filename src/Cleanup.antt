-- ===== src/Cleanup.antt =====
-- The cleanup stack of a lifecycle: funcStack and L.runCleanup of lifecycle.go.
-- A cleanup function is user code. The stack sees of it the functions that it registers while it
-- runs, in order, and how its call ends; the number tells functions apart.
pub mod Stack
pub mod Order
pub mod Appended
pub mod Errors
mod Tests
use go_component.Prelude.{ℕ, zero, suc, ◌+◌, Option, none, some, List, [], ◌∷◌, ◌++◌}

pub data Ending : Type 0 where
  returns goexit : Ending
  panics : ℕ → Ending

mutual
  pub data CleanupFunc : Type 0 where
    fn : ℕ → Registered → Ending → CleanupFunc

  pub data Registered : Type 0 where
    nil : Registered
    cons : CleanupFunc → Registered → Registered

abbrev pub to_list : Registered → List CleanupFunc
to_list nil = []
to_list (cons f fs) = f ∷ to_list fs

abbrev pub ident : CleanupFunc → ℕ
ident (fn i r e) = i

-- The functions that a call registers.
abbrev pub registered : CleanupFunc → List CleanupFunc
registered (fn i r e) = to_list r

-- funcStack: the field `q`, its last element on top.
unfoldable pub push : List CleanupFunc → CleanupFunc → List CleanupFunc
push q f = q ++ f ∷ []

cons_below : CleanupFunc → Option (CleanupFunc × List CleanupFunc) → CleanupFunc × List CleanupFunc
cons_below f none = (f, [])
cons_below f (some (top, rest)) = (top, f ∷ rest)

-- The last element and what is below it; `none` where the source returns nil.
unfoldable pub pop : List CleanupFunc → Option (CleanupFunc × List CleanupFunc)
unfolding cons_below
pop [] = none
pop (f ∷ q) = some (cons_below f (pop q))

abbrev pub push_all : List CleanupFunc → List CleanupFunc → List CleanupFunc
unfolding push
push_all q [] = q
push_all q (f ∷ fs) = push_all (push q f) fs

pub data Finish : Type 0 where
  completed : Finish
  panicked : ℕ → Finish

-- What a run of the cleanup functions leaves: the calls made, in order, and the stack.
pub record Outcome : Type 0 where
  pub called : List ℕ
  pub left : List CleanupFunc
  pub finish : Finish

abbrev note_call : ℕ → Option Outcome → Option Outcome
note_call i none = none
note_call i (some o) = some (record o { called = i ∷ o.called })

-- One call of `fn()` and what the deferred function does about its end: `next` is the next round
-- of the loop, `again` the call of l.runCleanup after a Goexit.
invoke :
    (next again : List CleanupFunc → Option Outcome)
    → CleanupFunc
    → List CleanupFunc
    → Option Outcome
invoke next again (fn i r returns) q = note_call i (next (push_all q (to_list r)))
invoke next again (fn i r goexit) q = note_call i (again (push_all q (to_list r)))
invoke next again (fn i r (panics reason)) q =
    some (record { called = i ∷ []; left = push_all q (to_list r); finish = panicked reason })

round :
    (next again : List CleanupFunc → Option Outcome)
    → Option (CleanupFunc × List CleanupFunc)
    → Option Outcome
unfolding invoke
round next again none = some (record { called = []; left = []; finish = completed })
round next again (some (f, q)) = invoke next again f q

-- L.runCleanup, on fuel: `none` means that the fuel ran out.
unfoldable pub run_cleanup : ℕ → List CleanupFunc → Option Outcome
unfolding round
run_cleanup zero q = none
run_cleanup (suc fuel) q = round (run_cleanup fuel) (run_cleanup fuel) (pop q)
