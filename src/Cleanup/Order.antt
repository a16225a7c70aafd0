-- ===== src/Cleanup/Order.antt =====
-- The order in which runCleanup calls the registered functions, and what a panic leaves.
use go_component.Prelude.{
  ℕ, suc, ◌+◌, ◌-◌, ◌<◌, ◌≡◌, refl, ap, some, List, [], ◌∷◌, ◌++◌, arith, append_assoc, append-nil,
}
use go_component.Cleanup.Stack.{pop-push, push_all-append}
use go_component.Cleanup.{
  Ending, returns, goexit, panics, CleanupFunc, fn, Registered, nil, cons, to_list, pop, Outcome,
  completed, panicked, run_cleanup, invoke, round,
}

-- A call is followed at once by what it registered, the last registered first.
abbrev mutual
  pub order_fn : CleanupFunc → List ℕ
  order_fn (fn i r e) = i ∷ order r

  pub order : Registered → List ℕ
  order nil = []
  order (cons f fs) = order fs ++ order_fn f

-- `n` more than the number of functions that a stack comes to call.
abbrev mutual
  pub fuel_fn : CleanupFunc → ℕ → ℕ
  fuel_fn (fn i r e) n = suc (fuel_for r n)

  pub fuel_for : Registered → ℕ → ℕ
  fuel_for nil n = n
  fuel_for (cons f fs) n = fuel_for fs (fuel_fn f n)

-- No function of the stack, nor any that it registers, panics.
abbrev mutual
  pub IsQuietFn : CleanupFunc → Type 0
  IsQuietFn (fn i r (panics _)) = ⊥
  IsQuietFn (fn i r e) = IsQuiet r

  pub IsQuiet : Registered → Type 0
  IsQuiet nil = Unit
  IsQuiet (cons f fs) = IsQuietFn f × IsQuiet fs

-- The calls of `first` come before those of `o`.
abbrev pub after : List ℕ → Outcome → Outcome
after first o = record o { called = first ++ o.called }

-- One function on top of a stack that runs to `o`.
run_top :
    (i : ℕ) (r : Registered) (e : Ending) (q : List CleanupFunc) (n : ℕ) {o : Outcome}
    → IsQuietFn (fn i r e)
    → run_cleanup n (q ++ to_list r) ≡ some o
    → run_cleanup (suc n) (q ++ fn i r e ∷ []) ≡ some (after (i ∷ []) o)
unfolding run_cleanup
run_top i r returns q n quiet h =
    rw (pop-push q (fn i r returns), round) (rw (push_all-append, invoke) (rw h))
run_top i r goexit q n quiet h =
    rw (pop-push q (fn i r goexit), round) (rw (push_all-append, invoke) (rw h))
run_top i r (panics c) q n quiet h = absurd quiet

mutual
  run_fn :
      (f : CleanupFunc) (q : List CleanupFunc) (n : ℕ) {o : Outcome}
      → IsQuietFn f
      → run_cleanup n q ≡ some o
      → run_cleanup (fuel_fn f n) (q ++ f ∷ []) ≡ some (after (order_fn f) o)
  run_fn (fn i r returns) q n quiet h =
      run_top i r returns q (fuel_for r n) quiet (run_all r q n quiet h)
  run_fn (fn i r goexit) q n quiet h =
      run_top i r goexit q (fuel_for r n) quiet (run_all r q n quiet h)
  run_fn (fn i r (panics c)) q n quiet h = absurd quiet

  run_all :
      (r : Registered) (q : List CleanupFunc) (n : ℕ) {o : Outcome}
      → IsQuiet r
      → run_cleanup n q ≡ some o
      → run_cleanup (fuel_for r n) (q ++ to_list r) ≡ some (after (order r) o)
  run_all nil q n quiet h = rw append-nil h
  run_all (cons f fs) q n {o} quiet h = cc (
    run_all fs (q ++ f ∷ []) (fuel_fn f n) quiet.1 (run_fn f q n quiet.0 h),
    append_assoc q (f ∷ []) (to_list fs),
    append_assoc (order fs) (order_fn f) o.called,
  )

-- The stack as functions that were registered one after the other.
abbrev pub of_list : List CleanupFunc → Registered
of_list [] = nil
of_list (f ∷ q) = cons f (of_list q)

pub to_list-of_list : (q : List CleanupFunc) → to_list (of_list q) ≡ q
to_list-of_list [] = refl
to_list-of_list (f ∷ q) = ap (λ l. f ∷ l) (to_list-of_list q)

abbrev mutual
  pub size_fn : CleanupFunc → ℕ
  size_fn (fn i r e) = suc (size r)

  pub size : Registered → ℕ
  size nil = 0
  size (cons f fs) = size_fn f + size fs

mutual
  fuel-size_fn : (f : CleanupFunc) (n : ℕ) → fuel_fn f n ≡ size_fn f + n
  fuel-size_fn (fn i r e) n = omega (arith, fuel-size r n)

  fuel-size : (r : Registered) (n : ℕ) → fuel_for r n ≡ size r + n
  fuel-size nil n = omega arith
  fuel-size (cons f fs) n = omega (arith, fuel-size fs (fuel_fn f n), fuel-size_fn f n)

-- A run from the bottom `q` goes on above it, at any fuel that leaves `n` for the bottom.
run_above :
    (q above : List CleanupFunc) (n fuel : ℕ) {o : Outcome}
    → IsQuiet (of_list above)
    → run_cleanup n q ≡ some o
    → size (of_list above) + n ≡ fuel
    → run_cleanup fuel (q ++ above) ≡ some (after (order (of_list above)) o)
run_above q above n fuel quiet h e =
    cc (run_all (of_list above) q n quiet h, fuel-size (of_list above) n, to_list-of_list above)

run_empty :
    (n : ℕ) → run_cleanup (suc n) [] ≡ some (record { called = []; left = []; finish = completed })
unfolding run_cleanup pop
run_empty n = refl

-- Where no cleanup function panics, runCleanup ends on any fuel above the number of functions, those
-- registered during the run included: it has called each of them, whether the calls returned or
-- ended by Goexit, in stack order, where what a call registers runs before what was there; the
-- stack is empty.
pub run_cleanup-order :
    (q : List CleanupFunc) (fuel : ℕ)
    → IsQuiet (of_list q)
    → size (of_list q) < fuel
    → run_cleanup fuel q
      ≡ some (record { called = order (of_list q); left = []; finish = completed })
run_cleanup-order q fuel quiet lt = cc (
  run_above [] q (suc (fuel - size (of_list q) - 1)) fuel quiet
      (run_empty (fuel - size (of_list q) - 1)) (omega arith),
  append-nil (order (of_list q)),
)

run_panic :
    (q : List CleanupFunc) (i : ℕ) (r : Registered) (reason n : ℕ)
    → run_cleanup (suc n) (q ++ fn i r (panics reason) ∷ [])
      ≡ some (record { called = i ∷ []; left = q ++ to_list r; finish = panicked reason })
unfolding run_cleanup
run_panic q i r reason n =
    rw (pop-push q (fn i r (panics reason)), round) (rw (push_all-append, invoke) refl)

-- Where a cleanup function panics and those above it on the stack do not, runCleanup ends on any
-- fuel above the number of functions above it: it has called those above, then that function, and
-- nothing else; what lay below it, and what it registered itself, stays on the stack uncalled,
-- and the panic goes on with its reason.
pub run_cleanup-panic :
    (q above : List CleanupFunc) (i : ℕ) (r : Registered) (reason fuel : ℕ)
    → IsQuiet (of_list above)
    → size (of_list above) < fuel
    → run_cleanup fuel (q ++ fn i r (panics reason) ∷ above)
      ≡ some (record {
        called = order (of_list above) ++ i ∷ [];
        left = q ++ to_list r;
        finish = panicked reason;
      })
run_cleanup-panic q above i r reason fuel quiet lt = cc (
  append_assoc q (fn i r (panics reason) ∷ []) above,
  run_above (q ++ fn i r (panics reason) ∷ []) above (suc (fuel - size (of_list above) - 1)) fuel
      quiet (run_panic q i r reason (fuel - size (of_list above) - 1)) (omega arith),
)
