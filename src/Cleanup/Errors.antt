-- ===== src/Cleanup/Errors.antt =====
-- CleanupError, CleanupContext and CleanupBackground of lifecycle.go: cleanup functions that return
-- an error, which is logged.
use go_component.Prelude.{
  ℕ, ◌<◌, ◌≡◌, refl, ap, ◌∙◌, Bool, true, false, ◌&&◌, Option, none, some, List, [], ◌∷◌, ◌++◌,
  length, arith, append-nil,
}
use go_component.Cleanup.{
  CleanupFunc, fn, Registered, nil, Ending, returns, goexit, panics, completed, run_cleanup,
}
use go_component.Cleanup.Order.{of_list, order, IsQuiet, IsQuietFn, size, run_cleanup-order}

-- What a call of the function comes to: `succeeds` is a nil error.
pub data CallResult : Type 0 where
  succeeds exits : CallResult
  fails crashes : ℕ → CallResult

-- A function that returns an error, seen as a CleanupFunc is.
pub record ErrorFunc : Type 0 where
  pub number : ℕ
  pub registers : Registered
  pub result : CallResult

abbrev pub ending_of : CallResult → Ending
ending_of succeeds = returns
ending_of (fails err) = returns
ending_of exits = goexit
ending_of (crashes reason) = panics reason

-- The function that L.CleanupError registers
unfoldable pub cleanup_error : ErrorFunc → CleanupFunc
cleanup_error f = fn f.number f.registers (ending_of f.result)

-- L.CleanupContext, with the context of the lifecycle, and L.CleanupBackground
unfoldable pub cleanup_context : {Ctx : Type 0} → (ctx : Ctx) → (Ctx → ErrorFunc) → CleanupFunc
unfolding cleanup_error
cleanup_context ctx f = cleanup_error (f ctx)

unfoldable pub cleanup_background :
    {Ctx : Type 0} → (background : Ctx) → (Ctx → ErrorFunc) → CleanupFunc
unfolding cleanup_error
cleanup_background background f = cleanup_error (f background)

-- The error of the record "cleanup failed", if the call emits one
abbrev pub error_of : CallResult → Option ℕ
error_of (fails err) = some err
error_of result = none

-- The errors that the calls log, in the order of the calls, where `result` tells what each comes to.
abbrev pub logged_errors : (result : ℕ → CallResult) → (called : List ℕ) → List ℕ
logged_errors result [] = []
logged_errors result (i ∷ called) = elim (error_of (result i)) [
  | none ↦ logged_errors result called
  | some err ↦ err ∷ logged_errors result called
]

-- Functions that register nothing, one for each number.
abbrev pub error_funcs : (result : ℕ → CallResult) → List ℕ → List CleanupFunc
unfolding cleanup_error
error_funcs result [] = []
error_funcs result (i ∷ is) =
    cleanup_error (record { number = i; registers = nil; result = result i })
    ∷ error_funcs result is

abbrev pub crashes_not : CallResult → Bool
crashes_not (crashes reason) = false
crashes_not result = true

abbrev pub none_crashes : (result : ℕ → CallResult) → List ℕ → Bool
none_crashes result [] = true
none_crashes result (i ∷ is) = crashes_not (result i) && none_crashes result is

abbrev pub reversed : List ℕ → List ℕ
reversed [] = []
reversed (i ∷ is) = reversed is ++ i ∷ []

error_funcs-IsQuiet :
    (result : ℕ → CallResult) (is : List ℕ)
    → none_crashes result is ≡ true
    → IsQuiet (of_list (error_funcs result is))
unfolding cleanup_error
error_funcs-IsQuiet result [] h = tt
error_funcs-IsQuiet result (i ∷ is) h =
    (quiet (result i) (ground arith), error_funcs-IsQuiet result is (ground arith))
  where
    quiet : (r : CallResult) → crashes_not r ≡ true → IsQuietFn (fn i nil (ending_of r))
    quiet succeeds e = tt
    quiet exits e = tt
    quiet (fails err) e = tt
    quiet (crashes reason) e = cc

size-error_funcs :
    (result : ℕ → CallResult) (is : List ℕ) → size (of_list (error_funcs result is)) ≡ length is
unfolding cleanup_error
size-error_funcs result [] = omega arith
size-error_funcs result (i ∷ is) = omega (arith, size-error_funcs result is)

order-error_funcs :
    (result : ℕ → CallResult) (is : List ℕ) → order (of_list (error_funcs result is)) ≡ reversed is
unfolding cleanup_error
order-error_funcs result [] = refl
order-error_funcs result (i ∷ is) = ap (λ l. l ++ i ∷ []) (order-error_funcs result is)

logged_errors-append :
    (result : ℕ → CallResult) (u v : List ℕ)
    → logged_errors result (u ++ v) ≡ logged_errors result u ++ logged_errors result v
logged_errors-append result [] v = refl
logged_errors-append result (i ∷ u) v = ground (arith, logged_errors-append result u v)

logged_errors-reversed :
    (result : ℕ → CallResult) (is : List ℕ)
    → logged_errors result (reversed is) ≡ reversed (logged_errors result is)
logged_errors-reversed result [] = refl
logged_errors-reversed result (i ∷ is) =
    logged_errors-append result (reversed is) (i ∷ [])
    ∙ ground
        (arith, logged_errors-reversed result is, append-nil (reversed (logged_errors result is)))

-- Functions registered by CleanupError, which register nothing and of which none panics: whatever
-- errors they return, runCleanup ends on any fuel above their number, has called all of them, the
-- last registered first, and has logged each error that was returned, in that order.
pub run_cleanup-error_funcs :
    (result : ℕ → CallResult) (is : List ℕ) (fuel : ℕ)
    → none_crashes result is ≡ true
    → length is < fuel
    → (run_cleanup fuel (error_funcs result is)
        ≡ some (record { called = reversed is; left = []; finish = completed }))
      × (logged_errors result (reversed is) ≡ reversed (logged_errors result is))
run_cleanup-error_funcs result is fuel quiet enough = (
  run_cleanup-order (error_funcs result is) fuel (error_funcs-IsQuiet result is quiet)
        (omega (arith, size-error_funcs result is))
      ∙ ap (λ l. some (record { called = l; left = []; finish = completed }))
          (order-error_funcs result is),
  logged_errors-reversed result is,
)
