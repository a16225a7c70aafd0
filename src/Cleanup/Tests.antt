-- ===== src/Cleanup/Tests.antt =====
-- Runs of runCleanup, and instances of its theorems.
use go_component.Prelude.{◌≡◌, refl, some, [], ◌∷◌, ◌++◌, List, arith}
use go_component.Cleanup.{
  CleanupFunc, fn, nil, cons, returns, goexit, panics, completed, panicked, run_cleanup, pop, push,
}
use go_component.Cleanup.Order.{of_list, order, run_cleanup-order, run_cleanup-panic}

-- Function 2 registers 3 and ends by Goexit, as in a call of Fatal from a cleanup function.
abbrev stack : List CleanupFunc
stack = fn 1 nil returns ∷ fn 2 (cons (fn 3 nil returns) nil) goexit ∷ fn 4 nil returns ∷ []

stack_runs :
    run_cleanup 5 stack
    ≡ some (record { called = 4 ∷ 2 ∷ 3 ∷ 1 ∷ []; left = []; finish = completed })
unfolding run_cleanup pop push
stack_runs = refl

run_cleanup-order_example :
    run_cleanup 5 stack
    ≡ some (record { called = order (of_list stack); left = []; finish = completed })
run_cleanup-order_example = run_cleanup-order stack 5 (tt, ((tt, tt), (tt, tt))) (omega arith)

run_cleanup-panic_example :
    run_cleanup 4 (stack ++ fn 5 (cons (fn 6 nil returns) nil) (panics 7) ∷ fn 8 nil goexit ∷ [])
    ≡ some
        (record { called = 8 ∷ 5 ∷ []; left = stack ++ fn 6 nil returns ∷ []; finish = panicked 7 })
run_cleanup-panic_example =
    run_cleanup-panic stack (fn 8 nil goexit ∷ []) 5 (cons (fn 6 nil returns) nil) 7 4 (tt, tt)
      (omega arith)
