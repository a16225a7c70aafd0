-- ===== src/Lifecycle/Late.antt =====
-- Calls of Fork and Cleanup that come late: their guards look at the done channel, which is closed
-- only after wg.Wait and runCleanup have returned.
use go_component.Prelude.{◌+◌, String, ◌≡◌, refl, Bool, false, some, [], ◌∷◌, ◌++◌}
use go_component.Cleanup.{CleanupFunc, push, pop}
use go_component.Lifecycle.{cleaning, recording, closed, L, Forest, node, fork, cleanup}
use go_component.Lifecycle.Step.{
  forks, registers, cleaned, records, closes, here, Reach, start, then,
}
use go_component.Lifecycle.Guards.{forked}

fork_in_cleaning :
    (name : String) (l : L) (ts : Forest)
    → l.phase ≡ cleaning
    → l.stopping ≡ false
    → fork name l ts ≡ some (record l { wg = l.wg + 1 }, forked name l ts)
unfolding fork
fork_in_cleaning name l ts p n = rw n (rw p refl)

cleanup_in_recording :
    (f : CleanupFunc) (l : L)
    → l.phase ≡ recording
    → cleanup f l ≡ some (record l { cleanups = push l.cleanups f })
unfolding cleanup
cleanup_in_recording f l p = rw p

-- A lifecycle that runs its cleanup functions, has none left and has not been told to stop can come
-- to a state in which its done channel is closed while a child that was forked since has not
-- started, and a cleanup function that was registered after runCleanup returned stands on the stack,
-- uncalled.
pub late_calls-escape :
    (name : String) (f : CleanupFunc) (l : L) (ts s : Forest) {stopper : Bool}
    → l.phase ≡ cleaning
    → l.stopping ≡ false
    → l.cleanups ≡ []
    → Reach false (node l ts s) stopper (
        node
          (record l { wg = l.wg + 1; cleanups = l.cleanups ++ f ∷ []; phase = closed })
          (forked name l ts)
          s)
unfolding pop push
late_calls-escape name f l ts s p n e =
    let k = record l { wg = l.wg + 1; phase = recording } in
    then
      (then
        (then
          (then (then start (here (forks name (fork_in_cleaning name l ts p n) (λ t. cc))))
            (here (cleaned p (rw e))))
          (here (registers f (cleanup_in_recording f k refl) (λ t. cc))))
        (here (records refl)))
      (here (closes refl))
