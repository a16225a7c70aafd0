-- ===== src/Lifecycle/Guards.antt =====
-- When Fork, Cleanup and Fatal panic, and what they change where they do not.
use Prim.Native.String.{◌++◌}
use go_component.Prelude.{ℕ, ◌+◌, String, ◌≡◌, true, false, some, arith}
use go_component.Cleanup.{CleanupFunc, push}
use go_component.Lifecycle.{
  fatality, L, Forest, leaf, node, is_done, cancelled, cancel_all, new_lifecycle, fork, cleanup,
  fatal,
}

-- The child that Fork adds: its contexts derive from its parent's.
abbrev pub forked : String → L → Forest → Forest
forked name l ts = node (new_lifecycle (l.name ++ "/" ++ name) l.ctx true) leaf ts

pub fork-eq-some :
    (name : String) (l : L) (ts : Forest) {l' : L} {ts' : Forest}
    → fork name l ts ≡ some (l', ts')
    → (l.stopping ≡ false)
      × (is_done l.phase ≡ false)
      × (l' ≡ record l { wg = l.wg + 1 })
      × (ts' ≡ forked name l ts)
unfolding fork
fork-eq-some name l ts e = ground arith

pub cleanup-eq-some :
    (f : CleanupFunc) (l : L) {l' : L}
    → cleanup f l ≡ some l'
    → (is_done l.phase ≡ false) × (l' ≡ record l { cleanups = push l.cleanups f })
unfolding cleanup
cleanup-eq-some f l e = ground arith

pub fatal-eq-some :
    (err : ℕ) (l : L) (ts : Forest) {l' : L} {ts' : Forest}
    → fatal err l ts ≡ some (l', ts')
    → (is_done l.phase ≡ false)
      × (l' ≡ cancelled (fatality err) l)
      × (ts' ≡ cancel_all (fatality err) ts)
unfolding fatal
fatal-eq-some err l ts e = ground arith
