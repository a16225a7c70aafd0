-- ===== src/Lifecycle/Drain.antt =====
-- Once the procedures have returned, the lifecycles can complete.
use go_component.Prelude.{
  ℕ, zero, suc, ◌-◌, String, ◌≡◌, ◌⊎◌, inl, inr, refl, sym, subst, ap, Bool, true, false, Option,
  List, [], ◌∷◌, ◌++◌, arith,
}
use go_component.Cleanup.{
  CleanupFunc, Ending, fn, returns, goexit, panics, registered, to_list, push_all,
}
use go_component.Cleanup.Stack.{pop-cases, push_all-append}
use go_component.Cleanup.Order.{of_list, IsQuiet, IsQuietFn, size}
use go_component.Cleanup.Appended.{IsQuiet-append, IsQuiet-split, size-append, of_list-to_list}
use go_component.Lifecycle.{
  Cause, Phase, starting, executing, waiting, cleaning, recording, recorded, closed, returned, L,
  Forest, leaf, node, is_done, run_root,
}
use go_component.Lifecycle.Step.{
  is_panic, Returns, Local, joins, cleans, cleaned, records, closes, child_returns, Step, here,
  below, beside, Reach,
}
use go_component.Lifecycle.Nodes.{AllNodes}
use go_component.Lifecycle.Joined.{live, live-Step, IsJoined, Reach-IsJoined}
use go_component.Lifecycle.Signals.{AllRoots}

-- The steps that the goroutine of a lifecycle takes by itself after its procedure has returned.
abbrev pub IsOwn :
    {orderly stopper : Bool} {l : L} {ts : Forest} {l' : L} {ts' : Forest}
    → Local orderly stopper l ts l' ts'
    → Type 0
IsOwn (joins e w) = Unit
IsOwn (cleans e p n) = Unit
IsOwn (cleaned e p) = Unit
IsOwn (records e) = Unit
IsOwn (closes e) = Unit
IsOwn (child_returns r) = Unit
IsOwn _ = ⊥

abbrev pub IsOwnStep : {orderly stopper : Bool} {t u : Forest} → Step orderly stopper t u → Type 0
IsOwnStep (here st) = IsOwn st
IsOwnStep (below st) = IsOwnStep st
IsOwnStep (beside st) = IsOwnStep st

-- Several such steps, while the stopper stays as it is.
pub data Steps (orderly stopper : Bool) (s : Forest) : Forest → Type 0 where
  stay : Steps orderly stopper s s
  then :
      {t u : Forest}
      → Steps orderly stopper s t
      → (st : Step orderly stopper t u) → IsOwnStep st
      → Steps orderly stopper s u

module _ {orderly stopper : Bool} where
  Steps-trans :
      {s t u : Forest}
      → Steps orderly stopper s t
      → Steps orderly stopper t u
      → Steps orderly stopper s u
  Steps-trans r stay = r
  Steps-trans r (then q st o) = then (Steps-trans r q) st o

  Steps-beside :
      (l : L) (ts : Forest) {s s' : Forest}
      → Steps orderly stopper s s'
      → Steps orderly stopper (node l ts s) (node l ts s')
  Steps-beside l ts stay = stay
  Steps-beside l ts (then r st o) = then (Steps-beside l ts r) (beside st) o

  one :
      {l : L} {ts s : Forest} {l' : L} {ts' : Forest} (st : Local orderly stopper l ts l' ts')
      → IsOwn st
      → Steps orderly stopper (node l ts s) (node l' ts' s)
  one st o = then stay (here st) o

Steps-under :
    {orderly stopper : Bool} (l : L) (s : Forest) {ts ts' : Forest}
    → Steps orderly l.stopping ts ts'
    → Steps orderly stopper (node l ts s) (node l ts' s)
Steps-under l s stay = stay
Steps-under l s (then r st o) = then (Steps-under l s r) (below st) o

live-Steps : {orderly stopper : Bool} {t u : Forest} → Steps orderly stopper t u → live u ≡ live t
live-Steps stay = refl
live-Steps (then r st o) = omega (arith, live-Step st, live-Steps r)

abbrev pub IsDone : L → Type 0
IsDone l = is_done l.phase ≡ true

-- The procedure has returned.
abbrev pub is_idle : Phase → Bool
is_idle starting = false
is_idle executing = false
is_idle _ = true

abbrev pub IsIdle : L → Forest → Type 0
IsIdle l ts = (is_idle l.phase ≡ true) × IsQuiet (of_list l.cleanups)

-- What a round of runCleanup leaves of a stack on which nothing panics.
popped :
    (q r : List CleanupFunc) (f : CleanupFunc)
    → q ≡ r ++ f ∷ []
    → IsQuiet (of_list q)
    → (is_panic f ≡ false)
      × IsQuiet (of_list (push_all r (registered f)))
      × (size (of_list q) ≡ suc (size (of_list (push_all r (registered f)))))
popped q r (fn i g e) split quiet =
    let (rest, own) =
      IsQuiet-split r (fn i g e ∷ []) (subst (λ q. IsQuiet (of_list q)) split quiet) in
    rw (push_all-append r (to_list g)) (
      calm e own.0,
      IsQuiet-append r (to_list g) rest (rw (of_list-to_list g) (inner e own.0)),
      omega (
        arith,
        ap (λ q. size (of_list q)) split,
        size-append r (fn i g e ∷ []),
        size-append r (to_list g),
        ap size (of_list-to_list g),
      ),
    )
  where
    calm : (e : Ending) → IsQuietFn (fn i g e) → is_panic (fn i g e) ≡ false
    calm returns h = refl
    calm goexit h = refl
    calm (panics reason) h = absurd h

    inner : (e : Ending) → IsQuietFn (fn i g e) → IsQuiet g
    inner returns h = h
    inner goexit h = h
    inner (panics reason) h = absurd h

IsDone-cases : (p : Phase) → is_done p ≡ true → (p ≡ closed) ⊎ (p ≡ returned)
IsDone-cases p e = ground arith

return_one :
    (t : Forest) (n : ℕ)
    → AllRoots IsDone t
    → live t ≡ suc n
    → (u : Forest) × Returns t u × AllRoots IsDone u × (live u ≡ n)
return_one leaf n d e = absurd (omega arith)
return_one (node l ts s) n d e = elim (IsDone-cases l.phase d.0) [
  | inl p ↦ (node (record l { phase = returned }) ts s, Returns.here p, (refl, d.1), ground arith)
  | inr p ↦
      let (s', r, k, f) = return_one s n d.1 (ground arith) in
      (node l ts s', Returns.next r, (d.0, k), ground arith)
]

module _ {stopper : Bool} where
  return_all :
      (n : ℕ) (l : L) (ts s : Forest)
      → l.wg ≡ n
      → live ts ≡ n
      → AllRoots IsDone ts
      → (l' : L) × (ts' : Forest) × Steps true stopper (node l ts s) (node l' ts' s)
        × (l'.wg ≡ 0)
        × (l'.phase ≡ l.phase)
        × (l'.cleanups ≡ l.cleanups)
  return_all zero l ts s w e d = (l, ts, stay, w, refl, refl)
  return_all (suc n) l ts s w e d =
      let (us, r, k, f) = return_one ts n d e in
      let (l', ts', st, z, p, c) =
        return_all n (record l { wg = l.wg - 1 }) us s (omega arith) f k in
      (l', ts', Steps-trans (one (child_returns r) tt) st, z, p, c)

  close :
      (l : L) (ts s : Forest)
      → l.phase ≡ recorded
      → (l' : L) × Steps true stopper (node l ts s) (node l' ts s) × IsDone l'
  close l ts s p = (record l { phase = closed }, one (closes p) tt, refl)

  log :
      (l : L) (ts s : Forest)
      → l.phase ≡ recording
      → (l' : L) × Steps true stopper (node l ts s) (node l' ts s) × IsDone l'
  log l ts s p =
      let (l', st, d) = close (record l { phase = recorded }) ts s refl in
      (l', Steps-trans (one (records p) tt) st, d)

  -- `n` cleanup functions are left, those to be registered included.
  clean :
      (n : ℕ) (l : L) (ts s : Forest)
      → size (of_list l.cleanups) ≡ n
      → l.phase ≡ cleaning
      → IsQuiet (of_list l.cleanups)
      → (l' : L) × Steps true stopper (node l ts s) (node l' ts s) × IsDone l'
  clean zero l ts s e p quiet = elim (pop-cases l.cleanups) [
    | inl h ↦
        let (l', st, d) = log (record l { phase = recording }) ts s refl in
        (l', Steps-trans (one (cleaned p h.0) tt) st, d)
    | inr w ↦
        let (f, r, h, k) = w in
        let (calm, rest, less) = popped l.cleanups r f k quiet in absurd (omega arith)
  ]
  clean (suc n) l ts s e p quiet = elim (pop-cases l.cleanups) [
    | inl h ↦ absurd (omega (arith, ap (λ q. size (of_list q)) h.1))
    | inr w ↦
        let (f, r, h, k) = w in
        let (calm, rest, less) = popped l.cleanups r f k quiet in
        let (l', st, d) =
          clean n (record l { cleanups = push_all r (registered f) }) ts s (omega arith) p rest in
        (l', Steps-trans (one (cleans p h calm) tt) st, d)
  ]

  finish :
      (p : Phase) (l : L) (ts s : Forest)
      → l.phase ≡ p
      → is_idle p ≡ true
      → IsQuiet (of_list l.cleanups)
      → l.wg ≡ 0
      → (l' : L) × Steps true stopper (node l ts s) (node l' ts s) × IsDone l'
  finish starting l ts s e i quiet w = cc
  finish executing l ts s e i quiet w = cc
  finish waiting l ts s e i quiet w =
      let l₁ : L = record l { phase = cleaning } in
      let (l', st, d) = clean (size (of_list l.cleanups)) l₁ ts s refl refl quiet in
      (l', Steps-trans (one (joins e w) tt) st, d)
  finish cleaning l ts s e i quiet w = clean (size (of_list l.cleanups)) l ts s refl e quiet
  finish recording l ts s e i quiet w = log l ts s e
  finish recorded l ts s e i quiet w = close l ts s e
  finish closed l ts s e i quiet w = (l, stay, ground arith)
  finish returned l ts s e i quiet w = (l, stay, ground arith)

drain :
    (stopper : Bool) (t : Forest)
    → AllNodes IsJoined t
    → AllNodes IsIdle t
    → (u : Forest) × Steps true stopper t u × AllRoots IsDone u
drain stopper leaf h i = (leaf, stay, tt)
drain stopper (node l ts s) h i =
    let (us, st, d) = drain l.stopping ts h.1 i.1 in
    let (s', st', d') = drain stopper s h.2 i.2 in
    let e : live us ≡ l.wg = omega (arith, live-Steps st, h.0.counted) in
    let (l₁, vs, st₁, w, p, c) = return_all l.wg l us s refl e d in
    let quiet = subst (λ q. IsQuiet (of_list q)) (sym c) i.0.1 in
    let (l₂, st₂, d₂) = finish l.phase l₁ vs s p i.0.0 quiet w in
    (
      node l₂ vs s',
      Steps-trans (Steps-under l s st) (Steps-trans st₁ (Steps-trans st₂ (Steps-beside l₂ vs st'))),
      (d₂, d'),
    )

-- Run, with no call of Fork on a lifecycle once its wg.Wait has returned and none of Cleanup once
-- its runCleanup has: from every state that it comes to in which the procedures of all lifecycles
-- have returned and no cleanup function on a stack, nor any that it registers, panics, steps that the
-- goroutines of the lifecycles take by themselves, with no further call of Stop, Terminate or Fatal,
-- lead to a state in which the done channel of the root is closed.
pub Reach-drain :
    (name : String) (ctx : Option Cause) (has_stopper : Bool) {stopper : Bool} {t : Forest}
    → Reach true (run_root name ctx has_stopper) stopper t
    → AllNodes IsIdle t
    → (u : Forest) × Steps true stopper t u × AllRoots IsDone u
Reach-drain name ctx has_stopper {stopper} {t} r =
    drain stopper t (Reach-IsJoined name ctx has_stopper r)
