-- ===== src/Cleanup/Stack.antt =====
-- Push and Pop of funcStack.
use go_component.Prelude.{
  ◌≡◌, ◌⊎◌, inl, inr, refl, sym, ◌∙◌, none, some, List, [], ◌∷◌, ◌++◌, append_assoc, append-nil,
}
use go_component.Cleanup.{CleanupFunc, push, pop, push_all, cons_below}

pub pop-push : (q : List CleanupFunc) (f : CleanupFunc) → pop (q ++ f ∷ []) ≡ some (f, q)
unfolding pop
pop-push [] f = refl
pop-push (g ∷ q) f = rw (pop-push q f, cons_below)

pub push_all-append : (q fs : List CleanupFunc) → push_all q fs ≡ q ++ fs
unfolding push
push_all-append q [] = sym (append-nil q)
push_all-append q (f ∷ fs) = push_all-append (q ++ f ∷ []) fs ∙ append_assoc q (f ∷ []) fs

pub pop-cases :
    (q : List CleanupFunc)
    → ((pop q ≡ none) × (q ≡ []))
      ⊎ ((f : CleanupFunc) × (r : List CleanupFunc) × (pop q ≡ some (f, r)) × (q ≡ r ++ f ∷ []))
unfolding pop
pop-cases [] = inl (refl, refl)
pop-cases (g ∷ q) = elim (pop-cases q) [
  | inl e ↦ inr (g, [], rw (e.0, cons_below), rw (e.1))
  | inr w ↦ let (f, r, p, e) = w in inr (f, g ∷ r, rw (p, cons_below), rw e)
]

pub pop-eq-none : (q : List CleanupFunc) → pop q ≡ none → q ≡ []
pop-eq-none q e = elim (pop-cases q) [ inl h ↦ h.1 | inr w ↦ let (f, r, p, h) = w in cc ]
