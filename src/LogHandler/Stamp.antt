-- ===== src/LogHandler/Stamp.antt =====
-- When a record is stamped, by a handler however it was refined and wrapped.
use go_component.Prelude.{
  String, ◌≡◌, refl, ap, sym, ◌∙◌, Bool, true, false, ◌||◌, none, some, List, [], ◌∷◌, arith, same,
  Bool-cases, inl, inr, if◌then◌else◌,
}
use go_component.LogHandler.{
  Attr, Record, Ctx, Handler, identity, carries_loop, carries_identity, contains_identity,
  LogHandler, wrap, stamp, handle, with_attrs, with_group, as_handler,
}

-- Calls of WithAttrs and WithGroup.
pub data Refinement : Type 0 where
  attrs : List Attr → Refinement
  group : String → Refinement

-- Some call of WithAttrs was given an identity.
abbrev pub has_identity : List Refinement → Bool
has_identity [] = false
has_identity (attrs l ∷ rs) = contains_identity l || has_identity rs
has_identity (group n ∷ rs) = has_identity rs

carries_loop-contains : (l : List Attr) → carries_loop false l ≡ contains_identity l
unfolding carries_loop contains_identity
carries_loop-contains [] = refl
carries_loop-contains (a ∷ l) = ground (arith, carries_loop-contains l)

pub carries-contains : (r : Record) → carries_identity r ≡ contains_identity r.attrs
unfolding carries_identity
carries-contains r = carries_loop-contains r.attrs

or_assoc : (a b c : Bool) → (a || b) || c ≡ a || (b || c)
or_assoc a b c = ground arith

-- The record that reaches the wrapped handler.
abbrev pub stamped : Bool → Ctx → Record → Record
stamped seen none r = r
stamped seen (some l) r =
    if seen || contains_identity r.attrs then r else record r { attrs = identity l ∷ r.attrs }

stamped-stamped :
    (ctx : Ctx) (r : Record) → stamped false ctx (stamped false ctx r) ≡ stamped false ctx r
unfolding contains_identity
stamped-stamped none r = refl
stamped-stamped (some l) r = elim (Bool-cases (contains_identity r.attrs)) [
  | inl e ↦ rw e (rw e)
  | inr e ↦ rw e
]

module _ {Out : Type 0} (h : Handler Out) where
  -- What the wrapped handler is refined to: slog has a group with an empty name change nothing.
  abbrev pub refine_next : h.Self → List Refinement → h.Self
  refine_next n [] = n
  refine_next n (attrs l ∷ rs) = refine_next (h.with_attrs n l) rs
  refine_next n (group g ∷ rs) = refine_next (if same g "" then n else h.with_group n g) rs

  abbrev pub refine : LogHandler h → List Refinement → LogHandler h
  refine x [] = x
  refine x (attrs l ∷ rs) = refine (with_attrs h x l) rs
  refine x (group g ∷ rs) = refine (with_group h x g) rs

  refine-fields :
      (n : h.Self) (b : Bool) (rs : List Refinement)
      → refine (record { next = n; with_identity = b }) rs
        ≡ record { next = refine_next n rs; with_identity = b || has_identity rs }
  unfolding with_attrs with_group
  refine-fields n b [] = ground arith
  refine-fields n b (attrs l ∷ rs) =
      rw (refine-fields (h.with_attrs n l) (b || contains_identity l) rs) (
        ap (λ c. record { next = refine_next (h.with_attrs n l) rs; with_identity = c })
          (or_assoc b (contains_identity l) (has_identity rs)))
  refine-fields n b (group g ∷ rs) = elim (Bool-cases (same g "")) [
    | inl e ↦ rw e (refine-fields n b rs)
    | inr e ↦ rw e (refine-fields (h.with_group n g) b rs)
  ]

  stamped-handle :
      (n : h.Self) (b : Bool) (ctx : Ctx) (r : Record)
      → handle h (record { next = n; with_identity = b }) ctx r ≡ h.handle n ctx (stamped b ctx r)
  unfolding handle stamp
  stamped-handle n b none r = refl
  stamped-handle n b (some l) r = rw carries-contains (by_test (b || contains_identity r.attrs))
    where
      by_test :
          (t : Bool)
          → (if t
              then h.handle n (some l) r
              else h.handle n (some l) (record r { attrs = identity l ∷ r.attrs }))
            ≡ h.handle n (some l) (if t then r else record r { attrs = identity l ∷ r.attrs })
      by_test true = refl
      by_test false = refl

  -- A wrapped handler, refined by any calls of WithAttrs and WithGroup, hands to the next handler,
  -- refined alike, the record unchanged if the context carries no lifecycle, or if an identity was
  -- given to one of the calls of WithAttrs or is among the record's attributes; else the record with the identity of
  -- the lifecycle put before its attributes.
  pub handle-refine :
      (n : h.Self) (rs : List Refinement) (ctx : Ctx) (r : Record)
      → handle h (refine (wrap h n) rs) ctx r
        ≡ h.handle (refine_next n rs) ctx (stamped (has_identity rs) ctx r)
  unfolding wrap
  handle-refine n rs ctx r =
      rw (refine-fields n false rs) (stamped-handle (refine_next n rs) (has_identity rs) ctx r)

-- Wrapping a handler twice handles every record as wrapping it once does.
pub handle-nested :
    {Out : Type 0} (h : Handler Out) (n : h.Self) (ctx : Ctx) (r : Record)
    → handle (as_handler h) (wrap (as_handler h) (wrap h n)) ctx r ≡ handle h (wrap h n) ctx r
unfolding wrap
handle-nested h n ctx r =
    let inner : LogHandler h = record { next = n; with_identity = false } in
    stamped-handle (as_handler h) inner false ctx r
    ∙ stamped-handle h n false ctx (stamped false ctx r)
    ∙ ap (h.handle n ctx) (stamped-stamped ctx r)
    ∙ sym (stamped-handle h n false ctx r)
