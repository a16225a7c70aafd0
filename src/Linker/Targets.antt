-- ===== src/Linker/Targets.antt =====
-- Which targets the linkers of Linker.antt link.
use go_component.Prelude.{
  String, Bool, false, ◌≡◌, refl, none, List, [], ◌∷◌, ◌++◌, ◌||◌, same, if◌then◌else◌, Dict, read,
  write, read-write, arith,
}
use go_component.Linker.{
  Descriptor, opened, target_unknown, panicked, Linker, merge_targets, contains, mux_linker,
  kafka_linker, open_interest, protect_linker,
}

pub contains-append :
    (k l : List String) (target : String)
    → contains (k ++ l) target ≡ (contains k target || contains l target)
unfolding contains
contains-append [] l target = refl
contains-append (t ∷ k) l target = ground (arith, contains-append k l target)

-- Whether one of the lists contains the target.
abbrev pub any_contains : List (List String) → String → Bool
any_contains [] target = false
any_contains (t ∷ ts) target = contains t target || any_contains ts target

contains-merge_targets :
    (ts : List (List String)) (target : String)
    → contains (merge_targets ts) target ≡ any_contains ts target
unfolding merge_targets contains
contains-merge_targets [] target = refl
contains-merge_targets (t ∷ ts) target =
    cc (contains-append t (merge_targets ts) target, contains-merge_targets ts target)

module _ {Opened : Type 0} where
  -- The linker that a component gets, whose interests are lists put together by MergeTargets, hands
  -- the interests of those lists to the linker that it wraps, and panics at every other; it does
  -- the same for the aspects of the descriptor.
  pub protect_linker-merge_targets :
      (base : Linker Opened) (d : Descriptor) (ts : List (List String)) (target : String)
      → d.interests ≡ merge_targets ts
      → ((protect_linker base d).link_interest target
          ≡ (if any_contains ts target then base.link_interest target else panicked))
        × ((protect_linker base d).link_aspect target
            ≡ (if contains d.aspects target then base.link_aspect target else panicked))
  unfolding protect_linker
  protect_linker-merge_targets base d ts target merged =
      (rw (merged, contains-merge_targets ts target) refl, refl)

  -- After an interest is mapped to a topic, the Kafka linker links it to a subscription of that
  -- topic for its consumer group. It links every other interest, and all aspects, as before.
  pub kafka_linker-write :
      (open_topic : String → Opened) (open_subscription : String → String → Opened)
      → (group : String) (aspects interests : Dict String) (interest topic target : String)
      → let before = kafka_linker open_topic open_subscription group aspects interests in
        let after =
          kafka_linker open_topic open_subscription group aspects
            (write interests interest topic) in
        (after.link_interest target ≡ (
          if same interest target
          then opened (open_interest open_subscription group topic)
          else before.link_interest target))
        × (after.link_aspect target ≡ before.link_aspect target)
  unfolding kafka_linker
  kafka_linker-write open_topic open_subscription group aspects interests interest topic target =
      (rw read-write (ground arith), refl)

  -- The URLMux linker links no interest that is not an aspect, even right after it was mapped to a
  -- topic as an interest.
  pub mux_linker-write :
      (open_topic open_subscription : String → Opened)
      → (aspects interests : Dict String) (interest topic : String) → read aspects interest ≡ none
      → (mux_linker open_topic open_subscription aspects
            (write interests interest topic)).link_interest
          interest
        ≡ target_unknown
  unfolding mux_linker
  mux_linker-write open_topic open_subscription aspects interests interest topic unmapped =
      rw unmapped refl
