-- ===== src/Builder/Broadcast.antt =====
-- What a broadcast of the builder forbids.
use go_component.Prelude.{
  ℕ, String, Bool, true, ◌≡◌, refl, Option, List, [], ◌∷◌, ◌++◌, Bool-cases, inl, inr,
}
use go_component.Linker.{Descriptor}
use go_component.FileLoader.{FootprintMessage}
use go_component.Builder.{
  Builder, Outcome, panicked, failed, done, guard, claim, set_name, set_metadata, add_locations,
  send_broadcast,
}

abbrev resume : (Builder → Outcome) → Outcome → Outcome
resume f panicked = panicked
resume f (failed b) = f b
resume f (done b) = f b

resume-panicked :
    (f : Builder → Outcome)
    → ((b : Builder) → f b ≡ panicked)
    → (o : Outcome) → resume f o ≡ panicked
resume-panicked f refuses panicked = refl
resume-panicked f refuses (failed b) = refuses b
resume-panicked f refuses (done b) = refuses b

module _ {Value : Type 0} (type_of : Value → String) (marshal : Value → Option (List ℕ))
    (sent : FootprintMessage (List ℕ) → Bool) where
  -- A call of a method of a builder.
  pub data Call : Type 0 where
    name_call metadata_call : String → Call
    location_call : List String → Call
    claim_call : Descriptor → Option Value → Call
    broadcast_call : Call

  unfoldable run_call : Call → Builder → Outcome
  run_call (name_call name) b = set_name name b
  run_call (metadata_call metadata) b = set_metadata metadata b
  run_call (location_call locations) b = add_locations locations b
  run_call (claim_call d options) b = claim type_of marshal d options b
  run_call broadcast_call b = send_broadcast sent b

  -- The calls of a program that goes on after an error, until one panics.
  unfoldable pub run_calls : List Call → Builder → Outcome
  unfolding run_call
  run_calls [] b = done b
  run_calls (c ∷ cs) b = resume (run_calls cs) (run_call c b)

  run_call-refused : (c : Call) (b : Builder) → b.broadcast ≡ true → run_call c b ≡ panicked
  unfolding run_call guard set_name set_metadata add_locations claim send_broadcast
  run_call-refused (name_call name) b swapped = rw swapped refl
  run_call-refused (metadata_call metadata) b swapped = rw swapped refl
  run_call-refused (location_call locations) b swapped = rw swapped refl
  run_call-refused (claim_call d options) b swapped = rw swapped refl
  run_call-refused broadcast_call b swapped = rw swapped refl

  broadcast-resume :
      (f : Builder → Outcome)
      → ((b : Builder) → b.broadcast ≡ true → f b ≡ panicked)
      → (b : Builder) → resume f (send_broadcast sent b) ≡ panicked
  unfolding send_broadcast
  broadcast-resume f refuses b = elim (Bool-cases b.broadcast) [
    | inl again ↦ rw again refl
    | inr fresh ↦ elim (Bool-cases (sent b.msg)) [
      | inl fine ↦ rw (fresh, fine) (refuses _ refl)
      | inr lost ↦ rw (fresh, lost) (refuses _ refl)
    ]
  ]

  -- After a call of Broadcast, whether it fails or not, every call of Name, Metadata, Location, Claim
  -- or Broadcast panics.
  pub run_calls-broadcast :
      (before after : List Call) (c : Call) (b : Builder)
      → run_calls (before ++ broadcast_call ∷ c ∷ after) b ≡ panicked
  unfolding run_calls run_call
  run_calls-broadcast [] after c b =
      broadcast-resume (λ b'. resume (run_calls after) (run_call c b'))
        (λ b' swapped. rw (run_call-refused c b' swapped) refl) b
  run_calls-broadcast (first ∷ before) after c b =
      resume-panicked _ (run_calls-broadcast before after c) (run_call first b)
