-- ===== src/FileLoader/Reordered.antt =====
-- The loop of UnmarshalFootprintJSON over the components of a message in another order: the range over a
-- Go map visits its entries in any order.
use go_component.Prelude.{
  ℕ, String, ◌≡◌, refl, sym, ap, subst, ◌∙◌, Option, none, some, List, [], ◌∷◌, Dict, read, arith,
  true,
}
use go_component.Linker.{Descriptor}
use go_component.FileLoader.{
  Claim, ComponentMessage, Result, ok, failed, claim_component, claim_all, add_known, add_claim,
}

-- The second list has the elements of the first, in some order.
pub data Reorders {ℓ} {A : Type ℓ} : List A → List A → Type ℓ where
  nil : Reorders [] []
  cons : {l m : List A} (a : A) → Reorders l m → Reorders (a ∷ l) (a ∷ m)
  swap : {l : List A} (a b : A) → Reorders (a ∷ b ∷ l) (b ∷ a ∷ l)
  trans : {k l m : List A} → Reorders k l → Reorders l m → Reorders k m

pub Reorders-refl {ℓ} : {A : Type ℓ} (l : List A) → Reorders l l
Reorders-refl [] = nil
Reorders-refl (a ∷ l) = cons a (Reorders-refl l)

abbrev prepend : {A : Type 0} → Option A → List A → List A
prepend none l = l
prepend (some a) l = a ∷ l

prepend-Reorders :
    {A : Type 0} (o : Option A) {l m : List A} → Reorders l m → Reorders (prepend o l) (prepend o m)
prepend-Reorders none p = p
prepend-Reorders (some a) p = cons a p

prepend-swap :
    {A : Type 0} (o p : Option A) (l : List A)
    → Reorders (prepend o (prepend p l)) (prepend p (prepend o l))
prepend-swap none p l = Reorders-refl (prepend p l)
prepend-swap (some a) none l = Reorders-refl (a ∷ l)
prepend-swap (some a) (some b) l = swap a b

module _ {Value : Type 0} (options : Option String → List ℕ → Option (Option Value))
    (identifier : String) where
  -- What a component adds to the claims, whatever the others come to.
  abbrev Adds :
      (Result (List (Claim Value)) → Result (List (Claim Value)))
      → Result (List (Claim Value))
      → List (Claim Value)
      → Type 0
  Adds add rest cs =
      (own : Option (Claim Value)) × (ds : List (Claim Value)) × (rest ≡ ok ds)
      × (cs ≡ prepend own ds)
      × ((others : List (Claim Value)) → add (ok others) ≡ ok (prepend own others))

  add_claim-Adds :
      (made : Result (Claim Value)) (rest : Result (List (Claim Value))) {cs : List (Claim Value)}
      → add_claim options true identifier made rest ≡ ok cs
      → Adds (add_claim options true identifier made) rest cs
  unfolding add_claim
  add_claim-Adds (failed e) rest h = absurd (ground arith)
  add_claim-Adds (ok c) (failed e) h = absurd (ground arith)
  add_claim-Adds (ok c) (ok ds) h = (some c, ds, refl, ground arith, λ others. refl)

  add_known-Adds :
      (name : String) (req : ComponentMessage (List ℕ)) (o : Option Descriptor)
      (rest : Result (List (Claim Value))) {cs : List (Claim Value)}
      → add_known options true identifier name req o rest ≡ ok cs
      → Adds (add_known options true identifier name req o) rest cs
  unfolding add_known
  add_known-Adds name req none rest {cs} h = (none, cs, h, refl, λ others. refl)
  add_known-Adds name req (some d) rest h =
      add_claim-Adds (claim_component options true identifier name d req) rest h

  entry-Adds :
      (components : Dict Descriptor) (entry : String × ComponentMessage (List ℕ))
      (entries : Dict (ComponentMessage (List ℕ))) {cs : List (Claim Value)}
      → claim_all options true identifier components (entry ∷ entries) ≡ ok cs
      → Adds
          (add_known options true identifier entry.0 entry.1 (read components entry.0))
          (claim_all options true identifier components entries)
          cs
  unfolding claim_all
  entry-Adds components (name, req) entries h =
      add_known-Adds name req (read components name)
        (claim_all options true identifier components entries) h

  claim_all-entry :
      (components : Dict Descriptor) (entry : String × ComponentMessage (List ℕ))
      (entries : Dict (ComponentMessage (List ℕ))) {ds : List (Claim Value)}
      → claim_all options true identifier components entries ≡ ok ds
      → claim_all options true identifier components (entry ∷ entries)
        ≡ add_known options true identifier entry.0 entry.1 (read components entry.0) (ok ds)
  unfolding claim_all
  claim_all-entry components (name, req) entries h =
      ap (add_known options true identifier name req (read components name)) h

  pub claim_all-Reorders :
      (components : Dict Descriptor) {entries visited : Dict (ComponentMessage (List ℕ))}
      {cs : List (Claim Value)}
      → Reorders entries visited
      → claim_all options true identifier components entries ≡ ok cs
      → (ds : List (Claim Value)) × (claim_all options true identifier components visited ≡ ok ds)
        × Reorders cs ds
  claim_all-Reorders components {cs = cs} nil h = (cs, h, Reorders-refl cs)
  claim_all-Reorders components (cons {m = visited} a p) h =
      let (own, ds, rest, split, add) = entry-Adds components a _ h in
      let (others, made, q) = claim_all-Reorders components p rest in
      (
        prepend own others,
        claim_all-entry components a visited made ∙ add others,
        subst (λ l. Reorders l (prepend own others)) (sym split) (prepend-Reorders own q),
      )
  claim_all-Reorders components (swap {l = entries} a b) h =
      let (own, ds, rest, split, add) = entry-Adds components a (b ∷ entries) h in
      let (own', ds', rest', split', add') = entry-Adds components b entries rest in
      let first = claim_all-entry components a entries rest' ∙ add ds' in
      (
        prepend own' (prepend own ds'),
        claim_all-entry components b (a ∷ entries) first ∙ add' (prepend own ds'),
        subst (λ l. Reorders l (prepend own' (prepend own ds')))
            (sym (split ∙ ap (prepend own) split')) (prepend-swap own own' ds'),
      )
  claim_all-Reorders components (trans p q) h =
      let (ds, made, first) = claim_all-Reorders components p h in
      let (es, made', second) = claim_all-Reorders components q made in
      (es, made', trans first second)
