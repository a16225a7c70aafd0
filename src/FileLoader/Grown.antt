-- ===== src/FileLoader/Grown.antt =====
-- The loop of UnmarshalFootprintJSON over one more component.
use go_component.Prelude.{
  ℕ, String, ◌≡◌, refl, sym, ap, Option, none, some, List, [], ◌∷◌, ◌++◌, Dict, read, arith, true,
}
use go_component.Linker.{Descriptor}
use go_component.FileLoader.{
  Claim, ComponentMessage, Result, ok, failed, claim_component, claim_all, add_known, add_claim,
  FootprintMessage, footprint_json, with_allocations, by_name, unmarshal_options_json,
}

module _ {Value : Type 0} (options : Option String → List ℕ → Option (Option Value))
    (identifier : String) where
  -- Claims that come last stay last.
  add_claim-last :
      (made : Result (Claim Value)) (rest rest' : Result (List (Claim Value)))
      {cs : List (Claim Value)} (c : Claim Value)
      → add_claim options true identifier made rest ≡ ok cs
      → ((ds : List (Claim Value)) → rest ≡ ok ds → rest' ≡ ok (ds ++ c ∷ []))
      → add_claim options true identifier made rest' ≡ ok (cs ++ c ∷ [])
  unfolding add_claim
  add_claim-last (failed e) rest rest' c before goes = ground arith
  add_claim-last (ok a) (failed e) rest' c before goes = ground arith
  add_claim-last (ok a) (ok ds) rest' {cs} c before goes =
      let same_claims : a ∷ ds ≡ cs = ground arith in
      rw (goes ds refl) (ap (λ l. ok (l ++ c ∷ [])) same_claims)

  add_known-last :
      (name : String) (req : ComponentMessage (List ℕ)) (o : Option Descriptor)
      (rest rest' : Result (List (Claim Value))) {cs : List (Claim Value)} (c : Claim Value)
      → add_known options true identifier name req o rest ≡ ok cs
      → ((ds : List (Claim Value)) → rest ≡ ok ds → rest' ≡ ok (ds ++ c ∷ []))
      → add_known options true identifier name req o rest' ≡ ok (cs ++ c ∷ [])
  unfolding add_known
  add_known-last name req none rest rest' c before goes = goes _ before
  add_known-last name req (some d) rest rest' c before goes =
      add_claim-last (claim_component options true identifier name d req) rest rest' c before goes

  pub claim_all-last :
      (components : Dict Descriptor) (entries : Dict (ComponentMessage (List ℕ))) (name : String)
      (req : ComponentMessage (List ℕ)) {d : Descriptor} {cs : List (Claim Value)} (c : Claim Value)
      → claim_all options true identifier components entries ≡ ok cs
      → read components name ≡ some d
      → claim_component options true identifier name d req ≡ ok c
      → claim_all options true identifier components (entries ++ (name, req) ∷ [])
        ≡ ok (cs ++ c ∷ [])
  unfolding claim_all add_known add_claim
  claim_all-last components [] name req {cs = cs} c before known made =
      let nothing : [] ≡ cs = ground arith in rw (known, made, sym nothing) refl
  claim_all-last components ((n, r) ∷ entries) name req c before known made =
      add_known-last n r (read components n) (claim_all options true identifier components entries)
        (claim_all options true identifier components (entries ++ (name, req) ∷ [])) c before
        (λ ds e. claim_all-last components entries name req c e known made)

-- The footprint of a message whose components make claims.
pub footprint_json-claim_all :
    {Value : Type 0} (decode : String → List ℕ → Option Value) (descriptors : List Descriptor)
    (msg : FootprintMessage (List ℕ)) {cs : List (Claim Value)}
    → claim_all
        (unmarshal_options_json decode)
        true
        msg.identifier
        (by_name [] descriptors)
        msg.components
      ≡ ok cs
    → footprint_json decode true descriptors msg
      ≡ ok (record {
        name = msg.name;
        metadata = msg.metadata;
        identifier = msg.identifier;
        revision = msg.revision;
        locations = msg.locations;
        solution = msg.solution;
        allocations = cs;
      })
unfolding footprint_json with_allocations
footprint_json-claim_all decode descriptors msg made = rw made refl
