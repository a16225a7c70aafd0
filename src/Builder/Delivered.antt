-- ===== src/Builder/Delivered.antt =====
-- From the calls of Builder.Claim to the footprint that UnmarshalFootprintJSON makes of the message.
use go_component.Prelude.{
  ℕ, String, Bool, true, not, ◌&&◌, ◌≡◌, refl, sym, ap, ◌∙◌, subst, Option, none, some, List, [],
  ◌∷◌, ◌++◌, same, Dict, read, write, arith, append_assoc, append-nil, read-write,
}
use go_component.Linker.{Descriptor}
use go_component.FileLoader.{
  Claim, ComponentMessage, Result, ok, by_name, claim_component, claim_all, footprint_json,
  unmarshal_options_json,
}
use go_component.FileLoader.Reordered.{Reorders, claim_all-Reorders}
use go_component.FileLoader.Grown.{claim_all-last, footprint_json-claim_all}
use go_component.Builder.{Builder, done, claim}
use go_component.Builder.Guarded.{claimed_component, Claimed, claim_of, written, claim-written}

abbrev pub is_free : {Value : Type 0} → String → List (Claimed Value) → Bool
is_free name [] = true
is_free name (c ∷ cs) = not (same name c.0.name) && is_free name cs

-- No two components have a name in common.
abbrev pub distinct_names : {Value : Type 0} → List (Claimed Value) → Bool
distinct_names [] = true
distinct_names (c ∷ cs) = is_free c.0.name cs && distinct_names cs

-- The loader knows each of the components by its name.
abbrev pub AllKnown : {Value : Type 0} → List Descriptor → List (Claimed Value) → Type 0
AllKnown descriptors [] = Unit
AllKnown descriptors (c ∷ cs) =
    (read (by_name [] descriptors) c.0.name ≡ some c.0) × AllKnown descriptors cs

abbrev pub claims_of :
    {Value : Type 0} → (identifier : String) → List (Claimed Value) → List (Claim Value)
claims_of identifier [] = []
claims_of identifier (c ∷ cs) = claim_of identifier c ∷ claims_of identifier cs

write-last :
    {V : Type 0} (entries : Dict V) (key : String) (v : V)
    → read entries key ≡ none
    → write entries key v ≡ entries ++ (key, v) ∷ []
write-last [] key v free = refl
write-last ((name, old) ∷ entries) key v free = ground (arith, write-last entries key v)

module _ {Value : Type 0} (type_of : Value → String) (marshal : Value → Option (List ℕ))
    (decode : String → List ℕ → Option Value)
    (round : (value : Value) (o : List ℕ)
      → marshal value ≡ some o
      → decode (type_of value) o ≡ some value) where
  -- Calls of Builder.Claim that succeed, one after the other.
  pub data ClaimsAll : List (Claimed Value) → Builder → Builder → Type 0 where
    nothing : {b : Builder} → ClaimsAll [] b b
    claims :
        {d : Descriptor} {options : Option Value} {cs : List (Claimed Value)} {b b' b'' : Builder}
        → claim type_of marshal d options b ≡ done b'
        → ClaimsAll cs b' b''
        → ClaimsAll ((d, options) ∷ cs) b b''

  -- None of the components is in the message yet.
  abbrev AllFree : List (Claimed Value) → Builder → Type 0
  AllFree [] b = Unit
  AllFree (c ∷ cs) b = (read b.msg.components c.0.name ≡ none) × AllFree cs b

  written-AllFree :
      (cs : List (Claimed Value)) (b : Builder) (d : Descriptor) (o : List ℕ)
      → is_free d.name cs ≡ true
      → AllFree cs b
      → AllFree cs (written b d o)
  written-AllFree [] b d o apart free = tt
  written-AllFree (c ∷ cs) b d o apart free =
      (rw read-write (ground arith), written-AllFree cs b d o (ground arith) free.1)

  -- What the loader makes of the components of the message.
  abbrev claimed_by : List Descriptor → Builder → Result (List (Claim Value))
  claimed_by descriptors b =
      claim_all (unmarshal_options_json decode) true b.msg.identifier (by_name [] descriptors)
        b.msg.components

  written-claims_of :
      (descriptors : List Descriptor) (b : Builder) (d : Descriptor) (options : Option Value)
      (o : List ℕ) {before : List (Claim Value)}
      → read (by_name [] descriptors) d.name ≡ some d
      → read b.msg.components d.name ≡ none
      → claim_component
          (unmarshal_options_json decode)
          true
          b.msg.identifier
          d.name
          d
          (claimed_component b.msg.identifier d o)
        ≡ ok (claim_of b.msg.identifier (d, options))
      → claimed_by descriptors b ≡ ok before
      → claimed_by descriptors (written b d o)
        ≡ ok (before ++ claim_of b.msg.identifier (d, options) ∷ [])
  written-claims_of descriptors b d options o known free made start =
      let req = claimed_component b.msg.identifier d o in
      ap (claim_all (unmarshal_options_json decode) true b.msg.identifier (by_name [] descriptors))
        (write-last b.msg.components d.name req free)
      ∙ claim_all-last (unmarshal_options_json decode) b.msg.identifier (by_name [] descriptors)
          b.msg.components d.name req (claim_of b.msg.identifier (d, options)) start known made

  -- What a claim leaves as it was.
  abbrev Keeps : Builder → Builder → Type 0
  Keeps b b' = b' ≡ record b { msg = record b.msg { components = b'.msg.components } }

  Keeps-trans : (b b' b'' : Builder) → Keeps b b' → Keeps b' b'' → Keeps b b''
  Keeps-trans b b' b'' first second =
      second
      ∙ ap (λ (x : Builder). record x { msg = record x.msg { components = b''.msg.components } })
          first

  ClaimsAll-claims_of :
      (descriptors : List Descriptor) {cs : List (Claimed Value)} {b b' : Builder}
      {before : List (Claim Value)}
      → ClaimsAll cs b b'
      → AllKnown descriptors cs
      → distinct_names cs ≡ true
      → AllFree cs b
      → claimed_by descriptors b ≡ ok before
      → (claimed_by descriptors b' ≡ ok (before ++ claims_of b.msg.identifier cs)) × Keeps b b'
  ClaimsAll-claims_of descriptors nothing known apart free start = (rw append-nil start, refl)
  ClaimsAll-claims_of descriptors {before = before}
        (claims {d} {options} {cs} {b} {b'} {b''} claimed more) known apart free start =
      let (o, same_builder, made) =
        claim-written type_of marshal decode round d options b b' claimed in
      let (loads, kept) =
        ClaimsAll-claims_of descriptors more known.1 (ground arith)
          (subst (AllFree cs) (sym same_builder) (written-AllFree cs b d o (ground arith) free.1))
          (ap (claimed_by descriptors) same_builder
            ∙ written-claims_of descriptors b d options o known.0 free.0 made start) in
      (
        loads
            ∙ ap
                (λ (x : Builder). ok (
                  (before ++ claim_of b.msg.identifier (d, options) ∷ [])
                  ++ claims_of x.msg.identifier cs))
                same_builder
            ∙ ap ok (
                append_assoc before (claim_of b.msg.identifier (d, options) ∷ [])
                  (claims_of b.msg.identifier cs)),
        Keeps-trans b b' b'' (subst (Keeps b) (sym same_builder) refl) kept,
      )

  empty-AllFree : (cs : List (Claimed Value)) (b : Builder) → b.msg.components ≡ [] → AllFree cs b
  empty-AllFree [] b empty = tt
  empty-AllFree (c ∷ cs) b empty =
      (ap (λ entries. read entries c.0.name) empty, empty-AllFree cs b empty)

  -- If options decode to what was marshalled, then calls of Builder.Claim that succeed, for components
  -- with different names that the loader knows, on a builder without components, make a footprint that
  -- UnmarshalFootprintJSON accepts, with a valid configuration, in whatever order it visits the
  -- components of the message. The footprint has what the builder had been given before, and its
  -- allocations are, in some order, one claim for each call: the component with its options, and its
  -- aspects and interests mapped to the topics that Builder.Claim makes of the identifier.
  pub ClaimsAll-footprint_json :
      (descriptors : List Descriptor) {cs : List (Claimed Value)} {b b' : Builder}
      {visited : Dict (ComponentMessage (List ℕ))}
      → ClaimsAll cs b b'
      → AllKnown descriptors cs
      → distinct_names cs ≡ true
      → b.msg.components ≡ []
      → Reorders b'.msg.components visited
      → (allocations : List (Claim Value)) × Reorders (claims_of b.msg.identifier cs) allocations
        × (footprint_json decode true descriptors (record b'.msg { components = visited })
            ≡ ok (record {
              name = b.msg.name;
              metadata = b.msg.metadata;
              identifier = b.msg.identifier;
              revision = b.msg.revision;
              locations = b.msg.locations;
              solution = b.msg.solution;
              allocations = allocations;
            }))
  unfolding claim_all
  ClaimsAll-footprint_json descriptors {cs} {b} {b'} {visited} all known apart empty order =
      let start : claimed_by descriptors b ≡ ok [] =
        ap
          (claim_all (unmarshal_options_json decode) true b.msg.identifier (by_name [] descriptors))
          empty in
      let (loads, kept) =
        ClaimsAll-claims_of descriptors all known apart (empty-AllFree cs b empty) start in
      let (allocations, made, permuted) =
        claim_all-Reorders (unmarshal_options_json decode) b'.msg.identifier
          (by_name [] descriptors) order loads in
      (
        allocations,
        permuted,
        footprint_json-claim_all decode descriptors (record b'.msg { components = visited }) made
            ∙ ap
                (λ (x : Builder). ok (record {
                  name = x.msg.name;
                  metadata = x.msg.metadata;
                  identifier = x.msg.identifier;
                  revision = x.msg.revision;
                  locations = x.msg.locations;
                  solution = x.msg.solution;
                  allocations = allocations;
                }))
                kept,
      )
