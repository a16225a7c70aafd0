-- ===== src/Builder/Guarded.antt =====
-- What a claim of the builder becomes when its footprint is loaded, and what a broadcast forbids.
use go_component.Prelude.{
  join, ℕ, String, true, false, ◌≡◌, refl, sym, ap, ◌∙◌, subst, Option, none, some, List, [], ◌∷◌,
  if◌then◌else◌, Dict, read, write, read-write, arith, eq_iff,
}
use Prim.Native.String.{◌++◌ as concat}
use go_component.Linker.{Descriptor, contains}
use go_component.FileLoader.{
  Claim, ComponentMessage, ok, claim_component, is_null, unmarshal_options_json,
}
use go_component.Targets.{validate_targets}
use go_component.Targets.Agree.{has, validate_targets-accepts}
use go_component.FileLoader.Loaded.{claim_component-ok}
use go_component.Builder.{
  Builder, done, guard, compose_topic, add_topics, null_text, options_type_of, marshal_options,
  same_type, with_component, claim,
}

pub read-add_topics :
    (identifier : String) (targets : List String) (topics : Dict String) (target : String)
    → read (add_topics identifier targets topics) target ≡ (
        if contains targets target
        then some (concat identifier (concat "." target))
        else read topics target)
unfolding add_topics contains compose_topic join
read-add_topics identifier [] topics target = refl
read-add_topics identifier (t ∷ targets) topics target = ground (
  arith,
  read-add_topics identifier targets (write topics t (compose_topic (identifier ∷ t ∷ []))) target,
  read-write topics t target (compose_topic (identifier ∷ t ∷ [])),
  eq_iff t target,
)

has-add_topics :
    (identifier : String) (targets : List String) (target : String)
    → has (add_topics identifier targets []) target ≡ contains targets target
has-add_topics identifier targets target =
    ground (arith, read-add_topics identifier targets [] target)

-- The component that Builder.Claim writes.
pub claimed_component : (identifier : String) → Descriptor → List ℕ → ComponentMessage (List ℕ)
claimed_component identifier d o = record {
  options = o;
  aspects = add_topics identifier d.aspects [];
  interests = add_topics identifier d.interests [];
}

validate_targets-claimed_component :
    (identifier : String) (d : Descriptor)
    → validate_targets d (add_topics identifier d.aspects []) (add_topics identifier d.interests [])
      ≡ []
validate_targets-claimed_component identifier d =
    validate_targets-accepts d _ _ (has-add_topics identifier d.aspects)
      (has-add_topics identifier d.interests)

-- The builder after a claim.
abbrev pub written : Builder → Descriptor → List ℕ → Builder
written b d o = record b {
  msg = record b.msg {
    components = write b.msg.components d.name (claimed_component b.msg.identifier d o);
  };
}

done_injective : (b b' : Builder) → done b ≡ done b' → b ≡ b'
done_injective b b' same_done = ground arith

read_written :
    {V : Type 0} (entries : Dict V) (key : String) (v : V) → read (write entries key v) key ≡ some v
read_written entries key v = rw read-write (ground (arith, eq_iff key key))

-- What was claimed of the builder: a component with its options.
abbrev pub Claimed : Type 0 → Type 0
Claimed Value = Descriptor × Option Value

-- The claim of the loader for what was claimed of the builder.
abbrev pub claim_of : {Value : Type 0} → (identifier : String) → Claimed Value → Claim Value
claim_of identifier (d, options) = record {
  component = d;
  options = options;
  binding = record {
    group = concat identifier (concat "/" d.name);
    aspects = add_topics identifier d.aspects [];
    interests = add_topics identifier d.interests [];
  };
}

module _ {Value : Type 0} (type_of : Value → String) (marshal : Value → Option (List ℕ)) where
  claim-guarded :
      (d : Descriptor) (options : Option Value) (b b' : Builder)
      → claim type_of marshal d options b ≡ done b'
      → (b.broadcast ≡ false)
        × (same_type (options_type_of type_of marshal options) d.options_type ≡ true)
        × (with_component type_of marshal b d (marshal_options type_of marshal options) ≡ done b')
  unfolding claim guard
  claim-guarded d options b b' claimed = ground arith

  with_component-done :
      (d : Descriptor) (m : Option (List ℕ)) (b b' : Builder)
      → with_component type_of marshal b d m ≡ done b'
      → (o : List ℕ) × (m ≡ some o)
        × (b'.msg.identifier ≡ b.msg.identifier)
        × (read b'.msg.components d.name ≡ some (claimed_component b.msg.identifier d o))
  unfolding with_component claimed_component
  with_component-done d none b b' claimed = ground arith
  with_component-done d (some o) b b' claimed =
      let made = done_injective _ b' claimed in
      (
        o,
        refl,
        sym (ap (λ (x : Builder). x.msg.identifier) made),
        ap (λ (x : Builder). read x.msg.components d.name) (sym made)
            ∙ read_written b.msg.components d.name (claimed_component b.msg.identifier d o),
      )

  with_component-written :
      (d : Descriptor) (m : Option (List ℕ)) (b b' : Builder)
      → with_component type_of marshal b d m ≡ done b'
      → (o : List ℕ) × (m ≡ some o) × (b' ≡ written b d o)
  unfolding with_component claimed_component
  with_component-written d none b b' claimed = ground arith
  with_component-written d (some o) b b' claimed = (o, refl, sym (done_injective _ b' claimed))

  -- What Builder.Claim leaves in the message.
  pub claim-read_component :
      (d : Descriptor) (options : Option Value) (b b' : Builder)
      → claim type_of marshal d options b ≡ done b'
      → (o : List ℕ) × (b'.msg.identifier ≡ b.msg.identifier)
        × (read b'.msg.components d.name
            ≡ some (record {
              options = o;
              aspects = add_topics b.msg.identifier d.aspects [];
              interests = add_topics b.msg.identifier d.interests [];
            }))
  unfolding claimed_component
  claim-read_component d options b b' claimed =
      let (fresh, typed, made) = claim-guarded d options b b' claimed in
      let (o, marshalled, same_id, there) = with_component-done d _ b b' made in (o, same_id, there)

  module _ (decode : String → List ℕ → Option Value)
      (round : (value : Value) (o : List ℕ)
        → marshal value ≡ some o
        → decode (type_of value) o ≡ some value) where
    unmarshal_options_json-marshal_options :
        (options : Option Value) (rt : Option String) (o : List ℕ)
        → same_type (options_type_of type_of marshal options) rt ≡ true
        → marshal_options type_of marshal options ≡ some o
        → unmarshal_options_json decode rt o ≡ some options
    unfolding unmarshal_options_json is_null
    unmarshal_options_json-marshal_options none none o typed marshalled =
        let text : null_text ≡ o = ground arith in
        subst (λ t. unmarshal_options_json decode none t ≡ some none) text refl
    unmarshal_options_json-marshal_options none (some rt) o typed marshalled = ground arith
    unmarshal_options_json-marshal_options (some value) none o typed marshalled = ground arith
    unmarshal_options_json-marshal_options (some value) (some rt) o typed marshalled =
        ground (arith, round value o marshalled, eq_iff (type_of value) rt)

    -- If options decode to what was marshalled, then after Builder.Claim the footprint has a
    -- component of the descriptor's name that UnmarshalFootprintJSON, with a valid configuration,
    -- makes a claim of the same descriptor and options. Each aspect and interest of the descriptor
    -- is mapped to the identifier and its name, joined by a dot, and no other name is mapped.
    pub claim-claim_component :
        (d : Descriptor) (options : Option Value) (b b' : Builder)
        → claim type_of marshal d options b ≡ done b'
        → (req : ComponentMessage (List ℕ)) × (read b'.msg.components d.name ≡ some req)
          × (claim_component (unmarshal_options_json decode) true b'.msg.identifier d.name d req
              ≡ ok (record {
                component = d;
                options = options;
                binding = record {
                  group = concat b'.msg.identifier (concat "/" d.name);
                  aspects = req.aspects;
                  interests = req.interests;
                };
              }))
          × ((target : String)
              → (read req.aspects target ≡ (
                  if contains d.aspects target
                  then some (concat b'.msg.identifier (concat "." target))
                  else none))
                × (read req.interests target ≡ (
                    if contains d.interests target
                    then some (concat b'.msg.identifier (concat "." target))
                    else none)))
    unfolding claimed_component
    claim-claim_component d options b b' claimed =
        let (fresh, typed, made) = claim-guarded d options b b' claimed in
        let (o, marshalled, same_id, there) = with_component-done d _ b b' made in
        let id = b.msg.identifier in
        (
          claimed_component id d o,
          there,
          claim_component-ok (unmarshal_options_json decode) b'.msg.identifier d.name d
              (claimed_component id d o) options (validate_targets-claimed_component id d)
              (unmarshal_options_json-marshal_options options d.options_type o typed marshalled),
          λ target. (
            rw same_id (read-add_topics id d.aspects [] target),
            rw same_id (read-add_topics id d.interests [] target),
          ),
        )

    pub claim-written :
        (d : Descriptor) (options : Option Value) (b b' : Builder)
        → claim type_of marshal d options b ≡ done b'
        → (o : List ℕ) × (b' ≡ written b d o)
          × (claim_component
                (unmarshal_options_json decode)
                true
                b.msg.identifier
                d.name
                d
                (claimed_component b.msg.identifier d o)
              ≡ ok (claim_of b.msg.identifier (d, options)))
    unfolding claimed_component
    claim-written d options b b' claimed =
        let (fresh, typed, made) = claim-guarded d options b b' claimed in
        let (o, marshalled, same_builder) = with_component-written d _ b b' made in
        let id = b.msg.identifier in
        (
          o,
          same_builder,
          claim_component-ok (unmarshal_options_json decode) id d.name d (claimed_component id d o)
              options (validate_targets-claimed_component id d)
              (unmarshal_options_json-marshal_options options d.options_type o typed marshalled),
        )
