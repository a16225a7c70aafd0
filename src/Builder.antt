-- ===== src/Builder.antt =====
-- The builder of footprints: kafkaloader/builder.go. What json.Marshal makes of options other than
-- nil, and what sending a message comes to, are parameters; nil options are the text `null`.
pub mod Guarded
pub mod Delivered
pub mod Broadcast
pub mod Observed
mod Tests
use go_component.Prelude.{
  ℕ, String, Bool, true, false, Option, none, some, List, [], ◌∷◌, ◌++◌, same, if◌then◌else◌, Dict,
  write, join,
}
use go_component.Linker.{Descriptor}
use go_component.FileLoader.{FootprintMessage}

pub record Builder : Type 0 where
  pub msg : FootprintMessage (List ℕ)
  pub broadcast : Bool

-- What a method comes to: a panic, an error, or a result; with the builder then.
pub data Outcome : Type 0 where
  panicked : Outcome
  failed : Builder → Outcome
  done : Builder → Outcome

-- NewBuilder
unfoldable pub new_builder : (identifier : String) (revision : ℕ) → Builder
new_builder identifier revision = record {
  msg = record {
    name = "";
    metadata = "";
    solution = "";
    identifier = identifier;
    revision = revision;
    locations = [];
    components = [];
  };
  broadcast = false;
}

-- guard, then the rest of the method
unfoldable pub guard : Builder → Outcome → Outcome
guard b rest = if b.broadcast then panicked else rest

-- strings.Join(segments, ".")
unfoldable pub compose_topic : List String → String
compose_topic segments = join "." segments

-- for _, target := range targets { topics[target] = composeTopic(identifier, target) }
unfoldable pub add_topics :
    (identifier : String) (targets : List String) → Dict String → Dict String
add_topics identifier [] topics = topics
add_topics identifier (target ∷ targets) topics =
    add_topics identifier targets (write topics target (compose_topic (identifier ∷ target ∷ [])))

-- The bytes of `null`.
abbrev pub null_text : List ℕ
null_text = 110 ∷ 117 ∷ 108 ∷ 108 ∷ []

abbrev pub same_type : Option String → Option String → Bool
same_type none none = true
same_type (some s) (some t) = same s t
same_type _ _ = false

module _ {Value : Type 0} (type_of : Value → String) (marshal : Value → Option (List ℕ)) where
  -- reflect.TypeOf(options)
  abbrev pub options_type_of : Option Value → Option String
  options_type_of none = none
  options_type_of (some value) = some (type_of value)

  abbrev pub marshal_options : Option Value → Option (List ℕ)
  marshal_options none = some null_text
  marshal_options (some value) = marshal value

  with_component : Builder → Descriptor → Option (List ℕ) → Outcome
  with_component b d none = failed b
  with_component b d (some o) = done (record b {
    msg = record b.msg {
      components = write b.msg.components d.name (record {
        options = o;
        aspects = add_topics b.msg.identifier d.aspects [];
        interests = add_topics b.msg.identifier d.interests [];
      });
    };
  })

  -- Builder.Claim
  unfoldable pub claim : Descriptor → Option Value → Builder → Outcome
  unfolding with_component
  claim d options b = guard b (
      if same_type (options_type_of options) d.options_type
      then with_component b d (marshal_options options)
      else failed b)

-- Builder.Name, Builder.Metadata and Builder.Location
unfoldable pub set_name : String → Builder → Outcome
set_name name b = guard b (done (record b { msg = record b.msg { name = name } }))

unfoldable pub set_metadata : String → Builder → Outcome
set_metadata metadata b = guard b (done (record b { msg = record b.msg { metadata = metadata } }))

unfoldable pub add_locations : List String → Builder → Outcome
add_locations locations b =
    guard b (done (record b { msg = record b.msg { locations = b.msg.locations ++ locations } }))

-- Builder.Broadcast: `sent` tells whether the message is marshalled and sent without an error.
unfoldable pub send_broadcast : (sent : FootprintMessage (List ℕ) → Bool) → Builder → Outcome
send_broadcast sent b =
    let swapped = record b { broadcast = true } in
    if b.broadcast then panicked else if sent b.msg then done swapped else failed swapped
