-- ===== src/Builder/Observed.antt =====
-- Builder.Observe of kafkaloader/builder.go, and the topic that a component of the footprint is
-- linked to.
use Prim.Native.String.{◌++◌ as concat}
use go_component.Prelude.{
  ℕ, String, Bool, true, false, [], ◌≡◌, refl, Option, none, some, List, if◌then◌else◌, read,
}
use go_component.Linker.{
  Descriptor, Linker, contains, opened, target_unknown, known, kafka_linker, open_aspect,
}
use go_component.FileLoader.{Claim, ComponentMessage}
use go_component.Builder.{Builder, done, claim}
use go_component.Builder.Guarded.{claim_of, claim-read_component, read-add_topics}

-- What Observe comes to: a panic, an error of the linker, or the subscription that it opens, by its
-- host, which is the group of the consumer, and its query.
pub data Observed : Type 0 where
  panicked linker_failed : Observed
  subscribes : (host query : String) → Observed

-- `valid` tells whether the Kafka configuration is.
subscribed : (valid : Bool) (host : String) → Option String → Observed
subscribed valid host none = panicked
subscribed valid host (some topic) =
    if valid then subscribes host (concat "topic=" topic) else linker_failed

observed : (valid : Bool) (host aspect : String) → Option (ComponentMessage (List ℕ)) → Observed
unfolding subscribed
observed valid host aspect none = panicked
observed valid host aspect (some c) = subscribed valid host (read c.aspects aspect)

-- Builder.Observe, of the descriptor of the name
unfoldable pub observe : (valid : Bool) → Builder → (name aspect : String) → Observed
unfolding observed
observe valid b name aspect =
    observed valid (concat b.msg.identifier (concat "/" (concat name "/monitor"))) aspect
      (read b.msg.components name)

-- The Kafka linker of a claim.
abbrev pub linker_of :
    {Value Opened : Type 0}
    → (open_topic : (host : String) → Opened) → (open_subscription : (host query : String) → Opened)
    → Claim Value
    → Linker Opened
unfolding kafka_linker
linker_of open_topic open_subscription c =
    kafka_linker open_topic open_subscription c.binding.group c.binding.aspects c.binding.interests

subscribed-if :
    (has : Bool) (host topic : String)
    → subscribed true host (if has then some topic else none)
      ≡ (if has then subscribes host (concat "topic=" topic) else panicked)
unfolding subscribed
subscribed-if true host topic = refl
subscribed-if false host topic = refl

known-if :
    {Opened : Type 0} (open_topic : String → Opened) (has : Bool) (topic : String)
    → known open_topic (if has then some topic else none)
      ≡ (if has then opened (open_topic topic) else target_unknown)
known-if open_topic true topic = refl
known-if open_topic false topic = refl

module _ {Value Opened : Type 0} (type_of : Value → String) (marshal : Value → Option (List ℕ))
    (open_topic : (host : String) → Opened)
    (open_subscription : (host query : String) → Opened) where
  -- After Builder.Claim, Observe of an aspect of the component subscribes, with a valid
  -- configuration, to the very topic that the Kafka linker of the component's claim opens for the
  -- aspect: the identifier and the aspect, joined by a dot. Of any other aspect Observe panics, and
  -- to the linker it is unknown.
  pub observe-claim :
      (d : Descriptor) (options : Option Value) (b b' : Builder) (aspect : String)
      → claim type_of marshal d options b ≡ done b'
      → (observe true b' d.name aspect ≡ (
          if contains d.aspects aspect
          then subscribes
              (concat b.msg.identifier (concat "/" (concat d.name "/monitor")))
              (concat "topic=" (concat b.msg.identifier (concat "." aspect)))
          else panicked))
        × ((linker_of open_topic open_subscription
                (claim_of b.msg.identifier (d, options))).link_aspect
              aspect
            ≡ (if contains d.aspects aspect
                then opened (open_topic (concat b.msg.identifier (concat "." aspect)))
                else target_unknown))
  unfolding observe observed kafka_linker open_aspect
  observe-claim d options b b' aspect claimed =
      let (o, same_id, there) = claim-read_component type_of marshal d options b b' claimed in
      let id = b.msg.identifier in
      (
        rw (there, same_id, read-add_topics id d.aspects [] aspect)
            (subscribed-if (contains d.aspects aspect)
              (concat id (concat "/" (concat d.name "/monitor"))) (concat id (concat "." aspect))),
        rw (read-add_topics id d.aspects [] aspect)
            (known-if open_topic (contains d.aspects aspect) (concat id (concat "." aspect))),
      )
