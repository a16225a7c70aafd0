-- ===== src/Linker.antt =====
-- The linkers: descriptor.go, loader/linkers.go, the linker of kafkalinker/kafkalinker.go and the
-- guard of loader.go. How topics and subscriptions are opened is a parameter, `Opened` what
-- opening one comes to, errors included.
pub mod Targets
mod Tests
use go_component.Prelude.{
  String, Bool, true, false, Option, none, some, List, [], ◌∷◌, ◌++◌, same, if◌then◌else◌, Dict,
  read,
}
use Prim.Native.String.{◌++◌ as concat}

-- The fields of component.Descriptor that the linkers and loaders read. A type of options is known
-- by its name, and `none` is the nil type.
pub record Descriptor : Type 0 where
  pub name : String
  pub options_type : Option String
  pub aspects : List String
  pub interests : List String

-- What a call of LinkAspect or LinkInterest comes to: what opening the target comes to,
-- ErrTargetUnknown, or a panic.
pub data Linked (Opened : Type 0) : Type 0 where
  opened : Opened → Linked Opened
  target_unknown : Linked Opened
  panicked : Linked Opened

-- component.Linker
pub record Linker (Opened : Type 0) : Type 0 where
  pub link_aspect : String → Linked Opened
  pub link_interest : String → Linked Opened

-- MergeTargets
unfoldable pub merge_targets : List (List String) → List String
merge_targets [] = []
merge_targets (t ∷ ts) = t ++ merge_targets ts

unfoldable pub contains : List String → String → Bool
contains [] target = false
contains (t ∷ ts) target = if same t target then true else contains ts target

module _ {Opened : Type 0} where
  abbrev pub known : (String → Opened) → Option String → Linked Opened
  known open_topic none = target_unknown
  known open_topic (some topic) = opened (open_topic topic)

  -- MuxLinker. LinkInterest looks its interest up among the aspects.
  unfoldable pub mux_linker :
      (open_topic open_subscription : String → Opened)
      → (aspects interests : Dict String) → Linker Opened
  mux_linker open_topic open_subscription aspects interests = record {
    link_aspect = λ aspect. known open_topic (read aspects aspect);
    link_interest = λ interest. known open_subscription (read aspects interest);
  }

  -- SharedMemLinker: the target is the name of the aspect or interest.
  unfoldable pub shared_mem_linker :
      (open_topic_url open_subscription_url : (host : String) → Opened) → Linker Opened
  shared_mem_linker open_topic_url open_subscription_url = record {
    link_aspect = λ aspect. opened (open_topic_url aspect);
    link_interest = λ interest. opened (open_subscription_url interest);
  }

  -- KafkaLinker.OpenAspect, and OpenInterest with its host and query
  unfoldable pub open_aspect : (open_topic_url : (host : String) → Opened) → String → Opened
  open_aspect open_topic_url topic = open_topic_url topic

  unfoldable pub open_interest :
      (open_subscription_url : (host query : String) → Opened)
      → (instance_id : String) → String
      → Opened
  open_interest open_subscription_url instance_id topic =
      open_subscription_url instance_id (concat "topic=" topic)

  -- KafkaLinker, as New makes it
  unfoldable pub kafka_linker :
      (open_topic_url : (host : String) → Opened)
      → (open_subscription_url : (host query : String) → Opened)
      → (instance_id : String) (aspects interests : Dict String) → Linker Opened
  unfolding open_aspect open_interest
  kafka_linker open_topic_url open_subscription_url instance_id aspects interests = record {
    link_aspect = λ aspect. known (open_aspect open_topic_url) (read aspects aspect);
    link_interest = λ interest.
        known (open_interest open_subscription_url instance_id) (read interests interest);
  }

  -- panicUnexpectedLinkage, as protectLinker makes it. Its two maps are sets of the descriptor's names.
  unfoldable pub protect_linker : Linker Opened → Descriptor → Linker Opened
  protect_linker base d = record {
    link_aspect = λ aspect. if contains d.aspects aspect then base.link_aspect aspect else panicked;
    link_interest =
        λ interest. if contains d.interests interest then base.link_interest interest else panicked;
  }
