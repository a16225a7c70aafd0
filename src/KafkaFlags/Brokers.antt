-- ===== src/KafkaFlags/Brokers.antt =====
-- BrokersFlag of kafkalinker/kafkaflags.go, and the brokers and the configuration of the footprint
-- bus in kafkaloader/kafkaloader.go, with ConfigFlag.String and what diffConfig defines itself.
use mathlib.Core.Option.{map as map_option}
use go_component.Prelude.{
  Option, none, some, same, ◌↔◌, ap, eq_iff, false, String, Bool, true, ◌≡◌, refl, List, [], ◌∷◌,
  comma, free_of, join, split, join-split, split-join, split-cons, if◌then◌else◌,
}

-- BrokersFlag.Set and BrokersFlag.String
unfoldable pub set_brokers : String → List String
set_brokers s = split comma s

unfoldable pub brokers_string : List String → String
brokers_string brokers = join "," brokers

-- OpenControlTopic and OpenControlSubscription of kafkaloader/kafkaloader.go: the brokers of the
-- footprint bus.
unfoldable pub bus_brokers : (bus linker : List String) → List String
bus_brokers [] linker = linker
bus_brokers (b ∷ bus) linker = b ∷ bus

-- Where a consumer group begins: sarama.OffsetOldest and sarama.OffsetNewest.
pub data Offset : Type 0 where
  oldest newest : Offset

-- The fields of sarama.Config that the code sets; `rest` is all others.
pub record Config (Version Rest : Type 0) : Type 0 where
  pub client_id : String
  pub version : Version
  pub initial : Offset
  pub rest : Rest

module _ {Version Rest : Type 0} where
  -- kafkalinker.MinimalConfig; `base` is kafkapubsub.MinimalConfig(), and `v` is V3_2_1_0.
  unfoldable pub minimal_config :
      (base : Config Version Rest) (program_name : String) (v : Version) → Config Version Rest
  minimal_config base program_name v = record base {
    client_id = program_name;
    version = v;
    initial = oldest;
  }

  -- BusConfig; `config` is kafkalinker.Config.
  unfoldable pub bus_config : (minimal config : Config Version Rest) → Config Version Rest
  bus_config minimal config = record minimal {
    client_id = config.client_id;
    version = config.version;
    initial = newest;
  }

  -- ConfigFlag.String; `diff` is diffConfig.
  unfoldable pub config_string :
      (diff : (want got : Config Version Rest) → String) (minimal config : Config Version Rest)
      → String
  config_string diff minimal config =
      if same (diff minimal config) "" then "minimal config" else "modified config"

-- What opening the topic or the subscription of the bus comes to, as far as the code decides it.
pub data Opening (Version Rest : Type 0) : Type 0 where
  not_parsed invalid_config : Opening Version Rest
  opens : (brokers : List String) → Config Version Rest → Opening Version Rest

module _ {Version Rest : Type 0} where
  -- OpenControlTopic and OpenControlSubscription: `parsed` is loader.CommandLine.Parsed(), and
  -- `valid` is Config.Validate.
  unfoldable pub open_control :
      (parsed : Bool) (valid : Config Version Rest → Bool) (bus linker : List String)
      (minimal config : Config Version Rest)
      → Opening Version Rest
  open_control parsed valid bus linker minimal config =
      if parsed
      then if valid (bus_config minimal config)
        then opens (bus_brokers bus linker) (bus_config minimal config)
        else invalid_config
      else not_parsed

  -- Of what the flags change in the configuration of the linker, the bus sees the client and the
  -- version only.
  pub open_control-config :
      (parsed : Bool) (valid : Config Version Rest → Bool) (bus linker : List String)
      (minimal config config' : Config Version Rest)
      → config.client_id ≡ config'.client_id
      → config.version ≡ config'.version
      → open_control parsed valid bus linker minimal config
        ≡ open_control parsed valid bus linker minimal config'
  unfolding open_control bus_config
  open_control-config parsed valid bus linker minimal config config' clients versions =
      rw (clients, versions) refl

-- The comparer of diffConfig for balance strategies, of which `none` is nil.
unfoldable pub same_strategy :
    {Strategy : Type 0} → (name : Strategy → String) → (want got : Option Strategy) → Bool
same_strategy name none none = true
same_strategy name (some want) (some got) = same (name want) (name got)
same_strategy name want got = false

-- It is an equivalence, as cmp.Comparer needs it to be symmetric: two strategies are the same
-- exactly if both are nil or both have one name.
pub same_strategy_iff :
    {Strategy : Type 0} (name : Strategy → String) (want got : Option Strategy)
    → (same_strategy name want got ≡ true) ↔ (map_option name want ≡ map_option name got)
unfolding same_strategy
same_strategy_iff name none none = ((λ e. refl), (λ e. refl))
same_strategy_iff name none (some got) = ((λ e. cc), (λ e. cc))
same_strategy_iff name (some want) none = ((λ e. cc), (λ e. cc))
same_strategy_iff name (some want) (some got) = (
  (λ e. ap some ((eq_iff (name want) (name got)).0 e)),
  (λ e. (eq_iff (name want) (name got)).1 (cc)),
)

-- BrokersFlag prints back any text that it was set to, commas in any place included. Set to what one
-- or more brokers print as, none of which has a comma in it, it has those brokers again.
pub brokers_string-set_brokers :
    (s broker : String) (brokers : List String)
    → free_of comma (broker ∷ brokers) ≡ true
    → (brokers_string (set_brokers s) ≡ s)
      × (set_brokers (brokers_string (broker ∷ brokers)) ≡ broker ∷ brokers)
unfolding set_brokers brokers_string
brokers_string-set_brokers s broker brokers free =
    (join-split comma s, split-join comma broker brokers free)

-- Once the flag of the footprint bus was set, to whatever text, the brokers of the linker are not
-- used for the bus, also if the text is empty.
pub bus_brokers-set_brokers :
    (s : String) (linker : List String) → bus_brokers (set_brokers s) linker ≡ set_brokers s
unfolding bus_brokers set_brokers
bus_brokers-set_brokers s linker = let (t, ts, e) = split-cons comma s in rw e refl
