-- ===== src/Linker/Tests.antt =====
-- Linkers over two maps, and instances of the theorems.
use go_component.Prelude.{String, ◌≡◌, refl, none, [], ◌∷◌, Dict}
use Prim.Native.String.{◌++◌ as concat}
use go_component.Linker.{
  Descriptor, opened, panicked, Linker, contains, shared_mem_linker, open_interest, kafka_linker,
  protect_linker,
}

abbrev topic_aspects : Dict String
topic_aspects = ("orders", "kafka-orders") ∷ []

abbrev topic_interests : Dict String
topic_interests = ("payments", "kafka-payments") ∷ []

abbrev shop : Descriptor
shop = record {
  name = "shop";
  options_type = none;
  aspects = "orders" ∷ [];
  interests = "payments" ∷ [];
}

-- What is opened is known by its address.
abbrev subscription : String → String → String
subscription host query = concat host (concat "?" query)

abbrev shop_linker : Linker String
shop_linker = kafka_linker (λ host. host) subscription "group" topic_aspects topic_interests

links_interest :
    (protect_linker shop_linker shop).link_interest "payments" ≡ opened "group?topic=kafka-payments"
unfolding protect_linker kafka_linker open_interest contains
links_interest = refl

other_interest_panics : (protect_linker shop_linker shop).link_interest "orders" ≡ panicked
unfolding protect_linker contains
other_interest_panics = refl

links_by_name :
    (shared_mem_linker (λ host. host) (λ host. host)).link_aspect "orders" ≡ opened "orders"
unfolding shared_mem_linker
links_by_name = refl
