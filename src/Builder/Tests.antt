-- ===== src/Builder/Tests.antt =====
-- A footprint of one component, and instances of the theorems.
use go_component.Prelude.{
  join, ℕ, String, true, ◌≡◌, refl, Option, none, some, arith, List, [], ◌∷◌, if◌then◌else◌, read,
  false,
}
use Prim.Native.String.{◌++◌ as concat}
use go_component.Linker.{Descriptor, contains}
use go_component.FileLoader.Reordered.{Reorders, Reorders-refl}
use go_component.Builder.Delivered.{AllKnown, claims_of, claims, nothing, ClaimsAll-footprint_json}
use go_component.FileLoader.{
  Claim, by_name, footprint_json, ComponentMessage, ok, claim_component, unmarshal_options_json,
}
use go_component.Builder.{
  Builder, done, new_builder, guard, add_topics, compose_topic, claim, with_component, null_text,
}
use go_component.Linker.{opened, target_unknown}
use go_component.Builder.Observed.{observe, linker_of, subscribes, panicked, observe-claim}
use go_component.Builder.Guarded.{claim_of, Claimed, claim-claim_component}

abbrev shop : Descriptor
shop = record { name = "shop"; options_type = none; aspects = "orders" ∷ []; interests = [] }

-- The only options are nil.
abbrev no_type : ℕ → String
no_type value = ""

abbrev no_marshal : ℕ → Option (List ℕ)
no_marshal value = some (value ∷ [])

abbrev head_of : String → List ℕ → Option ℕ
head_of rt [] = none
head_of rt (b ∷ bytes) = some b

decode_marshalled :
    (value : ℕ) (o : List ℕ) → no_marshal value ≡ some o → head_of (no_type value) o ≡ some value
decode_marshalled value [] marshalled = ground arith
decode_marshalled value (b ∷ o) marshalled = ground arith

abbrev shop_built : Builder
shop_built = record {
  msg = record {
    name = "";
    metadata = "";
    solution = "";
    identifier = "id";
    revision = 1;
    locations = [];
    components =
        (
          "shop",
          record { options = null_text; aspects = ("orders", "id.orders") ∷ []; interests = [] },
        )
        ∷ [];
  };
  broadcast = false;
}

shop_claimed : claim no_type no_marshal shop none (new_builder "id" 1) ≡ done shop_built
unfolding claim guard with_component new_builder add_topics compose_topic join
shop_claimed = refl

claim-claim_component_example :
    (req : ComponentMessage (List ℕ)) × (read shop_built.msg.components "shop" ≡ some req)
    × (claim_component (unmarshal_options_json head_of) true "id" "shop" shop req
        ≡ ok (record {
          component = shop;
          options = none;
          binding = record {
            group = concat "id" (concat "/" "shop");
            aspects = req.aspects;
            interests = req.interests;
          };
        }))
    × ((target : String)
        → (read req.aspects target ≡ (
            if contains shop.aspects target then some (concat "id" (concat "." target)) else none))
          × (read req.interests target ≡ (
              if contains shop.interests target
              then some (concat "id" (concat "." target))
              else none)))
claim-claim_component_example =
    claim-claim_component no_type no_marshal head_of decode_marshalled shop none
      (new_builder "id" 1) shop_built shop_claimed

-- A component with options of a type that is named by the empty text.
abbrev bank : Descriptor
bank = record { name = "bank"; options_type = some ""; aspects = []; interests = "orders" ∷ [] }

abbrev both_built : Builder
both_built = record {
  msg = record {
    name = "";
    metadata = "";
    solution = "";
    identifier = "id";
    revision = 1;
    locations = [];
    components =
        (
          "shop",
          record { options = null_text; aspects = ("orders", "id.orders") ∷ []; interests = [] },
        )
        ∷ (
          "bank",
          record { options = 7 ∷ []; aspects = []; interests = ("orders", "id.orders") ∷ [] },
        )
        ∷ [];
  };
  broadcast = false;
}

bank_claimed : claim no_type no_marshal bank (some 7) shop_built ≡ done both_built
unfolding claim guard with_component add_topics compose_topic join
bank_claimed = refl

abbrev claimed_both : List (Claimed ℕ)
claimed_both = (shop, none) ∷ (bank, some 7) ∷ []

known_both : AllKnown {Value = ℕ} (bank ∷ shop ∷ []) claimed_both
unfolding by_name
known_both = (refl, (refl, tt))

ClaimsAll-footprint_json_example :
    (allocations : List (Claim ℕ)) × Reorders (claims_of "id" claimed_both) allocations
    × (footprint_json head_of true
          (bank ∷ shop ∷ [])
          (record both_built.msg { components = both_built.msg.components })
        ≡ ok (record {
          name = "";
          metadata = "";
          identifier = "id";
          revision = 1;
          locations = [];
          solution = "";
          allocations = allocations;
        }))
unfolding new_builder
ClaimsAll-footprint_json_example =
    ClaimsAll-footprint_json no_type no_marshal head_of decode_marshalled (bank ∷ shop ∷ [])
      (claims shop_claimed (claims bank_claimed nothing)) known_both refl refl
      (Reorders-refl both_built.msg.components)

observe-claim_example :
    (observe true shop_built "shop" "orders" ≡ (
      if contains shop.aspects "orders"
      then subscribes "id/shop/monitor" "topic=id.orders"
      else panicked))
    × ((linker_of
            (λ (host : String). host)
            (λ (host query : String). query)
            (claim_of {Value = ℕ} "id" (shop, none))).link_aspect
          "orders"
        ≡ (if contains shop.aspects "orders" then opened "id.orders" else target_unknown))
unfolding new_builder
observe-claim_example =
    observe-claim no_type no_marshal (λ (host : String). host) (λ (host query : String). query) shop
      none (new_builder "id" 1) shop_built "orders" shop_claimed
