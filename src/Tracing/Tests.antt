-- ===== src/Tracing/Tests.antt =====
-- A telemetry of plain records, and instances of the theorems at it.
use go_component.Prelude.{◌≡◌, refl, true, ◌&&◌, not, none, some, List, [], ◌∷◌, ◌==◌, arith}
use text.Mathlib.TextPositions.{eq_refl}
use go_component.Tracing.{
  SpanContext, no_span, KeyValue, Ctx, has_attribute, has_link, Telemetry, on_start,
}
use go_component.Tracing.Start.{descend, on_start-descend}

record PlainSpan : Type 0 where
  kept_attributes : List KeyValue
  kept_parent : SpanContext
  kept_links : List SpanContext

has_attribute_cons : (a : KeyValue) (l : List KeyValue) → has_attribute (a ∷ l) a.key ≡ true
unfolding has_attribute
has_attribute_cons a l = rw (eq_refl a.key)

has_link_cons : (c : SpanContext) (l : List SpanContext) → has_link (c ∷ l) c ≡ true
unfolding has_link
has_link_cons c l = ground arith

abbrev plain : Telemetry
plain = record {
  is_valid = λ c. not (c.trace_id == 0) && not (c.span_id == 0);
  no_span_invalid = refl;
  Span = PlainSpan;
  attributes = λ s. s.kept_attributes;
  parent = λ s. s.kept_parent;
  links = λ s. s.kept_links;
  set_attribute = λ s a. record s { kept_attributes = a ∷ s.kept_attributes };
  add_link = λ s c. record s { kept_links = c ∷ s.kept_links };
  attributes-set = λ s a. has_attribute_cons a s.kept_attributes;
  parent-set = λ s a. refl;
  links-set = λ s a. refl;
  attributes-add = λ s c. refl;
  parent-add = λ s c. refl;
  links-add = λ s c v. has_link_cons c s.kept_links;
}

abbrev upstream : SpanContext
upstream = record { trace_id = 3; span_id = 4 }

abbrev incoming : Ctx
incoming = record { lifecycle = some "db"; span = upstream; detached = none }

abbrev detached : Ctx
detached = record { lifecycle = some "db"; span = no_span; detached = some upstream }

abbrev fresh : PlainSpan
fresh = record { kept_attributes = []; kept_parent = no_span; kept_links = [] }

on_start-descend_example :
    has_link
      (on_start plain (descend plain incoming ("app" ∷ "app/db" ∷ [])) fresh).kept_links
      upstream
    ≡ true
on_start-descend_example = on_start-descend plain incoming "app" ("app/db" ∷ []) fresh refl refl
