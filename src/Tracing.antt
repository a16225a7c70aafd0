-- ===== src/Tracing.antt =====
-- Spans and lifecycles: tracing.go. Spans and span contexts are OpenTelemetry's: the section takes
-- what the code calls of them, with the documented behaviour that the theorems need.
pub mod Start
mod Tests
use go_component.Prelude.{
  ℕ, String, Bool, true, false, not, ◌&&◌, ◌||◌, ◌≡◌, Option, none, some, List, [], ◌∷◌, same, ◌==◌,
  if◌then◌else◌,
}

pub record SpanContext : Type 0 where
  pub trace_id : ℕ
  pub span_id : ℕ

-- trace.SpanContext{}
abbrev pub no_span : SpanContext
no_span = record { trace_id = 0; span_id = 0 }

pub record KeyValue : Type 0 where
  pub key : String
  pub value : String

-- What the code reads of a context: the lifecycle that it carries, by its name, its current span
-- and what detachedSpanKey holds.
pub record Ctx : Type 0 where
  pub lifecycle : Option String
  pub span : SpanContext
  pub detached : Option SpanContext

abbrev pub trace_key : String
trace_key = "component.name"

unfoldable pub has_attribute : List KeyValue → String → Bool
has_attribute [] key = false
has_attribute (a ∷ attrs) key =
    let rest = has_attribute attrs key in if same a.key key then true else rest

-- A link, by its span context.
unfoldable pub has_link : List SpanContext → SpanContext → Bool
has_link [] target = false
has_link (l ∷ links) target =
    let rest = has_link links target in
    if (l.trace_id == target.trace_id) && (l.span_id == target.span_id) then true else rest

-- What the code uses of OpenTelemetry: SpanContext.IsValid, and sdktrace.ReadWriteSpan, whose
-- SetAttributes and AddLink change nothing else that is read here.
pub record Telemetry : Type 1 where
  pub is_valid : SpanContext → Bool
  pub no_span_invalid : is_valid no_span ≡ false
  pub Span : Type 0
  pub attributes : Span → List KeyValue
  pub parent : Span → SpanContext
  pub links : Span → List SpanContext
  pub set_attribute : Span → KeyValue → Span
  pub add_link : Span → SpanContext → Span
  pub attributes-set :
      (s : Span) (a : KeyValue) → has_attribute (attributes (set_attribute s a)) a.key ≡ true
  pub parent-set : (s : Span) (a : KeyValue) → parent (set_attribute s a) ≡ parent s
  pub links-set : (s : Span) (a : KeyValue) → links (set_attribute s a) ≡ links s
  pub attributes-add : (s : Span) (c : SpanContext) → attributes (add_link s c) ≡ attributes s
  pub parent-add : (s : Span) (c : SpanContext) → parent (add_link s c) ≡ parent s
  pub links-add :
      (s : Span) (c : SpanContext) → is_valid c ≡ true → has_link (links (add_link s c)) c ≡ true

module _ (t : Telemetry) where
  -- detachSpan
  unfoldable pub detach_span : Ctx → Ctx
  detach_span ctx =
      if not (t.is_valid ctx.span)
      then ctx
      else record ctx { detached = some ctx.span; span = no_span }

  -- detachedSpanFrom
  unfoldable pub detached_span_from : Ctx → SpanContext
  detached_span_from ctx = elim ctx.detached [ none ↦ no_span | some c ↦ c ]

  -- The first half of OnStart: the attribute.
  attribute : String → t.Span → t.Span
  attribute l s =
      if not (has_attribute (t.attributes s) trace_key)
      then t.set_attribute s (record { key = trace_key; value = l })
      else s

  -- The second half: the link.
  link : Ctx → t.Span → t.Span
  unfolding detached_span_from
  link ctx s =
      let detached = detached_span_from ctx in
      if t.is_valid (t.parent s)
      then s
      else if not (t.is_valid detached) || has_link (t.links s) detached
      then s
      else t.add_link s detached

  -- spanProcessor.OnStart
  unfoldable pub on_start : Ctx → t.Span → t.Span
  unfolding attribute link
  on_start ctx s = elim ctx.lifecycle [ none ↦ s | some l ↦ link ctx (attribute l s) ]
