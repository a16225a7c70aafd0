-- ===== src/Tracing/Start.antt =====
-- What the start of a span and the start of a lifecycle come to.
use go_component.Prelude.{
  List, [], ◌∷◌, String, ◌≡◌, ◌⊎◌, inl, inr, refl, true, false, none, some, arith, if◌then◌else◌,
  Bool-cases, Option-cases,
}
use go_component.Tracing.{
  SpanContext, Ctx, trace_key, has_attribute, has_link, Telemetry, detach_span, detached_span_from,
  attribute, link, on_start,
}

module _ (t : Telemetry) where
  -- Detaching a span from a context leaves no valid current span, keeps the lifecycle, and retains
  -- the span that was current, or if it was not valid the one that was retained; and doing it twice
  -- is the same as once.
  pub detach_span_lem :
      (ctx : Ctx)
      → (t.is_valid (detach_span t ctx).span ≡ false)
        × ((detach_span t ctx).lifecycle ≡ ctx.lifecycle)
        × ((detach_span t ctx).detached
            ≡ (if t.is_valid ctx.span then some ctx.span else ctx.detached))
        × (detach_span t (detach_span t ctx) ≡ detach_span t ctx)
  unfolding detach_span
  detach_span_lem ctx = elim (Bool-cases (t.is_valid ctx.span)) [
    | inl e ↦ rw e (t.no_span_invalid, refl, refl, rw t.no_span_invalid refl)
    | inr e ↦ rw e (rw e (refl, refl, refl, refl))
  ]

  attribute-has :
      (l : String) (s : t.Span) → has_attribute (t.attributes (attribute t l s)) trace_key ≡ true
  unfolding attribute
  attribute-has l s = elim (Bool-cases (has_attribute (t.attributes s) trace_key)) [
    | inl e ↦ rw e e
    | inr e ↦ rw e (t.attributes-set s (record { key = trace_key; value = l }))
  ]

  attribute_again :
      (l : String) (s : t.Span)
      → has_attribute (t.attributes s) trace_key ≡ true
      → attribute t l s ≡ s
  unfolding attribute
  attribute_again l s e = rw e

  attributes-link : (ctx : Ctx) (s : t.Span) → t.attributes (link t ctx s) ≡ t.attributes s
  unfolding link
  attributes-link ctx s = ground (arith, t.attributes-add s (detached_span_from t ctx))

  link-link : (ctx : Ctx) (s : t.Span) → link t ctx (link t ctx s) ≡ link t ctx s
  unfolding link
  link-link ctx s =
      ground
        (arith, t.parent-add s (detached_span_from t ctx), t.links-add s (detached_span_from t ctx))

  -- Where OnStart has run on a span with a context that carries a lifecycle, the span has the
  -- attribute component.name; and a second run with that context changes nothing.
  pub on_start-on_start :
      (ctx : Ctx) (l : String) (s : t.Span)
      → ctx.lifecycle ≡ some l
      → (has_attribute (t.attributes (on_start t ctx s)) trace_key ≡ true)
        × (on_start t ctx (on_start t ctx s) ≡ on_start t ctx s)
  unfolding on_start
  on_start-on_start ctx l s e =
      let has : has_attribute (t.attributes (link t ctx (attribute t l s))) trace_key ≡ true =
        rw (attributes-link ctx (attribute t l s)) (attribute-has l s) in
      rw e (
        has,
        rw (attribute_again l (link t ctx (attribute t l s)) has) (link-link ctx (attribute t l s)),
      )

  links-attribute :
      (l : String) (s : t.Span)
      → (t.links (attribute t l s) ≡ t.links s) × (t.parent (attribute t l s) ≡ t.parent s)
  unfolding attribute
  links-attribute l s = ground (
    arith,
    t.links-set s (record { key = trace_key; value = l }),
    t.parent-set s (record { key = trace_key; value = l }),
  )

  on_start-links :
      (ctx : Ctx) (l : String) (c : SpanContext) (s : t.Span)
      → ctx.lifecycle ≡ some l
      → ctx.detached ≡ some c
      → t.is_valid c ≡ true
      → t.is_valid (t.parent s) ≡ false
      → has_link (t.links (on_start t ctx s)) c ≡ true
  unfolding on_start link detached_span_from
  on_start-links ctx l c s e d v p =
      ground (arith, links-attribute l s, t.links-add (attribute t l s) c)

  -- The context of a lifecycle that many levels below another, one at least, with no span started in
  -- between: each execute detaches the current span, and puts its lifecycle on the context.
  abbrev pub descend : Ctx → List String → Ctx
  descend ctx [] = ctx
  descend ctx (l ∷ ls) = descend (record (detach_span t ctx) { lifecycle = some l }) ls

  abbrev Retains : SpanContext → Ctx → Type 0
  Retains c ctx = (ctx.detached ≡ some c) × (t.is_valid ctx.span ≡ false)

  descend-Retains :
      (c : SpanContext) (ctx : Ctx) (ls : List String) → Retains c ctx → Retains c (descend ctx ls)
  unfolding detach_span
  descend-Retains c ctx [] h = h
  descend-Retains c ctx (l ∷ ls) h =
      descend-Retains c (record (detach_span t ctx) { lifecycle = some l }) ls (rw (h.1) h)

  descend-lifecycle :
      (ctx : Ctx) (l : String) (ls : List String)
      → (k : String) × ((descend ctx (l ∷ ls)).lifecycle ≡ some k)
  descend-lifecycle ctx l [] = (l, refl)
  descend-lifecycle ctx l (m ∷ ls) =
      descend-lifecycle (record (detach_span t ctx) { lifecycle = some l }) m ls

  detach_span-Retains :
      (ctx : Ctx) (l : String)
      → t.is_valid ctx.span ≡ true
      → Retains ctx.span (record (detach_span t ctx) { lifecycle = some l })
  unfolding detach_span
  detach_span-Retains ctx l v = rw v (refl, t.no_span_invalid)

  -- Where a context with a valid current span is handed to a lifecycle, which hands its own on to
  -- another, and so on, with no span started in between: a root span started in the context of the
  -- last has, once OnStart has run, a link to that span of the first context.
  pub on_start-descend :
      (ctx : Ctx) (l : String) (ls : List String) (s : t.Span)
      → t.is_valid ctx.span ≡ true
      → t.is_valid (t.parent s) ≡ false
      → has_link (t.links (on_start t (descend ctx (l ∷ ls)) s)) ctx.span ≡ true
  on_start-descend ctx l ls s v p =
      let (k, named) = descend-lifecycle ctx l ls in
      let kept =
        descend-Retains ctx.span (record (detach_span t ctx) { lifecycle = some l }) ls
          (detach_span-Retains ctx l v) in
      on_start-links (descend ctx (l ∷ ls)) k ctx.span s named kept.0 v p

  -- A span with a valid parent keeps its links, and so does every span started from a context
  -- without a lifecycle or without a valid detached span.
  pub on_start-keeps_links :
      (ctx : Ctx) (s : t.Span)
      → (ctx.lifecycle ≡ none)
        ⊎ (t.is_valid (t.parent s) ≡ true)
        ⊎ (t.is_valid (detached_span_from t ctx) ≡ false)
      → t.links (on_start t ctx s) ≡ t.links s
  unfolding on_start link
  on_start-keeps_links ctx s h = elim (Option-cases ctx.lifecycle) [
    | inl e ↦ rw (e, on_start)
    | inr w ↦ rw (w.1, on_start) (ground (arith, links-attribute w.0 s))
  ]
