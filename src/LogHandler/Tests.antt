-- ===== src/LogHandler/Tests.antt =====
-- A handler that collects what it is given, and instances of the theorems at it.
use go_component.Prelude.{◌≡◌, refl, true, some, List, [], ◌∷◌, ◌++◌}
use go_component.LogHandler.{
  Attr, Record, Handler, other, identity, wrap, handle, carries_identity, contains_identity,
  with_attrs,
}
use go_component.LogHandler.Stamp.{attrs, group, refine, handle-refine}

-- The state is the attributes baked in; Handle returns them with those of the record.
abbrev collector : Handler (List Attr)
collector = record {
  Self = List Attr;
  enabled = λ s ctx level. true;
  handle = λ s ctx r. s ++ r.attrs;
  with_attrs = λ s l. s ++ l;
  with_group = λ s g. s;
}

abbrev ready : Record
ready = record { time = 0; level = 0; message = "ready"; pc = 0; attrs = [] }

abbrev port : Attr
port = record { key = "port"; value = other 80 }

stamps_once :
    handle collector
      (refine collector (wrap collector []) (attrs (port ∷ []) ∷ []))
      (some "db")
      ready
    ≡ port ∷ identity "db" ∷ []
unfolding handle wrap with_attrs carries_identity contains_identity
stamps_once = refl

handle-refine_example :
    handle collector
      (refine collector (wrap collector []) (attrs (identity "app" ∷ []) ∷ group "" ∷ []))
      (some "db")
      ready
    ≡ identity "app" ∷ []
unfolding contains_identity
handle-refine_example =
    handle-refine collector [] (attrs (identity "app" ∷ []) ∷ group "" ∷ []) (some "db") ready
