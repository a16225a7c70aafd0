-- ===== src/Options.antt =====
-- The options of a new lifecycle: lifecycleOptions and the functions that make options in
-- procedure.go, with the prologues of Run, L.Fork, loader.Entrypoint and loader.Load.
-- A channel is known by a number; contexts, handlers and hooks are parameters, and `none` is nil.
pub mod Laws
mod Tests
use go_component.Prelude.{ℕ, String, Option, none, some, List, [], ◌∷◌, ◌++◌}

module _ (Ctx Handler Hook : Type 0) where
  pub record LifecycleOptions : Type 0 where
    pub name : String
    pub ctx : Option Ctx
    pub done : Option ℕ
    pub stopper : Option ℕ
    pub handler : Option Handler
    pub started_hooks : List Hook
    pub completed_hooks : List Hook

-- The values of the types Option and ForkOption, one constructor for each function that makes one.
-- WithLogger is with_log_handler, at DiscardHandler or at a text handler.
pub data Setting (Ctx Handler Hook : Type 0) : Type 0 where
  with_name with_fork_name with_span with_fork_span_name : String → Setting Ctx Handler Hook
  with_context : Option Ctx → Setting Ctx Handler Hook
  with_completion with_fork_completion : Option ℕ → Setting Ctx Handler Hook
  with_stopper : Option ℕ → Setting Ctx Handler Hook
  with_log_handler : Option Handler → Setting Ctx Handler Hook
  with_default_log_handler : Setting Ctx Handler Hook
  on_started on_complete : Hook → Setting Ctx Handler Hook

-- An error of validate.
pub data Invalid : Type 0 where
  nil_context nil_handler : Invalid

module _ {Ctx Handler Hook : Type 0} (default_handler : Handler) where
  -- opt(&options)
  unfoldable pub apply :
      LifecycleOptions Ctx Handler Hook
      → Setting Ctx Handler Hook
      → LifecycleOptions Ctx Handler Hook
  apply o (with_name name) = record o { name = name }
  apply o (with_fork_name name) = record o { name = name }
  apply o (with_span name) = o
  apply o (with_fork_span_name name) = o
  apply o (with_context ctx) = record o { ctx = ctx }
  apply o (with_completion done) = record o { done = done }
  apply o (with_fork_completion done) = record o { done = done }
  apply o (with_stopper stopper) = record o { stopper = stopper }
  apply o (with_log_handler handler) = record o { handler = handler }
  apply o with_default_log_handler = record o { handler = some default_handler }
  apply o (on_started hook) = record o { started_hooks = o.started_hooks ++ hook ∷ [] }
  apply o (on_complete hook) = record o { completed_hooks = o.completed_hooks ++ hook ∷ [] }

  -- for _, opt := range opts { opt(&options) }
  unfoldable pub apply_all :
      LifecycleOptions Ctx Handler Hook
      → List (Setting Ctx Handler Hook)
      → LifecycleOptions Ctx Handler Hook
  apply_all o [] = o
  apply_all o (s ∷ ss) = apply_all (apply o s) ss

  -- validate joins the errors that it returns.
  unfoldable pub validate : LifecycleOptions Ctx Handler Hook → List Invalid
  validate o =
      elim o.ctx [ none ↦ nil_context ∷ [] | some c ↦ [] ]
      ++ elim o.handler [ none ↦ nil_handler ∷ [] | some h ↦ [] ]

  if_valid :
      LifecycleOptions Ctx Handler Hook → List Invalid → Option (LifecycleOptions Ctx Handler Hook)
  if_valid o [] = some o
  if_valid o (e ∷ es) = none

  -- Run, up to the call of execute: `none` is the panic. `fresh` is the channel that it makes.
  unfoldable pub run :
      (background : Ctx) (discard : Handler) (fresh : ℕ)
      → List (Setting Ctx Handler Hook)
      → Option (LifecycleOptions Ctx Handler Hook)
  unfolding if_valid
  run background discard fresh opts =
      let o =
        apply_all
          (record {
            name = "";
            ctx = some background;
            done = some fresh;
            stopper = none;
            handler = some discard;
            started_hooks = [];
            completed_hooks = [];
          })
          opts in
      if_valid o (validate o)

  -- The options that Fork hands to execute: `parent` are those of the lifecycle on which it is
  -- called, with its own handler, and `stopping` is its stopping channel.
  unfoldable pub fork_options :
      LifecycleOptions Ctx Handler Hook
      → (full_name : String) (ctx : Ctx) (stopping : ℕ) → List (Setting Ctx Handler Hook)
      → LifecycleOptions Ctx Handler Hook
  fork_options parent full_name ctx stopping opts =
      apply_all
        (record parent { name = full_name; ctx = some ctx; done = none; stopper = some stopping })
        opts

  -- loader.Entrypoint: the defaults come before the caller's options.
  unfoldable pub entrypoint_options :
      Ctx → List (Setting Ctx Handler Hook) → List (Setting Ctx Handler Hook)
  entrypoint_options background opts =
      with_context (some background) ∷ with_default_log_handler ∷ opts

  -- loader.Load: the hooks of Health come after the caller's options.
  unfoldable pub load_options :
      (proc_started proc_completed : Hook)
      → List (Setting Ctx Handler Hook)
      → List (Setting Ctx Handler Hook)
  load_options proc_started proc_completed opts =
      opts ++ (on_started proc_started ∷ on_complete proc_completed ∷ [])
