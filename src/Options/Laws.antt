-- ===== src/Options/Laws.antt =====
-- What a list of options comes to.
use go_component.Prelude.{
  ℕ, String, ◌≡◌, ◌↔◌, ◌⊎◌, refl, sym, Option, none, some, List, [], ◌∷◌, ◌++◌, arith, append_assoc,
  append-nil,
}
use go_component.Options.{
  LifecycleOptions, Setting, with_name, with_fork_name, with_context, with_completion,
  with_fork_completion, with_stopper, with_log_handler, with_default_log_handler, on_started,
  on_complete, apply, apply_all, validate, if_valid, run,
}

abbrev pub or_else {ℓ} : {A : Type ℓ} → Option A → A → A
or_else none a = a
or_else (some b) a = b

abbrev pub last_of {ℓ} : {A : Type ℓ} → List A → Option A
last_of [] = none
last_of (a ∷ l) = some (or_else (last_of l) a)

abbrev pub with_option {ℓ} : {A : Type ℓ} → Option A → List A → List A
with_option none l = l
with_option (some a) l = a ∷ l

-- The values that a list of options gives to a field, in order.
abbrev pub given {ℓ κ} : {A : Type ℓ} {B : Type κ} → (A → Option B) → List A → List B
given f [] = []
given f (a ∷ l) = with_option (f a) (given f l)

module _ {Ctx Handler Hook : Type 0} where
  abbrev pub name_of : Setting Ctx Handler Hook → Option String
  name_of (with_name n) = some n
  name_of (with_fork_name n) = some n
  name_of _ = none

  abbrev pub ctx_of : Setting Ctx Handler Hook → Option (Option Ctx)
  ctx_of (with_context c) = some c
  ctx_of _ = none

  abbrev pub done_of : Setting Ctx Handler Hook → Option (Option ℕ)
  done_of (with_completion d) = some d
  done_of (with_fork_completion d) = some d
  done_of _ = none

  abbrev pub stopper_of : Setting Ctx Handler Hook → Option (Option ℕ)
  stopper_of (with_stopper s) = some s
  stopper_of _ = none

  abbrev pub handler_of : Handler → Setting Ctx Handler Hook → Option (Option Handler)
  handler_of default_handler (with_log_handler h) = some h
  handler_of default_handler with_default_log_handler = some (some default_handler)
  handler_of default_handler _ = none

  abbrev pub started_of : Setting Ctx Handler Hook → Option Hook
  started_of (on_started h) = some h
  started_of _ = none

  abbrev pub completed_of : Setting Ctx Handler Hook → Option Hook
  completed_of (on_complete h) = some h
  completed_of _ = none

or_else-last_of {ℓ} :
    {B : Type ℓ} (o : Option B) (l : List B) (b : B)
    → or_else (last_of l) (or_else o b) ≡ or_else (last_of (with_option o l)) b
or_else-last_of none l b = refl
or_else-last_of (some c) l b = refl

append-with_option {ℓ} :
    {B : Type ℓ} (o : Option B) (k l : List B) → (k ++ with_option o []) ++ l ≡ k ++ with_option o l
append-with_option none k l = rw append-nil
append-with_option (some c) k l = append_assoc k (c ∷ []) l

module _ {Ctx Handler Hook : Type 0} (default_handler : Handler) where
  -- A field that an option overwrites.
  module _ {B : Type 0} (field : LifecycleOptions Ctx Handler Hook → B)
      (f : Setting Ctx Handler Hook → Option B)
      (sets : (o : LifecycleOptions Ctx Handler Hook) (s : Setting Ctx Handler Hook)
        → field (apply default_handler o s) ≡ or_else (f s) (field o)) where
    apply_all-last :
        (o : LifecycleOptions Ctx Handler Hook) (ss : List (Setting Ctx Handler Hook))
        → field (apply_all default_handler o ss) ≡ or_else (last_of (given f ss)) (field o)
    unfolding apply_all
    apply_all-last o [] = refl
    apply_all-last o (s ∷ ss) = cc (
      apply_all-last (apply default_handler o s) ss,
      sets o s,
      or_else-last_of (f s) (given f ss) (field o),
    )

  -- A field to which an option appends.
  module _ {B : Type 0} (field : LifecycleOptions Ctx Handler Hook → List B)
      (f : Setting Ctx Handler Hook → Option B)
      (adds : (o : LifecycleOptions Ctx Handler Hook) (s : Setting Ctx Handler Hook)
        → field (apply default_handler o s) ≡ field o ++ with_option (f s) []) where
    apply_all-append :
        (o : LifecycleOptions Ctx Handler Hook) (ss : List (Setting Ctx Handler Hook))
        → field (apply_all default_handler o ss) ≡ field o ++ given f ss
    unfolding apply_all
    apply_all-append o [] = sym (append-nil (field o))
    apply_all-append o (s ∷ ss) = cc (
      apply_all-append (apply default_handler o s) ss,
      adds o s,
      append-with_option (f s) (field o) (given f ss),
    )

  name-apply :
      (o : LifecycleOptions Ctx Handler Hook) (s : Setting Ctx Handler Hook)
      → (apply default_handler o s).name ≡ or_else (name_of s) o.name
  unfolding apply
  name-apply o (with_name n) = refl
  name-apply o _ = refl

  ctx-apply :
      (o : LifecycleOptions Ctx Handler Hook) (s : Setting Ctx Handler Hook)
      → (apply default_handler o s).ctx ≡ or_else (ctx_of s) o.ctx
  unfolding apply
  ctx-apply o (with_context n) = refl
  ctx-apply o _ = refl

  done-apply :
      (o : LifecycleOptions Ctx Handler Hook) (s : Setting Ctx Handler Hook)
      → (apply default_handler o s).done ≡ or_else (done_of s) o.done
  unfolding apply
  done-apply o (with_completion n) = refl
  done-apply o _ = refl

  stopper-apply :
      (o : LifecycleOptions Ctx Handler Hook) (s : Setting Ctx Handler Hook)
      → (apply default_handler o s).stopper ≡ or_else (stopper_of s) o.stopper
  unfolding apply
  stopper-apply o (with_stopper n) = refl
  stopper-apply o _ = refl

  handler-apply :
      (o : LifecycleOptions Ctx Handler Hook) (s : Setting Ctx Handler Hook)
      → (apply default_handler o s).handler ≡ or_else (handler_of default_handler s) o.handler
  unfolding apply
  handler-apply o (with_log_handler n) = refl
  handler-apply o _ = refl

  started-apply :
      (o : LifecycleOptions Ctx Handler Hook) (s : Setting Ctx Handler Hook)
      → (apply default_handler o s).started_hooks ≡ o.started_hooks ++ with_option (started_of s) []
  unfolding apply
  started-apply o (on_started h) = refl
  started-apply o _ = sym (append-nil o.started_hooks)

  completed-apply :
      (o : LifecycleOptions Ctx Handler Hook) (s : Setting Ctx Handler Hook)
      → (apply default_handler o s).completed_hooks
        ≡ o.completed_hooks ++ with_option (completed_of s) []
  unfolding apply
  completed-apply o (on_complete h) = refl
  completed-apply o _ = sym (append-nil o.completed_hooks)

  -- Applied in order, the options leave the last name, context, completion channel, stopper and
  -- handler that any of them gives, and those that were there if none gives one; and the hooks that
  -- were there, followed by those given, in order. WithSpan and WithForkSpanName give nothing.
  pub apply_all-fields :
      (o : LifecycleOptions Ctx Handler Hook) (ss : List (Setting Ctx Handler Hook))
      → apply_all default_handler o ss ≡ record {
        name = or_else (last_of (given name_of ss)) o.name;
        ctx = or_else (last_of (given ctx_of ss)) o.ctx;
        done = or_else (last_of (given done_of ss)) o.done;
        stopper = or_else (last_of (given stopper_of ss)) o.stopper;
        handler = or_else (last_of (given (handler_of default_handler) ss)) o.handler;
        started_hooks = o.started_hooks ++ given started_of ss;
        completed_hooks = o.completed_hooks ++ given completed_of ss;
      }
  apply_all-fields o ss i = record {
    name = apply_all-last (λ o. o.name) name_of name-apply o ss i;
    ctx = apply_all-last (λ o. o.ctx) ctx_of ctx-apply o ss i;
    done = apply_all-last (λ o. o.done) done_of done-apply o ss i;
    stopper = apply_all-last (λ o. o.stopper) stopper_of stopper-apply o ss i;
    handler = apply_all-last (λ o. o.handler) (handler_of default_handler) handler-apply o ss i;
    started_hooks = apply_all-append (λ o. o.started_hooks) started_of started-apply o ss i;
    completed_hooks = apply_all-append (λ o. o.completed_hooks) completed_of completed-apply o ss i;
  }

  run-validate :
      (o : LifecycleOptions Ctx Handler Hook)
      → (if_valid default_handler o (validate default_handler o) ≡ none)
        ↔ ((o.ctx ≡ none) ⊎ (o.handler ≡ none))
  unfolding if_valid validate
  run-validate o = ground arith

  -- Run panics exactly if the last context or the last handler that its options give is nil.
  pub run-panics :
      (background : Ctx) (discard : Handler) (fresh : ℕ) (ss : List (Setting Ctx Handler Hook))
      → (run default_handler background discard fresh ss ≡ none) ↔ (
          (or_else (last_of (given ctx_of ss)) (some background) ≡ none)
          ⊎ (or_else (last_of (given (handler_of default_handler) ss)) (some discard) ≡ none))
  unfolding run
  run-panics background discard fresh ss = rw apply_all-fields (run-validate _)
