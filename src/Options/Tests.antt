-- ===== src/Options/Tests.antt =====
-- Options as a program gives them, and instances of their laws.
use go_component.Prelude.{◌≡◌, refl, none, List, [], ◌∷◌, ℕ}
use go_component.Options.{
  LifecycleOptions, Setting, with_name, with_log_handler, on_started, apply, apply_all, validate,
  if_valid, run,
}

-- Contexts, handlers and hooks are known by numbers.
abbrev settings : List (Setting ℕ ℕ ℕ)
settings = with_name "a" ∷ on_started 1 ∷ with_name "b" ∷ on_started 2 ∷ with_log_handler none ∷ []

nil_handler_panics : run 9 0 5 3 settings ≡ none
unfolding run apply_all apply validate if_valid
nil_handler_panics = refl

abbrev plain : LifecycleOptions ℕ ℕ ℕ
plain = record {
  name = "";
  ctx = none;
  done = none;
  stopper = none;
  handler = none;
  started_hooks = 0 ∷ [];
  completed_hooks = [];
}
