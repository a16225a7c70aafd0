-- ===== src/Logging.antt =====
-- InjectLogger and Logger of logging.go. A context is the values that it carries, the innermost
-- first. A value under a key of another package is known by a number.
use go_component.Prelude.{ℕ, Bool, true, false, ◌≡◌, refl, List, [], ◌∷◌, ◌++◌, arith}

pub data Carried (Logger : Type 0) : Type 0 where
  logger : Logger → Carried Logger
  other : ℕ → Carried Logger

module _ {Logger : Type 0} where
  -- InjectLogger
  unfoldable pub inject_logger : List (Carried Logger) → Logger → List (Carried Logger)
  inject_logger ctx l = logger l ∷ ctx

  -- Logger: `standard` is slog.Default().
  unfoldable pub logger_of : (standard : Logger) → List (Carried Logger) → Logger
  logger_of standard [] = standard
  logger_of standard (logger l ∷ ctx) = l
  logger_of standard (other v ∷ ctx) = logger_of standard ctx

  abbrev carries_none : List (Carried Logger) → Bool
  carries_none [] = true
  carries_none (logger l ∷ ctx) = false
  carries_none (other v ∷ ctx) = carries_none ctx

  -- A context derived from one with a logger, without another logger, has that logger.
  logger_of-inject_logger :
      (standard l : Logger) (derived ctx : List (Carried Logger))
      → carries_none derived ≡ true
      → logger_of standard (derived ++ inject_logger ctx l) ≡ l
  unfolding logger_of inject_logger
  logger_of-inject_logger standard l [] ctx none = refl
  logger_of-inject_logger standard l (logger m ∷ derived) ctx none = ground arith
  logger_of-inject_logger standard l (other v ∷ derived) ctx none =
      logger_of-inject_logger standard l derived ctx none
