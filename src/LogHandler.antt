-- ===== src/LogHandler.antt =====
-- The log handler that stamps the identity of a lifecycle onto records: loghandler.go.
-- The wrapped handler is a parameter, known by the interface slog.Handler.
pub mod Stamp
mod Tests
use go_component.Prelude.{
  ℕ, String, Bool, false, not, ◌||◌, Option, none, some, List, [], ◌∷◌, same, if◌then◌else◌,
}

-- The value of an attribute: a lifecycle, by its name, or anything else.
pub data Value : Type 0 where
  lifecycle : String → Value
  other : ℕ → Value

pub record Attr : Type 0 where
  pub key : String
  pub value : Value

pub record Record : Type 0 where
  pub time : ℕ
  pub level : ℕ
  pub message : String
  pub pc : ℕ
  pub attrs : List Attr

-- What the handlers read of a context: the lifecycle that it carries, by its name.
abbrev pub Ctx : Type 0
Ctx = Option String

-- slog.Handler, with what its Handle comes to in `Out`.
pub record Handler (Out : Type 0) : Type 1 where
  pub Self : Type 0
  pub enabled : Self → Ctx → ℕ → Bool
  pub handle : Self → Ctx → Record → Out
  pub with_attrs : Self → List Attr → Self
  pub with_group : Self → String → Self

abbrev pub log_key : String
log_key = "component"

-- slog.Any(LogKey, l)
abbrev pub identity : String → Attr
identity l = record { key = log_key; value = lifecycle l }

-- The loop of carriesIdentity: the callback leaves whether this attribute is an identity in `found`,
-- and goes on while it is not.
carries_loop : Bool → List Attr → Bool
carries_loop found [] = found
carries_loop found (a ∷ more) =
    let found' = same a.key log_key in
    let rest = carries_loop found' more in if not found' then rest else found'

unfoldable pub carries_identity : Record → Bool
unfolding carries_loop
carries_identity r = carries_loop false r.attrs

-- slices.ContainsFunc, with the test of WithAttrs
unfoldable pub contains_identity : List Attr → Bool
contains_identity [] = false
contains_identity (a ∷ more) = same a.key log_key || contains_identity more

module _ {Out : Type 0} (h : Handler Out) where
  pub record LogHandler : Type 0 where
    pub next : h.Self
    pub with_identity : Bool

  -- WrapLogHandler, on a handler that is not nil
  unfoldable pub wrap : h.Self → LogHandler
  wrap next = record { next = next; with_identity = false }

  stamp : String → Record → Record
  stamp l r = record r { attrs = identity l ∷ r.attrs }

  handle_from : LogHandler → Option String → Ctx → Record → Out
  unfolding stamp
  handle_from x none ctx r = h.handle x.next ctx r
  handle_from x (some l) ctx r =
      if x.with_identity || carries_identity r
      then h.handle x.next ctx r
      else h.handle x.next ctx (stamp l r)

  -- logHandler.Handle: lifecycleFrom(ctx) is nil or the lifecycle that the context carries.
  unfoldable pub handle : LogHandler → Ctx → Record → Out
  unfolding handle_from
  handle x ctx r = handle_from x ctx ctx r

  unfoldable pub enabled : LogHandler → Ctx → ℕ → Bool
  enabled x ctx level = h.enabled x.next ctx level

  -- logHandler.WithAttrs
  unfoldable pub with_attrs : LogHandler → List Attr → LogHandler
  with_attrs x attrs = record {
    next = h.with_attrs x.next attrs;
    with_identity = x.with_identity || contains_identity attrs;
  }

  -- logHandler.WithGroup
  unfoldable pub with_group : LogHandler → String → LogHandler
  with_group x name =
      if same name ""
      then x
      else record { next = h.with_group x.next name; with_identity = x.with_identity }

  -- A logHandler is a slog.Handler itself, so it can be wrapped again.
  abbrev pub as_handler : Handler Out
  as_handler = record {
    Self = LogHandler;
    enabled = enabled;
    handle = handle;
    with_attrs = with_attrs;
    with_group = with_group;
  }
