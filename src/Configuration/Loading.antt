-- ===== src/Configuration/Loading.antt =====
-- savate/configuration.py: the handlers for authorization, status and statistics that a configuration
-- names, and the limit. Importing a module and calling the class are a parameter.
pub mod Replaced
pub mod Refused
mod Examples
use savate.Configuration
use savate.Configuration.Reload
use savate.Configuration.{Relays}
use savate.Configuration.Reload.{Reloaded, bad_config, reconfigure, reloaded}
use savate.Prelude.{
  Bool, Bytes, List, Option, [], false, if◌then◌else◌, none, same_bytes, some, ℕ, ◌++◌, ◌==◌, ◌||◌,
  ◌∷◌,
}
use savate.Dict.{Dict, put}
use savate.Prelude.{bytes_eq}

-- An entry: the value of "handler", which may be missing, and all that the class is called with.
pub record Entry (Args : Type 0) : Type 0 where
  pub handler : Option Bytes
  pub args : Args

-- The value of "clients_limit" for int(): a number, or what int() does not take, None included.
pub data Limit : Type 0 where
  number : ℕ → Limit
  not_int : Limit

pub record Config (Args : Type 0) : Type 0 where
  pub auth : List (Entry Args)
  pub status : Dict Bytes (Entry Args)
  pub statistics : List (Entry Args)
  pub clients_limit : Limit

-- The handlers of the server, those that have been closed, and the names of modules.
pub record Handlers (H : Type 0) : Type 0 where
  pub auth_handlers : List H
  pub status_handlers : Dict Bytes H
  pub statistics_handlers : List H
  pub closed : List H
  pub modules_loaded : List Bytes
  pub clients_limit : Option ℕ

-- What importing and calling gives: a handler, a ValueError, or another exception.
pub data Loaded (H : Type 0) : Type 0 where
  made : H → Loaded H
  bad_value : Loaded H
  other_error : Loaded H

-- How configuring ends; serve_forever catches a ValueError and goes on.
pub data Outcome (H : Type 0) : Type 0 where
  configured : Handlers H → Outcome H
  value_error : Handlers H → Outcome H
  failed : Outcome H

-- name.rsplit(".", 1); `none` is the ValueError of a name without a dot.
pub rsplit_dot : Bytes → Option (Bytes × Bytes)
rsplit_dot [] = none
rsplit_dot (c ∷ s) = elim (rsplit_dot s) [
  | some (m, k) ↦ some (c ∷ m, k)
  | none ↦ if c == b'.' then some ([], s) else none
]

pub has_name : Bytes → List Bytes → Bool
has_name m [] = false
has_name m (n ∷ ns) = same_bytes m n || has_name m ns

-- How a reload ends, with the relays: well, with a ValueError or BadConfig, which serve_forever catches, or
-- with another exception.
pub data Reconfigured (H : Type 0) : Type 0 where
  reconfigured refused : Handlers H → Relays → Reconfigured H
  broken : Reconfigured H

module _ {H Args : Type 0} (load : Bytes → Bytes → Args → Loaded H) (closable : H → Bool) where
  pub add_module : Bytes → Handlers H → Handlers H
  add_module m s = record s {
    modules_loaded =
        if has_name m s.modules_loaded then s.modules_loaded else s.modules_loaded ++ m ∷ [];
  }

  -- The part that the three loops share; the handler goes on to `next`.
  pub create : Entry Args → Handlers H → (H → Handlers H → Outcome H) → Outcome H
  create entry s next = elim entry.handler [
    | none ↦ failed
    | some name ↦ elim (rsplit_dot name) [
      | none ↦ value_error s
      | some (handler_module, handler_class) ↦ elim (load handler_module handler_class entry.args) [
        | made h ↦ next h (add_module handler_module s)
        | bad_value ↦ value_error (add_module handler_module s)
        | other_error ↦ failed
      ]
    ]
  ]

  pub configure_authorization : List (Entry Args) → Handlers H → Outcome H
  configure_authorization [] s = configured s
  configure_authorization (entry ∷ entries) s = create entry s (λ h s'.
      configure_authorization entries (record s' { auth_handlers = s'.auth_handlers ++ h ∷ [] }))

  pub configure_status : Dict Bytes (Entry Args) → Handlers H → Outcome H
  configure_status [] s = configured s
  configure_status ((path, entry) ∷ entries) s = create entry s (λ h s'.
      configure_status entries (record s' { status_handlers = put path h s'.status_handlers }))

  pub configure_stats : List (Entry Args) → Handlers H → Outcome H
  configure_stats [] s = configured s
  configure_stats (entry ∷ entries) s = create entry s (λ h s'.
      configure_stats entries
        (record s' { statistics_handlers = s'.statistics_handlers ++ h ∷ [] }))

  pub configure_limits : Limit → Handlers H → Handlers H
  configure_limits (number n) s = record s { clients_limit = some n }
  configure_limits not_int s = record s { clients_limit = none }

  -- The handlers with a method `close`.
  pub with_close : List H → List H
  with_close [] = []
  with_close (h ∷ hs) = let rest = with_close hs in if closable h then h ∷ rest else rest

  -- The loop over all handlers: of the status handlers it has the paths, which have no such method. Then
  -- the tables are emptied.
  pub drop_handlers : Handlers H → Handlers H
  drop_handlers s = record s {
    closed = (s.closed ++ with_close s.auth_handlers) ++ with_close s.statistics_handlers;
    modules_loaded = [];
    auth_handlers = [];
    status_handlers = [];
    statistics_handlers = [];
  }

  pub then_do : Outcome H → (Handlers H → Outcome H) → Outcome H
  then_do (configured s) next = next s
  then_do (value_error s) next = value_error s
  then_do failed next = failed

  -- `reconfigure`, up to what is about relays.
  pub reload_handlers : Config Args → Handlers H → Outcome H
  reload_handlers conf s =
      then_do (configure_authorization conf.auth (drop_handlers s))
        (λ s1. then_do (configure_status conf.status s1) (λ s2. configure_stats conf.statistics s2))

  -- What is about relays, and the limit after it.
  pub then_relays : Limit → Reloaded → Handlers H → Reconfigured H
  then_relays limit (reloaded relays) s = reconfigured (configure_limits limit s) relays
  then_relays limit (bad_config relays) s = refused s relays
  then_relays limit Reload.failed s = broken

  -- The whole of `reconfigure`; the configuration is read in two parts.
  pub reconfigure_server :
      (Bytes → Bool)
      → (Bytes → List ℕ)
      → (Bytes → Option ℕ → Bool)
      → Config Args
      → Configuration.Config
      → Handlers H
      → Relays
      → Reconfigured H
  reconfigure_server is_udp getaddrinfo connects conf mounts s relays =
      elim (reload_handlers conf s) [
        | configured s' ↦
            then_relays conf.clients_limit (reconfigure is_udp getaddrinfo connects mounts relays)
              s'
        | value_error s' ↦ refused s' relays
        | failed ↦ broken
      ]

  -- The handlers in `configure`, before the relays and the limit.
  pub configure : Config Args → Handlers H → Outcome H
  configure conf s =
      then_do (configure_stats conf.statistics s) (λ s1.
        then_do (configure_authorization conf.auth s1) (λ s2. configure_status conf.status s2))
