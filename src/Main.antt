-- ===== src/Main.antt =====
-- app/main.py: the life of the process. The logging is left out.
pub mod Life
pub mod Errors
mod Tests
use yeoun_ai.Base.{ℕ, Option, none, some, [], Bool}
use yeoun_ai.Base.Exec.{
  Exception, cancelled_error, Result, ok, raise, Exec, pure, modify, ◌>>=◌, ◌>>◌,
}
use yeoun_ai.Config.{Settings}
use yeoun_ai.Models.{Vendor}
use yeoun_ai.Models.Registry
use yeoun_ai.Models.Registry.{ModelRegistry, new_registry}
use yeoun_ai.Sessions
use yeoun_ai.Sessions.{SessionStore, new_store}
use yeoun_ai.Db.Engine.{ping}
use yeoun_ai.Routers.{App}

-- `app.state`, with the time of the start.
pub record Server : Type 0 where
  pub app : App
  pub started_at : Option ℕ

-- `except Exception` around the ping: only a cancellation goes on.
abbrev pub try_ping : Result Bool → Exec Server (Unit {0})
try_ping (raise cancelled_error) s = (raise cancelled_error, s)
try_ping _ s = (ok tt, s)

abbrev pub open_stores : Server → Server
open_stores s = record s {
  app = record s.app {
    session_store = some (Sessions.start new_store).0;
    persona_store = some [];
    registry = some new_registry;
  };
}

abbrev pub with_value : ModelRegistry → Result (Unit {0}) → Result ModelRegistry
with_value registry (ok _) = ok registry
with_value registry (raise e) = raise e

-- `registry.start()`: the registry is in `app.state` before, whatever the start does.
abbrev pub start_models : Vendor → Settings → Exec Server ModelRegistry
start_models vendor settings s =
    let (r, registry) = Registry.start vendor settings s.app.fs new_registry in
    (with_value registry r, record s { app = record s.app { registry = some registry } })

-- `lifespan` up to its `yield`; what it returns are its local registry and store.
unfoldable pub startup :
    Vendor → Settings → ℕ → Result (Unit {0}) → Exec Server (ModelRegistry × SessionStore)
startup vendor settings now connect = do
  modify (λ s. record s { started_at = some now })
  try_ping (ping settings connect)
  modify open_stores
  registry ← start_models vendor settings
  pure (registry, (Sessions.start new_store).0)

-- The server at the `yield`, with the local `registry` and `session_store` of `lifespan`. Requests
-- reach both through `app.state`, which no code but `lifespan` assigns; they change the objects.
pub record Serving : Type 0 where
  pub server : Server
  pub registry : ModelRegistry
  pub session_store : SessionStore

-- The server as a request sees it: `app.state` holds the two objects.
abbrev pub in_service : Serving → Server
in_service s = record s.server {
  app = record s.server.app { registry = some s.registry; session_store = some s.session_store };
}

-- `await registry.stop()`
abbrev pub stop_registry : Vendor → Exec Serving (Unit {0})
stop_registry vendor s =
    let (r, registry) = Registry.stop vendor s.registry in (r, record s { registry = registry })

-- The `finally` clause: the registry, then the store, which is reached only if the first returns.
unfoldable pub shutdown : Vendor → Exec Serving (Unit {0})
shutdown vendor = do
  stop_registry vendor
  modify (λ s. record s { session_store = Sessions.stop s.session_store })

-- A `finally` clause that raises takes the place of how the block has ended.
abbrev pub in_place : Result (Unit {0}) → Result (Unit {0}) → Result (Unit {0})
in_place before (ok _) = before
in_place before (raise e) = raise e

unfoldable pub finally_shutdown : Vendor → Result (Unit {0}) × Serving → Result (Unit {0}) × Server
finally_shutdown vendor (r, s) = let (q, t) = shutdown vendor s in (in_place r q, in_service t)

-- `lifespan`, where `requests` stands for all that is served at the `yield`.
unfoldable pub lifespan :
    Vendor → Settings → ℕ → Result (Unit {0}) → Exec Serving (Unit {0}) → Exec Server (Unit {0})
lifespan vendor settings now connect requests = do
  (registry, store) ← startup vendor settings now connect
  λ s.
      finally_shutdown vendor
        (requests (record { server = s; registry = registry; session_store = store }))
