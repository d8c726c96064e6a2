-- ===== src/Routers.antt =====
-- app/routers and app/auth.py: what a request works on, and the token that each one needs. A handler
-- is an `Exec` on the state of the application; an `HTTPException` is its `http_exception`.
pub mod Media
pub mod Clips
pub mod Messages
pub mod Personas
pub mod Uploads
pub mod Health
pub mod Access
pub mod Lifetime
pub mod Lock
pub mod Answers
pub mod Small
mod Tests
use yeoun_ai.Base.{
  ℕ, Bool, true, false, not, ◌||◌, Option, none, some, List, if◌then◌else◌, ◌==◌, nat_eq, list_eq,
}
use yeoun_ai.Base.Text.{Text, codes}
use yeoun_ai.Base.Uuid.{Uuid}
use yeoun_ai.Base.Exec.{Exception, http_exception, Exec, pure, throw}
use yeoun_ai.Config.{Settings}
use yeoun_ai.Fs.{FilePath, Fs}
use yeoun_ai.Db.{Db}
use yeoun_ai.Sessions.{SessionStore}
use yeoun_ai.Creation.{ProcessingStore}
use yeoun_ai.Models.Registry.{ModelRegistry}
use yeoun_ai.Storage.Resolve.{PurePath}
use yeoun_ai.Pipeline.{Env}

-- `app.state`, with the files, the tables and the background tasks that wait. A component is `none`
-- until the start of the application has made it.
pub record App : Type 0 where
  pub registry : Option ModelRegistry
  pub session_store : Option SessionStore
  pub persona_store : Option ProcessingStore
  pub fs : Fs
  pub db : Db
  pub background_tasks : List Uuid

-- The surroundings of a request.
pub record Host : Type 0 where
  pub env : Env
  pub settings : Settings
  -- symbolic links, and how many steps the operating system takes to resolve a path
  pub readlink : FilePath → Option PurePath
  pub fuel : ℕ
  -- whether `shutil.rmtree` succeeds
  pub rmtree_ok : Bool
  -- the nodes that it removes where it fails
  pub removable : FilePath → Bool

-- `HTTPException(404, {"code": "NOT_FOUND"})`
abbrev pub not_found : Exception
not_found = http_exception (record { status_code = 404; code = codes "NOT_FOUND"; header = none })

abbrev pub conflict : Exception
conflict = http_exception (record { status_code = 409; code = codes "CONFLICT"; header = none })

abbrev pub unavailable : Exception
unavailable =
    http_exception (record { status_code = 503; code = codes "SERVICE_UNAVAILABLE"; header = none })

abbrev pub unauthorized : Text → Exception
unauthorized code =
    http_exception (record { status_code = 401; code = code; header = some (codes "Bearer") })

-- `HTTPAuthorizationCredentials`
pub record Credentials : Type 0 where
  pub scheme : Text
  pub credentials : Text

-- `require_internal_token`; UTF-8 keeps different texts apart.
unfoldable pub require_internal_token :
    (Text → Text) → Settings → Option Credentials → Exec App (Unit {0})
require_internal_token lower settings none = throw (unauthorized (codes "MISSING_TOKEN"))
require_internal_token lower settings (some c) =
    if not (lower c.scheme == codes "bearer")
    then throw (unauthorized (codes "MISSING_TOKEN"))
    else if not (c.credentials == settings.internal_token)
    then throw (unauthorized (codes "INVALID_TOKEN"))
    else pure tt
