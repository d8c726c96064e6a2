-- ===== src/Routers/Health.antt =====
-- app/routers/health.py; the reply of the database is the result of its ping, which is an exception
-- when it takes too long.
use yeoun_ai.Base.{
  ℕ, ◌≡◌, refl, ap, ◌∙◌, Bool, true, false, Option, none, some, ◌&&◌, ◌-◌, if◌then◌else◌,
}
use yeoun_ai.Base.Exec.{Exception, cancelled_error, Result, ok, raise}
use yeoun_ai.Config.{Settings}
use yeoun_ai.Fs.{Fs}
use yeoun_ai.Models.{Status, not_loaded, loaded, Vendor}
use yeoun_ai.Models.Registry.{
  ModelRegistry, start, llm_status, tts_status, ditto_status, start-loaded,
}
use yeoun_ai.Sessions.{SessionStore, count}
use yeoun_ai.Routers.{App}

pub data HealthStatus : Type 0 where
  healthy degraded starting : HealthStatus

pub record ModelStatus : Type 0 where
  pub llm : Status
  pub tts : Status
  pub ditto : Status

pub record HealthData : Type 0 where
  pub status : HealthStatus
  pub uptime : ℕ
  pub models : ModelStatus
  pub sessions : ℕ
  pub gpu_enabled : Bool
  pub db_ok : Bool

-- `_measure_db_status`: every exception but a cancellation is an error of the database.
abbrev pub measure_db_status : Result (Unit {0}) → Result Bool
measure_db_status (ok _) = ok true
measure_db_status (raise cancelled_error) = raise cancelled_error
measure_db_status (raise _) = ok false

abbrev pub is_loaded : Status → Bool
is_loaded loaded = true
is_loaded _ = false

abbrev pub models_of : Option ModelRegistry → ModelStatus
models_of none = record { llm = not_loaded; tts = not_loaded; ditto = not_loaded }
models_of (some r) = record { llm = llm_status r; tts = tts_status r; ditto = ditto_status r }

abbrev pub status_value : Option ℕ → Bool → ModelStatus → HealthStatus
status_value none db_ok models = degraded
status_value (some started_at) false models = degraded
status_value (some started_at) true models =
    if is_loaded models.llm && is_loaded models.tts then healthy else starting

-- `max(0.0, time.time() - started_at)`
abbrev pub uptime_of : Option ℕ → ℕ → ℕ
uptime_of none now = 0
uptime_of (some started_at) now = now - started_at

abbrev pub session_count : Option SessionStore → ℕ
session_count none = 0
session_count (some store) = count store

-- From the status of the database on.
abbrev pub health_data : Settings → ℕ → Option ℕ → App → Bool → HealthData
health_data settings now started_at app db_ok =
    let models = models_of app.registry in
    record {
      status = status_value started_at db_ok models;
      uptime = uptime_of started_at now;
      models = models;
      sessions = session_count app.session_store;
      gpu_enabled = settings.gpu_enabled;
      db_ok = db_ok;
    }

abbrev with_status : (Bool → HealthData) → Result Bool → Result HealthData
with_status data_of (ok db_ok) = ok (data_of db_ok)
with_status data_of (raise e) = raise e

unfoldable pub health : Settings → ℕ → Option ℕ → Result (Unit {0}) → App → Result HealthData
health settings now started_at ping app =
    with_status (health_data settings now started_at app) (measure_db_status ping)

-- The status that the route answers with, if it answers.
abbrev pub status_of : Result HealthData → Option HealthStatus
status_of (ok d) = some d.status
status_of (raise e) = none

-- What the route says of a database whose ping ended with the exception.
abbrev pub without_db : Exception → Option HealthStatus
without_db cancelled_error = none
without_db _ = some degraded

-- When the start of the models has returned, a started application is healthy if the database replies
-- and degraded if it does not; a request that is cancelled has no answer.
pub health-start :
    (vendor : Vendor) (settings : Settings) (fs : Fs) (r : ModelRegistry) (app : App)
    (started_at now : ℕ)
    → (start vendor settings fs r).0 ≡ ok tt
    → app.registry ≡ some (start vendor settings fs r).1
    → (status_of (health settings now (some started_at) (ok tt) app) ≡ some healthy)
      × ((e : Exception)
          → status_of (health settings now (some started_at) (raise e) app) ≡ without_db e)
unfolding health
health-start vendor settings fs r app started_at now h eq =
    let l = start-loaded vendor settings fs r h in
    (
      ap some (
          ap (λ o. status_value (some started_at) true (models_of o)) eq
          ∙ ap
              (λ s.
                if is_loaded s && is_loaded (tts_status (start vendor settings fs r).1)
                then healthy
                else starting)
              l.0
          ∙ ap (λ s. if is_loaded s then healthy else starting) l.1),
      down,
    )
  where
    down :
        (e : Exception)
        → status_of (health settings now (some started_at) (raise e) app) ≡ without_db e
    down cancelled_error = refl
    down _ = refl
