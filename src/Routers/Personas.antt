-- ===== src/Routers/Personas.antt =====
-- app/routers/personas.py: the start of the pipeline, its status, and the deletion.
pub mod Deletion
pub mod Starts
mod Tests
use yeoun_ai.Base.{
  ℕ, Bool, true, false, not, ◌||◌, Option, none, some, List, [], ◌∷◌, ◌++◌, if◌then◌else◌,
}
use yeoun_ai.Base.Text.{Text, codes}
use yeoun_ai.Base.Uuid.{Uuid, str_uuid}
use yeoun_ai.Base.Exec.{
  Exception, http, cancelled_error, is_os_error, Result, ok, raise, Exec, pure, throw, ◌>>=◌,
}
use yeoun_ai.Fs.{Fs}
use yeoun_ai.Storage.Resolve.{safe_rmtree}
use yeoun_ai.Db.{PersonaStatus, PersonaRecord, Db}
use yeoun_ai.Db.Repository.{get_persona, delete_persona_tx}
use yeoun_ai.Creation
use yeoun_ai.Creation.{ProcessingStep, ready, failed, ProcessingState, ProcessingStore}
use yeoun_ai.Models.Registry.{ModelRegistry}
use yeoun_ai.Routers.{App, Host, not_found, conflict, unavailable}

-- `step not in (READY, FAILED)`
abbrev pub is_running : ProcessingStep → Bool
is_running ready = false
is_running failed = false
is_running _ = true

-- `state is not None and state.step not in (READY, FAILED)`
abbrev pub in_progress : Option ProcessingState → Bool
in_progress none = false
in_progress (some state) = is_running state.step

-- `record.status in ("PROCESSING", "READY")`
abbrev pub is_taken : PersonaStatus → Bool
is_taken PersonaStatus.processing = true
is_taken PersonaStatus.ready = true
is_taken _ = false

abbrev pub is_processing : PersonaStatus → Bool
is_processing PersonaStatus.processing = true
is_processing _ = false

-- The tests of `start_processing` on the record, and the new task.
abbrev pub add_task : Uuid → ProcessingStore → Option PersonaRecord → Exec App (Unit {0})
add_task pid store none app = (raise not_found, app)
add_task pid store (some r) app =
    if in_progress (Creation.get store pid) || is_taken r.status
    then (raise conflict, app)
    else (ok tt, record app { background_tasks = app.background_tasks ++ (pid ∷ []) })

-- `PersonaStatusData`
pub record PersonaStatusData : Type 0 where
  pub status : PersonaStatus
  pub step : Option ProcessingStep
  pub error_reason : Option Text

abbrev pub status_data : PersonaRecord → Option ProcessingState → PersonaStatusData
status_data r none = record { status = r.status; step = none; error_reason = none }
status_data r (some state) = record {
  status = r.status;
  step = some state.step;
  error_reason = state.error_reason;
}

abbrev pub state_in : Option ProcessingStore → Uuid → Option ProcessingState
state_in none pid = none
state_in (some store) pid = Creation.get store pid

-- `HTTPException(500, ...)`
abbrev pub fs_delete_failed : Exception
fs_delete_failed = http 500 (codes "FS_DELETE_FAILED")

abbrev pub db_delete_failed : Exception
db_delete_failed = http 500 (codes "DB_DELETE_FAILED")

-- The answer of the tables: every exception but a cancellation becomes a 500.
abbrev pub after_tables : App → Result (Unit {0}) × Db → Result (Unit {0}) × App
after_tables app (ok _, db) = (ok tt, record app { db = db })
after_tables app (raise cancelled_error, db) = (raise cancelled_error, record app { db = db })
after_tables app (raise e, db) = (raise db_delete_failed, record app { db = db })

module _ (host : Host) where
  abbrev pub find : Uuid → Exec App (Option PersonaRecord)
  find pid app =
      let (r, db) = get_persona host.env.backend pid app.db in (r, record app { db = db })

  start_with : Uuid → Option ModelRegistry → Option ProcessingStore → Exec App (Unit {0})
  start_with pid (some registry) (some store) = find pid >>= add_task pid store
  start_with pid _ _ = throw unavailable

  unfoldable pub start_processing : Uuid → Exec App (Unit {0})
  unfolding start_with
  start_processing pid app = start_with pid app.registry app.persona_store app

  abbrev answer_status : Uuid → Option PersonaRecord → Exec App PersonaStatusData
  answer_status pid none app = (raise not_found, app)
  answer_status pid (some r) app = (ok (status_data r (state_in app.persona_store pid)), app)

  unfoldable pub get_status : Uuid → Exec App PersonaStatusData
  get_status pid = find pid >>= answer_status pid

  -- The files first: if they cannot be removed, the tables stay.
  unfoldable pub after_files : Uuid → App → Result Bool × Fs → Result (Unit {0}) × App
  after_files pid app (ok deleted, fs) =
      after_tables (record app { fs = fs }) (delete_persona_tx host.env.backend pid app.db)
  after_files pid app (raise e, fs) =
      (raise (if is_os_error e then fs_delete_failed else e), record app { fs = fs })

  unfoldable pub delete_found : Uuid → Option PersonaRecord → Exec App (Unit {0})
  delete_found pid none app = (raise not_found, app)
  delete_found pid (some r) app =
      if is_processing r.status
      then (raise conflict, app)
      else after_files pid app (
          safe_rmtree host.readlink host.fuel host.rmtree_ok host.removable
            host.settings.persona_dir (str_uuid pid ∷ []) app.fs)

  unfoldable pub delete_persona : Uuid → Exec App (Unit {0})
  delete_persona pid = find pid >>= delete_found pid
