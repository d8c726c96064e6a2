-- ===== src/Routers/Lifetime.antt =====
-- The start and the end of a session, in app/routers/sessions.py. The lock of the session, which the
-- end waits for, is free.
pub mod End
pub mod RoundTrip
use yeoun_ai.Base.{
  ℕ, Bool, true, false, not, ◌&&◌, Option, none, some, List, [], ◌∷◌, ◌++◌, if◌then◌else◌, length,
}
use yeoun_ai.Base.Text.{Text, codes}
use yeoun_ai.Base.Uuid.{Uuid, str_uuid}
use yeoun_ai.Base.Exec.{Exception, Result, ok, raise, Exec, pure, throw, ◌>>=◌}
use yeoun_ai.Fs.{FilePath, Fs, exists, rmtree, rmtree_part}
use yeoun_ai.Db.{PersonaStatus, PersonaRecord, InterviewAnswer, Db}
use yeoun_ai.Db.Repository.{get_persona_interviews}
use yeoun_ai.Models.Registry.{ModelRegistry}
use yeoun_ai.Sessions
use yeoun_ai.Sessions.{SessionState, SessionStore}
use yeoun_ai.Prompts.{build_system_prompt}
use yeoun_ai.Routers.{App, Host, not_found, conflict, unavailable}
use yeoun_ai.Routers.Personas.{find}

abbrev pub is_ready : PersonaStatus → Bool
is_ready PersonaStatus.ready = true
is_ready _ = false

-- `_service_state`: the store, if the registry is there as well.
abbrev pub service_state : Option ModelRegistry → Option SessionStore → Result SessionStore
service_state (some registry) (some store) = ok store
service_state _ _ = raise unavailable

module _ (host : Host) where
  -- The new session, with a prompt for the date `today`.
  abbrev pub new_session : Text → Uuid → PersonaRecord → Uuid → List InterviewAnswer → SessionState
  new_session today user_id record_ pid interviews = record {
    session_id = host.env.fresh 0;
    user_id = user_id;
    persona_id = pid;
    system_prompt = build_system_prompt record_ interviews today;
    started_at = host.env.now;
    last_activity_at = host.env.now;
    history = [];
  }

  abbrev pub interviews_of : Uuid → Exec App (List InterviewAnswer)
  interviews_of pid app =
      let (r, db) = get_persona_interviews host.env.backend pid app.db in
      (r, record app { db = db })

  -- The store that the request has found is the one that it changes.
  abbrev pub keep_session : SessionStore → SessionState → Exec App Uuid
  keep_session store session app =
      (ok session.session_id, record app { session_store = some (Sessions.create session store) })

  abbrev pub start_found : Text → Uuid → Uuid → SessionStore → Option PersonaRecord → Exec App Uuid
  start_found today user_id pid store none = throw not_found
  start_found today user_id pid store (some r) =
      if not (is_ready r.status)
      then throw conflict
      else (interviews_of pid >>= λ interviews.
          keep_session store (new_session today user_id r pid interviews))

  abbrev pub start_in : Text → Uuid → Uuid → Result SessionStore → Exec App Uuid
  start_in today user_id pid (raise e) = throw e
  start_in today user_id pid (ok store) = find host pid >>= start_found today user_id pid store

  unfoldable pub start_session : Text → Uuid → Uuid → Exec App Uuid
  start_session today user_id pid app =
      start_in today user_id pid (service_state app.registry app.session_store) app

  abbrev pub speak_dir : SessionState → Uuid → FilePath
  speak_dir session sid =
      host.settings.persona_dir ++ (str_uuid session.persona_id ∷ codes "speak" ∷ str_uuid sid ∷ [])

  -- `shutil.rmtree(speak_dir, ignore_errors=True)`, which removes what it can.
  abbrev pub clean_speak : FilePath → Fs → Fs
  clean_speak d fs =
      if not (exists fs d)
      then fs
      else if host.rmtree_ok
      then rmtree d fs
      else rmtree_part d host.removable fs

  abbrev pub end_found : Uuid → Option SessionState × SessionStore → Exec App ℕ
  end_found sid (none, store) app = (raise not_found, app)
  end_found sid (some ended, store) app = (
    ok (length ended.history),
    record app { session_store = some store; fs = clean_speak (speak_dir ended sid) app.fs },
  )

  abbrev pub end_in : Uuid → Result SessionStore → Exec App ℕ
  end_in sid (raise e) = throw e
  end_in sid (ok store) = end_found sid (Sessions.end_session sid store)

  unfoldable pub end_session : Uuid → Exec App ℕ
  end_session sid app = end_in sid (service_state app.registry app.session_store) app
