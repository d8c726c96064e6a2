-- ===== src/Routers/Lifetime/End.antt =====
-- What the end of a session takes away.
use mathlib.Core.Path.{ap₂, subst}
use yeoun_ai.Base.{
  ℕ, ◌≡◌, refl, sym, ap, ◌∙◌, ◌&&◌, ◌||◌, Option, none, some, [], ◌∷◌, ◌++◌, arith, if◌then◌else◌,
  length, ◌==◌, nat_eq, list_eq,
}
use yeoun_ai.Base.Text.{codes, starts_with}
use yeoun_ai.Base.Uuid.{Uuid, str_uuid}
use yeoun_ai.Base.Dict
use yeoun_ai.Base.Exec.{Result, ok}
use yeoun_ai.Fs.{FilePath, Fs, exists, lookup-rmtree, lookup-rmtree_part}
use yeoun_ai.Models.Registry.{ModelRegistry}
use yeoun_ai.Sessions
use yeoun_ai.Sessions.{SessionState, SessionStore}
use yeoun_ai.Routers.{App, Host}
use yeoun_ai.Routers.Lifetime.{
  service_state, speak_dir, clean_speak, end_in, end_found, end_session,
}

-- The session of an id in an application.
abbrev pub session_in : Option SessionStore → Uuid → Option SessionState
session_in none sid = none
session_in (some store) sid = Sessions.get store sid

module _ (host : Host) where
  -- Where the documents of the service put the media of a session.
  abbrev pub media_of : SessionState → Uuid → FilePath
  media_of session sid =
      host.settings.persona_dir ++ (str_uuid session.persona_id ∷ codes "speak" ∷ str_uuid sid ∷ [])

  -- The session is gone and no other has changed; if its directory was there, it is gone with all
  -- below it, or with what could be removed if that fails, and no other file has changed; the tables
  -- stay.
  pub record Ended (sid : Uuid) (session : SessionState) (before after : App) : Type 0 where
    pub sessions :
        (j : Uuid)
        → session_in after.session_store j
          ≡ (if j == sid then none else session_in before.session_store j)
    pub files :
        (q : FilePath)
        → Dict.lookup q after.fs ≡ (
            if exists before.fs (media_of session sid)
              && starts_with q (media_of session sid)
              && (host.rmtree_ok || host.removable q)
            then none
            else Dict.lookup q before.fs)
    pub tables : after.db ≡ before.db

  lookup-clean_speak :
      (d q : FilePath) (fs : Fs)
      → Dict.lookup q (clean_speak host d fs) ≡ (
          if exists fs d && starts_with q d && (host.rmtree_ok || host.removable q)
          then none
          else Dict.lookup q fs)
  lookup-clean_speak d q fs =
      ground (arith, lookup-rmtree d q fs, lookup-rmtree_part d q host.removable fs)

  get-end_session :
      (sid j : Uuid) (store : SessionStore)
      → Sessions.get (Sessions.end_session sid store).1 j
        ≡ (if j == sid then none else Sessions.get store j)
  unfolding Sessions.get Sessions.end_session
  get-end_session sid j store = Dict.lookup-erase j sid store.sessions

  end_session-run :
      (sid : Uuid) (app : App) (registry : ModelRegistry) (store : SessionStore)
      (session : SessionState)
      → app.registry ≡ some registry
      → app.session_store ≡ some store
      → Sessions.get store sid ≡ some session
      → end_session host sid app
        ≡ end_found host sid (some session, (Sessions.end_session sid store).1) app
  unfolding end_session Sessions.end_session Sessions.get
  end_session-run sid app registry store session er es eg =
      ap₂ (λ r s. end_in host sid (service_state r s) app) er es
      ∙ ap (λ o. end_found host sid (o, (Sessions.end_session sid store).1) app) eg

  -- Ending a session that is there returns the number of its messages, and takes it away; if
  -- its directory was there, that is gone with all below it, or, if the removal fails, with what could
  -- be removed; no other session, file or table has changed.
  pub end_session-Ended :
      (sid : Uuid) (app : App) (registry : ModelRegistry) (store : SessionStore)
      (session : SessionState)
      → app.registry ≡ some registry
      → app.session_store ≡ some store
      → Sessions.get store sid ≡ some session
      → ((end_session host sid app).0 ≡ ok (length session.history))
        × Ended sid session app (end_session host sid app).1
  end_session-Ended sid app registry store session er es eg =
      subst
        (λ (m : Result ℕ × App). (m.0 ≡ ok (length session.history)) × Ended sid session app m.1)
        (sym (end_session-run sid app registry store session er es eg))
        (
          refl,
          record {
            sessions = λ j.
                get-end_session sid j store
                ∙ ap (λ o. if j == sid then none else session_in o j) (sym es);
            files = λ q. lookup-clean_speak (speak_dir host session sid) q app.fs;
            tables = refl;
          },
        )
