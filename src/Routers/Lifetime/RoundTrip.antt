-- ===== src/Routers/Lifetime/RoundTrip.antt =====
-- A session that is started and then ended.
use yeoun_ai.Base.{
  ◌≡◌, refl, sym, ap, ◌∙◌, Option, none, some, [], arith, if◌then◌else◌, Bool-cases, inl, inr,
  length, ◌==◌, nat_eq,
}
use mathlib.Core.Path.{subst}
use yeoun_ai.Base.Text.{Text}
use yeoun_ai.Base.Uuid.{Uuid}
use yeoun_ai.Base.Dict
use yeoun_ai.Base.Exec.{Result, ok, raise, >>=-rule}
use yeoun_ai.Db.{PersonaRecord}
use yeoun_ai.Models.Registry.{ModelRegistry}
use yeoun_ai.Sessions
use yeoun_ai.Sessions.{SessionState, SessionStore}
use yeoun_ai.Routers.{App, Host}
use yeoun_ai.Routers.Personas.{find}
use yeoun_ai.Routers.Lifetime.{
  is_ready, service_state, new_session, interviews_of, keep_session, start_found, start_in,
  start_session, end_session,
}
use yeoun_ai.Routers.Lifetime.End.{session_in, end_session-Ended}

session_in-create :
    (sid : Uuid) (session : SessionState) (store : SessionStore)
    → session.session_id ≡ sid
    → Sessions.get (Sessions.create session store) sid ≡ some session
unfolding Sessions.get Sessions.create
session_in-create sid session store e =
    ground (arith, e, Dict.lookup-insert sid session.session_id session store.sessions)

others-create :
    (sid j : Uuid) (session : SessionState) (store : SessionStore)
    → session.session_id ≡ sid
    → (if j == sid then none else Sessions.get (Sessions.create session store) j)
      ≡ (if j == sid then none else Sessions.get store j)
unfolding Sessions.get Sessions.create
others-create sid j session store e =
    ground (arith, e, Dict.lookup-insert j session.session_id session store.sessions)

module _ (host : Host) (today : Text) (user_id pid : Uuid) where
  -- What a start leaves: a new session without messages beside those that were there.
  Started : Option SessionStore → Result Uuid × App → Type 0
  Started before (ok sid, after) =
      (registry : ModelRegistry) × (store : SessionStore) × (session : SessionState) × (before
        ≡ some store)
      × (after.registry ≡ some registry)
      × (after.session_store ≡ some (Sessions.create session store))
      × (session.session_id ≡ sid)
      × (session.history ≡ [])
  Started before (raise e, after) = Unit

  start_found-Started :
      (app : App) (registry : ModelRegistry) (store : SessionStore) (o : Option PersonaRecord)
      → app.registry ≡ some registry
      → Started (some store) (start_found host today user_id pid store o app)
  unfolding Started
  start_found-Started app registry store none er = tt
  start_found-Started app registry store (some r) er = elim (Bool-cases (is_ready r.status)) [
    | inr out ↦ rw out tt
    | inl fine ↦ rw fine (
        >>=-rule (Started (some store)) (interviews_of host pid)
          (λ interviews. keep_session host store (new_session host today user_id r pid interviews))
          app (λ e. tt)
          (λ interviews. (
            registry,
            store,
            new_session host today user_id r pid interviews,
            refl,
            er,
            refl,
            refl,
            refl,
          )))
  ]

  start_in-Started :
      (app : App) (registry : Option ModelRegistry) (store : Option SessionStore)
      → app.registry ≡ registry
      → Started store (start_in host today user_id pid (service_state registry store) app)
  unfolding Started
  start_in-Started app none store er = tt
  start_in-Started app (some registry) none er = tt
  start_in-Started app (some registry) (some store) er =
      >>=-rule (Started (some store)) (find host pid) (start_found host today user_id pid store) app
        (λ e. tt) (λ o. start_found-Started (find host pid app).1 registry store o er)

  start_session-Started :
      (app : App) → Started app.session_store (start_session host today user_id pid app)
  unfolding start_session
  start_session-Started app = start_in-Started app app.registry app.session_store refl

-- The session store is as it was, and there is no session `sid`.
abbrev pub IsForgotten : Uuid → Option SessionStore → Option SessionStore → Type 0
IsForgotten sid before after =
    (j : Uuid) → session_in after j ≡ (if j == sid then none else session_in before j)

module _ (host : Host) (today : Text) (user_id pid : Uuid) where
  end_session-Started :
      (sid : Uuid) (before : Option SessionStore) (after : App)
      → Started host today user_id pid before (ok sid, after)
      → ((end_session host sid after).0 ≡ ok 0)
        × IsForgotten sid before (end_session host sid after).1.session_store
  unfolding Started
  end_session-Started sid before after (registry, store, session, eb, er, es, ei, eh) =
      let ended =
        end_session-Ended host sid after registry (Sessions.create session store) session er es
          (session_in-create sid session store ei) in
      let left =
        λ (o : Option SessionStore) (j : Uuid). (if j == sid then none else session_in o j) in
      (
        ended.0 ∙ ap (λ h. ok (length h)) eh,
        λ j.
            ended.1.sessions j
            ∙ ap (λ o. left o j) es
            ∙ others-create sid j session store ei
            ∙ ap (λ o. left o j) (sym eb),
      )

  -- If a start returns an id, ending that session is answered with no messages, and then each session
  -- is as it was before the start, except that there is none of that id.
  pub end_session-start_session :
      (sid : Uuid) (app : App)
      → (start_session host today user_id pid app).0 ≡ ok sid
      → ((end_session host sid (start_session host today user_id pid app).1).0 ≡ ok 0)
        × IsForgotten sid app.session_store
            (end_session host sid (start_session host today user_id pid app).1).1.session_store
  end_session-start_session sid app e =
      end_session-Started sid app.session_store (start_session host today user_id pid app).1 (
        subst
          (λ r.
            Started host today user_id pid app.session_store
              (r, (start_session host today user_id pid app).1))
          e (start_session-Started host today user_id pid app))
