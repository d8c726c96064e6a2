-- ===== src/Routers/Answers.antt =====
-- The JSON bodies of app/schemas/session.py and app/schemas/persona.py, and the routes with the
-- envelope around what they answer.
use yeoun_ai.Base.{ℕ, ◌≡◌, refl, List}
use yeoun_ai.Base.Text.{Text}
use yeoun_ai.Base.Uuid.{Uuid}
use yeoun_ai.Base.Exec.{ok, Exec, pure, ◌>>=◌}
use yeoun_ai.Schemas
use yeoun_ai.Schemas.{Envelope}
use yeoun_ai.Routers.{App, Host}
use yeoun_ai.Routers.Lifetime.{start_session, end_session}
use yeoun_ai.Routers.Clips.{IdleClipMeta, get_idle_clips}

pub record SessionStartRequest : Type 0 where
  pub user_id : Uuid
  pub persona_id : Uuid

pub record SessionStartData : Type 0 where
  pub session_id : Uuid

pub record SessionEndData : Type 0 where
  pub session_id : Uuid
  pub cleaned_messages : ℕ

pub record IdleClipsData : Type 0 where
  pub persona_id : Uuid
  pub clips : List IdleClipMeta

module _ (host : Host) where
  -- `POST /internal/sessions/start`
  unfoldable pub post_start : Text → SessionStartRequest → Exec App (Envelope SessionStartData)
  post_start today body = do
    session_id ← start_session host today body.user_id body.persona_id
    pure (Schemas.ok (record { session_id = session_id }))

  -- `POST /internal/sessions/{session_id}/end`
  unfoldable pub post_end : Uuid → Exec App (Envelope SessionEndData)
  post_end session_id = do
    cleaned ← end_session host session_id
    pure (Schemas.ok (record { session_id = session_id; cleaned_messages = cleaned }))

  -- `GET /internal/personas/{persona_id}/idle-clips`
  unfoldable pub get_clips : Uuid → Exec App (Envelope IdleClipsData)
  get_clips persona_id = do
    clips ← get_idle_clips host persona_id
    pure (Schemas.ok (record { persona_id = persona_id; clips = clips }))

  -- The envelope of an end names the session that was to be ended.
  post_end-ok :
      (session_id : Uuid) (app app' : App) (n : ℕ)
      → end_session host session_id app ≡ (ok n, app')
      → post_end session_id app
        ≡ (ok (Schemas.ok (record { session_id = session_id; cleaned_messages = n })), app')
  unfolding post_end
  post_end-ok session_id app app' n e = rw e refl
