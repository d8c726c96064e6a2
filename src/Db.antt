-- ===== src/Db.antt =====
-- app/db/models.py and the tables of app/db/repository.py: the in-memory mock keeps them in dicts and
-- lists; the columns are those of the ERD, misspelled ones included. Times are ticks.
pub mod Repository
pub mod Mock
pub mod Deletion
pub mod Engine
mod Tests
use yeoun_ai.Base.{ℕ, Option, List, []}
use yeoun_ai.Base.Text.{Text}
use yeoun_ai.Base.Uuid.{Uuid}
use yeoun_ai.Base.Dict.{Dict}

-- `personas_status_check`
pub data PersonaStatus : Type 0 where
  draft processing ready failed : PersonaStatus

pub record PersonaRecord : Type 0 where
  pub personas_id : Uuid
  pub owner_user_id : Uuid
  pub name : Text
  pub nickname : Text
  pub status : PersonaStatus
  pub created_at : ℕ

pub record InterviewAnswer : Type 0 where
  pub interview_id : Uuid
  pub persona_id : Uuid
  pub question_number : ℕ
  pub answer_text : Option Text
  pub created_at : ℕ

pub record SafetyEvent : Type 0 where
  pub logs_id : Uuid
  pub user_id : Uuid
  pub event_type : Option Text
  pub action_katen : Option Text
  pub deceted_at : Option ℕ
  pub cooldown_ended_at : Option ℕ

pub record PhotoAsset : Type 0 where
  pub photo_asset_id : Uuid
  pub persona_id : Uuid
  pub filesystem_path : List Text

pub record VoiceAsset : Type 0 where
  pub voice_asset_id : Uuid
  pub persona_id : Uuid
  pub original_name : Text
  pub filesystem_path : List Text

pub record IdleClip : Type 0 where
  pub clip_id : Uuid
  pub persona_id : Uuid
  pub sequence_order : ℕ
  pub filesystem_path : List Text

pub record Db : Type 0 where
  pub personas : Dict Uuid PersonaRecord
  pub interviews : Dict Uuid (List InterviewAnswer)
  pub safety_logs : List SafetyEvent
  pub photo_assets : List PhotoAsset
  pub voice_assets : List VoiceAsset
  pub idle_clips : List IdleClip

-- After `_reset_mock`
abbrev pub empty_db : Db
empty_db = record {
  personas = [];
  interviews = [];
  safety_logs = [];
  photo_assets = [];
  voice_assets = [];
  idle_clips = [];
}
