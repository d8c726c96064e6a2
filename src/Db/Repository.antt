-- ===== src/Db/Repository.antt =====
-- The functions of app/db/repository.py. `USE_DB_MOCK=true` works on the tables in memory. Without
-- it, a missing sessionmaker makes reads empty and writes fail; with one, each function runs its SQL
-- on PostgreSQL, which is the parameter `Postgres`.
use yeoun_ai.Base.{
  Option, none, some, List, [], ◌∷◌, ◌++◌, if◌then◌else◌, leb, ◌==◌, nat_eq, contains, list_eq,
}
use yeoun_ai.Base.Text.{Text, codes}
use yeoun_ai.Base.Uuid.{Uuid}
use yeoun_ai.Base.Dict
use yeoun_ai.Base.Exec.{Exception, runtime_error, ok, raise, Exec, ◌>>◌}
use yeoun_ai.Db.{
  PersonaStatus, PersonaRecord, InterviewAnswer, SafetyEvent, PhotoAsset, VoiceAsset, IdleClip, Db,
}

-- The statements that change the database, with their bound values.
pub data Statement : Type 0 where
  update_status : PersonaStatus → Uuid → Statement
  delete_interviews delete_photo_assets delete_voice_assets delete_idle_clips delete_persona :
      Uuid → Statement
  insert_photo_asset : PhotoAsset → Statement
  insert_voice_asset : VoiceAsset → Statement
  insert_idle_clip : IdleClip → Statement
  insert_safety_event : SafetyEvent → Statement

-- A session of SQLAlchemy on a PostgreSQL server.
pub record Postgres : Type 0 where
  pub select_persona : Uuid → Exec Db (Option PersonaRecord)
  pub select_interviews : Uuid → Exec Db (List InterviewAnswer)
  pub execute : Statement → Exec Db (Unit {0})
  -- `async with session.begin():` around a block
  pub begin : Exec Db (Unit {0}) → Exec Db (Unit {0})

pub data Backend : Type 0 where
  mock : Backend
  uninitialized : Backend
  postgres : Postgres → Backend

-- `_PII_LOG_KEYS`
abbrev pub pii_log_keys : List Text
pii_log_keys =
    codes "user_id"
    ∷ codes "persona_id"
    ∷ codes "logs_id"
    ∷ codes "photo_asset_id"
    ∷ codes "voice_asset_id"
    ∷ codes "clip_id"
    ∷ []

-- The context that `_raise_db_uninitialized` logs.
unfoldable pub safe_context : List (Text × Text) → List (Text × Text)
safe_context [] = []
safe_context ((key, value) ∷ context) =
    (key, if contains pii_log_keys key then codes "<redacted>" else value) ∷ safe_context context

abbrev pub db_uninitialized : Text → Exception
db_uninitialized func_name = runtime_error func_name

abbrev with_status : PersonaStatus → PersonaRecord → PersonaRecord
with_status status r = record r { status = status }

-- The rows of other personas.
unfoldable pub without_persona : {A : Type 0} → (A → Uuid) → Uuid → List A → List A
without_persona persona_of pid [] = []
without_persona persona_of pid (row ∷ rows) =
    let rest = without_persona persona_of pid rows in
    if persona_of row == pid then rest else row ∷ rest

unfoldable pub set_persona_status : PersonaStatus → Uuid → Db → Db
set_persona_status status pid db = elim (Dict.lookup pid db.personas) [
  | none ↦ db
  | some r ↦ record db { personas = Dict.insert pid (with_status status r) db.personas }
]

-- What each statement says, on the tables.
unfoldable pub effect : Statement → Db → Db
effect (update_status status pid) db = set_persona_status status pid db
effect (delete_interviews pid) db = record db { interviews = Dict.erase pid db.interviews }
effect (delete_photo_assets pid) db = record db {
  photo_assets = without_persona (λ (a : PhotoAsset). a.persona_id) pid db.photo_assets;
}
effect (delete_voice_assets pid) db = record db {
  voice_assets = without_persona (λ (a : VoiceAsset). a.persona_id) pid db.voice_assets;
}
effect (delete_idle_clips pid) db = record db {
  idle_clips = without_persona (λ (c : IdleClip). c.persona_id) pid db.idle_clips;
}
effect (delete_persona pid) db = record db { personas = Dict.erase pid db.personas }
effect (insert_photo_asset a) db = record db { photo_assets = db.photo_assets ++ (a ∷ []) }
effect (insert_voice_asset a) db = record db { voice_assets = db.voice_assets ++ (a ∷ []) }
effect (insert_idle_clip c) db = record db { idle_clips = db.idle_clips ++ (c ∷ []) }
effect (insert_safety_event e) db = record db { safety_logs = db.safety_logs ++ (e ∷ []) }

unfoldable pub get_persona : Backend → Uuid → Exec Db (Option PersonaRecord)
get_persona mock pid db = (ok (Dict.lookup pid db.personas), db)
get_persona uninitialized pid db = (ok none, db)
get_persona (postgres p) pid db = p.select_persona pid db

unfoldable pub update_persona_status : Backend → Uuid → PersonaStatus → Exec Db (Unit {0})
update_persona_status mock pid status db = (ok tt, set_persona_status status pid db)
update_persona_status uninitialized pid status db =
    (raise (db_uninitialized (codes "update_persona_status")), db)
update_persona_status (postgres p) pid status db = p.begin (p.execute (update_status status pid)) db

-- The five deletions, children first.
abbrev pub delete_block : Postgres → Uuid → Exec Db (Unit {0})
delete_block p pid = do
  p.execute (delete_interviews pid)
  p.execute (delete_photo_assets pid)
  p.execute (delete_voice_assets pid)
  p.execute (delete_idle_clips pid)
  p.execute (delete_persona pid)

unfoldable pub delete_persona_tx : Backend → Uuid → Exec Db (Unit {0})
delete_persona_tx mock pid db = (
  ok tt,
  record db {
    interviews = Dict.erase pid db.interviews;
    photo_assets = without_persona (λ (a : PhotoAsset). a.persona_id) pid db.photo_assets;
    voice_assets = without_persona (λ (a : VoiceAsset). a.persona_id) pid db.voice_assets;
    idle_clips = without_persona (λ (c : IdleClip). c.persona_id) pid db.idle_clips;
    personas = Dict.erase pid db.personas;
  },
)
delete_persona_tx uninitialized pid db = (raise (db_uninitialized (codes "delete_persona_tx")), db)
delete_persona_tx (postgres p) pid db = p.begin (delete_block p pid) db

-- `sorted(answers, key=lambda a: a.question_number)`, which keeps the order of equals.
unfoldable pub insert_answer : InterviewAnswer → List InterviewAnswer → List InterviewAnswer
insert_answer a [] = a ∷ []
insert_answer a (b ∷ bs) =
    let rest = insert_answer a bs in
    if leb a.question_number b.question_number then a ∷ b ∷ bs else b ∷ rest

unfoldable pub sort_answers : List InterviewAnswer → List InterviewAnswer
unfolding insert_answer
sort_answers [] = []
sort_answers (a ∷ answers) = insert_answer a (sort_answers answers)

abbrev or_nil : Option (List InterviewAnswer) → List InterviewAnswer
or_nil none = []
or_nil (some answers) = answers

unfoldable pub get_persona_interviews : Backend → Uuid → Exec Db (List InterviewAnswer)
get_persona_interviews mock pid db =
    (ok (sort_answers (or_nil (Dict.lookup pid db.interviews))), db)
get_persona_interviews uninitialized pid db = (ok [], db)
get_persona_interviews (postgres p) pid db = p.select_interviews pid db

-- The four functions that insert one row differ in the row, and in the name in the error.
abbrev insert_row : Text → Statement → Backend → Exec Db (Unit {0})
insert_row func_name st mock db = (ok tt, effect st db)
insert_row func_name st uninitialized db = (raise (db_uninitialized func_name), db)
insert_row func_name st (postgres p) db = p.begin (p.execute st) db

unfoldable pub insert_persona_photo_asset : Backend → PhotoAsset → Exec Db (Unit {0})
unfolding effect
insert_persona_photo_asset b a =
    insert_row (codes "insert_persona_photo_asset") (insert_photo_asset a) b

unfoldable pub insert_persona_voice_asset : Backend → VoiceAsset → Exec Db (Unit {0})
unfolding effect
insert_persona_voice_asset b a =
    insert_row (codes "insert_persona_voice_asset") (insert_voice_asset a) b

unfoldable pub insert_persona_idle_clip : Backend → IdleClip → Exec Db (Unit {0})
unfolding effect
insert_persona_idle_clip b c = insert_row (codes "insert_persona_idle_clip") (insert_idle_clip c) b

unfoldable pub insert_safety_log : Backend → SafetyEvent → Exec Db (Unit {0})
unfolding effect
insert_safety_log b e = insert_row (codes "insert_safety_log") (insert_safety_event e) b
