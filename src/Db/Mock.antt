-- ===== src/Db/Mock.antt =====
-- The helpers `mock_seed_…` and `mock_get_…` of app/db/repository.py, on the tables in memory.
use yeoun_ai.Base.{◌≡◌, ap, some, List, nat_eq, arith}
use yeoun_ai.Base.Text.{Text, codes}
use yeoun_ai.Base.Uuid.{Uuid}
use yeoun_ai.Base.Dict
use yeoun_ai.Base.Exec.{runtime_error, ok, Exec, throw, gets, modify}
use yeoun_ai.Db.{PersonaRecord, InterviewAnswer, SafetyEvent, PhotoAsset, VoiceAsset, IdleClip, Db}
use yeoun_ai.Db.Repository.{Backend, mock, get_persona, get_persona_interviews, sort_answers}

-- `if not get_settings().use_db_mock: raise RuntimeError(...)`
abbrev only_mock : {A : Type 0} → Text → Backend → Exec Db A → Exec Db A
only_mock func_name mock body = body
only_mock func_name _ body = throw (runtime_error func_name)

unfoldable pub mock_seed_persona : Backend → PersonaRecord → Exec Db (Unit {0})
mock_seed_persona backend r =
    only_mock (codes "mock_seed_persona") backend
      (modify (λ db. record db { personas = Dict.insert r.personas_id r db.personas }))

unfoldable pub mock_seed_interviews : Backend → Uuid → List InterviewAnswer → Exec Db (Unit {0})
mock_seed_interviews backend pid answers =
    only_mock (codes "mock_seed_interviews") backend
      (modify (λ db. record db { interviews = Dict.insert pid answers db.interviews }))

unfoldable pub mock_get_safety_logs : Backend → Exec Db (List SafetyEvent)
mock_get_safety_logs backend =
    only_mock (codes "mock_get_safety_logs") backend (gets (λ db. db.safety_logs))

unfoldable pub mock_get_photo_assets : Backend → Exec Db (List PhotoAsset)
mock_get_photo_assets backend =
    only_mock (codes "mock_get_photo_assets") backend (gets (λ db. db.photo_assets))

unfoldable pub mock_get_voice_assets : Backend → Exec Db (List VoiceAsset)
mock_get_voice_assets backend =
    only_mock (codes "mock_get_voice_assets") backend (gets (λ db. db.voice_assets))

unfoldable pub mock_get_idle_clips : Backend → Exec Db (List IdleClip)
mock_get_idle_clips backend =
    only_mock (codes "mock_get_idle_clips") backend (gets (λ db. db.idle_clips))

-- A persona that is seeded is read back.
get_persona-mock_seed_persona :
    (r : PersonaRecord) (db : Db)
    → (get_persona mock r.personas_id (mock_seed_persona mock r db).1).0 ≡ ok (some r)
unfolding get_persona mock_seed_persona
get_persona-mock_seed_persona r db =
    ap ok (ground (arith, Dict.lookup-insert r.personas_id r.personas_id r db.personas))

-- Answers that are seeded are read back in their order.
get_persona_interviews-mock_seed_interviews :
    (pid : Uuid) (answers : List InterviewAnswer) (db : Db)
    → (get_persona_interviews mock pid (mock_seed_interviews mock pid answers db).1).0
      ≡ ok (sort_answers answers)
unfolding get_persona_interviews mock_seed_interviews
get_persona_interviews-mock_seed_interviews pid answers db =
    ground (arith, Dict.lookup-insert pid pid answers db.interviews)
