-- ===== src/Fixtures.antt =====
-- A small world for the tests: concrete functions in place of the code that the program only calls.
use yeoun_ai.Base.{
  ℕ, ◌+◌, ◌≡◌, refl, true, false, ◌&&◌, Option, none, some, List, [], ◌∷◌, ◌++◌, arith,
  if◌then◌else◌, leb, ap,
}
use yeoun_ai.Base.Int.{pos}
use yeoun_ai.Base.Text.{Text, codes}
use yeoun_ai.Base.Uuid.{str_uuid}
use yeoun_ai.Base.Exec.{Exception, Result, ok, raise}
use yeoun_ai.Fs.{FilePath, Fs, file, File, get_file}
use yeoun_ai.Config.{Settings}
use yeoun_ai.Safety.Detection.{IsLower, is_hangul, every}
use yeoun_ai.Sessions.{SessionState, user, assistant}
use yeoun_ai.Db.{PersonaStatus, PersonaRecord, Db}
use yeoun_ai.Db.Repository.{mock, Postgres, effect}
use yeoun_ai.Db.Deletion.{IsPostgres}
use yeoun_ai.Models.{loaded, Vendor, ModelMessage, parts, audio}
use yeoun_ai.Pipeline.{Env}

-- `str.lower` on ASCII.
lower_char : ℕ → ℕ
lower_char c = if leb 65 c && leb c 90 then c + 32 else c

unfoldable pub lower_ascii : Text → Text
unfolding lower_char
lower_ascii [] = []
lower_ascii (c ∷ s) = lower_char c ∷ lower_ascii s

lower_ascii-hangul :
    (k b : Text) → every is_hangul k ≡ true → lower_ascii (k ++ b) ≡ k ++ lower_ascii b
unfolding lower_ascii lower_char
lower_ascii-hangul [] b h = refl
lower_ascii-hangul (c ∷ k) b h = ground (arith, lower_ascii-hangul k b)

lower_ascii-around :
    (a k b : Text)
    → every is_hangul k ≡ true
    → lower_ascii (a ++ (k ++ b)) ≡ lower_ascii a ++ (k ++ lower_ascii b)
unfolding lower_ascii
lower_ascii-around [] k b h = lower_ascii-hangul k b h
lower_ascii-around (c ∷ a) k b h = ap (λ s. lower_char c ∷ s) (lower_ascii-around a k b h)

pub IsLower-lower_ascii : IsLower lower_ascii
unfolding lower_ascii
IsLower-lower_ascii = record {
  lower_nil = refl;
  lower_around = λ a k b h _. lower_ascii-around a k b h;
}

-- An audio file of the tests holds what is said in it. The ids of a text are its code points, and
-- the answer repeats the input.
abbrev content_or_nil : Option File → Text
content_or_nil none = []
content_or_nil (some f) = f.content

abbrev heard : Fs → List ModelMessage → Text
heard fs [] = []
heard fs (m ∷ ms) = elim m.content [
  | parts (audio p ∷ _) ↦ content_or_nil (get_file fs p)
  | _ ↦ heard fs ms
]

abbrev pub vendor : Vendor
vendor = record {
  load_processor = λ path. ok tt;
  load_llm = λ path. ok tt;
  load_tts = λ path. ok tt;
  apply_chat_template = λ fs ms. ok (heard fs ms);
  generate = λ inputs n. ok (inputs ++ inputs);
  decode = λ ids. ids;
  generate_stream = λ inputs n. (codes "그래" ∷ codes ", 왔니" ∷ [], none);
  tts_generate = λ fs text ref_audio ref_text. ok (1 ∷ 2 ∷ []);
  empty_cache_llm = ok tt;
  empty_cache_tts = ok tt;
  silent_wav = λ n rate. 0 ∷ [];
  inference = λ fs image audio target.
      ok (record { returncode = pos 0; stderr = []; output = some (7 ∷ []); tmp_output = none });
}

abbrev pub persona_dir : FilePath
persona_dir = codes "var" ∷ codes "persona" ∷ []

abbrev pub env : Env
env = record {
  persona_dir = persona_dir;
  backend = mock;
  vendor = vendor;
  llm = record {
    bf16_path = some (codes "m");
    gpu_enabled = true;
    gpu_max_memory = [];
    cpu_max_memory = [];
    status = loaded;
    model = true;
    processor = true;
  };
  tts = record { model_path = some (codes "t"); gpu_enabled = true; status = loaded; model = true };
  ditto = record {
    vendor_dir = some (codes "ditto" ∷ []);
    data_root = some (codes "data" ∷ []);
    cfg_pkl = some (codes "cfg.pkl" ∷ []);
    gpu_enabled = true;
    status = loaded;
  };
  disk = λ p. none;
  now = 100;
  fresh = λ n. 1000 + n;
  temp_path = λ n. codes "tmp" ∷ codes "s.wav" ∷ [];
  ffmpeg = λ fs voice ref. ok (record { returncode = pos 0; stderr = []; output = some (5 ∷ []) });
  mkdir_stops = λ p. none;
  wave_open = λ content. ok (32_000, 16_000);
  lower = lower_ascii;
}

-- A persona with a photo, a voice and a voice reference; an audio file of the user.
abbrev pub root : FilePath
root = persona_dir ++ (str_uuid 7 ∷ [])

abbrev pub audio_path : FilePath
audio_path = codes "tmp" ∷ codes "msg.wav" ∷ []

abbrev pub fs_with : Text → Fs
fs_with said =
    (audio_path, file (record { content = said; mtime = 1 }))
    ∷ (root ++ (codes "photo" ∷ codes "p.jpg" ∷ []), file (record { content = 3 ∷ []; mtime = 2 }))
    ∷ (
      root ++ (codes "voice_ref" ∷ codes "ref_audio.wav" ∷ []),
      file (record { content = 4 ∷ []; mtime = 3 }),
    )
    ∷ (
      root ++ (codes "voice_ref" ∷ codes "ref_text.txt" ∷ []),
      file (record { content = codes "안녕"; mtime = 4 }),
    )
    ∷ []

abbrev pub persona : PersonaRecord
persona = record {
  personas_id = 7;
  owner_user_id = 3;
  name = codes "영희";
  nickname = codes "할머니";
  status = PersonaStatus.draft;
  created_at = 1;
}

abbrev pub db : Db
db = record {
  personas = (7, persona) ∷ [];
  interviews = [];
  safety_logs = [];
  photo_assets = record { photo_asset_id = 1; persona_id = 7; filesystem_path = [] } ∷ [];
  voice_assets = [];
  idle_clips =
      record { clip_id = 2; persona_id = 8; sequence_order = 0; filesystem_path = [] } ∷ [];
}

abbrev pub session : SessionState
session = record {
  session_id = 9;
  user_id = 3;
  persona_id = 7;
  system_prompt = codes "p";
  started_at = 10;
  last_activity_at = 20;
  history =
      record { role = user; text = codes "할머니"; created_at = 15 }
      ∷ record { role = assistant; text = codes "오냐"; created_at = 15 }
      ∷ [];
}

-- PostgreSQL whose statements never fail; a transaction around a block that raises is undone.
abbrev rolled_back : Db → Result (Unit {0}) × Db → Result (Unit {0}) × Db
rolled_back before (ok _, after) = (ok tt, after)
rolled_back before (raise e, after) = (raise e, before)

abbrev pub server : Postgres
server = record {
  select_persona = λ pid db. (ok none, db);
  select_interviews = λ pid db. (ok [], db);
  execute = λ st db. (ok tt, effect st db);
  begin = λ m db. rolled_back db (m db);
}

commits :
    (before : Db) (m : Result (Unit {0}) × Db)
    → (rolled_back before m).0 ≡ ok tt
    → (m.0 ≡ ok tt) × ((rolled_back before m).1 ≡ m.1)
commits before (ok tt, after) h = (refl, refl)
commits before (raise e, after) h = cc

undoes :
    (before : Db) (m : Result (Unit {0}) × Db) (e : Exception)
    → (rolled_back before m).0 ≡ raise e
    → (rolled_back before m).1 ≡ before
undoes before (ok tt, after) e h = cc
undoes before (raise x, after) e h = refl

pub IsPostgres-server : IsPostgres server
IsPostgres-server = record {
  executes = λ st db h. refl;
  commits = λ m db h. commits db (m db) h;
  rolls_back = λ m db e h. undoes db (m db) e h;
}

abbrev pub settings : Settings
settings = record {
  internal_token = codes "secret";
  database_url = [];
  use_db_mock = true;
  models_dir = codes "models" ∷ [];
  persona_dir = persona_dir;
  hf_home = codes "models" ∷ codes "hf-cache" ∷ [];
  gpu_enabled = false;
  llm_bf16_path = none;
  llm_gpu_max_memory = [];
  llm_cpu_max_memory = [];
  tts_model_path = none;
  ditto_vendor_dir = none;
  ditto_data_root = none;
  ditto_cfg_pkl = none;
  max_upload_bytes = 8;
  log_level = codes "INFO";
}
