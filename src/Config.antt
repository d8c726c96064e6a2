-- ===== src/Config.antt =====
-- app/config.py: the settings, and `get_settings`. What pydantic reads for the fields from the
-- environment and `.env` is a parameter; a directory is given as a path.
pub mod Cached
mod Tests
use yeoun_ai.Base.{
  ℕ, zero, suc, ◌*◌, ◌≤◌, ◌≡◌, refl, arith, Bool, true, false, Option, none, some, List, [], ◌∷◌,
  All,
}
use yeoun_ai.Base.Int.{ℤ, pos, negsuc}
use yeoun_ai.Base.Text.{Text, codes}
use yeoun_ai.Base.Exec.{Exception, other_error, Result, ok, raise, Exec}
use yeoun_ai.Fs.{FilePath}

pub record Settings : Type 0 where
  pub internal_token : Text
  pub database_url : Text
  pub use_db_mock : Bool
  pub models_dir : FilePath
  pub persona_dir : FilePath
  pub hf_home : FilePath
  pub gpu_enabled : Bool
  pub llm_bf16_path : Option Text
  pub llm_gpu_max_memory : Text
  pub llm_cpu_max_memory : Text
  pub tts_model_path : Option Text
  pub ditto_vendor_dir : Option FilePath
  pub ditto_data_root : Option FilePath
  pub ditto_cfg_pkl : Option FilePath
  pub max_upload_bytes : ℕ
  pub log_level : Text

-- The values that are given; `none` where a field has none.
pub record Given : Type 0 where
  pub internal_token : Option Text
  pub database_url : Option Text
  pub use_db_mock : Option Bool
  pub models_dir : Option FilePath
  pub persona_dir : Option FilePath
  pub hf_home : Option FilePath
  pub gpu_enabled : Option Bool
  pub llm_bf16_path : Option Text
  pub llm_gpu_max_memory : Option Text
  pub llm_cpu_max_memory : Option Text
  pub tts_model_path : Option Text
  pub ditto_vendor_dir : Option FilePath
  pub ditto_data_root : Option FilePath
  pub ditto_cfg_pkl : Option FilePath
  pub max_upload_bytes : Option ℤ
  pub log_level : Option Text

abbrev pub or_default {ℓ} : {A : Type ℓ} → A → Option A → A
or_default a none = a
or_default a (some b) = b

abbrev pub invalid : Text → Exception
invalid field = other_error (codes "ValidationError") field

-- The fields, once the two that are checked have their values.
abbrev filled : Given → Text → ℕ → Settings
filled g internal_token max_upload_bytes = record {
  internal_token = internal_token;
  database_url = or_default [] g.database_url;
  use_db_mock = or_default false g.use_db_mock;
  models_dir = or_default (codes "models" ∷ []) g.models_dir;
  persona_dir = or_default (codes "var" ∷ codes "persona" ∷ []) g.persona_dir;
  hf_home = or_default (codes "models" ∷ codes "hf-cache" ∷ []) g.hf_home;
  gpu_enabled = or_default true g.gpu_enabled;
  llm_bf16_path = g.llm_bf16_path;
  llm_gpu_max_memory = or_default (codes "12GB") g.llm_gpu_max_memory;
  llm_cpu_max_memory = or_default (codes "32GB") g.llm_cpu_max_memory;
  tts_model_path = g.tts_model_path;
  ditto_vendor_dir = g.ditto_vendor_dir;
  ditto_data_root = g.ditto_data_root;
  ditto_cfg_pkl = g.ditto_cfg_pkl;
  max_upload_bytes = max_upload_bytes;
  log_level = or_default (codes "INFO") g.log_level;
}

-- `Field(..., ge=1)`
abbrev at_least_one : Given → Text → ℤ → Result Settings
at_least_one g token (pos zero) = raise (invalid (codes "max_upload_bytes"))
at_least_one g token (pos (suc n)) = ok (filled g token (suc n))
at_least_one g token (negsuc n) = raise (invalid (codes "max_upload_bytes"))

abbrev with_token : Given → Option Text → Result Settings
with_token g none = raise (invalid (codes "internal_token"))
with_token g (some token) =
    at_least_one g token (or_default (pos (50 * 1024 * 1024)) g.max_upload_bytes)

-- `Settings()`
unfoldable pub new_settings : Given → Result Settings
new_settings g = with_token g g.internal_token

-- `get_settings`: `lru_cache` keeps the first settings that are made, and no exception.
abbrev cached : Result Settings → Result Settings × Option Settings
cached (ok s) = (ok s, some s)
cached (raise e) = (raise e, none)

unfoldable pub get_settings : Given → Exec (Option Settings) Settings
get_settings g (some s) = (ok s, some s)
get_settings g none = cached (new_settings g)

-- One call after another, each with what is given at that time.
unfoldable pub get_all : List Given → Option Settings → List (Result Settings)
get_all [] c = []
get_all (g ∷ gs) c = let (r, d) = get_settings g c in r ∷ get_all gs d
