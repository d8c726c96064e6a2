-- ===== src/Config/Tests.antt =====
-- An environment with a token alone, and one with a limit of 0.
use yeoun_ai.Base.{◌≡◌, refl, ℕ, none, some}
use yeoun_ai.Base.Int.{pos}
use yeoun_ai.Base.Text.{codes}
use yeoun_ai.Base.Exec.{Result, ok, raise}
use yeoun_ai.Config.{Settings, Given, invalid, new_settings}

abbrev bare : Given
bare = record {
  internal_token = some (codes "secret");
  database_url = none;
  use_db_mock = none;
  models_dir = none;
  persona_dir = none;
  hf_home = none;
  gpu_enabled = none;
  llm_bf16_path = none;
  llm_gpu_max_memory = none;
  llm_cpu_max_memory = none;
  tts_model_path = none;
  ditto_vendor_dir = none;
  ditto_data_root = none;
  ditto_cfg_pkl = none;
  max_upload_bytes = none;
  log_level = none;
}

abbrev limit_of : Result Settings → Result ℕ
limit_of (ok s) = ok s.max_upload_bytes
limit_of (raise e) = raise e

limit_run :
    (limit_of (new_settings bare) ≡ ok 52428800)
    × (limit_of (new_settings (record bare { max_upload_bytes = some (pos 0) }))
        ≡ raise (invalid (codes "max_upload_bytes")))
    × (limit_of (new_settings (record bare { internal_token = none }))
        ≡ raise (invalid (codes "internal_token")))
unfolding new_settings
limit_run = (refl, refl, refl)
