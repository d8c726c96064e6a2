-- ===== src/Models/OmniVoice.antt =====
-- app/models/tts_omnivoice.py
use yeoun_ai.Base.{ℕ, Bool, true, false, not, Option, none, some, if◌then◌else◌}
use yeoun_ai.Base.Text.{Text, codes}
use yeoun_ai.Base.Exec.{
  runtime_error, cancelled_error, Result, ok, raise, Exec, throw, lift, gets, modify, ◌>>=◌, ◌>>◌,
}
use yeoun_ai.Fs.{FilePath, Fs, Disk, mkdir, parent, write_bytes}
use yeoun_ai.Models.{Status, not_loaded, loading, loaded, error, Vendor}
use yeoun_ai.Models.Gemma.{non_empty_path}

pub record OmniVoiceTts : Type 0 where
  pub model_path : Option Text
  pub gpu_enabled : Bool
  pub status : Status
  -- whether `_model` is set
  pub model : Bool

-- `OmniVoiceTTS(...)`
abbrev pub new_omnivoice : Option Text → Bool → OmniVoiceTts
new_omnivoice model_path gpu_enabled = record {
  model_path = model_path;
  gpu_enabled = gpu_enabled;
  status = not_loaded;
  model = false;
}

-- `except Exception`, as in the LLM; `_load_model` sets the model last.
abbrev load_result : Result (Unit {0}) → Exec OmniVoiceTts (Unit {0})
load_result (ok _) tts = (ok tt, record tts { status = loaded; model = true })
load_result (raise cancelled_error) tts = (raise cancelled_error, tts)
load_result (raise e) tts = (raise e, record tts { status = error })

load_path : Vendor → Option Text → Exec OmniVoiceTts (Unit {0})
load_path vendor none tts =
    (raise (runtime_error (codes "TTS_MODEL_PATH")), record tts { status = error })
load_path vendor (some path) tts = load_result (vendor.load_tts path) tts

unfoldable pub load : Vendor → Exec OmniVoiceTts (Unit {0})
unfolding load_path
load vendor tts =
    if not tts.gpu_enabled
    then (ok tt, record tts { status = loaded })
    else load_path vendor (non_empty_path tts.model_path) (record tts { status = loading })

unfoldable pub unload : Vendor → Exec OmniVoiceTts (Unit {0})
unload vendor tts =
    if not tts.gpu_enabled
    then (ok tt, record tts { status = not_loaded })
    else (vendor.empty_cache_tts, record tts { status = not_loaded; model = false })

-- `_SAMPLE_RATE`; one second of silence has as many samples.
abbrev pub sample_rate : ℕ
sample_rate = 24_000

-- `_write_silent_wav`
write_silent_wav : Vendor → Disk → ℕ → FilePath → Exec Fs (Unit {0})
write_silent_wav vendor disk now target = do
  modify (mkdir (parent target))
  write_bytes disk now target (vendor.silent_wav sample_rate sample_rate)

-- `_run_synthesize`
run_synthesize : Vendor → Disk → ℕ → Text → FilePath → Text → FilePath → Exec Fs (Unit {0})
run_synthesize vendor disk now text ref_audio_path ref_text target = do
  modify (mkdir (parent target))
  fs ← gets (λ fs. fs)
  audio ← lift (vendor.tts_generate fs text ref_audio_path ref_text)
  write_bytes disk now target audio

unfoldable pub synthesize :
    Vendor → OmniVoiceTts → Disk → ℕ → Text → FilePath → Text → FilePath → Exec Fs (Unit {0})
unfolding write_silent_wav run_synthesize
synthesize vendor tts disk now text ref_audio_path ref_text output_path =
    if not tts.gpu_enabled
    then write_silent_wav vendor disk now output_path
    else if not tts.model
    then throw (runtime_error (codes "OmniVoiceTTS 가 로드되지 않았습니다."))
    else run_synthesize vendor disk now text ref_audio_path ref_text output_path
