-- ===== src/Models/Gemma.antt =====
-- app/models/llm_gemma.py
use yeoun_ai.Base.{
  ℕ, length, drop, Bool, true, false, not, ◌||◌, Option, none, some, List, [], ◌∷◌, ◌++◌,
  if◌then◌else◌,
}
use yeoun_ai.Base.Text.{Text, codes, is_empty, strip}
use yeoun_ai.Base.Exec.{
  Exception, runtime_error, cancelled_error, Result, ok, raise, Exec, lift, modify, ◌>>◌,
}
use yeoun_ai.Fs.{FilePath, Fs, name}
use yeoun_ai.Sessions.{Role, user, assistant}
use yeoun_ai.Models.{
  Status, not_loaded, loading, loaded, error, ChatMessage, Prompt, audio, words, plain, parts,
  ModelMessage, Vendor,
}

pub record GemmaLlm : Type 0 where
  pub bf16_path : Option Text
  pub gpu_enabled : Bool
  pub gpu_max_memory : Text
  pub cpu_max_memory : Text
  pub status : Status
  -- whether `_model` and `_processor` are set
  pub model : Bool
  pub processor : Bool

-- `GemmaLLM(...)`
abbrev pub new_gemma : Option Text → Bool → Text → Text → GemmaLlm
new_gemma bf16_path gpu_enabled gpu_max_memory cpu_max_memory = record {
  bf16_path = bf16_path;
  gpu_enabled = gpu_enabled;
  gpu_max_memory = gpu_max_memory;
  cpu_max_memory = cpu_max_memory;
  status = not_loaded;
  model = false;
  processor = false;
}

-- `if not self._bf16_path`
abbrev pub non_empty_path : Option Text → Option Text
non_empty_path none = none
non_empty_path (some path) = if is_empty path then none else some path

-- `_load_bf16`
load_bf16 : Vendor → Text → Exec GemmaLlm (Unit {0})
load_bf16 vendor path = do
  lift (vendor.load_processor path)
  modify (λ llm. record llm { processor = true })
  lift (vendor.load_llm path)
  modify (λ llm. record llm { model = true })

-- `except Exception: self._status = "error"; raise`; a cancellation goes past it.
abbrev load_result : Result (Unit {0}) → Exec GemmaLlm (Unit {0})
load_result (ok _) llm = (ok tt, record llm { status = loaded })
load_result (raise cancelled_error) llm = (raise cancelled_error, llm)
load_result (raise e) llm = (raise e, record llm { status = error })

load_path : Vendor → Option Text → Exec GemmaLlm (Unit {0})
unfolding load_bf16
load_path vendor none llm =
    (raise (runtime_error (codes "LLM_BF16_PATH")), record llm { status = error })
load_path vendor (some path) llm = let (r, llm') = load_bf16 vendor path llm in load_result r llm'

unfoldable pub load : Vendor → Exec GemmaLlm (Unit {0})
unfolding load_path
load vendor llm =
    if not llm.gpu_enabled
    then (ok tt, record llm { status = loaded })
    else load_path vendor (non_empty_path llm.bf16_path) (record llm { status = loading })

unfoldable pub unload : Vendor → Exec GemmaLlm (Unit {0})
unload vendor llm = if not llm.gpu_enabled then (ok tt, record llm { status = not_loaded }) else (
  vendor.empty_cache_llm,
  record llm { model = false; processor = false; status = not_loaded },
)

-- The messages of `_run_transcribe`.
abbrev pub transcribe_messages : FilePath → List ModelMessage
transcribe_messages audio_path =
    record {
      role = codes "user";
      content =
          parts (
            audio audio_path
            ∷ words (codes "위 음성을 한국어로 그대로 전사해 주세요. 부가 설명 없이 발화 텍스트만 반환합니다.")
            ∷ []);
    }
    ∷ []

-- `decode(outputs[0][input_len:])`, stripped.
abbrev decoded : Vendor → ℕ → Result (List ℕ) → Result Text
decoded vendor input_len (ok outputs) = ok (strip (vendor.decode (drop input_len outputs)))
decoded vendor input_len (raise e) = raise e

abbrev answered : Vendor → Result (List ℕ) → Result Text
answered vendor (ok inputs) = decoded vendor (length inputs) (vendor.generate inputs 512)
answered vendor (raise e) = raise e

unfoldable pub run_transcribe : Vendor → Fs → FilePath → Result Text
run_transcribe vendor fs audio_path =
    answered vendor (vendor.apply_chat_template fs (transcribe_messages audio_path))

unfoldable pub transcribe : Vendor → GemmaLlm → Fs → FilePath → Result Text
unfolding run_transcribe
transcribe vendor llm fs audio_path =
    if not llm.gpu_enabled
    then ok (codes "[더미 전사] " ++ name audio_path)
    else if not llm.model || not llm.processor
    then raise (runtime_error (codes "GemmaLLM 이 로드되지 않았습니다."))
    else run_transcribe vendor fs audio_path

-- `_DUMMY_RESPONSE_TOKENS`
abbrev pub dummy_response_tokens : List Text
dummy_response_tokens =
    codes "["
    ∷ codes "더미"
    ∷ codes " 응답"
    ∷ codes "]"
    ∷ codes " GPU_ENABLED=false"
    ∷ codes " 모드"
    ∷ codes " — "
    ∷ codes "이"
    ∷ codes " 메시지는"
    ∷ codes " 실제"
    ∷ codes " 모델"
    ∷ codes " 출력이"
    ∷ codes " 아닙니다"
    ∷ codes "."
    ∷ []

-- The tokens that an async iterator yields, and the exception that it may end with.
pub record Stream : Type 0 where
  pub tokens : List Text
  pub failure : Option Exception

-- `generate` runs in a thread of its own. Its exception stays there: the `finally` clause of
-- `_generate_safely` ends the streamer, and the iterator stops as after a complete answer.
abbrev streamed : List Text × Option Exception → Stream
streamed (tokens, _) = record { tokens = tokens; failure = none }

-- `_MAX_RESPONSE_TOKENS`
abbrev max_response_tokens : ℕ
max_response_tokens = 1024

abbrev role_name : Role → Text
role_name user = codes "user"
role_name assistant = codes "assistant"

history_messages : List ChatMessage → List ModelMessage
history_messages [] = []
history_messages (m ∷ ms) =
    record { role = role_name m.role; content = plain m.text } ∷ history_messages ms

-- The system prompt, the history and the audio.
unfoldable pub prompt_messages : Prompt → List ModelMessage
unfolding history_messages
prompt_messages p =
    record { role = codes "system"; content = plain p.system_prompt }
    ∷ (history_messages p.history
        ++ record { role = codes "user"; content = parts (audio p.user_audio_path ∷ []) } ∷ [])

unfoldable pub stream_response : Vendor → GemmaLlm → Fs → Prompt → Stream
stream_response vendor llm fs prompt =
    if not llm.gpu_enabled
    then record { tokens = dummy_response_tokens; failure = none }
    else if not llm.model || not llm.processor
    then record { tokens = []; failure = some (runtime_error (codes "GemmaLLM 이 로드되지 않았습니다.")) }
    else elim (vendor.apply_chat_template fs (prompt_messages prompt)) [
      | raise e ↦ record { tokens = []; failure = some e }
      | ok inputs ↦ streamed (vendor.generate_stream inputs max_response_tokens)
    ]
