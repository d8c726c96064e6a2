-- ===== src/Models.antt =====
-- app/models: the wrappers of the three GPU models. What stands behind them (transformers, OmniVoice,
-- soundfile, the inference.py of Ditto) is the parameter `Vendor`.
pub mod Gemma
pub mod OmniVoice
pub mod Ditto
pub mod Registry
mod Tests
use yeoun_ai.Base.{ℕ, Option, List}
use yeoun_ai.Base.Int.{ℤ}
use yeoun_ai.Base.Text.{Text}
use yeoun_ai.Base.Exec.{Result, Exception}
use yeoun_ai.Sessions.{Role}
use yeoun_ai.Fs.{FilePath, Bytes, Fs}

-- `LlmStatus`, `TtsStatus`, `DittoStatus`
pub data Status : Type 0 where
  not_loaded loading loaded error : Status

-- One message of the history that the LLM is given.
pub record ChatMessage : Type 0 where
  pub role : Role
  pub text : Text

pub record Prompt : Type 0 where
  pub system_prompt : Text
  pub history : List ChatMessage
  pub user_audio_path : FilePath

-- The messages that `apply_chat_template` takes.
pub data Part : Type 0 where
  audio : FilePath → Part
  words : Text → Part

pub data Content : Type 0 where
  plain : Text → Content
  parts : List Part → Content

pub record ModelMessage : Type 0 where
  pub role : Text
  pub content : Content

-- How a run of `inference.py` ends: its return code, what it wrote to stderr, and the files that it
-- leaves at the output path and at `<output>.tmp.mp4`.
pub record Process : Type 0 where
  pub returncode : ℤ
  pub stderr : Text
  pub output : Option Bytes
  pub tmp_output : Option Bytes

pub record Vendor : Type 0 where
  -- `AutoProcessor.from_pretrained`, `_AutoModel.from_pretrained`, `OmniVoice.from_pretrained`
  pub load_processor : Text → Result (Unit {0})
  pub load_llm : Text → Result (Unit {0})
  pub load_tts : Text → Result (Unit {0})
  -- `apply_chat_template`, which reads the audio files: the ids of the input
  pub apply_chat_template : Fs → List ModelMessage → Result (List ℕ)
  -- `generate` without sampling, on the ids of the input and `max_new_tokens`: the ids of the input
  -- and of the answer
  pub generate : List ℕ → ℕ → Result (List ℕ)
  -- `decode` without the special tokens
  pub decode : List ℕ → Text
  -- the texts that `generate` with sampling hands to the streamer, and the exception that it may
  -- end with
  pub generate_stream : List ℕ → ℕ → List Text × Option Exception
  -- how the release of the memory of the GPU ends, when the language model and when the voice model is
  -- unloaded; an `ImportError` of torch counts as an end without exception
  pub empty_cache_llm : Result (Unit {0})
  pub empty_cache_tts : Result (Unit {0})
  -- `OmniVoice.generate` and `soundfile.write`: the bytes of the wav file
  pub tts_generate : Fs → Text → FilePath → Text → Result Bytes
  -- a silent wav file of so many samples at such a rate
  pub silent_wav : ℕ → ℕ → Bytes
  -- `inference.py` on an image, an audio file and an output path; it may fail to start
  pub inference : Fs → FilePath → FilePath → FilePath → Result Process
