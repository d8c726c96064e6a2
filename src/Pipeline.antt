-- ===== src/Pipeline.antt =====
-- What the two pipelines, app/pipeline/persona_creation.py and conversation.py, work on and with.
use yeoun_ai.Base.{ℕ, Option}
use yeoun_ai.Base.Int.{ℤ}
use yeoun_ai.Base.Text.{Text}
use yeoun_ai.Base.Uuid.{Uuid}
use yeoun_ai.Base.Exec.{Exception, Result}
use yeoun_ai.Fs.{FilePath, Bytes, Fs, Disk}
use yeoun_ai.Db.Repository.{Backend}
use yeoun_ai.Models.{Vendor}
use yeoun_ai.Models.Gemma.{GemmaLlm}
use yeoun_ai.Models.OmniVoice.{OmniVoiceTts}
use yeoun_ai.Models.Ditto.{DittoTalkingHead}

-- How a run of ffmpeg ends, and the file that it leaves at its output path.
pub record Conversion : Type 0 where
  pub returncode : ℤ
  pub stderr : Text
  pub output : Option Bytes

-- The surroundings of one run: settings, loaded models, and what the program does not implement.
pub record Env : Type 0 where
  pub persona_dir : FilePath
  pub backend : Backend
  pub vendor : Vendor
  pub llm : GemmaLlm
  pub tts : OmniVoiceTts
  pub ditto : DittoTalkingHead
  pub disk : Disk
  -- `time.time()`
  pub now : ℕ
  -- the values of `uuid4()` in the order of the calls
  pub fresh : ℕ → Uuid
  -- the paths that `mkstemp` gives in the order of the calls
  pub temp_path : ℕ → FilePath
  -- how `mkdir` of the directory of a session's speech ends: it raises, when this many parts of the
  -- path are made or were there
  pub mkdir_stops : FilePath → Option (Exception × ℕ)
  -- the ffmpeg command on an input and an output path; it may fail to start
  pub ffmpeg : Fs → FilePath → FilePath → Result Conversion
  -- `wave.open`: the number of frames and the frame rate
  pub wave_open : Option Bytes → Result (ℕ × ℕ)
  -- `str.lower`
  pub lower : Text → Text
