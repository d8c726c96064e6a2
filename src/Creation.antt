-- ===== src/Creation.antt =====
-- app/pipeline/persona_creation.py: the progress store and the steps of the pipeline. Files of text
-- hold their code points.
pub mod Newest
pub mod Steps
pub mod Process
pub mod Status
pub mod Outcome
pub mod Gives
pub mod Skipping
pub mod Again
pub mod Made
mod Tests
use yeoun_ai.Base.{
  ℕ, zero, suc, ◌+◌, ◌-◌, Bool, true, false, not, ◌&&◌, ◌||◌, Option, none, some, List, [], ◌∷◌,
  ◌++◌, if◌then◌else◌, ltb, ◌==◌, nat_eq, list_eq, length, take, drop,
}
use yeoun_ai.Base.Int.{ℤ, pos}
use yeoun_ai.Base.Text.{Text, codes, is_empty, starts_with}
use yeoun_ai.Base.Number.{decimal}
use yeoun_ai.Base.Uuid.{Uuid, str_uuid}
use yeoun_ai.Base.Dict
use yeoun_ai.Base.Dict.{Dict}
use yeoun_ai.Base.Exec.{
  Exception, runtime_error, file_not_found_error, is_os_error, Result, ok, raise, Exec, pure, throw,
  lift, gets, modify, ◌>>=◌, ◌>>◌,
}
use yeoun_ai.Fs.{
  FilePath, Bytes, File, Fs, Disk, exists, get_file, mkdir, parent, write, write_bytes, unlink,
  replace, append_name, files_in,
}
use yeoun_ai.Db.{Db}
use yeoun_ai.Models.Gemma
use yeoun_ai.Models.Ditto
use yeoun_ai.Pipeline.{Conversion, Env}

-- `ProcessingStep`
pub data ProcessingStep : Type 0 where
  pending selecting_voice transcribing extracting_ref rendering_idle ready failed : ProcessingStep

pub record ProcessingState : Type 0 where
  pub persona_id : Uuid
  pub step : ProcessingStep
  pub error_reason : Option Text
  pub updated_at : ℕ

abbrev pub ProcessingStore : Type 0
ProcessingStore = Dict Uuid ProcessingState

-- `set_step`: a state that is there is changed in place, a new one is made.
unfoldable pub set_step :
    Uuid → ProcessingStep → Option Text → ℕ → ProcessingStore → ProcessingStore
set_step pid step error_reason now store =
    Dict.insert pid
      (record { persona_id = pid; step = step; error_reason = error_reason; updated_at = now })
      store

unfoldable pub get : ProcessingStore → Uuid → Option ProcessingState
get store pid = Dict.lookup pid store

-- What a run changes.
pub record World : Type 0 where
  pub fs : Fs
  pub db : Db
  pub progress : ProcessingStore

abbrev pub on_fs : {A : Type 0} → Exec Fs A → Exec World A
on_fs m w = let (r, fs) = m w.fs in (r, record w { fs = fs })

abbrev pub on_db : {A : Type 0} → Exec Db A → Exec World A
on_db m w = let (r, db) = m w.db in (r, record w { db = db })

-- `max(candidates, key=lambda p: p.stat().st_mtime)`: the first of the newest.
unfoldable pub newest : List (Text × File) → Option (Text × File)
newest [] = none
newest ((name, f) ∷ files) = elim (newest files) [
  | none ↦ some (name, f)
  | some (other, g) ↦ if ltb f.mtime g.mtime then some (other, g) else some (name, f)
]

abbrev picked : FilePath → Option (Text × File) → Result FilePath
picked d none = raise (file_not_found_error (codes "directory empty"))
picked d (some (name, f)) = ok (d ++ (name ∷ []))

unfoldable pub pick_file : FilePath → Fs → Result FilePath
pick_file d fs =
    if not (exists fs d)
    then raise (file_not_found_error (codes "directory missing"))
    else picked d (newest (files_in d fs))

abbrev pub persona_root : FilePath → Uuid → FilePath
persona_root persona_dir pid = persona_dir ++ (str_uuid pid ∷ [])

-- A file that is there and not empty.
abbrev pub has_content : Fs → FilePath → Bool
has_content fs p = elim (get_file fs p) [ none ↦ false | some f ↦ not (is_empty f.content) ]

module _ (env : Env) (pid : Uuid) where
  abbrev pub root : FilePath
  root = persona_root env.persona_dir pid

  abbrev pub voice_ref_dir : FilePath
  voice_ref_dir = root ++ (codes "voice_ref" ∷ [])

  abbrev pub idle_dir : FilePath
  idle_dir = root ++ (codes "idle" ∷ [])

  abbrev pub ref_text_path : FilePath
  ref_text_path = voice_ref_dir ++ (codes "ref_text.txt" ∷ [])

  abbrev pub ref_audio_path : FilePath
  ref_audio_path = voice_ref_dir ++ (codes "ref_audio.wav" ∷ [])

  abbrev pub clip_path : ℕ → FilePath
  clip_path i = idle_dir ++ ((decimal i ++ codes ".mp4") ∷ [])

  unfoldable pub pick_photo_file : Exec Fs FilePath
  pick_photo_file fs = (pick_file (root ++ (codes "photo" ∷ [])) fs, fs)

  unfoldable pub pick_voice_file : Exec Fs FilePath
  pick_voice_file fs = (pick_file (root ++ (codes "voice" ∷ [])) fs, fs)

-- `_transcribe_voice`, without the text that it returns, which its caller drops.
module _ (env : Env) where
  write_ref_text : FilePath → Text → Exec Fs (Unit {0})
  write_ref_text ref_text_path text = do
    modify (mkdir (parent ref_text_path))
    write_bytes env.disk env.now (append_name ref_text_path (codes ".tmp")) text
    modify (replace (append_name ref_text_path (codes ".tmp")) ref_text_path)

  unfoldable pub transcribe_voice : FilePath → FilePath → Exec Fs (Unit {0})
  unfolding write_ref_text
  transcribe_voice voice_path ref_text_path fs =
      if has_content fs ref_text_path
      then (ok tt, fs)
      else (do
        text ← lift (Gemma.transcribe env.vendor env.llm fs voice_path)
        write_ref_text ref_text_path text)
          fs
