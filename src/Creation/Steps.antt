-- ===== src/Creation/Steps.antt =====
-- `_prepare_voice_ref` and `_render_idle_clips` of app/pipeline/persona_creation.py.
pub mod Kept
pub mod Clips
use yeoun_ai.Base.{
  ℕ, zero, suc, ◌+◌, ◌-◌, Bool, false, not, ◌&&◌, ◌||◌, Option, none, some, List, [], ◌∷◌, ◌++◌,
  if◌then◌else◌, ltb, ◌==◌, nat_eq, list_eq, length, drop,
}
use yeoun_ai.Base.Int.{ℤ, pos}
use yeoun_ai.Base.Text.{Text, codes, starts_with}
use yeoun_ai.Base.Uuid.{Uuid}
use yeoun_ai.Base.Exec.{
  Exception, runtime_error, is_os_error, type_name, Result, ok, raise, Exec, pure, modify, ◌>>=◌,
  ◌>>◌,
}
use yeoun_ai.Fs.{
  FilePath, Bytes, File, Fs, exists, get_file, mkdir, parent, write, unlink, files_in,
}
use yeoun_ai.Models.Ditto
use yeoun_ai.Pipeline.{Conversion, Env}
use yeoun_ai.Creation.{has_content, clip_path, idle_dir}

abbrev is_zero : ℤ → Bool
is_zero (pos n) = n == 0
is_zero _ = false

-- `except (wave.Error, OSError)`
abbrev is_caught : Exception → Bool
is_caught e = is_os_error e || type_name e == codes "Error"

abbrev content_of : Option File → Option Bytes
content_of none = none
content_of (some f) = some f.content

-- `stderr.decode(...)[-500:]`
abbrev tail_500 : Text → Text
tail_500 stderr = drop (length stderr - 500) stderr

-- `glob("ref_audio.*")`, without the new file: the old ones are removed.
unfoldable pub remove_stray : FilePath → FilePath → List (Text × File) → Fs → Fs
remove_stray d keep [] fs = fs
remove_stray d keep ((name, f) ∷ files) fs =
    let p = d ++ (name ∷ []) in
    remove_stray d keep files
      (if starts_with name (codes "ref_audio.") && not (p == keep) then unlink p fs else fs)

module _ (env : Env) where
  -- `-t 8`, `-ar 16000`: constants of the command line, which is in `env.ffmpeg`.
  leave_output : FilePath → Option Bytes → Fs → Fs
  leave_output p none fs = fs
  leave_output p (some content) fs = write p content env.now fs

  -- The length in seconds is `frames / rate`, or 0 without a rate; it has to be 1.0 at least.
  check_duration : FilePath → ℕ × ℕ → Exec Fs (Unit {0})
  check_duration ref_audio (frames, rate) fs =
      if rate == 0 || ltb frames rate
      then (raise (runtime_error (codes "ref_audio 가 너무 짧습니다")), unlink ref_audio fs)
      else (ok tt, remove_stray (parent ref_audio) ref_audio (files_in (parent ref_audio) fs) fs)

  -- An exception that the clause does not name goes on, and the file stays.
  check_wav : FilePath → Result (ℕ × ℕ) → Exec Fs (Unit {0})
  unfolding check_duration
  check_wav ref_audio (ok info) fs = check_duration ref_audio info fs
  check_wav ref_audio (raise e) fs =
      if is_caught e
      then (raise (runtime_error (codes "ref_audio 출력 wav 검증 실패")), unlink ref_audio fs)
      else (raise e, fs)

  check_conversion : FilePath → Conversion → Exec Fs (Unit {0})
  unfolding check_wav
  check_conversion ref_audio c fs =
      if not (is_zero c.returncode)
      then (raise (runtime_error (tail_500 c.stderr)), unlink ref_audio fs)
      else check_wav ref_audio (env.wave_open (content_of (get_file fs ref_audio))) fs

  convert : FilePath → FilePath → Exec Fs (Unit {0})
  unfolding leave_output check_conversion
  convert voice_path ref_audio fs = elim (env.ffmpeg fs voice_path ref_audio) [
    | raise e ↦ (raise e, fs)
    | ok c ↦ check_conversion ref_audio c (leave_output ref_audio c.output fs)
  ]

  unfoldable pub prepare_voice_ref : FilePath → FilePath → Exec Fs (Unit {0})
  unfolding convert
  prepare_voice_ref voice_path ref_audio fs =
      if exists fs ref_audio
      then (ok tt, fs)
      else convert voice_path ref_audio (mkdir (parent ref_audio) fs)

  -- One round of the loop: clip `i`, unless it is there already. The duration is 7.0 seconds.
  render_clip : FilePath → FilePath → ℕ → Exec Fs (Unit {0})
  render_clip photo_path target i fs =
      if has_content fs target
      then (ok tt, fs)
      else Ditto.render_idle env.vendor env.ditto env.disk env.now (env.temp_path i) photo_path
          target 70 fs

  -- `for i in range(count)`, from `i` on with `n` rounds left: the paths in order.
  render_from : (ℕ → FilePath) → FilePath → ℕ → ℕ → Exec Fs (List FilePath)
  unfolding render_clip
  render_from clip photo_path zero i = pure []
  render_from clip photo_path (suc n) i = do
    render_clip photo_path (clip i) i
    rest ← render_from clip photo_path n (i + 1)
    pure (clip i ∷ rest)

  unfoldable pub render_idle_clips : Uuid → FilePath → Exec Fs (List FilePath)
  unfolding render_from
  render_idle_clips pid photo_path = do
    modify (mkdir (idle_dir env pid))
    render_from (clip_path env pid) photo_path 2 0
