-- ===== src/Creation/Steps/Kept.antt =====
-- The first steps of the pipeline make no directory at a path as deep as that of a clip.
use yeoun_ai.Base.{
  ℕ, ◌<◌, not, ◌&&◌, ◌||◌, Option, none, some, List, [], ◌∷◌, ◌++◌, ltb, ◌==◌, nat_eq, list_eq,
  length, Bool-cases, inl, inr,
}
use yeoun_ai.Base.Text.{Text, codes, starts_with}
use yeoun_ai.Base.Exec.{Result, ok, raise, Result-cases}
use yeoun_ai.Fs.{FilePath, Bytes, File, Fs, exists, get_file, mkdir, parent, unlink, files_in}
use yeoun_ai.Fs.Nodes.{NoDir, write-NoDir, unlink-NoDir, mkdir-NoDir}
use yeoun_ai.Pipeline.{Conversion, Env}
use yeoun_ai.Creation.Steps.{
  is_zero, is_caught, content_of, remove_stray, leave_output, check_duration, check_wav,
  check_conversion, convert, prepare_voice_ref,
}

remove_stray-NoDir :
    (d keep q : FilePath) (files : List (Text × File)) (fs : Fs)
    → NoDir q fs
    → NoDir q (remove_stray d keep files fs)
unfolding remove_stray
remove_stray-NoDir d keep q [] fs h = h
remove_stray-NoDir d keep q ((name, f) ∷ files) fs h =
    elim (Bool-cases (starts_with name (codes "ref_audio.") && not ((d ++ name ∷ []) == keep))) [
      | inl e ↦ rw e (
          remove_stray-NoDir d keep q files (unlink (d ++ name ∷ []) fs)
            (unlink-NoDir (d ++ name ∷ []) q fs h))
      | inr e ↦ rw e (remove_stray-NoDir d keep q files fs h)
    ]

module _ (env : Env) (q : FilePath) where
  leave_output-NoDir :
      (p : FilePath) (o : Option Bytes) (fs : Fs) → NoDir q fs → NoDir q (leave_output env p o fs)
  unfolding leave_output
  leave_output-NoDir p none fs h = h
  leave_output-NoDir p (some content) fs h = write-NoDir p q content env.now fs h

  check_duration-NoDir :
      (p : FilePath) (info : ℕ × ℕ) (fs : Fs)
      → NoDir q fs
      → NoDir q (check_duration env p info fs).1
  unfolding check_duration
  check_duration-NoDir p (frames, rate) fs h = elim (Bool-cases (rate == 0 || ltb frames rate)) [
    | inl e ↦ rw e (unlink-NoDir p q fs h)
    | inr e ↦ rw e (remove_stray-NoDir (parent p) p q (files_in (parent p) fs) fs h)
  ]

  check_wav-NoDir :
      (p : FilePath) (r : Result (ℕ × ℕ)) (fs : Fs) → NoDir q fs → NoDir q (check_wav env p r fs).1
  unfolding check_wav
  check_wav-NoDir p (ok info) fs h = check_duration-NoDir p info fs h
  check_wav-NoDir p (raise e) fs h = elim (Bool-cases (is_caught e)) [
    | inl c ↦ rw c (unlink-NoDir p q fs h)
    | inr c ↦ rw c h
  ]

  check_conversion-NoDir :
      (p : FilePath) (c : Conversion) (fs : Fs)
      → NoDir q fs
      → NoDir q (check_conversion env p c fs).1
  unfolding check_conversion
  check_conversion-NoDir p c fs h = elim (Bool-cases (not (is_zero c.returncode))) [
    | inl e ↦ rw e (unlink-NoDir p q fs h)
    | inr e ↦ rw e (check_wav-NoDir p (env.wave_open (content_of (get_file fs p))) fs h)
  ]

  convert-NoDir :
      (voice_path p : FilePath) (fs : Fs) → NoDir q fs → NoDir q (convert env voice_path p fs).1
  unfolding convert
  convert-NoDir voice_path p fs h = elim (Result-cases (env.ffmpeg fs voice_path p)) [
    | inl (c, e) ↦
        rw (convert, e)
          (check_conversion-NoDir p c (leave_output env p c.output fs)
            (leave_output-NoDir p c.output fs h))
    | inr (x, e) ↦ rw (convert, e) h
  ]

  pub prepare_voice_ref-NoDir :
      (voice_path p : FilePath) (fs : Fs)
      → length (parent p) < length q
      → NoDir q fs
      → NoDir q (prepare_voice_ref env voice_path p fs).1
  unfolding prepare_voice_ref
  prepare_voice_ref-NoDir voice_path p fs l h = elim (Bool-cases (exists fs p)) [
    | inl e ↦ rw e h
    | inr e ↦
        rw e (convert-NoDir voice_path p (mkdir (parent p) fs) (mkdir-NoDir (parent p) q fs l h))
  ]
