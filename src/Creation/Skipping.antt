-- ===== src/Creation/Skipping.antt =====
-- A run of `process_persona` on a persona whose files are all there.
use yeoun_ai.Base.{ℕ, ◌≡◌, refl, ap, true, none, some, List, [], ◌∷◌, ◌++◌, arith, nat_eq, list_eq}
use yeoun_ai.Base.Text.{Text, codes}
use yeoun_ai.Base.Uuid.{Uuid}
use yeoun_ai.Base.Exec.{Result, ok}
use yeoun_ai.Fs.{FilePath, Fs, exists, mkdir, name}
use yeoun_ai.Base.Number.{parse_int, decimal}
use yeoun_ai.Base.Int.{pos}
use yeoun_ai.Db.{PersonaStatus, IdleClip, Db}
use yeoun_ai.Db.Repository.{mock, set_persona_status, insert_persona_idle_clip}
use yeoun_ai.Creation.Gives.{Gives}
use yeoun_ai.Creation.Status.{table_status}
use yeoun_ai.Pipeline.{Env}
use yeoun_ai.Creation.{
  ready, pick_file, transcribe_voice, get, World, has_content, root, idle_dir, clip_path,
  ref_audio_path, ref_text_path,
}
use yeoun_ai.Creation.Steps.{prepare_voice_ref, render_idle_clips}
use yeoun_ai.Creation.Process.{stem, insert_clip, drop_ref_text, prepare_ref}

-- Every file that a run would make is there.
pub record IsComplete (env : Env) (pid : Uuid) (fs : Fs) : Type 0 where
  pub voice_path : FilePath
  pub has_voice : pick_file (root env pid ++ (codes "voice" ∷ [])) fs ≡ ok voice_path
  pub photo_path : FilePath
  pub has_photo : pick_file (root env pid ++ (codes "photo" ∷ [])) fs ≡ ok photo_path
  pub has_audio : exists fs (ref_audio_path env pid) ≡ true
  pub has_text : has_content fs (ref_text_path env pid) ≡ true
  pub has_dir : mkdir (idle_dir env pid) fs ≡ fs
  pub has_first : has_content fs (clip_path env pid 0) ≡ true
  pub has_second : has_content fs (clip_path env pid 1) ≡ true

pub set_persona_status-idle_clips :
    (status : PersonaStatus) (pid : Uuid) (db : Db)
    → (set_persona_status status pid db).idle_clips ≡ db.idle_clips
unfolding set_persona_status
set_persona_status-idle_clips status pid db = ground arith

name-append : (d : FilePath) (t : Text) → name (d ++ t ∷ []) ≡ t
unfolding name
name-append [] t = refl
name-append (c ∷ []) t = refl
name-append (c ∷ e ∷ d) t = name-append (e ∷ d) t

module _ (env : Env) (pid : Uuid) where
  prepare_voice_ref_skips :
      (voice_path : FilePath) (fs : Fs)
      → exists fs (ref_audio_path env pid) ≡ true
      → prepare_voice_ref env voice_path (ref_audio_path env pid) fs ≡ (ok tt, fs)
  unfolding prepare_voice_ref
  prepare_voice_ref_skips voice_path fs h = rw h

  pub transcribe_voice_skips :
      (fs : Fs)
      → has_content fs (ref_text_path env pid) ≡ true
      → transcribe_voice env (ref_audio_path env pid) (ref_text_path env pid) fs ≡ (ok tt, fs)
  unfolding transcribe_voice
  transcribe_voice_skips fs h = rw h

  abbrev pub clips : List FilePath
  clips = clip_path env pid 0 ∷ clip_path env pid 1 ∷ []

  pub render_idle_clips_skips :
      (photo_path : FilePath) (fs : Fs)
      → IsComplete env pid fs
      → render_idle_clips env pid photo_path fs ≡ (ok clips, fs)
  unfolding render_idle_clips
  render_idle_clips_skips photo_path fs c = rw c.has_dir (rw c.has_first (rw c.has_second refl))

  pub prepare_ref_skips :
      (voice_path : FilePath) (w : World)
      → exists w.fs (ref_audio_path env pid) ≡ true
      → prepare_ref env pid voice_path w ≡ (ok tt, w)
  unfolding prepare_ref drop_ref_text
  prepare_ref_skips voice_path w h = rw (h, prepare_voice_ref_skips voice_path w.fs h)

  -- The row that each run adds for a clip.
  abbrev pub clip_row : ℕ → IdleClip
  clip_row i = record {
    clip_id = env.fresh i;
    persona_id = pid;
    sequence_order = i;
    filesystem_path = clip_path env pid i;
  }

  -- What a run leaves that finds all its files there: the files as they were, the persona ready, and
  -- one more row for each of the two clips.
  pub record Repeats (before : World) (after : Result (Unit {0}) × World) : Type 0 where
    pub returns : after.0 ≡ ok tt
    pub files : after.1.fs ≡ before.fs
    pub rows :
        after.1.db.idle_clips ≡ (before.db.idle_clips ++ (clip_row 0 ∷ [])) ++ (clip_row 1 ∷ [])
    pub status : table_status after.1.db pid ≡ some PersonaStatus.ready
    pub progress :
        get after.1.progress pid
        ≡ some
            (record { persona_id = pid; step = ready; error_reason = none; updated_at = env.now })

  abbrev pub with_row : ℕ → Db → Db
  with_row i db = record db { idle_clips = db.idle_clips ++ (clip_row i ∷ []) }

  pub first_number : parse_int (stem (name (clip_path env pid 0))) ≡ some (pos 0)
  unfolding parse_int stem decimal nat_eq
  first_number =
      ap (λ t. parse_int (stem t)) (name-append (idle_dir env pid) (decimal 0 ++ codes ".mp4"))

  pub second_number : parse_int (stem (name (clip_path env pid 1))) ≡ some (pos 1)
  unfolding parse_int stem decimal nat_eq
  second_number =
      ap (λ t. parse_int (stem t)) (name-append (idle_dir env pid) (decimal 1 ++ codes ".mp4"))

  pub insert_clip-Gives :
      (i : ℕ) (w : World)
      → parse_int (stem (name (clip_path env pid i))) ≡ some (pos i)
      → env.backend ≡ mock
      → Gives (insert_clip env pid i (clip_path env pid i)) w tt (record w { db = with_row i w.db })
  unfolding insert_clip insert_persona_idle_clip
  insert_clip-Gives i w number in_memory = record {
    runs = rw (insert_clip, insert_persona_idle_clip, number, in_memory) refl;
  }
