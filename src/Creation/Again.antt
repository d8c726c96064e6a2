-- ===== src/Creation/Again.antt =====
-- A run of `process_persona` that skips every step.
use mathlib.Core.Path.{subst}
use yeoun_ai.Base.{◌≡◌, refl, sym, ap, ◌∙◌, none, [], ◌∷◌, ◌++◌, nat_eq, list_eq}
use yeoun_ai.Base.Uuid.{Uuid}
use yeoun_ai.Base.Exec.{Result, ok}
use yeoun_ai.Fs.{FilePath, Fs}
use yeoun_ai.Db.{PersonaStatus, Db}
use yeoun_ai.Db.Repository.{mock, set_persona_status}
use yeoun_ai.Creation.Gives.{Gives, after-Gives, step_to-Gives, status_to-Gives, on_fs-Gives}
use yeoun_ai.Creation.Status.{
  IsPresent, IsPresent-set_persona_status, set_persona_status-table_status, get-set_step,
}
use yeoun_ai.Pipeline.{Env}
use yeoun_ai.Creation.{
  ProcessingStep, pending, selecting_voice, transcribing, extracting_ref, rendering_idle, ready,
  pick_voice_file, pick_photo_file, transcribe_voice, ProcessingStore, set_step, World,
  ref_audio_path, ref_text_path,
}
use yeoun_ai.Creation.Steps.{render_idle_clips}
use yeoun_ai.Creation.Process.{
  insert_clips, render_part, build, try_block, prepare_ref, handle, process_persona,
}
use yeoun_ai.Creation.Skipping.{
  IsComplete, Repeats, prepare_ref_skips, transcribe_voice_skips, render_idle_clips_skips, clips,
  with_row, clip_row, insert_clip-Gives, first_number, second_number, set_persona_status-idle_clips,
}

module _ (env : Env) (pid : Uuid) (fs : Fs) (c : IsComplete env pid fs)
    (in_memory : env.backend ≡ mock) where
  -- The world on the way: the files never change.
  abbrev at : Db → ProcessingStore → World
  at db progress = record { fs = fs; db = db; progress = progress }

  abbrev step : ProcessingStep → ProcessingStore → ProcessingStore
  step s progress = set_step pid s none env.now progress

  photo : pick_photo_file env pid fs ≡ (ok c.photo_path, fs)
  unfolding pick_photo_file
  photo = ap (λ (r : Result FilePath). (r, fs)) c.has_photo

  voice : pick_voice_file env pid fs ≡ (ok c.voice_path, fs)
  unfolding pick_voice_file
  voice = ap (λ (r : Result FilePath). (r, fs)) c.has_voice

  rows :
      (db : Db) (progress : ProcessingStore)
      → Gives
          (insert_clips env pid 0 (clips env pid))
          (at db progress)
          tt
          (at (with_row env pid 1 (with_row env pid 0 db)) progress)
  unfolding insert_clips
  rows db progress =
      after-Gives _ _
        (insert_clip-Gives env pid 0 (at db progress) (first_number env pid) in_memory)
        (after-Gives _ _
          (insert_clip-Gives env pid 1 (at (with_row env pid 0 db) progress) (second_number env pid)
            in_memory)
          (record { runs = refl }))

  render_part-Gives :
      (db : Db) (progress : ProcessingStore)
      → Gives (render_part env pid) (at db progress) tt (
          at
            (with_row env pid 1 (with_row env pid 0 db))
            (step rendering_idle (step transcribing progress)))
  unfolding render_part
  render_part-Gives db progress =
      let w1 = at db (step transcribing progress) in
      let w2 = at db (step rendering_idle (step transcribing progress)) in
      after-Gives _ _ (step_to-Gives env pid transcribing (at db progress)) (
        after-Gives _ _
          (on_fs-Gives (transcribe_voice env (ref_audio_path env pid) (ref_text_path env pid)) tt w1
            (transcribe_voice_skips env pid fs c.has_text))
          (after-Gives _ _ (step_to-Gives env pid rendering_idle w1) (
            after-Gives _ _ (on_fs-Gives (pick_photo_file env pid) c.photo_path w2 photo) (
              after-Gives _ _
                (on_fs-Gives (render_idle_clips env pid c.photo_path) (clips env pid) w2
                  (render_idle_clips_skips env pid c.photo_path fs c))
                (rows db w2.progress)))))

  processing : Db → Db
  processing db = set_persona_status PersonaStatus.processing pid db

  -- The tables and the progress when all steps are skipped.
  abbrev built : Db → Db
  built db = with_row env pid 1 (with_row env pid 0 (processing db))

  abbrev steps : ProcessingStore → ProcessingStore
  steps progress =
      step rendering_idle
        (step transcribing (step extracting_ref (step selecting_voice (step pending progress))))

  build-Gives :
      (db : Db) (progress : ProcessingStore)
      → Gives (build env pid) (at db progress) tt (at (built db) (steps progress))
  unfolding build processing
  build-Gives db progress =
      let p1 = step pending progress in
      let w2 = at (processing db) p1 in
      let w3 = at (processing db) (step selecting_voice p1) in
      let w4 = at (processing db) (step extracting_ref (step selecting_voice p1)) in
      after-Gives _ _ (step_to-Gives env pid pending (at db progress)) (
        after-Gives _ _ (status_to-Gives env pid PersonaStatus.processing (at db p1) in_memory) (
          after-Gives _ _ (step_to-Gives env pid selecting_voice w2) (
            after-Gives _ _ (on_fs-Gives (pick_voice_file env pid) c.voice_path w3 voice) (
              after-Gives _ _ (step_to-Gives env pid extracting_ref w3) (
                after-Gives (prepare_ref env pid c.voice_path) (λ _. render_part env pid)
                  (record { runs = prepare_ref_skips env pid c.voice_path w4 c.has_audio })
                  (render_part-Gives (processing db) w4.progress))))))

  try_block-Gives :
      (db : Db) (progress : ProcessingStore)
      → Gives
          (try_block env pid)
          (at db progress)
          tt
          (at (set_persona_status PersonaStatus.ready pid (built db)) (step ready (steps progress)))
  unfolding try_block
  try_block-Gives db progress = after-Gives _ _ (build-Gives db progress) (
      after-Gives _ _ (step_to-Gives env pid ready (at (built db) (steps progress))) (
        status_to-Gives env pid PersonaStatus.ready (at (built db) (step ready (steps progress)))
          in_memory))

  process_persona_run :
      (db : Db) (progress : ProcessingStore)
      → process_persona env pid (at db progress) ≡ (
        ok tt,
        at (set_persona_status PersonaStatus.ready pid (built db)) (step ready (steps progress)),
      )
  unfolding process_persona handle
  process_persona_run db progress =
      ap (λ (r : Result (Unit {0}) × World). handle env pid r.0 r.1)
        (try_block-Gives db progress).runs

  repeats :
      (db : Db) (progress : ProcessingStore)
      → IsPresent pid db
      → Repeats env pid (at db progress) (process_persona env pid (at db progress))
  unfolding processing
  repeats db progress present =
      subst (Repeats env pid (at db progress)) (sym (process_persona_run db progress)) (record {
        returns = refl;
        files = refl;
        rows =
            set_persona_status-idle_clips PersonaStatus.ready pid (built db)
            ∙ ap (λ rows. (rows ++ (clip_row env pid 0 ∷ [])) ++ (clip_row env pid 1 ∷ []))
                (set_persona_status-idle_clips PersonaStatus.processing pid db);
        status =
            set_persona_status-table_status PersonaStatus.ready pid (built db)
              (IsPresent-set_persona_status PersonaStatus.processing pid db present);
        progress = get-set_step pid ready none env.now (steps progress);
      })

-- With the tables in memory and the persona in them, a run that finds all its files there returns
-- with the persona ready and no file changed, whatever the models and ffmpeg would do. It adds a row
-- for each of the two clips, also where an earlier run has added them.
pub process_persona-Repeats :
    (env : Env) (pid : Uuid) (w : World)
    → env.backend ≡ mock
    → IsPresent pid w.db
    → IsComplete env pid w.fs
    → Repeats env pid w (process_persona env pid w)
process_persona-Repeats env pid w in_memory present c =
    repeats env pid w.fs c in_memory w.db w.progress present
