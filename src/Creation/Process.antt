-- ===== src/Creation/Process.antt =====
-- `process_persona` of app/pipeline/persona_creation.py.
use yeoun_ai.Base.{
  ℕ, ◌+◌, Bool, not, ◌&&◌, none, some, List, [], ◌∷◌, ◌++◌, if◌then◌else◌, take, ◌==◌, nat_eq,
}
use yeoun_ai.Base.Text.{Text, codes}
use yeoun_ai.Base.Int.{to_ℕ}
use yeoun_ai.Base.Number.{parse_int}
use yeoun_ai.Base.Uuid.{Uuid}
use yeoun_ai.Base.Exec.{
  Exception, face_detection_error, cancelled_error, type_name, message, Result, ok, raise, Exec,
  pure, gets, modify, ◌>>=◌, ◌>>◌,
}
use yeoun_ai.Fs.{FilePath, exists, unlink, name}
use yeoun_ai.Db.{PersonaStatus}
use yeoun_ai.Db.Repository.{update_persona_status, insert_persona_idle_clip}
use yeoun_ai.Pipeline.{Env}
use yeoun_ai.Creation.{
  ProcessingStep, pending, selecting_voice, transcribing, extracting_ref, rendering_idle, ready,
  failed, set_step, World, on_fs, on_db, pick_photo_file, pick_voice_file, transcribe_voice,
  ref_text_path, ref_audio_path,
}
use yeoun_ai.Creation.Steps.{prepare_voice_ref, render_idle_clips}

-- `reason[:500]`; the message of a `FaceDetectionError` stands alone.
unfoldable pub error_reason : Exception → Text
error_reason (face_detection_error m) = take 500 m
error_reason e = take 500 (type_name e ++ (codes ": " ++ message e))

-- `p.stem`, for the names that the pipeline gives.
unfoldable pub stem : Text → Text
stem [] = []
stem (c ∷ s) = if c == b'.' then [] else c ∷ stem s

-- `except Exception` around an update: a failure is logged.
abbrev pub swallow : Result (Unit {0}) × World → Result (Unit {0}) × World
swallow (ok _, w) = (ok tt, w)
swallow (raise cancelled_error, w) = (raise cancelled_error, w)
swallow (raise e, w) = (ok tt, w)

module _ (env : Env) (pid : Uuid) where
  unfoldable pub step_to : ProcessingStep → Exec World (Unit {0})
  step_to step w = (ok tt, record w { progress = set_step pid step none env.now w.progress })

  unfoldable pub step_failed : Text → Exec World (Unit {0})
  step_failed reason w =
      (ok tt, record w { progress = set_step pid failed (some reason) env.now w.progress })

  unfoldable pub status_to : PersonaStatus → Exec World (Unit {0})
  status_to status = on_db (update_persona_status env.backend pid status)

  -- A text that does not belong to the new audio goes.
  unfoldable pub drop_ref_text : Bool → World → World
  drop_ref_text was_missing w =
      if was_missing && exists w.fs (ref_text_path env pid)
      then record w { fs = unlink (ref_text_path env pid) w.fs }
      else w

  -- Step 2.
  unfoldable pub prepare_ref : FilePath → Exec World (Unit {0})
  prepare_ref voice_path = do
    was_missing ← gets (λ w. not (exists w.fs (ref_audio_path env pid)))
    on_fs (prepare_voice_ref env voice_path (ref_audio_path env pid))
    modify (drop_ref_text was_missing)

  -- The row of clip `i`, which gets the `i`-th new id; a name that is no number is passed over.
  unfoldable pub insert_clip : ℕ → FilePath → Exec World (Unit {0})
  unfolding stem
  insert_clip i p = elim (parse_int (stem (name p))) [
    | none ↦ pure tt
    | some seq ↦ on_db (
        insert_persona_idle_clip env.backend (record {
          clip_id = env.fresh i;
          persona_id = pid;
          sequence_order = to_ℕ seq;
          filesystem_path = p;
        }))
  ]

  unfoldable pub insert_clips : ℕ → List FilePath → Exec World (Unit {0})
  insert_clips i [] = pure tt
  insert_clips i (p ∷ ps) = do insert_clip i p; insert_clips (i + 1) ps

  -- Steps 3 and 4 of the `try` block.
  unfoldable pub render_part : Exec World (Unit {0})
  render_part = do
    step_to transcribing
    on_fs (transcribe_voice env (ref_audio_path env pid) (ref_text_path env pid))
    step_to rendering_idle
    photo_path ← on_fs (pick_photo_file env pid)
    clips ← on_fs (render_idle_clips env pid photo_path)
    insert_clips 0 clips

  -- Steps 1 to 4.
  unfoldable pub build : Exec World (Unit {0})
  build = do
    step_to pending
    status_to PersonaStatus.processing
    step_to selecting_voice
    voice_path ← on_fs (pick_voice_file env pid)
    step_to extracting_ref
    prepare_ref voice_path
    render_part

  -- The whole `try` block.
  unfoldable pub try_block : Exec World (Unit {0})
  try_block = do build; step_to ready; status_to PersonaStatus.ready

  -- `except asyncio.CancelledError` and `except Exception`.
  unfoldable pub handle : Result (Unit {0}) → Exec World (Unit {0})
  handle (ok _) w = (ok tt, w)
  handle (raise cancelled_error) w = (
    raise cancelled_error,
    (swallow ((do step_failed (codes "cancelled"); status_to PersonaStatus.failed) w)).1,
  )
  handle (raise e) w = swallow ((do step_failed (error_reason e); status_to PersonaStatus.failed) w)

  unfoldable pub process_persona : Exec World (Unit {0})
  process_persona w = let (r, w') = try_block w in handle r w'
