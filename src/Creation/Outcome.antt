-- ===== src/Creation/Outcome.antt =====
-- How a run of `process_persona` ends.
use mathlib.Core.Path.{subst}
use yeoun_ai.Base.{
  ℕ, ◌+◌, ◌≡◌, ◌≤◌, inl, inr, refl, sym, ap, ◌∙◌, Bool, none, some, List, [], ◌∷◌, length, take,
  length-take, Option-cases, Bool-cases, not, ◌&&◌, arith, nat_eq,
}
use yeoun_ai.Base.Text.{Text, codes}
use yeoun_ai.Base.Uuid.{Uuid}
use yeoun_ai.Base.Exec.{
  Exception, face_detection_error, cancelled_error, Result, ok, raise, Exec, gets, modify, ◌>>=◌,
  ◌>>◌, >>-eq-ok, >>=-keeps,
}
use yeoun_ai.Fs.{FilePath, Fs, name, exists}
use yeoun_ai.Base.Number.{parse_int}
use yeoun_ai.Db.{PersonaStatus}
use yeoun_ai.Db.Repository.{mock, insert_persona_idle_clip, update_persona_status}
use yeoun_ai.Creation.Status.{
  IsPresent, table_status, IsPresent-set_persona_status, set_persona_status-table_status,
  get-set_step,
}
use yeoun_ai.Pipeline.{Env}
use yeoun_ai.Creation.{
  ProcessingStep, pending, selecting_voice, transcribing, extracting_ref, rendering_idle, ready,
  failed, pick_voice_file, pick_photo_file, transcribe_voice, get, World, on_fs, ref_audio_path,
  ref_text_path,
}
use yeoun_ai.Creation.Steps.{prepare_voice_ref, render_idle_clips}
use yeoun_ai.Creation.Process.{
  error_reason, step_to, step_failed, status_to, insert_clip, insert_clips, stem, drop_ref_text,
  render_part, build, try_block, prepare_ref, swallow, handle, process_persona,
}

take_500 : (s : Text) → length (take 500 s) ≤ 500
take_500 s = omega (arith, length-take 500 s)

-- The reason is cut.
error_reason_lem : (e : Exception) → length (error_reason e) ≤ 500
unfolding error_reason
error_reason_lem (face_detection_error m) = take_500 m
error_reason_lem e = take_500 _

module _ (env : Env) (pid : Uuid) where
  -- The progress and the table agree on the end: ready, or failed for a reason of 500 characters at
  -- most.
  pub data Settled (w : World) : Type 0 where
    is_ready :
        get w.progress pid
          ≡ some
              (record { persona_id = pid; step = ready; error_reason = none; updated_at = env.now })
        → table_status w.db pid ≡ some PersonaStatus.ready
        → Settled w
    has_failed :
        (reason : Text)
        → get w.progress pid
          ≡ some (record {
            persona_id = pid;
            step = failed;
            error_reason = some reason;
            updated_at = env.now;
          })
        → length reason ≤ 500
        → table_status w.db pid ≡ some PersonaStatus.failed
        → Settled w

  Has : World → Type 0
  Has w = IsPresent pid w.db

  Keeps : {A : Type 0} → Exec World A → Type 0
  Keeps m = (w : World) → Has w → Has (m w).1

  after-Keeps :
      {A B : Type 0} (m : Exec World A) (f : A → Exec World B)
      → Keeps m
      → ((a : A) → Keeps (f a))
      → Keeps (m >>= f)
  unfolding Keeps
  after-Keeps m f hm hf = >>=-keeps Has m f hm hf

  Keeps-Has : {A : Type 0} (m : Exec World A) → Keeps m → (w : World) → Has w → Has (m w).1
  unfolding Keeps
  Keeps-Has m k w h = k w h

  pure-Keeps : {A : Type 0} (a : A) → Keeps (λ w. (ok a, w))
  unfolding Keeps
  pure-Keeps a w h = h

  gets-Keeps : {A : Type 0} (f : World → A) → Keeps (gets f)
  unfolding Keeps
  gets-Keeps f w h = h

  step_to-Keeps : (step : ProcessingStep) → Keeps (step_to env pid step)
  unfolding Keeps Has step_to
  step_to-Keeps step w h = h

  on_fs-Keeps : {A : Type 0} (m : Exec Fs A) → Keeps (on_fs m)
  unfolding Keeps Has
  on_fs-Keeps m w h = h

  module _ (in_memory : env.backend ≡ mock) where
    status_to-Keeps : (status : PersonaStatus) → Keeps (status_to env pid status)
    unfolding Has Keeps status_to update_persona_status
    status_to-Keeps status w h = rw in_memory (IsPresent-set_persona_status status pid w.db h)

    insert_clip-Keeps : (i : ℕ) (p : FilePath) → Keeps (insert_clip env pid i p)
    unfolding Has Keeps insert_clip insert_persona_idle_clip
    insert_clip-Keeps i p w h = elim (Option-cases (parse_int (stem (name p)))) [
      | inl e ↦ rw (insert_clip, e) h
      | inr (seq, e) ↦ rw (insert_clip, insert_persona_idle_clip, e, in_memory) h
    ]

    insert_clips-Keeps : (i : ℕ) (ps : List FilePath) → Keeps (insert_clips env pid i ps)
    unfolding insert_clips
    insert_clips-Keeps i [] = pure-Keeps tt
    insert_clips-Keeps i (p ∷ ps) =
        after-Keeps _ _ (insert_clip-Keeps i p) (λ _. insert_clips-Keeps (i + 1) ps)

    drop_ref_text-Keeps : (b : Bool) → Keeps (modify (drop_ref_text env pid b))
    unfolding Keeps Has drop_ref_text
    drop_ref_text-Keeps b w h = elim (Bool-cases (b && exists w.fs (ref_text_path env pid))) [
      | inl e ↦ rw (drop_ref_text, e) h
      | inr e ↦ rw (drop_ref_text, e) h
    ]

    prepare_ref-Keeps : (p : FilePath) → Keeps (prepare_ref env pid p)
    unfolding prepare_ref
    prepare_ref-Keeps p =
        after-Keeps _ _ (gets-Keeps (λ w. not (exists w.fs (ref_audio_path env pid))))
          (λ was_missing.
            after-Keeps _ _ (on_fs-Keeps (prepare_voice_ref env p (ref_audio_path env pid)))
              (λ _. drop_ref_text-Keeps was_missing))

    -- The steps from the transcription on.
    render_part-Keeps : Keeps (render_part env pid)
    unfolding render_part
    render_part-Keeps = after-Keeps _ _ (step_to-Keeps transcribing) (λ _.
        after-Keeps _ _
          (on_fs-Keeps (transcribe_voice env (ref_audio_path env pid) (ref_text_path env pid)))
          (λ _. after-Keeps _ _ (step_to-Keeps rendering_idle) (λ _.
            after-Keeps _ _ (on_fs-Keeps (pick_photo_file env pid)) (λ photo_path.
              after-Keeps _ _ (on_fs-Keeps (render_idle_clips env pid photo_path))
                (λ clips. insert_clips-Keeps 0 clips)))))

    build-Keeps : Keeps (build env pid)
    unfolding build
    build-Keeps = after-Keeps _ _ (step_to-Keeps pending) (λ _.
        after-Keeps _ _ (status_to-Keeps PersonaStatus.processing) (λ _.
          after-Keeps _ _ (step_to-Keeps selecting_voice) (λ _.
            after-Keeps _ _ (on_fs-Keeps (pick_voice_file env pid)) (λ voice_path.
              after-Keeps _ _ (step_to-Keeps extracting_ref)
                (λ _. after-Keeps _ _ (prepare_ref-Keeps voice_path) (λ _. render_part-Keeps))))))

    -- The last two steps of a run that succeeds.
    Settled-ready :
        (w : World)
        → Has w
        → Settled ((step_to env pid ready >> status_to env pid PersonaStatus.ready) w).1
    unfolding Has step_to status_to update_persona_status
    Settled-ready w h = rw in_memory (
        is_ready (get-set_step pid ready none env.now w.progress)
          (set_persona_status-table_status PersonaStatus.ready pid w.db h))

    Settled-failed :
        (reason : Text) (w : World)
        → length reason ≤ 500
        → Has w
        → Settled ((step_failed env pid reason >> status_to env pid PersonaStatus.failed) w).1
    unfolding Has step_failed status_to update_persona_status
    Settled-failed reason w l h = rw in_memory (
        has_failed reason (get-set_step pid failed (some reason) env.now w.progress) l
          (set_persona_status-table_status PersonaStatus.failed pid w.db h))

    try_block-Keeps : Keeps (try_block env pid)
    unfolding try_block
    try_block-Keeps =
        after-Keeps _ _ build-Keeps
          (λ _. after-Keeps _ _ (step_to-Keeps ready) (λ _. status_to-Keeps PersonaStatus.ready))

    swallow-world : (m : Result (Unit {0}) × World) → (swallow m).1 ≡ m.1
    swallow-world (ok _, w) = refl
    swallow-world (raise cancelled_error, w) = refl
    swallow-world (raise _, w) = refl

    handle-Settled : (e : Exception) (w : World) → Has w → Settled (handle env pid (raise e) w).1
    unfolding handle
    handle-Settled cancelled_error w h =
        subst Settled
          (sym (
            swallow-world (
              (step_failed env pid (codes "cancelled") >> status_to env pid PersonaStatus.failed)
                w)))
          (Settled-failed (codes "cancelled") w (omega arith) h)
    handle-Settled e w h =
        subst Settled
          (sym (
            swallow-world
              ((step_failed env pid (error_reason e) >> status_to env pid PersonaStatus.failed) w)))
          (Settled-failed (error_reason e) w (error_reason_lem e) h)

    -- A run that ended with `r` in `w'`.
    handled :
        (w : World) (r : Result (Unit {0})) (w' : World)
        → Has w
        → try_block env pid w ≡ (r, w')
        → Settled (handle env pid r w').1
    unfolding try_block handle
    handled w (ok tt) w' h e =
        let done =
          >>-eq-ok (build env pid) (step_to env pid ready >> status_to env pid PersonaStatus.ready)
            w (ap (λ m. m.0) e) in
        subst Settled (ap (λ m. m.1) (sym done.1 ∙ e))
          (Settled-ready (build env pid w).1 (Keeps-Has (build env pid) build-Keeps w h))
    handled w (raise x) w' h e =
        handle-Settled x w'
          (subst (λ m. Has m.1) e (Keeps-Has (try_block env pid) try_block-Keeps w h))

-- With the tables in memory and the persona in them, a run of `process_persona` never leaves the
-- persona in processing: progress and table both end at ready, or both at failed, with a reason of
-- at most 500 characters, however the run ends.
pub process_persona-Settled :
    (env : Env) (pid : Uuid) (w : World)
    → env.backend ≡ mock
    → IsPresent pid w.db
    → Settled env pid (process_persona env pid w).1
unfolding process_persona Has
process_persona-Settled env pid w e h = handled env pid e w _ _ h refl

Settled-IsPresent : (env : Env) (pid : Uuid) (w : World) → Settled env pid w → IsPresent pid w.db
Settled-IsPresent env pid w (is_ready p t) = ground arith
Settled-IsPresent env pid w (has_failed reason p l t) = ground arith

-- The persona is still in the table after a run.
pub process_persona-IsPresent :
    (env : Env) (pid : Uuid) (w : World)
    → env.backend ≡ mock
    → IsPresent pid w.db
    → IsPresent pid (process_persona env pid w).1.db
process_persona-IsPresent env pid w e h =
    Settled-IsPresent env pid (process_persona env pid w).1 (process_persona-Settled env pid w e h)
