-- ===== src/Creation/Made.antt =====
-- A run that ends ready has made its clips.
use mathlib.Core.Path.{subst}
use yeoun_ai.Base.{
  ℕ, ◌+◌, ◌≡◌, ◌<◌, refl, sym, ap, ◌∙◌, Bool, false, not, ◌&&◌, Option, none, some, List, [], ◌∷◌,
  ◌++◌, arith, nat_eq, list_eq, length, length-append, Bool-cases, Option-cases, inl, inr,
}
use yeoun_ai.Base.Text.{Text, codes, starts_with}
use yeoun_ai.Base.Number.{parse_int}
use yeoun_ai.Base.Uuid.{Uuid}
use yeoun_ai.Base.Exec.{
  Exception, cancelled_error, Result, ok, raise, Exec, gets, modify, lift, ◌>>=◌, ◌>>◌, >>=-eq-ok,
  >>=-rule,
}
use yeoun_ai.Fs.{FilePath, Fs, write_bytes, mkdir, parent, replace, append_name, exists, name}
use yeoun_ai.Fs.Nodes.{
  NoDir, HasFile, write_bytes-NoDir, write_bytes-NoDir_self, unlink-NoDir, mkdir-NoDir,
  replace-NoDir, parent-append,
}
use yeoun_ai.Models.Gemma
use yeoun_ai.Pipeline.{Env}
use yeoun_ai.Db.{PersonaStatus}
use yeoun_ai.Creation.{
  ProcessingStep, pending, selecting_voice, transcribing, extracting_ref, rendering_idle, ready,
  failed, ProcessingState, get, pick_voice_file, pick_photo_file, write_ref_text, transcribe_voice,
  World, on_fs, has_content, root, clip_path, voice_ref_dir, ref_audio_path, ref_text_path,
}
use yeoun_ai.Creation.Status.{get-set_step}
use yeoun_ai.Creation.Steps.{prepare_voice_ref, render_idle_clips}
use yeoun_ai.Creation.Steps.Kept.{prepare_voice_ref-NoDir}
use yeoun_ai.Creation.Steps.Clips.{NoDirs, length-clip, render_idle_clips-made}
use yeoun_ai.Creation.Process.{
  stem, step_to, status_to, insert_clip, insert_clips, drop_ref_text, render_part, build, try_block,
  prepare_ref, handle, process_persona, swallow, step_failed, error_reason,
}

module _ (env : Env) (q ref_text : FilePath) (short : length (parent ref_text) < length q) where
  write_ref_text-NoDir :
      (text : Text) (fs : Fs) → NoDir q fs → NoDir q (write_ref_text env ref_text text fs).1
  unfolding write_ref_text
  write_ref_text-NoDir text fs h =
      let tmp = append_name ref_text (codes ".tmp") in
      let fs1 = mkdir (parent ref_text) fs in
      let h1 = mkdir-NoDir (parent ref_text) q fs short h in
      >>=-rule (λ (m : Result (Unit {0}) × Fs). NoDir q m.1) (write_bytes env.disk env.now tmp text)
        (λ _. modify (replace tmp ref_text)) fs1
        (λ e. write_bytes-NoDir env.disk env.now tmp q text fs1 h1)
        (λ _.
          replace-NoDir tmp ref_text q (write_bytes env.disk env.now tmp text fs1).1
            (write_bytes-NoDir_self env.disk env.now tmp text fs1)
            (write_bytes-NoDir env.disk env.now tmp q text fs1 h1))

  transcribe_voice-NoDir :
      (voice_path : FilePath) (fs : Fs)
      → NoDir q fs
      → NoDir q (transcribe_voice env voice_path ref_text fs).1
  unfolding transcribe_voice
  transcribe_voice-NoDir voice_path fs h = elim (Bool-cases (has_content fs ref_text)) [
    | inl old ↦ rw old h
    | inr new ↦ rw new (
        >>=-rule (λ (m : Result (Unit {0}) × Fs). NoDir q m.1)
          (lift (Gemma.transcribe env.vendor env.llm fs voice_path)) (write_ref_text env ref_text)
          fs (λ e. h) (λ text. write_ref_text-NoDir text fs h))
  ]

-- What holds of the files after a part of the pipeline that returns.
record Leads {A : Type 0} (P : Fs → Type 0) (m : Exec World A) (Q : Fs → Type 0) : Type 0 where
  leads : (w : World) (a : A) → (m w).0 ≡ ok a → P w.fs → Q (m w).1.fs

after-Leads :
    {A B : Type 0} {P Q R : Fs → Type 0} (m : Exec World A) (f : A → Exec World B)
    → Leads P m Q
    → ((a : A) → Leads Q (f a) R)
    → Leads P (m >>= f) R
after-Leads {R} m f hm hf = record {
  leads = λ w b h p.
      let (a, e, r) = >>=-eq-ok m f w b h in
      subst (λ (k : Result _ × World). R k.1.fs) (sym r)
        ((hf a).leads (m w).1 b (ap (λ (k : Result _ × World). k.0) (sym r) ∙ h)
          (hm.leads w a e p));
}

on_fs-Leads :
    {A : Type 0} {P Q : Fs → Type 0} (m : Exec Fs A)
    → ((fs : Fs) (a : A) → (m fs).0 ≡ ok a → P fs → Q (m fs).1)
    → Leads P (on_fs m) Q
on_fs-Leads m h = record { leads = λ w a e p. h w.fs a e p }

-- A part that leaves the files alone.
same-Leads :
    {A : Type 0} {P : Fs → Type 0} (m : Exec World A)
    → ((w : World) → (m w).1.fs ≡ w.fs)
    → Leads P m P
same-Leads {P} m same = record { leads = λ w a e p. subst P (sym (same w)) p }

-- The step that the progress store shows.
abbrev pub step_of : Option ProcessingState → Option ProcessingStep
step_of none = none
step_of (some state) = some state.step

module _ (env : Env) (pid : Uuid) where
  step_to-Leads : {P : Fs → Type 0} (step : ProcessingStep) → Leads P (step_to env pid step) P
  unfolding step_to
  step_to-Leads step = same-Leads _ (λ w. refl)

  status_to-Leads :
      {P : Fs → Type 0} (status : PersonaStatus) → Leads P (status_to env pid status) P
  unfolding status_to
  status_to-Leads status = same-Leads _ (λ w. refl)

  insert_clip-fs : (i : ℕ) (p : FilePath) (w : World) → (insert_clip env pid i p w).1.fs ≡ w.fs
  unfolding insert_clip
  insert_clip-fs i p w = elim (Option-cases (parse_int (stem (name p)))) [
    | inl e ↦ rw (insert_clip, e) refl
    | inr (seq, e) ↦ rw (insert_clip, e) refl
  ]

  insert_clips-Leads :
      {P : Fs → Type 0} (i : ℕ) (ps : List FilePath) → Leads P (insert_clips env pid i ps) P
  unfolding insert_clips
  insert_clips-Leads i [] = same-Leads _ (λ w. refl)
  insert_clips-Leads i (p ∷ ps) =
      after-Leads _ _ (same-Leads (insert_clip env pid i p) (insert_clip-fs i p))
        (λ _. insert_clips-Leads (i + 1) ps)

  abbrev pub HasClips : Fs → Type 0
  HasClips fs = HasFile (clip_path env pid 0) fs × HasFile (clip_path env pid 1) fs

  -- The directory of the voice reference is as deep as that of the clips.
  voice_ref-short :
      (t : Text) (j : ℕ)
      → length (parent (voice_ref_dir env pid ++ t ∷ [])) < length (clip_path env pid j)
  voice_ref-short t j = omega (
    arith,
    ap (length {0}) (parent-append (voice_ref_dir env pid) t),
    length-append (root env pid) (codes "voice_ref" ∷ []),
    length-append (root env pid) (codes "idle" ∷ []),
    length-clip env pid j,
  )

  drop_ref_text-Leads :
      (b : Bool) → Leads (NoDirs env pid) (modify (drop_ref_text env pid b)) (NoDirs env pid)
  unfolding drop_ref_text
  drop_ref_text-Leads b = record { leads = λ w a e p. dropped w p }
    where
      dropped : (w : World) → NoDirs env pid w.fs → NoDirs env pid (drop_ref_text env pid b w).fs
      dropped w p j = elim (Bool-cases (b && exists w.fs (ref_text_path env pid))) [
        | inl e ↦
            rw (drop_ref_text, e)
              (unlink-NoDir (ref_text_path env pid) (clip_path env pid j) w.fs (p j))
        | inr e ↦ rw (drop_ref_text, e) (p j)
      ]

  prepare_ref-Leads :
      (voice_path : FilePath)
      → Leads (NoDirs env pid) (prepare_ref env pid voice_path) (NoDirs env pid)
  unfolding prepare_ref
  prepare_ref-Leads voice_path =
      after-Leads (gets (λ w. not (exists w.fs (ref_audio_path env pid)))) _
        (same-Leads _ (λ w. refl))
        (λ was_missing.
          after-Leads _ _
            (on_fs-Leads (prepare_voice_ref env voice_path (ref_audio_path env pid)) (λ fs a e p j.
              prepare_voice_ref-NoDir env (clip_path env pid j) voice_path (ref_audio_path env pid)
                fs (voice_ref-short (codes "ref_audio.wav") j) (p j)))
            (λ _. drop_ref_text-Leads was_missing))

  module _ (apart : (i : ℕ) → starts_with (env.temp_path i) (root env pid) ≡ false) where
    render_part-Leads : Leads (NoDirs env pid) (render_part env pid) HasClips
    unfolding render_part pick_photo_file
    render_part-Leads = after-Leads _ _ (step_to-Leads transcribing) (λ _.
        after-Leads _ _
          (on_fs-Leads (transcribe_voice env (ref_audio_path env pid) (ref_text_path env pid))
            (λ fs a e p j.
              transcribe_voice-NoDir env (clip_path env pid j) (ref_text_path env pid)
                (voice_ref-short (codes "ref_text.txt") j) (ref_audio_path env pid) fs (p j)))
          (λ _. after-Leads _ _ (step_to-Leads rendering_idle) (λ _.
            after-Leads (on_fs (pick_photo_file env pid)) _ (same-Leads _ (λ w. refl))
              (λ photo_path.
                after-Leads _ _
                  (on_fs-Leads (render_idle_clips env pid photo_path)
                    (render_idle_clips-made env pid apart photo_path))
                  (λ clips. insert_clips-Leads 0 clips)))))

    build-Leads : Leads (NoDirs env pid) (build env pid) HasClips
    unfolding build pick_voice_file
    build-Leads = after-Leads _ _ (step_to-Leads pending) (λ _.
        after-Leads _ _ (status_to-Leads PersonaStatus.processing) (λ _.
          after-Leads _ _ (step_to-Leads selecting_voice) (λ _.
            after-Leads (on_fs (pick_voice_file env pid)) _ (same-Leads _ (λ w. refl))
              (λ voice_path.
                after-Leads _ _ (step_to-Leads extracting_ref)
                  (λ _. after-Leads _ _ (prepare_ref-Leads voice_path) (λ _. render_part-Leads))))))

    try_block-Leads : Leads (NoDirs env pid) (try_block env pid) HasClips
    unfolding try_block
    try_block-Leads =
        after-Leads _ _ build-Leads
          (λ _. after-Leads _ _ (step_to-Leads ready) (λ _. status_to-Leads PersonaStatus.ready))

  swallow-world : (m : Result (Unit {0}) × World) → (swallow m).1 ≡ m.1
  swallow-world (ok _, w) = refl
  swallow-world (raise cancelled_error, w) = refl
  swallow-world (raise _, w) = refl

  fail_step :
      (reason : Text) (w : World)
      → step_of (
          get
            (swallow
              ((step_failed env pid reason >> status_to env pid PersonaStatus.failed) w)).1.progress
            pid)
        ≡ some failed
  unfolding step_failed status_to
  fail_step reason w =
      ap (λ (v : World). step_of (get v.progress pid))
        (swallow-world ((step_failed env pid reason >> status_to env pid PersonaStatus.failed) w))
      ∙ ap step_of (get-set_step pid failed (some reason) env.now w.progress)

  handle-failed :
      (e : Exception) (w : World)
      → step_of (get (handle env pid (raise e) w).1.progress pid) ≡ some failed
  unfolding handle
  handle-failed cancelled_error w = fail_step (codes "cancelled") w
  handle-failed e w = fail_step (error_reason e) w

  handled-HasClips :
      (w : World) (m : Result (Unit {0}) × World)
      → try_block env pid w ≡ m
      → (m.0 ≡ ok tt → HasClips m.1.fs)
      → step_of (get (handle env pid m.0 m.1).1.progress pid) ≡ some ready
      → HasClips (handle env pid m.0 m.1).1.fs
  unfolding handle
  handled-HasClips w (ok _, w') e h s = h refl
  handled-HasClips w (raise x, w') e h s = cc (handle-failed x w')

-- If the temporary files lie outside the directory of the persona, and no directory has the path of a
-- clip, a run that ends with the step at ready has left both clips as files.
pub process_persona-HasClips :
    (env : Env) (pid : Uuid) (w : World)
    → ((i : ℕ) → starts_with (env.temp_path i) (root env pid) ≡ false)
    → NoDirs env pid w.fs
    → step_of (get (process_persona env pid w).1.progress pid) ≡ some ready
    → HasClips env pid (process_persona env pid w).1.fs
unfolding process_persona
process_persona-HasClips env pid w apart n s =
    handled-HasClips env pid w (try_block env pid w) refl
      (λ e. (try_block-Leads env pid apart).leads w tt e n) s
