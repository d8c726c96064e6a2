-- ===== src/Models/Ditto/Files.antt =====
-- What a render that returns does to the files at other paths.
use yeoun_ai.Base.{
  ℕ, ◌*◌, ◌/◌, ◌≡◌, refl, ap, ◌∙◌, true, false, Option, none, some, [], arith, Bool-cases, inl, inr,
  nat_eq, list_eq, Option-cases,
}
use yeoun_ai.Base.Exec.{Result, ok, raise, Exec, Result-cases, ◌>>◌, >>-eq-ok}
use yeoun_ai.Fs.{FilePath, Bytes, Fs, exists, Disk, write, write_bytes, mkdir, parent, unlink}
use yeoun_ai.Models.{Status, loaded, Process, Vendor}
use mathlib.Core.Path.{subst, sym}
use yeoun_ai.Models.Ditto.Cleanup.{render_speak_gpu, render_speak-output}
use yeoun_ai.Models.Ditto.{
  DittoTalkingHead, has_paths, dummy_mp4_bytes, leave, tmp_path, check_process, run_inference,
  clean_up, write_dummy_mp4, render_speak, render_idle, finally_unlink, silence_sample_rate,
}

-- A property of the files that writing a file and making a directory keep.
pub record Survives (P : Fs → Type 0) (target : FilePath) : Type 0 where
  pub on_write :
      (p : FilePath) (content : Bytes) (now : ℕ) (fs : Fs) → P fs → P (write p content now fs)
  pub on_mkdir : (fs : Fs) → P fs → P (mkdir (parent target) fs)

render_speak_dummy :
    (vendor : Vendor) (d : DittoTalkingHead) (disk : Disk) (now : ℕ)
    (image_path audio_path target : FilePath) (fs : Fs)
    → d.status ≡ loaded
    → d.gpu_enabled ≡ false
    → render_speak vendor d disk now image_path audio_path target fs
      ≡ write_dummy_mp4 disk now target (mkdir (parent target) fs)
unfolding render_speak
render_speak_dummy vendor d disk now image_path audio_path target fs up off = ground arith

module _ (P : Fs → Type 0) (target : FilePath) (k : Survives P target) where
  pub write_bytes_survives :
      (disk : Disk) (now : ℕ) (p : FilePath) (content : Bytes) (fs : Fs)
      → P fs
      → P (write_bytes disk now p content fs).1
  unfolding write_bytes
  write_bytes_survives disk now p content fs h = elim (Option-cases (disk p)) [
    | inl e ↦ rw (write_bytes, e) (k.on_write p content now fs h)
    | inr ((written, x), e) ↦ rw (write_bytes, e) (k.on_write p written now fs h)
  ]

  leave_survives :
      (now : ℕ) (p : FilePath) (o : Option Bytes) (fs : Fs) → P fs → P (leave now p o fs)
  leave_survives now p none fs h = h
  leave_survives now p (some content) fs h = k.on_write p content now fs h

  check_process-fs : (p : Process) (fs : Fs) → (check_process p target fs).1 ≡ fs
  unfolding check_process
  check_process-fs p fs = ground arith

  run_inference_survives :
      (vendor : Vendor) (now : ℕ) (image_path audio_path : FilePath) (fs : Fs)
      → P fs
      → P (run_inference vendor now image_path audio_path target fs).1
  unfolding run_inference
  run_inference_survives vendor now image_path audio_path fs h =
      elim (Result-cases (vendor.inference fs image_path audio_path target)) [
        | inr (x, e) ↦ rw (run_inference, e) h
        | inl (p, e) ↦
            let left = leave now (tmp_path target) p.tmp_output (leave now target p.output fs) in
            rw (run_inference, e, check_process-fs p left)
              (leave_survives now (tmp_path target) p.tmp_output (leave now target p.output fs)
                (leave_survives now target p.output fs h))
      ]

  clean_up_survives :
      (m : Result (Unit {0}) × Fs) → (clean_up target m).0 ≡ ok tt → P m.1 → P (clean_up target m).1
  unfolding clean_up
  clean_up_survives (ok _, fs) h p = p
  clean_up_survives (raise e, fs) h p = cc

  write_dummy_mp4_survives :
      (disk : Disk) (now : ℕ) (fs : Fs) → P fs → P (write_dummy_mp4 disk now target fs).1
  unfolding write_dummy_mp4
  write_dummy_mp4_survives disk now fs h =
      write_bytes_survives disk now target dummy_mp4_bytes (mkdir (parent target) fs)
        (k.on_mkdir fs h)

  pub render_speak_survives :
      (vendor : Vendor) (d : DittoTalkingHead) (disk : Disk) (now : ℕ)
      (image_path audio_path : FilePath) (fs : Fs)
      → (render_speak vendor d disk now image_path audio_path target fs).0 ≡ ok tt
      → P fs
      → P (render_speak vendor d disk now image_path audio_path target fs).1
  unfolding render_speak
  render_speak_survives vendor d disk now image_path audio_path fs h p = go d.status refl h
    where
      made : P (mkdir (parent target) fs)
      made = k.on_mkdir fs p

      go :
          (s : Status)
          → d.status ≡ s
          → (render_speak vendor d disk now image_path audio_path target fs).0 ≡ ok tt
          → P (render_speak vendor d disk now image_path audio_path target fs).1
      go loaded e h = elim (Bool-cases d.gpu_enabled) [
        | inl on ↦ elim (Bool-cases (has_paths d)) [
          | inr unset ↦ rw (render_speak, e, on, unset) made
          | inl paths ↦
              let run =
                render_speak_gpu vendor d disk now image_path audio_path target fs e on paths in
              subst (λ (m : Result (Unit {0}) × Fs). P m.1) (sym run)
                (clean_up_survives
                  (run_inference vendor now image_path audio_path target (mkdir (parent target) fs))
                  (ap (λ (m : Result (Unit {0}) × Fs). m.0) (sym run) ∙ h)
                  (run_inference_survives vendor now image_path audio_path
                    (mkdir (parent target) fs) made))
        ]
        | inr off ↦
            subst (λ (m : Result (Unit {0}) × Fs). P m.1)
              (sym (render_speak_dummy vendor d disk now image_path audio_path target fs e off))
              (write_dummy_mp4_survives disk now (mkdir (parent target) fs) made)
      ]
      go _ e h = rw (render_speak, e) made

module _ (vendor : Vendor) (d : DittoTalkingHead) (disk : Disk) (now : ℕ)
    (silence_path image_path target : FilePath) (duration : ℕ) where
  -- The files when `render_speak` is called, and after it.
  abbrev silence : Bytes
  silence = vendor.silent_wav (silence_sample_rate * duration / 10) silence_sample_rate

  abbrev opened : Fs → Fs
  opened fs = write silence_path [] now (mkdir (parent target) fs)

  abbrev rendered : Exec Fs (Unit {0})
  rendered =
      write_bytes disk now silence_path silence
      >> render_speak vendor d disk now image_path silence_path target

  render_idle_run :
      (fs : Fs)
      → render_idle vendor d disk now silence_path image_path target duration fs
        ≡ finally_unlink silence_path (rendered (opened fs))
  unfolding render_idle
  render_idle_run fs = refl

  -- What a property of the files comes to when the temporary file is removed at the end.
  pub render_idle_survives :
      (P Q : Fs → Type 0)
      → Survives P target
      → ((fs : Fs) → exists fs target ≡ true → P fs → Q (unlink silence_path fs))
      → (fs : Fs)
      → (render_idle vendor d disk now silence_path image_path target duration fs).0 ≡ ok tt
      → P fs
      → Q (render_idle vendor d disk now silence_path image_path target duration fs).1
  render_idle_survives P Q k last fs h p =
      let write_silence = write_bytes disk now silence_path silence in
      let speak = render_speak vendor d disk now image_path silence_path target in
      let returned : (rendered (opened fs)).0 ≡ ok tt =
        ap (λ (m : Result (Unit {0}) × Fs). m.0) (sym (render_idle_run fs)) ∙ h in
      let parts = >>-eq-ok write_silence speak (opened fs) returned in
      let fs1 = (write_silence (opened fs)).1 in
      let ends : (speak fs1).0 ≡ ok tt =
        ap (λ (m : Result (Unit {0}) × Fs). m.0) (sym parts.1) ∙ returned in
      let p1 =
        write_bytes_survives P target k disk now silence_path silence (opened fs)
          (k.on_write silence_path [] now (mkdir (parent target) fs) (k.on_mkdir fs p)) in
      subst (λ (m : Result (Unit {0}) × Fs). Q m.1)
        (sym (render_idle_run fs ∙ ap (finally_unlink silence_path) parts.1))
        (last (speak fs1).1
          (render_speak-output vendor d disk now image_path silence_path target fs1 ends)
          (render_speak_survives P target k vendor d disk now image_path silence_path fs1 ends p1))
