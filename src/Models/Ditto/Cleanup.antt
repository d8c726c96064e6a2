-- ===== src/Models/Ditto/Cleanup.antt =====
-- What `render_speak` leaves at its output path.
use mathlib.Core.Path.{subst, sym}
use yeoun_ai.Base.{ℕ, ◌≡◌, refl, true, false, none, arith, if◌then◌else◌, ◌==◌, nat_eq, list_eq}
use yeoun_ai.Base.Dict
use yeoun_ai.Base.Exec.{Result, ok, raise}
use yeoun_ai.Fs.{
  FilePath, Bytes, Fs, file, Disk, exists, get_file, is_file, unlink, mkdir, parent, write_bytes,
}
use yeoun_ai.Models.{loaded, Vendor}
use yeoun_ai.Models.Ditto.{
  DittoTalkingHead, load, all_present, has_paths, dummy_mp4_bytes, tmp_path, run_inference,
  clean_up, write_dummy_mp4, render_speak,
}

pub get_file-unlink :
    (p q : FilePath) (fs : Fs) → get_file (unlink p fs) q ≡ (if q == p then none else get_file fs q)
get_file-unlink p q fs = ground (arith, Dict.lookup-erase q p fs)

-- After a failure nothing is left at the output path or beside it; after a success the output is
-- there.
abbrev pub LeavesOutput : FilePath → Result (Unit {0}) × Fs → Type 0
LeavesOutput target (ok _, fs) = exists fs target ≡ true
LeavesOutput target (raise e, fs) =
    (is_file fs target ≡ false) × (is_file fs (tmp_path target) ≡ false)

clean_up-LeavesOutput :
    (target : FilePath) (m : Result (Unit {0}) × Fs)
    → (m.0 ≡ ok tt → exists m.1 target ≡ true)
    → LeavesOutput target (clean_up target m)
unfolding clean_up
clean_up-LeavesOutput target (ok tt, fs) h = h refl
clean_up-LeavesOutput target (raise e, fs) h = (
  ground (
    arith,
    get_file-unlink (tmp_path target) target (unlink target fs),
    get_file-unlink target target fs,
  ),
  ground (arith, get_file-unlink (tmp_path target) (tmp_path target) (unlink target fs)),
)

run_inference-output :
    (vendor : Vendor) (now : ℕ) (image_path audio_path target : FilePath) (fs : Fs)
    → (run_inference vendor now image_path audio_path target fs).0 ≡ ok tt
    → exists (run_inference vendor now image_path audio_path target fs).1 target ≡ true
unfolding run_inference
run_inference-output vendor now image_path audio_path target fs h = ground arith

pub render_speak_gpu :
    (vendor : Vendor) (d : DittoTalkingHead) (disk : Disk) (now : ℕ)
    (image_path audio_path target : FilePath) (fs : Fs)
    → d.status ≡ loaded
    → d.gpu_enabled ≡ true
    → has_paths d ≡ true
    → render_speak vendor d disk now image_path audio_path target fs
      ≡ clean_up target
          (run_inference vendor now image_path audio_path target (mkdir (parent target) fs))
unfolding render_speak
render_speak_gpu vendor d disk now image_path audio_path target fs up gpu paths =
    rw (render_speak, up, gpu, paths) refl

-- A `load` on the GPU that returns has found the paths.
load-has_paths :
    (d : DittoTalkingHead) (fs : Fs)
    → d.gpu_enabled ≡ true
    → (load fs d).0 ≡ ok tt
    → has_paths (load fs d).1 ≡ true
unfolding load all_present
load-has_paths d fs gpu h = ground arith

-- With the model loaded, the GPU on and the paths there, as `load` checks, `render_speak` either succeeds and the output exists, or
-- raises and neither the output nor its temporary file is left.
pub render_speak-LeavesOutput :
    (vendor : Vendor) (d : DittoTalkingHead) (disk : Disk) (now : ℕ)
    (image_path audio_path target : FilePath) (fs : Fs)
    → d.status ≡ loaded
    → d.gpu_enabled ≡ true
    → has_paths d ≡ true
    → LeavesOutput target (render_speak vendor d disk now image_path audio_path target fs)
render_speak-LeavesOutput vendor d disk now image_path audio_path target fs up gpu paths =
    subst (LeavesOutput target)
      (sym (render_speak_gpu vendor d disk now image_path audio_path target fs up gpu paths))
      (clean_up-LeavesOutput target _
        (run_inference-output vendor now image_path audio_path target (mkdir (parent target) fs)))

write_bytes-output :
    (disk : Disk) (now : ℕ) (p : FilePath) (content : Bytes) (fs : Fs)
    → (write_bytes disk now p content fs).0 ≡ ok tt
    → exists (write_bytes disk now p content fs).1 p ≡ true
unfolding write_bytes
write_bytes-output disk now p content fs h =
    ground (arith, Dict.lookup-insert p p (file (record { content = content; mtime = now })) fs)

write_dummy_mp4-output :
    (disk : Disk) (now : ℕ) (target : FilePath) (fs : Fs)
    → (write_dummy_mp4 disk now target fs).0 ≡ ok tt
    → exists (write_dummy_mp4 disk now target fs).1 target ≡ true
unfolding write_dummy_mp4
write_dummy_mp4-output disk now target fs h =
    write_bytes-output disk now target dummy_mp4_bytes (mkdir (parent target) fs) h

clean_up-output :
    (target : FilePath) (m : Result (Unit {0}) × Fs)
    → (m.0 ≡ ok tt → exists m.1 target ≡ true)
    → (clean_up target m).0 ≡ ok tt
    → exists (clean_up target m).1 target ≡ true
unfolding clean_up
clean_up-output target (ok tt, fs) h e = h refl
clean_up-output target (raise x, fs) h e = cc

-- `render_speak` that returns has left its output.
pub render_speak-output :
    (vendor : Vendor) (d : DittoTalkingHead) (disk : Disk) (now : ℕ)
    (image_path audio_path target : FilePath) (fs : Fs)
    → (render_speak vendor d disk now image_path audio_path target fs).0 ≡ ok tt
    → exists (render_speak vendor d disk now image_path audio_path target fs).1 target ≡ true
unfolding render_speak
render_speak-output vendor d disk now image_path audio_path target fs h = ground (
  arith,
  write_dummy_mp4-output disk now target (mkdir (parent target) fs),
  clean_up-output target
      (run_inference vendor now image_path audio_path target (mkdir (parent target) fs))
      (run_inference-output vendor now image_path audio_path target (mkdir (parent target) fs)),
)
