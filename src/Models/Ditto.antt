-- ===== src/Models/Ditto.antt =====
-- app/models/talkinghead_ditto.py
pub mod Cleanup
pub mod Files
use yeoun_ai.Base.{
  is_some, ℕ, ◌-◌, ◌*◌, ◌/◌, ◌==◌, Bool, true, false, not, ◌&&◌, ◌||◌, Option, none, some, List, [],
  ◌∷◌, ◌++◌, if◌then◌else◌, length, drop, nat_eq,
}
use yeoun_ai.Base.Int.{ℤ, pos}
use yeoun_ai.Base.Text.{Text, codes, is_empty, has_infix}
use yeoun_ai.Base.Exec.{
  Exception, other_error, runtime_error, face_detection_error, Result, ok, raise, Exec, pure, throw,
  lift, gets, modify, ◌>>=◌, ◌>>◌,
}
use yeoun_ai.Fs.{
  FilePath, Bytes, Fs, Disk, exists, mkdir, parent, write, write_bytes, unlink, append_name,
}
use yeoun_ai.Models.{Status, not_loaded, loading, loaded, error, Process, Vendor}

pub record DittoTalkingHead : Type 0 where
  pub vendor_dir : Option FilePath
  pub data_root : Option FilePath
  pub cfg_pkl : Option FilePath
  pub gpu_enabled : Bool
  pub status : Status

-- `DittoTalkingHead(...)`, the paths resolved
abbrev pub new_ditto : Option FilePath → Option FilePath → Option FilePath → Bool → DittoTalkingHead
new_ditto vendor_dir data_root cfg_pkl gpu_enabled = record {
  vendor_dir = vendor_dir;
  data_root = data_root;
  cfg_pkl = cfg_pkl;
  gpu_enabled = gpu_enabled;
  status = not_loaded;
}

-- `_SILENCE_SAMPLE_RATE`
abbrev pub silence_sample_rate : ℕ
silence_sample_rate = 16_000

-- `_DUMMY_MP4_BYTES`
abbrev pub dummy_mp4_bytes : Bytes
dummy_mp4_bytes = 0 ∷ 0 ∷ 0 ∷ 0x18 ∷ (codes "ftypisom" ++ (0 ∷ 0 ∷ 0 ∷ 0 ∷ codes "isomiso2mp41"))

unfoldable pub is_face_detection_failure : Text → Bool
is_face_detection_failure stderr_tail =
    has_infix (codes "cannot unpack non-iterable NoneType") stderr_tail
    && (has_infix (codes "source2info") stderr_tail
        || has_infix (codes "avatar_registrar") stderr_tail)
    && (has_infix (codes "_crop") stderr_tail || has_infix (codes "img_crop") stderr_tail)

abbrev pub face_detection_failure_message : Text
face_detection_failure_message = codes "얼굴 검출 실패: 업로드한 사진에서 얼굴을 찾을 수 없습니다. 정면 얼굴이 또렷한 사진을 사용해 주세요."

abbrev path_exists : Fs → Option FilePath → Bool
path_exists fs none = false
path_exists fs (some p) = exists fs p

abbrev inference_py : Option FilePath → Option FilePath
inference_py none = none
inference_py (some p) = some (p ++ (codes "inference.py" ∷ []))

-- `missing` is empty
all_present : Fs → DittoTalkingHead → Bool
all_present fs d =
    path_exists fs (inference_py d.vendor_dir)
    && path_exists fs d.data_root
    && path_exists fs d.cfg_pkl

unfoldable pub load : Fs → Exec DittoTalkingHead (Unit {0})
unfolding all_present
load fs d =
    if not d.gpu_enabled
    then (ok tt, record d { status = loaded })
    else if all_present fs d
    then (ok tt, record d { status = loaded })
    else (raise (runtime_error (codes "Ditto")), record d { status = error })

unfoldable pub unload : DittoTalkingHead → DittoTalkingHead
unload d = record d { status = not_loaded }

-- The files that a process leaves.
abbrev leave : ℕ → FilePath → Option Bytes → Fs → Fs
leave now p none fs = fs
leave now p (some content) fs = write p content now fs

-- `stderr.decode(...)[-1000:]`
abbrev tail_1000 : Text → Text
tail_1000 stderr = drop (length stderr - 1000) stderr

abbrev failure_of : Text → Exception
failure_of stderr_tail =
    if is_face_detection_failure stderr_tail
    then face_detection_error face_detection_failure_message
    else runtime_error stderr_tail

abbrev is_zero : ℤ → Bool
is_zero (pos n) = n == 0
is_zero _ = false

abbrev pub tmp_path : FilePath → FilePath
tmp_path target = append_name target (codes ".tmp.mp4")

-- The tests on a process that has ended.
check_process : Process → FilePath → Exec Fs (Unit {0})
check_process p target fs =
    if not (is_zero p.returncode)
    then (raise (failure_of (tail_1000 p.stderr)), fs)
    else if not (exists fs target)
    then (raise (runtime_error (codes "output")), fs)
    else (ok tt, fs)

-- The body of the `try` block.
unfoldable pub run_inference : Vendor → ℕ → FilePath → FilePath → FilePath → Exec Fs (Unit {0})
unfolding check_process
run_inference vendor now image_path audio_path target fs =
    elim (vendor.inference fs image_path audio_path target) [
      | raise e ↦ (raise e, fs)
      | ok p ↦
          check_process p target
            (leave now (tmp_path target) p.tmp_output (leave now target p.output fs))
    ]

-- `except BaseException`: what was left of the output is removed, and the exception goes on.
unfoldable pub clean_up : FilePath → Result (Unit {0}) × Fs → Result (Unit {0}) × Fs
clean_up target (ok _, fs) = (ok tt, fs)
clean_up target (raise e, fs) = (raise e, unlink (tmp_path target) (unlink target fs))

-- `_write_dummy_mp4`
unfoldable pub write_dummy_mp4 : Disk → ℕ → FilePath → Exec Fs (Unit {0})
write_dummy_mp4 disk now target = do
  modify (mkdir (parent target))
  write_bytes disk now target dummy_mp4_bytes

-- `self._vendor_dir and self._data_root and self._cfg_pkl`; a path that is there is no empty text.
abbrev pub has_paths : DittoTalkingHead → Bool
has_paths d = is_some d.vendor_dir && is_some d.data_root && is_some d.cfg_pkl

abbrev pub assertion_error : Exception
assertion_error = other_error (codes "AssertionError") []

unfoldable pub render_speak :
    Vendor → DittoTalkingHead → Disk → ℕ → FilePath → FilePath → FilePath → Exec Fs (Unit {0})
render_speak vendor d disk now image_path audio_path output_path fs =
    let fs' = mkdir (parent output_path) fs in
    elim d.status [
      | loaded ↦
          if not d.gpu_enabled
          then write_dummy_mp4 disk now output_path fs'
          else if has_paths d
          then clean_up output_path (run_inference vendor now image_path audio_path output_path fs')
          else (raise assertion_error, fs')
      | _ ↦ (raise (runtime_error (codes "DittoTalkingHead 가 로드되지 않았습니다.")), fs')
    ]

-- `finally`: the temporary file goes, whatever the result.
abbrev finally_unlink : FilePath → Result (Unit {0}) × Fs → Result (Unit {0}) × Fs
finally_unlink p (r, fs) = (r, unlink p fs)

-- `render_idle`, with the path that `mkstemp` gives and the duration in tenths of a second. The
-- file at that path is there, and empty, from the call of `mkstemp` on.
unfoldable pub render_idle :
    Vendor → DittoTalkingHead → Disk → ℕ → FilePath → FilePath → FilePath → ℕ → Exec Fs (Unit {0})
render_idle vendor d disk now silence_path image_path output_path duration fs =
    let fs' = write silence_path [] now (mkdir (parent output_path) fs) in
    finally_unlink silence_path (
      (do
        write_bytes disk now silence_path
            (vendor.silent_wav (silence_sample_rate * duration / 10) silence_sample_rate)
        render_speak vendor d disk now image_path silence_path output_path)
        fs')
