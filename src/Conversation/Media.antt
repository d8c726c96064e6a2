-- ===== src/Conversation/Media.antt =====
-- Step 6 of `process_message`: the speech and the video of an answer.
use yeoun_ai.Base.{ℕ, not, Option, none, some, List, [], ◌∷◌, ◌++◌, if◌then◌else◌, nat_eq, take}
use yeoun_ai.Base.Text.{Text, codes, starts_with, text_ltb}
use yeoun_ai.Base.Uuid.{Uuid, str_uuid}
use yeoun_ai.Base.Exec.{
  Exception, other_error, file_not_found_error, cancelled_error, type_name, message, Result, ok,
  raise, Exec, lift, gets, modify, ◌>>=◌, ◌>>◌,
}
use yeoun_ai.Fs.{FilePath, File, Fs, get_file, unlink, mkdir, files_in}
use yeoun_ai.Sessions.{SessionState}
use yeoun_ai.Models.OmniVoice
use yeoun_ai.Models.Ditto
use yeoun_ai.Pipeline.{Env}
use yeoun_ai.Creation.{newest, persona_root}
use yeoun_ai.Conversation.{error, media_ready, Turn, Run}

-- `str(path)` of an absolute path
abbrev pub str_path : FilePath → Text
str_path [] = []
str_path (c ∷ p) = b'/' ∷ (c ++ str_path p)

-- `sorted(voice_ref_dir.glob("ref_audio.*"))[0]`, by name; the directory holds files only.
unfoldable pub first_ref_audio : List (Text × File) → Option Text
unfolding text_ltb
first_ref_audio [] = none
first_ref_audio ((name, f) ∷ files) =
    let rest = first_ref_audio files in
    if not (starts_with name (codes "ref_audio.")) then rest else elim rest [
      | none ↦ some name
      | some other ↦ if text_ltb other name then some other else some name
    ]

abbrev pub unbound_local_error : Exception
unbound_local_error =
    other_error (codes "UnboundLocalError")
      (codes "cannot access local variable 'wav_path' where it is not associated with a value")

module _ (env : Env) (session : SessionState) (message_id : Uuid) where
  abbrev root : FilePath
  root = persona_root env.persona_dir session.persona_id

  abbrev pub speak_dir : FilePath
  speak_dir = root ++ (codes "speak" ∷ str_uuid session.session_id ∷ [])

  abbrev pub wav_path : FilePath
  wav_path = speak_dir ++ ((str_uuid message_id ++ codes ".wav") ∷ [])

  abbrev pub mp4_path : FilePath
  mp4_path = speak_dir ++ ((str_uuid message_id ++ codes ".mp4") ∷ [])

  abbrev pub voice_ref_dir : FilePath
  voice_ref_dir = root ++ (codes "voice_ref" ∷ [])

  abbrev pub ref_text_path : FilePath
  ref_text_path = voice_ref_dir ++ (codes "ref_text.txt" ∷ [])

  abbrev pub photo_dir : FilePath
  photo_dir = root ++ (codes "photo" ∷ [])

  -- The reference audio and its text.
  find_voice_ref : Fs → Result (FilePath × Text)
  find_voice_ref fs = elim (first_ref_audio (files_in voice_ref_dir fs)) [
    | none ↦ raise (file_not_found_error (codes "voice_ref 누락: " ++ str_path voice_ref_dir))
    | some name ↦ elim (get_file fs ref_text_path) [
      | none ↦ raise (file_not_found_error (codes "voice_ref 누락: " ++ str_path voice_ref_dir))
      | some f ↦ ok (voice_ref_dir ++ (name ∷ []), f.content)
    ]
  ]

  find_photo : Fs → Result FilePath
  find_photo fs = elim (newest (files_in photo_dir fs)) [
    | none ↦ raise (file_not_found_error (codes "photo 누락: " ++ str_path photo_dir))
    | some (name, f) ↦ ok (photo_dir ++ (name ∷ []))
  ]

  unfoldable pub render_video : FilePath → Exec Fs (Unit {0})
  render_video photo_path = do
    Ditto.render_speak env.vendor env.ditto env.disk env.now photo_path wav_path mp4_path
    modify (unlink wav_path)

  -- From the photo on.
  unfoldable pub make_video : Exec Fs (Unit {0})
  unfolding find_photo
  make_video = do photo ← gets find_photo; photo_path ← lift photo; render_video photo_path

  -- The body of the `try` block, once the directory is there.
  unfoldable pub make_media : Text → Exec Fs (Unit {0})
  unfolding find_voice_ref
  make_media final_text = do
    modify (mkdir speak_dir)
    found ← gets find_voice_ref
    (ref_audio_path, ref_text) ← lift found
    OmniVoice.synthesize env.vendor env.tts env.disk env.now final_text ref_audio_path ref_text
        wav_path
    make_video

  -- `f"{session.persona_id}/speak/{session.session_id}/{message_id}.mp4"`
  abbrev pub relative_mp4 : Text
  relative_mp4 =
      str_uuid session.persona_id
      ++ (codes "/speak/"
          ++ (str_uuid session.session_id ++ (b'/' ∷ (str_uuid message_id ++ codes ".mp4"))))

  -- `f"media_failed: {type(exc).__name__}: {exc}"[:200]`
  abbrev pub media_failed : Exception → Text
  media_failed e = take 200 (codes "media_failed: " ++ (type_name e ++ (codes ": " ++ message e)))

  -- `except Exception` of the block, and what follows it.
  unfoldable pub after_media : Turn → Result (Unit {0}) × Fs → Run
  after_media t (ok _, fs) = record {
    events = media_ready message_id relative_mp4 ∷ [];
    ending = ok tt;
    turn = record t { fs = fs };
  }
  after_media t (raise cancelled_error, fs) = record {
    events = [];
    ending = raise cancelled_error;
    turn = record t { fs = fs };
  }
  after_media t (raise e, fs) = record {
    events = error (media_failed e) ∷ [];
    ending = ok tt;
    turn = record t { fs = unlink mp4_path (unlink wav_path fs) };
  }

  -- The handler names both paths, which are not bound when `mkdir` raises: that is an
  -- `UnboundLocalError`, which nothing catches. A cancellation does not get to the handler.
  abbrev pub unbound : Exception → Exception
  unbound cancelled_error = cancelled_error
  unbound e = unbound_local_error

  -- From the result of `mkdir` on.
  abbrev pub after_mkdir : Text → Turn → Option (Exception × ℕ) → Run
  after_mkdir final_text t none = after_media t (make_media final_text t.fs)
  after_mkdir final_text t (some (e, made)) = record {
    events = [];
    ending = raise (unbound e);
    turn = record t { fs = mkdir (take made speak_dir) t.fs };
  }

  -- Step 6.
  abbrev pub speak : Text → Turn → Run
  speak final_text t = after_mkdir final_text t (env.mkdir_stops speak_dir)
