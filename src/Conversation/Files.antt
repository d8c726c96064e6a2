-- ===== src/Conversation/Files.antt =====
-- What an answered message leaves on the disk.
use mathlib.Core.Path.{subst, sym}
use mathlib.Core.Bool.{true≢false}
use yeoun_ai.Base.{
  Option, none, some, ℕ, ◌≡◌, refl, ap, ◌∙◌, Bool, true, false, List, [], ◌∷◌, ◌++◌, map,
}
use yeoun_ai.Base.Text.{Text}
use yeoun_ai.Base.Exec.{Exception, cancelled_error, Result, ok, raise}
use yeoun_ai.Fs.{FilePath, Fs}
use yeoun_ai.Sessions.{SessionState}
use yeoun_ai.Pipeline.{Env}
use yeoun_ai.Conversation.{Event, token, media_ready, error, Turn, Run}
use yeoun_ai.Conversation.Media.{after_mkdir, speak_dir, after_media, make_media}
use yeoun_ai.Conversation.Message.{answer, process_message, message_id, with_answer}
use yeoun_ai.Conversation.Courses.{
  Course, stopping, failing, warning, answering, with_db, process_message-Course,
}
use yeoun_ai.Conversation.Guards.{answers, answers-tokens}
use yeoun_ai.Conversation.Cleanup.{HasVideo, HasNothing, unlink-HasNothing, make_media-HasVideo}

abbrev pub announces_media : List Event → Bool
announces_media [] = false
announces_media (media_ready i path ∷ es) = true
announces_media (_ ∷ es) = announces_media es

announces_media-tokens :
    (ts : List Text) (es : List Event) → announces_media (map token ts ++ es) ≡ announces_media es
announces_media-tokens [] es = refl
announces_media-tokens (s ∷ ts) es = announces_media-tokens ts es

abbrev pub no_answer : List Text → Bool
no_answer [] = true
no_answer (text ∷ texts) = false

module _ (env : Env) (audio_path : FilePath) where
  abbrev pub FilesFit : SessionState → Bool → Fs → Type 0
  FilesFit session true fs = HasVideo env session (message_id env audio_path) fs
  FilesFit session false fs = HasNothing env session (message_id env audio_path) fs

  after_media-FilesFit :
      (session : SessionState) (t : Turn) (m : Result (Unit {0}) × Fs)
      → (m.0 ≡ ok tt → HasVideo env session (env.fresh 0) m.1)
      → let r = after_media env session (env.fresh 0) t m in
        r.ending ≡ ok tt → FilesFit session (announces_media r.events) r.turn.fs
  unfolding after_media
  after_media-FilesFit session t (ok tt, fs) h e = h refl
  after_media-FilesFit session t (raise cancelled_error, fs) h e = cc
  after_media-FilesFit session t (raise _, fs) h e = unlink-HasNothing env session (env.fresh 0) fs

  after_mkdir-FilesFit :
      (session : SessionState) (text : Text) (t : Turn) (o : Option (Exception × ℕ))
      → let r = after_mkdir env session (env.fresh 0) text t o in
        r.ending ≡ ok tt → FilesFit session (announces_media r.events) r.turn.fs
  after_mkdir-FilesFit session text t none h =
      after_media-FilesFit session t (make_media env session (env.fresh 0) text t.fs)
        (make_media-HasVideo env session (env.fresh 0) text t.fs) h
  after_mkdir-FilesFit session text t (some (e, made)) h = cc

  answer-FilesFit :
      (user_text final_text : Text) (t : Turn)
      → let r = answer env audio_path user_text final_text t in
        r.ending ≡ ok tt → FilesFit t.session (announces_media r.events) r.turn.fs
  unfolding answer
  answer-FilesFit user_text final_text t e =
      let t' : Turn = record t { session = with_answer env.now user_text final_text t.session } in
      after_mkdir-FilesFit t'.session final_text t'
        (env.mkdir_stops (speak_dir env t'.session (env.fresh 0))) e

  Course-FilesFit :
      (t : Turn) (r : Run)
      → Course env audio_path t r
      → r.ending ≡ ok tt
      → no_answer (answers r.events) ≡ false
      → FilesFit t.session (announces_media r.events) r.turn.fs
  Course-FilesFit t _ (stopping ts db) e a = cc
  Course-FilesFit t _ (failing ts reason) e a =
      absurd (true≢false (sym (ap no_answer (answers-tokens ts (error reason ∷ []))) ∙ a))
  Course-FilesFit t _ (warning keyword db) e a = cc
  Course-FilesFit t _ (answering ts user_text final_text db heard safe) e a =
      let r = answer env audio_path user_text final_text (with_db t db) in
      subst (λ b. FilesFit t.session b r.turn.fs) (sym (announces_media-tokens ts r.events))
        (answer-FilesFit user_text final_text (with_db t db) e)

-- When an answered message ends by itself, its wav file is gone; its mp4 file is there if a
-- `media_ready` was sent, and is gone if not.
pub process_message-FilesFit :
    (env : Env) (audio_path : FilePath) (t : Turn)
    → let r = process_message env audio_path t in
      r.ending ≡ ok tt
      → no_answer (answers r.events) ≡ false
      → FilesFit env audio_path t.session (announces_media r.events) r.turn.fs
process_message-FilesFit env audio_path t =
    Course-FilesFit env audio_path t _ (process_message-Course env audio_path t)
