-- ===== src/Conversation/Guards.antt =====
-- What a message leaves in the session, and the output guard.
use mathlib.Core.List.{append-nil}
use mathlib.Core.Path.{subst}
use yeoun_ai.Base.{Option, none, some, ℕ, ℕ, ◌≡◌, refl, sym, ap, ◌∙◌, List, [], ◌∷◌, ◌++◌, map, All}
use yeoun_ai.Base.Text.{Text}
use yeoun_ai.Base.Exec.{Exception, cancelled_error, Result, ok, raise}
use yeoun_ai.Fs.{FilePath, Fs}
use yeoun_ai.Sessions.{MessageRecord, SessionState}
use yeoun_ai.Models.Gemma
use yeoun_ai.Pipeline.{Env}
use yeoun_ai.Conversation.{Event, token, text_done, crisis, error, Turn, Run}
use yeoun_ai.Conversation.Media.{after_mkdir, speak_dir, after_media, make_media}
use yeoun_ai.Conversation.Message.{
  answer, process_message, with_answer, user_message, assistant_message,
}
use yeoun_ai.Conversation.Courses.{
  Course, stopping, failing, warning, answering, with_db, IsSafe, process_message-Course,
}

-- The texts of the answers among the events.
abbrev pub answers : List Event → List Text
answers [] = []
answers (text_done i text ∷ es) = text ∷ answers es
answers (_ ∷ es) = answers es

-- The messages that the session gets for a transcript and the answers.
abbrev pub exchange : ℕ → Result Text → List Text → List MessageRecord
exchange now (ok user_text) (final_text ∷ []) =
    user_message now user_text ∷ assistant_message now final_text ∷ []
exchange now _ _ = []

exchange-nil : (now : ℕ) (heard : Result Text) → exchange now heard [] ≡ []
exchange-nil now (ok user_text) = refl
exchange-nil now (raise e) = refl

pub answers-tokens : (ts : List Text) (es : List Event) → answers (map token ts ++ es) ≡ answers es
answers-tokens [] es = refl
answers-tokens (s ∷ ts) es = answers-tokens ts es

module _ (env : Env) (audio_path : FilePath) where
  after_media-session :
      (session : SessionState) (t : Turn) (m : Result (Unit {0}) × Fs)
      → let r = after_media env session (env.fresh 0) t m in
        (r.turn.session ≡ t.session) × (answers r.events ≡ [])
  unfolding after_media
  after_media-session session t (ok tt, fs) = (refl, refl)
  after_media-session session t (raise cancelled_error, fs) = (refl, refl)
  after_media-session session t (raise _, fs) = (refl, refl)

  after_mkdir-session :
      (session : SessionState) (text : Text) (t : Turn) (o : Option (Exception × ℕ))
      → let r = after_mkdir env session (env.fresh 0) text t o in
        (r.turn.session ≡ t.session) × (answers r.events ≡ [])
  after_mkdir-session session text t none =
      after_media-session session t (make_media env session (env.fresh 0) text t.fs)
  after_mkdir-session session text t (some (e, made)) = (refl, refl)

  answer-session :
      (user_text final_text : Text) (t : Turn)
      → let r = answer env audio_path user_text final_text t in
        (r.turn.session ≡ with_answer env.now user_text final_text t.session)
        × (answers r.events ≡ final_text ∷ [])
  unfolding answer
  answer-session user_text final_text t =
      let t' : Turn = record t { session = with_answer env.now user_text final_text t.session } in
      let h =
        after_mkdir-session t'.session final_text t'
          (env.mkdir_stops (speak_dir env t'.session (env.fresh 0))) in
      (h.0, rw h.1)

  -- Without an answer the history stays.
  unchanged :
      (history : List MessageRecord) (heard : Result Text) (ts : List Text) (es : List Event)
      → answers es ≡ []
      → history ≡ history ++ exchange env.now heard (answers (map token ts ++ es))
  unchanged history heard ts es h =
      rw (answers-tokens ts es, h, exchange-nil env.now heard) (sym (append-nil history))

  Course-history :
      (t : Turn) (r : Run)
      → Course env audio_path t r
      → r.turn.session.history
        ≡ t.session.history
          ++ exchange env.now
              (Gemma.transcribe env.vendor env.llm t.fs audio_path)
              (answers r.events)
  Course-history t _ (stopping ts db) = unchanged t.session.history _ ts [] refl
  Course-history t _ (failing ts reason) = unchanged t.session.history _ ts (error reason ∷ []) refl
  Course-history t _ (warning keyword db) =
      unchanged t.session.history _ [] (crisis (env.fresh 0) keyword ∷ []) refl
  Course-history t _ (answering ts user_text final_text db heard safe) =
      let h = answer-session user_text final_text (with_db t db) in
      let es = (answer env audio_path user_text final_text (with_db t db)).events in
      ap (λ (s : SessionState). s.history) h.0
      ∙ ap (λ ms. t.session.history ++ ms)
          (sym (
            ap (λ o. exchange env.now o (answers (map token ts ++ es))) heard
            ∙ ap (exchange env.now (ok user_text)) (answers-tokens ts es ∙ h.1)))

  Course-IsSafe :
      (t : Turn) (r : Run) → Course env audio_path t r → All (IsSafe env.lower) (answers r.events)
  Course-IsSafe t _ (stopping ts db) = rw (answers-tokens ts []) tt
  Course-IsSafe t _ (failing ts reason) = rw (answers-tokens ts (error reason ∷ [])) tt
  Course-IsSafe t _ (warning keyword db) = tt
  Course-IsSafe t _ (answering ts user_text final_text db heard safe) =
      let h = answer-session user_text final_text (with_db t db) in
      let es = (answer env audio_path user_text final_text (with_db t db)).events in
      subst (All (IsSafe env.lower)) (sym (answers-tokens ts es ∙ h.1)) (safe, tt)

-- The history grows by the transcript and the answer, in this order and at the time of the message,
-- when a `text_done` is among the events, with the text of that event; otherwise it stays.
pub process_message-history :
    (env : Env) (audio_path : FilePath) (t : Turn)
    → let r = process_message env audio_path t in
      r.turn.session.history
      ≡ t.session.history
        ++ exchange env.now (Gemma.transcribe env.vendor env.llm t.fs audio_path) (answers r.events)
process_message-history env audio_path t =
    Course-history env audio_path t _ (process_message-Course env audio_path t)

-- The text of each `text_done` is the safe answer, or one in which the output guard finds no
-- forbidden topic.
pub process_message-IsSafe :
    (env : Env) (audio_path : FilePath) (t : Turn)
    → All (IsSafe env.lower) (answers (process_message env audio_path t).events)
process_message-IsSafe env audio_path t =
    Course-IsSafe env audio_path t _ (process_message-Course env audio_path t)
