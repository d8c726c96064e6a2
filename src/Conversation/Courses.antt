-- ===== src/Conversation/Courses.antt =====
-- The courses that a message can take.
use yeoun_ai.Base.{
  ◌≡◌, ◌⊎◌, inl, inr, refl, false, Option, none, some, List, [], ◌∷◌, map, Bool-cases, Option-cases,
}
use yeoun_ai.Base.Text.{Text, codes, strip}
use yeoun_ai.Base.Exec.{Exception, cancelled_error, Result, Result-cases, ok, raise}
use yeoun_ai.Fs.{FilePath}
use yeoun_ai.Safety.{CrisisResult, FilteredResponse, filter_response, filtered_of}
use yeoun_ai.Db.{Db}
use yeoun_ai.Db.Repository.{insert_safety_log}
use yeoun_ai.Models.Gemma
use yeoun_ai.Models.Gemma.{Stream}
use yeoun_ai.Pipeline.{Env}
use yeoun_ai.Conversation.{token, crisis, error, Turn, Run, yields}
use yeoun_ai.Conversation.Message.{
  finished, stopped, failed, logged, log_safety, answer, guard_output, after_stream, guard_input,
  process_message, message_id, safety_event, fallback_text, join,
}

abbrev pub with_db : Turn → Db → Turn
with_db t db = record t { db = db }

-- The safe answer, or a text in which the output guard finds nothing.
abbrev pub IsSafe : (Text → Text) → Text → Type 0
IsSafe lower text = (text ≡ fallback_text) ⊎ ((filter_response lower text).matched ≡ false)

filtered_of-text : (text : Text) (o : Option Text) → (filtered_of text o).text ≡ text
filtered_of-text text none = refl
filtered_of-text text (some keyword) = refl

filter_response-text :
    (lower : Text → Text) (text : Text) → (filter_response lower text).text ≡ text
unfolding filter_response
filter_response-text lower [] = refl
filter_response-text lower (c ∷ text) = filtered_of-text (c ∷ text) _

module _ (env : Env) (audio_path : FilePath) (t : Turn) where
  pub data Course : Run → Type 0 where
    stopping : (ts : List Text) (db : Db) → Course (yields (map token ts) (stopped (with_db t db)))
    failing :
        (ts : List Text) (reason : Text)
        → Course (yields (map token ts) (yields (error reason ∷ []) (finished t)))
    warning :
        (keyword : Option Text) (db : Db)
        → Course
            (yields (crisis (message_id env audio_path) keyword ∷ []) (finished (with_db t db)))
    answering :
        (ts : List Text) (user_text final_text : Text) (db : Db)
        → Gemma.transcribe env.vendor env.llm t.fs audio_path ≡ ok user_text
        → IsSafe env.lower final_text
        → Course (yields (map token ts) (answer env audio_path user_text final_text (with_db t db)))

  failed-Course :
      (ts : List Text) (what : Text) (e : Exception)
      → Course (yields (map token ts) (failed what e t))
  failed-Course ts what cancelled_error = stopping ts t.db
  failed-Course ts what e = failing ts _

  logged-Course :
      (ts : List Text) (rest : Turn → Run) (m : Result (Unit {0}) × Db)
      → ((db : Db) → Course (yields (map token ts) (rest (with_db t db))))
      → Course (yields (map token ts) (logged t rest m))
  logged-Course ts rest (ok tt, db) h = h db
  logged-Course ts rest (raise cancelled_error, db) h = stopping ts db
  logged-Course ts rest (raise e, db) h = h db

  module _ (user_text : Text)
      (heard : Gemma.transcribe env.vendor env.llm t.fs audio_path ≡ ok user_text) where
    guard_output-Course :
        (ts : List Text) (filtered : FilteredResponse)
        → (filtered.matched ≡ false → IsSafe env.lower filtered.text)
        → Course (yields (map token ts) (guard_output env audio_path user_text filtered t))
    unfolding guard_output log_safety
    guard_output-Course ts filtered safe = elim (Bool-cases filtered.matched) [
      | inl hit ↦ rw hit (
          logged-Course ts (answer env audio_path user_text fallback_text) _
            (λ db. answering ts user_text fallback_text db heard (inl refl)))
      | inr miss ↦ rw miss (answering ts user_text filtered.text t.db heard (safe miss))
    ]

    after_stream-Course : (s : Stream) → Course (after_stream env audio_path user_text s t)
    unfolding after_stream
    after_stream-Course s = elim (Option-cases s.failure) [
      | inl miss ↦ rw miss (
          guard_output-Course s.tokens (filter_response env.lower (strip (join s.tokens)))
            (λ h. inr (rw (filter_response-text env.lower (strip (join s.tokens))) h)))
      | inr (e, h) ↦ rw h (failed-Course s.tokens (codes "stream_failed: ") e)
    ]

    guard_input-Course :
        (result : CrisisResult) → Course (guard_input env audio_path user_text result t)
    unfolding guard_input log_safety
    guard_input-Course result = elim (Bool-cases result.matched) [
      | inl hit ↦ rw hit (
          logged-Course []
            (λ t'.
              yields (crisis (message_id env audio_path) result.matched_keyword ∷ []) (finished t'))
            (insert_safety_log env.backend
              (safety_event env audio_path (codes "crisis_keyword") (codes "block") t) t.db)
            (λ db. warning result.matched_keyword db))
      | inr miss ↦ rw miss (after_stream-Course _)
    ]

  -- Each run takes one of the courses.
  pub process_message-Course : Course (process_message env audio_path t)
  unfolding process_message
  process_message-Course =
      elim (Result-cases (Gemma.transcribe env.vendor env.llm t.fs audio_path)) [
        | inl (text, h) ↦ rw (process_message, h) (guard_input-Course text h _)
        | inr (e, h) ↦ rw (process_message, h) (failed-Course [] (codes "transcribe_failed: ") e)
      ]
