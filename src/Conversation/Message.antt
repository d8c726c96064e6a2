-- ===== src/Conversation/Message.antt =====
-- `process_message` of app/pipeline/conversation.py, step by step.
use yeoun_ai.Base.{ℕ, none, some, List, [], ◌∷◌, ◌++◌, map, if◌then◌else◌}
use yeoun_ai.Base.Text.{Text, codes, strip}
use yeoun_ai.Base.Uuid.{Uuid}
use yeoun_ai.Base.Exec.{Exception, cancelled_error, type_name, Result, ok, raise}
use yeoun_ai.Fs.{FilePath}
use yeoun_ai.Safety.{check_crisis, filter_response, CrisisResult, FilteredResponse}
use yeoun_ai.Sessions.{user, assistant, MessageRecord, SessionState}
use yeoun_ai.Db.{SafetyEvent, Db}
use yeoun_ai.Db.Repository.{insert_safety_log}
use yeoun_ai.Models.{Prompt}
use yeoun_ai.Models.Gemma
use yeoun_ai.Models.Gemma.{Stream}
use yeoun_ai.Pipeline.{Env}
use yeoun_ai.Conversation.{
  token, text_done, crisis, error, Turn, Run, yields, trim_history, history_max_chars,
  history_max_messages,
}
use yeoun_ai.Conversation.Media.{speak}

abbrev pub join : List Text → Text
join [] = []
join (s ∷ ss) = s ++ join ss

abbrev pub fallback_text : Text
fallback_text = codes "(이 주제는 답변드리기 어려워요. 다른 이야기를 나눌까요?)"

abbrev pub finished : Turn → Run
finished t = record { events = []; ending = ok tt; turn = t }

abbrev pub stopped : Turn → Run
stopped t = record { events = []; ending = raise cancelled_error; turn = t }

-- `except Exception as exc`: the exception becomes the last event; a cancellation goes on.
abbrev pub failed : Text → Exception → Turn → Run
failed what cancelled_error t = stopped t
failed what e t = yields (error (what ++ type_name e) ∷ []) (finished t)

abbrev pub user_message : ℕ → Text → MessageRecord
user_message now text = record { role = user; text = text; created_at = now }

abbrev pub assistant_message : ℕ → Text → MessageRecord
assistant_message now text = record { role = assistant; text = text; created_at = now }

abbrev pub with_answer : ℕ → Text → Text → SessionState → SessionState
with_answer now user_text final_text session = record session {
  history = session.history ++ (user_message now user_text ∷ assistant_message now final_text ∷ []);
  last_activity_at = now;
}

-- The `try` block around a row of the safety log lets only a cancellation through.
abbrev pub logged : Turn → (Turn → Run) → Result (Unit {0}) × Db → Run
logged t rest (ok _, db) = rest (record t { db = db })
logged t rest (raise cancelled_error, db) = stopped (record t { db = db })
logged t rest (raise e, db) = rest (record t { db = db })

module _ (env : Env) (audio_path : FilePath) where
  abbrev pub message_id : Uuid
  message_id = env.fresh 0

  abbrev pub safety_event : Text → Text → Turn → SafetyEvent
  safety_event event_type action t = record {
    logs_id = env.fresh 1;
    user_id = t.session.user_id;
    event_type = some event_type;
    action_katen = some action;
    deceted_at = some env.now;
    cooldown_ended_at = none;
  }

  unfoldable pub log_safety : Text → Text → Turn → (Turn → Run) → Run
  log_safety event_type action t rest =
      logged t rest (insert_safety_log env.backend (safety_event event_type action t) t.db)

  -- Steps 5 and 6.
  unfoldable pub answer : Text → Text → Turn → Run
  answer user_text final_text t =
      let t' : Turn = record t { session = with_answer env.now user_text final_text t.session } in
      yields (text_done message_id final_text ∷ []) (speak env t'.session message_id final_text t')

  -- Step 4, from the result of the filter on.
  unfoldable pub guard_output : Text → FilteredResponse → Turn → Run
  guard_output user_text filtered t =
      if filtered.matched
      then log_safety (codes "forbidden_topic") (codes "mask") t (answer user_text fallback_text)
      else answer user_text filtered.text t

  abbrev pub prompt : Turn → Prompt
  prompt t = record {
    system_prompt = t.session.system_prompt;
    history = trim_history history_max_chars history_max_messages t.session.history;
    user_audio_path = audio_path;
  }

  -- Step 3: each token is yielded as it comes.
  unfoldable pub after_stream : Text → Stream → Turn → Run
  after_stream user_text s t = yields (map token s.tokens) (elim s.failure [
    | some e ↦ failed (codes "stream_failed: ") e t
    | none ↦ guard_output user_text (filter_response env.lower (strip (join s.tokens))) t
  ])

  -- Step 2, from the result of the guard on.
  unfoldable pub guard_input : Text → CrisisResult → Turn → Run
  guard_input user_text result t =
      if result.matched
      then log_safety (codes "crisis_keyword") (codes "block") t
          (λ t'. yields (crisis message_id result.matched_keyword ∷ []) (finished t'))
      else after_stream user_text (Gemma.stream_response env.vendor env.llm t.fs (prompt t)) t

  -- Step 1.
  unfoldable pub process_message : Turn → Run
  process_message t = elim (Gemma.transcribe env.vendor env.llm t.fs audio_path) [
    | raise e ↦ failed (codes "transcribe_failed: ") e t
    | ok user_text ↦ guard_input user_text (check_crisis env.lower user_text) t
  ]
