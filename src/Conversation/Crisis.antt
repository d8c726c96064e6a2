-- ===== src/Conversation/Crisis.antt =====
-- A message in which the user speaks of a crisis.
use yeoun_ai.Base.{◌≡◌, refl, true, Option, [], ◌∷◌, ◌++◌, contains, list_eq, nat_eq}
use yeoun_ai.Base.Text.{Text, codes}
use yeoun_ai.Base.Exec.{ok}
use yeoun_ai.Fs.{FilePath}
use yeoun_ai.Safety.{CrisisResult, check_crisis, crisis_keywords, squeeze}
use yeoun_ai.Safety.Detection.{IsLower, check_crisis-matches}
use yeoun_ai.Db.Repository.{mock, insert_safety_log}
use yeoun_ai.Models.Gemma
use yeoun_ai.Pipeline.{Env}
use yeoun_ai.Conversation.{crisis, Turn, Run}
use yeoun_ai.Conversation.Message.{
  log_safety, guard_input, process_message, message_id, safety_event,
}

module _ (env : Env) (audio_path : FilePath) (t : Turn) where
  -- The event, and the one row, which holds nothing of what was said.
  pub record Warns (keyword : Option Text) (r : Run) : Type 0 where
    pub events : r.events ≡ crisis (message_id env audio_path) keyword ∷ []
    pub ending : r.ending ≡ ok tt
    pub session : r.turn.session ≡ t.session
    pub fs : r.turn.fs ≡ t.fs
    pub row :
        r.turn.db.safety_logs
        ≡ t.db.safety_logs
          ++ safety_event env audio_path (codes "crisis_keyword") (codes "block") t ∷ []

  guard_input-Warns :
      (user_text : Text) (result : CrisisResult)
      → env.backend ≡ mock
      → result.matched ≡ true
      → Warns result.matched_keyword (guard_input env audio_path user_text result t)
  unfolding guard_input log_safety insert_safety_log
  guard_input-Warns user_text result e m =
      rw (m, e) (record { events = refl; ending = refl; session = refl; fs = refl; row = refl })

-- With the tables in memory: when the transcript holds a crisis keyword, however it is spaced, the
-- only event is `crisis`, with the keyword that the guard found; the session and the files stay,
-- whatever the model would answer, and the safety log gets one row.
pub process_message-Warns :
    (env : Env) (audio_path : FilePath) (t : Turn) (user_text a keyword b : Text)
    → IsLower env.lower
    → env.backend ≡ mock
    → Gemma.transcribe env.vendor env.llm t.fs audio_path ≡ ok user_text
    → contains crisis_keywords keyword ≡ true
    → squeeze user_text ≡ a ++ (squeeze keyword ++ b)
    → Warns env audio_path t
        (check_crisis env.lower user_text).matched_keyword
        (process_message env audio_path t)
unfolding process_message
process_message-Warns env audio_path t user_text a keyword b law e heard k s =
    rw (process_message, heard)
      (guard_input-Warns env audio_path t user_text (check_crisis env.lower user_text) e
        (check_crisis-matches env.lower law user_text a keyword b k s))
