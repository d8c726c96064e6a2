-- ===== src/Conversation.antt =====
-- app/pipeline/conversation.py: the events of a message, its state, and `_trim_history`. The data of
-- an event is the Python object that `json.dumps` writes, not its JSON text.
pub mod Media
pub mod Message
pub mod Courses
pub mod Trim
pub mod Events
pub mod Guards
pub mod Crisis
pub mod Cleanup
pub mod Files
mod Tests
use yeoun_ai.Base.{
  ℕ, ◌+◌, Bool, true, false, ◌||◌, Option, none, some, List, [], ◌∷◌, ◌++◌, reverse, if◌then◌else◌,
  ltb, leb, length,
}
use yeoun_ai.Base.Text.{Text}
use yeoun_ai.Base.Uuid.{Uuid}
use yeoun_ai.Base.Exec.{Result}
use yeoun_ai.Sessions.{MessageRecord, SessionState}
use yeoun_ai.Fs.{Fs}
use yeoun_ai.Db.{Db}
use yeoun_ai.Models.{ChatMessage}

pub data Event : Type 0 where
  token : Text → Event
  text_done : Uuid → Text → Event
  media_ready : Uuid → Text → Event
  crisis : Uuid → Option Text → Event
  -- the `reason`
  error : Text → Event

-- What a message changes.
pub record Turn : Type 0 where
  pub session : SessionState
  pub fs : Fs
  pub db : Db

-- A generator that was read to its end: what it yielded, how it ended, and the state after it.
pub record Run : Type 0 where
  pub events : List Event
  pub ending : Result (Unit {0})
  pub turn : Turn

-- `yield` before the rest of the generator.
abbrev pub yields : List Event → Run → Run
yields es r = record r { events = es ++ r.events }

-- `_HISTORY_MAX_CHARS`, `_HISTORY_MAX_MESSAGES`
abbrev pub history_max_chars : ℕ
history_max_chars = 4000

abbrev pub history_max_messages : ℕ
history_max_messages = 20

abbrev pub chat_message : MessageRecord → ChatMessage
chat_message m = record { role = m.role; text = m.text }

-- The loop over the messages, the newest first, with the characters and messages kept so far.
unfoldable pub keep_newest : ℕ → ℕ → ℕ → ℕ → List MessageRecord → List ChatMessage
keep_newest max_chars max_messages total_chars kept [] = []
keep_newest max_chars max_messages total_chars kept (m ∷ ms) =
    let rest = keep_newest max_chars max_messages (total_chars + length m.text) (kept + 1) ms in
    if ltb max_chars (total_chars + length m.text) || leb max_messages kept
    then []
    else chat_message m ∷ rest

unfoldable pub trim_history : ℕ → ℕ → List MessageRecord → List ChatMessage
trim_history max_chars max_messages history =
    reverse (keep_newest max_chars max_messages 0 0 (reverse history))
