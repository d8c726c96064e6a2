-- ===== src/Routers/Lock.antt =====
-- The lock of one session: the messages and the ends that wait for it, from `post_message` and
-- `end_session` of app/routers/sessions.py. `asyncio.Lock` serves in the order of arrival. Whoever
-- holds the lock runs to its end before the next one, in one step; nobody else makes a file below the
-- directory of the session, but the deletion of the persona removes some; and `uuid4` gives no id
-- again, so a session that is gone is not made anew.
pub mod Gone
pub mod Ends
mod Tests
use yeoun_ai.Base.{
  ◌⊎◌, Bool, false, ◌≡◌, true, Option, none, some, is_some, List, [], ◌∷◌, ◌++◌, nat_eq, list_eq,
}
use yeoun_ai.Base.Text.{starts_with}
use yeoun_ai.Base.Uuid.{Uuid}
use yeoun_ai.Base.Dict
use yeoun_ai.Fs.{FilePath, Fs, unlink}
use yeoun_ai.Sessions
use yeoun_ai.Sessions.{SessionState, SessionStore}
use yeoun_ai.Pipeline.{Env}
use yeoun_ai.Conversation.{Turn, Run}
use yeoun_ai.Conversation.Message.{process_message}
use yeoun_ai.Routers.{App, Host}
use yeoun_ai.Routers.Lifetime.{end_session}
use yeoun_ai.Routers.Lifetime.End.{session_in}

-- A request that has found the session: a message with its surroundings and the temporary file of its
-- audio, or an end.
pub data Request : Type 0 where
  message : Env → FilePath → Request
  ending : Request

-- The object of the session that the requests hold, those that have found it and read their audio,
-- and those that wait for its lock.
pub record Room : Type 0 where
  pub app : App
  pub session : SessionState
  pub found : List Request
  pub queue : List Request

-- A change of the object that a store holds.
abbrev pub update_in : Uuid → SessionState → Option SessionStore → Option SessionStore
update_in sid session none = none
update_in sid session (some store) = some (Sessions.update sid (λ _. session) store)

abbrev pub forget_in : Uuid → Option SessionStore → Option SessionStore
forget_in sid none = none
forget_in sid (some store) = some (Sessions.end_session sid store).1

-- The work of `event_generator` under the lock, and the end of its audio file. The session is the
-- object that the request found, whether the store still has it or not.
unfoldable pub run_message : Uuid → Env → FilePath → Room → Room
run_message sid env audio_path room =
    let t =
      (process_message env audio_path
        (record { session = room.session; fs = room.app.fs; db = room.app.db })).turn in
    record room {
      session = t.session;
      app = record room.app {
        session_store = update_in sid t.session room.app.session_store;
        fs = unlink audio_path t.fs;
        db = t.db;
      };
    }

module _ (host : Host) (sid : Uuid) where
  -- The session is looked up again under the lock by an end, and not by a message.
  unfoldable pub perform : Request → Room → Room
  perform (message env audio_path) room = run_message sid env audio_path room
  perform ending room = record room { app = (end_session host sid room.app).1 }

  -- What may happen, where `dir` is the directory of the session.
  pub data Step (dir : FilePath) : Room → Room → Type 0 where
    -- `store.get` finds the session
    finds :
        (r : Room) (q : Request)
        → is_some (session_in r.app.session_store sid) ≡ true
        → Step dir r (record r { found = q ∷ r.found })
    -- a request that has found it, maybe long ago, waits for the lock
    waits :
        (r : Room) (q : Request) (before after : List Request)
        → r.found ≡ before ++ (q ∷ after)
        → Step dir r (record r { found = before ++ after; queue = r.queue ++ (q ∷ []) })
    -- it fails before that, or its client goes away
    leaves :
        (r : Room) (q : Request) (before after : List Request)
        → r.found ≡ before ++ (q ∷ after)
        → Step dir r (record r { found = before ++ after })
    -- the first of the queue has the lock
    takes_turn :
        (r : Room) (q : Request) (rest : List Request)
        → r.queue ≡ q ∷ rest
        → Step dir r (perform q (record r { queue = rest }))
    -- the client of a request that waits goes away
    gives_up :
        (r : Room) (q : Request) (before after : List Request)
        → r.queue ≡ before ++ (q ∷ after)
        → Step dir r (record r { queue = before ++ after })
    -- the sweeper drops the session
    expires :
        (r : Room)
        → Step dir r
            (record r { app = record r.app { session_store = forget_in sid r.app.session_store } })
    -- other requests change the rest
    elsewhere :
        (r : Room) (app : App)
        → session_in app.session_store sid ≡ session_in r.app.session_store sid
        → ((p : FilePath)
            → starts_with p dir ≡ true
            → Dict.lookup p app.fs ≡ Dict.lookup p r.app.fs)
        → Step dir r (record r { app = app })
    -- the persona is deleted, or a part of its files
    removes :
        (r : Room) (app : App)
        → session_in app.session_store sid ≡ session_in r.app.session_store sid
        → ((p : FilePath)
            → starts_with p dir ≡ true
            → (Dict.lookup p app.fs ≡ Dict.lookup p r.app.fs) ⊎ (Dict.lookup p app.fs ≡ none))
        → Step dir r (record r { app = app })

  pub data Reach (dir : FilePath) (r : Room) : Room → Type 0 where
    here : Reach dir r r
    next : {s t : Room} → Reach dir r s → Step dir s t → Reach dir r t

  abbrev pub is_removal : {dir : FilePath} {r s : Room} → Step dir r s → Bool
  is_removal (removes r app e files) = true
  is_removal _ = false

  -- No file of the session is removed by the deletion of its persona.
  abbrev pub NoRemoval : {dir : FilePath} {r s : Room} → Reach dir r s → Type 0
  NoRemoval here = Unit
  NoRemoval (next reach step) = (is_removal step ≡ false) × NoRemoval reach
