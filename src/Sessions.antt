-- ===== src/Sessions.antt =====
-- app/sessions/schemas.py and app/sessions/store.py: the sessions of one worker, in memory. Times
-- are whole ticks of the clock. A `SessionState` that other code holds is the store's own object:
-- where that code changes it, the model writes the changed value back by `update`.
pub mod Sweep
pub mod Refinement
pub mod Sweeper
mod Tests
use yeoun_ai.Base.{
  ℕ, ◌+◌, max, Bool, true, false, Option, none, some, List, [], ◌∷◌, ◌++◌, if◌then◌else◌, ltb,
  length, ◌==◌, nat_eq,
}
use yeoun_ai.Base.Text.{Text}
use yeoun_ai.Base.Uuid.{Uuid}
use yeoun_ai.Base.Dict
use yeoun_ai.Base.Dict.{Dict}

pub data Role : Type 0 where
  user assistant : Role

pub record MessageRecord : Type 0 where
  pub role : Role
  pub text : Text
  pub created_at : ℕ

-- `lock` is modelled with the router, which is the only one to take it.
pub record SessionState : Type 0 where
  pub session_id : Uuid
  pub user_id : Uuid
  pub persona_id : Uuid
  pub system_prompt : Text
  pub started_at : ℕ
  pub last_activity_at : ℕ
  pub history : List MessageRecord

-- `_sweeper_task`: none, running, or done.
pub data Task : Type 0 where
  absent running done : Task

pub record SessionStore : Type 0 where
  pub sessions : Dict Uuid SessionState
  pub ttl : ℕ
  pub sweep_interval : ℕ
  pub sweeper_task : Task

-- `_DEFAULT_TTL_SECONDS`, `_DEFAULT_SWEEP_INTERVAL`, in ticks of a second.
abbrev pub default_ttl_seconds : ℕ
default_ttl_seconds = 1800

abbrev pub default_sweep_interval : ℕ
default_sweep_interval = 60

-- `SessionStore()`
abbrev pub new_store : SessionStore
new_store = record {
  sessions = [];
  ttl = default_ttl_seconds;
  sweep_interval = default_sweep_interval;
  sweeper_task = absent;
}

-- The second component says whether a task was created.
unfoldable pub start : SessionStore → SessionStore × Bool
start s = elim s.sweeper_task [
  | running ↦ (s, false)
  | _ ↦ (record s { sweeper_task = running }, true)
]

unfoldable pub stop : SessionStore → SessionStore
stop s = elim s.sweeper_task [ absent ↦ s | _ ↦ record s { sweeper_task = absent } ]

unfoldable pub create : SessionState → SessionStore → SessionStore
create session s = record s { sessions = Dict.insert session.session_id session s.sessions }

unfoldable pub get : SessionStore → Uuid → Option SessionState
get s sid = Dict.lookup sid s.sessions

-- A change of the object that the store holds under `sid`; none if it holds none.
unfoldable pub update : Uuid → (SessionState → SessionState) → SessionStore → SessionStore
update sid f s = elim (Dict.lookup sid s.sessions) [
  | none ↦ s
  | some session ↦ record s { sessions = Dict.insert sid (f session) s.sessions }
]

abbrev pub touch_session : ℕ → SessionState → SessionState
touch_session now session = record session { last_activity_at = now }

-- `touch`, when `time.time()` is `now`
unfoldable pub touch : Uuid → ℕ → SessionStore → Bool × SessionStore
unfolding update
touch sid now s = elim (Dict.lookup sid s.sessions) [
  | none ↦ (false, s)
  | some session ↦ (true, update sid (touch_session now) s)
]

abbrev pub with_message : MessageRecord → SessionState → SessionState
with_message m session = record session {
  history = session.history ++ (m ∷ []);
  last_activity_at = max session.last_activity_at m.created_at;
}

unfoldable pub add_message : Uuid → MessageRecord → SessionStore → Bool × SessionStore
unfolding update
add_message sid m s = elim (Dict.lookup sid s.sessions) [
  | none ↦ (false, s)
  | some session ↦ (true, update sid (with_message m) s)
]

unfoldable pub end_session : Uuid → SessionStore → Option SessionState × SessionStore
end_session sid s = (Dict.lookup sid s.sessions, record s { sessions = Dict.erase sid s.sessions })

unfoldable pub count : SessionStore → ℕ
count s = length s.sessions

-- `session.last_activity_at < now - self._ttl`, over numbers that may go below 0.
abbrev pub is_expired : ℕ → ℕ → SessionState → Bool
is_expired ttl now session = ltb (session.last_activity_at + ttl) now

unfoldable pub expired_ids : ℕ → ℕ → Dict Uuid SessionState → List Uuid
expired_ids ttl now [] = []
expired_ids ttl now ((sid, session) ∷ d) =
    let rest = expired_ids ttl now d in if is_expired ttl now session then sid ∷ rest else rest

-- `for sid in ids: del self._sessions[sid]`
unfoldable pub delete_ids : List Uuid → Dict Uuid SessionState → Dict Uuid SessionState
delete_ids [] d = d
delete_ids (sid ∷ ids) d = delete_ids ids (Dict.erase sid d)

-- `_sweep_once`, when `time.time()` is `now`
unfoldable pub sweep_once : ℕ → SessionStore → ℕ × SessionStore
sweep_once now s =
    let ids = expired_ids s.ttl now s.sessions in
    (length ids, record s { sessions = delete_ids ids s.sessions })
