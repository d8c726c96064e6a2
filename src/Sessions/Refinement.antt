-- ===== src/Sessions/Refinement.antt =====
-- The store against its abstract specification: a registry of sessions by id.
use mathlib.Core.Path.{fun_ext, ap₂}
use yeoun_ai.Base.{Option-cases, inl, inr}
use yeoun_ai.Base.{
  ◌+◌, ◌++◌, max, leb, ltb, ℕ, ◌≡◌, refl, ap, ◌∙◌, Bool, Option, none, some, List, [], ◌∷◌, arith,
  if◌then◌else◌, is_some, ◌==◌, nat_eq,
}
use yeoun_ai.Base.Uuid.{Uuid}
use yeoun_ai.Base.Dict
use yeoun_ai.Sessions.{
  MessageRecord, SessionState, SessionStore, create, get, update, touch, touch_session, add_message,
  with_message, end_session, sweep_once, expired_ids,
}
use yeoun_ai.Sessions.Sweep.{alive, sweep_once_lem, NodupKeys-delete_ids}

-- The calls that change the store, with the time at which they are made.
pub data Call : Type 0 where
  creates : SessionState → Call
  touches : Uuid → ℕ → Call
  adds : Uuid → MessageRecord → Call
  ends : Uuid → Call
  sweeps : ℕ → Call

pub data Reply : Type 0 where
  nothing : Reply
  found : Bool → Reply
  ended : Option SessionState → Reply

unfoldable pub perform : Call → SessionStore → Reply × SessionStore
perform (creates session) s = (nothing, create session s)
perform (touches sid now) s = let (b, t) = touch sid now s in (found b, t)
perform (adds sid m) s = let (b, t) = add_message sid m s in (found b, t)
perform (ends sid) s = let (o, t) = end_session sid s in (ended o, t)
perform (sweeps now) s = (nothing, (sweep_once now s).1)

unfoldable pub perform_all : List Call → SessionStore → List Reply × SessionStore
perform_all [] s = ([], s)
perform_all (c ∷ cs) s = let (r, t) = perform c s in let (rs, u) = perform_all cs t in (r ∷ rs, u)

-- The specification: which session each id has.
abbrev pub Registry : Type 0
Registry = Uuid → Option SessionState

abbrev pub changed : (SessionState → SessionState) → Option SessionState → Option SessionState
changed f none = none
changed f (some session) = some (f session)

abbrev pub set_at : Registry → Uuid → Option SessionState → Registry
set_at g sid o j = if j == sid then o else g j

-- A session, field by field, after an activity at `now`.
abbrev pub active_at : ℕ → SessionState → SessionState
active_at now session = record {
  session_id = session.session_id;
  persona_id = session.persona_id;
  user_id = session.user_id;
  system_prompt = session.system_prompt;
  started_at = session.started_at;
  history = session.history;
  last_activity_at = now;
}

-- A session with one more message: no activity is before that of the message.
abbrev pub said : MessageRecord → SessionState → SessionState
said m session = record {
  session_id = session.session_id;
  persona_id = session.persona_id;
  user_id = session.user_id;
  system_prompt = session.system_prompt;
  started_at = session.started_at;
  history = session.history ++ (m ∷ []);
  last_activity_at =
      if ltb session.last_activity_at m.created_at then m.created_at else session.last_activity_at;
}

-- A session that is out after more than `ttl` ticks without activity.
abbrev pub kept : ℕ → ℕ → Option SessionState → Option SessionState
kept ttl now none = none
kept ttl now (some session) =
    if leb now (session.last_activity_at + ttl) then some session else none

max-ltb : (m n : ℕ) → max m n ≡ (if ltb m n then n else m)
max-ltb m n = ground arith

pub with_message-said : (m : MessageRecord) → with_message m ≡ said m
with_message-said m = fun_ext (λ session.
    ap (λ t. record (said m session) { last_activity_at = t })
      (max-ltb session.last_activity_at m.created_at))

pub alive-kept : (ttl now : ℕ) (o : Option SessionState) → alive ttl now o ≡ kept ttl now o
alive-kept ttl now none = refl
alive-kept ttl now (some session) = ground arith

unfoldable pub specified : ℕ → Call → Registry → Reply × Registry
specified ttl (creates session) g = (nothing, set_at g session.session_id (some session))
specified ttl (touches sid now) g =
    (found (is_some (g sid)), set_at g sid (changed (active_at now) (g sid)))
specified ttl (adds sid m) g = (found (is_some (g sid)), set_at g sid (changed (said m) (g sid)))
specified ttl (ends sid) g = (ended (g sid), set_at g sid none)
specified ttl (sweeps now) g = (nothing, λ sid. kept ttl now (g sid))

unfoldable pub specified_all : ℕ → List Call → Registry → List Reply × Registry
specified_all ttl [] g = ([], g)
specified_all ttl (c ∷ cs) g =
    let (r, h) = specified ttl c g in let (rs, k) = specified_all ttl cs h in (r ∷ rs, k)

NodupKeys-update :
    (sid : Uuid) (f : SessionState → SessionState) (s : SessionStore)
    → Dict.NodupKeys s.sessions
    → Dict.NodupKeys (update sid f s).sessions
unfolding update
NodupKeys-update sid f s u = go (Dict.lookup sid s.sessions)
  where
    go :
        (o : Option SessionState)
        → Dict.NodupKeys
            (elim o as (λ _. SessionStore) [
              | none ↦ s
              | some session ↦ record s { sessions = Dict.insert sid (f session) s.sessions }
            ]).sessions
    go none = u
    go (some session) = Dict.insert-NodupKeys sid (f session) s.sessions u

get-update :
    (sid j : Uuid) (f : SessionState → SessionState) (s : SessionStore)
    → get (update sid f s) j ≡ set_at (get s) sid (changed f (get s sid)) j
unfolding update get
get-update sid j f s = elim (Option-cases (Dict.lookup sid s.sessions)) [
  | inl e ↦ ground arith
  | inr (x, e) ↦ ground (arith, Dict.lookup-insert j sid (f x) s.sessions)
]

-- A call that finds no session leaves the store alone, as `update` does.
touch-update :
    (sid : Uuid) (now : ℕ) (s : SessionStore)
    → (touch sid now s).1 ≡ update sid (touch_session now) s
unfolding touch
touch-update sid now s = ground arith

add_message-update :
    (sid : Uuid) (m : MessageRecord) (s : SessionStore)
    → (add_message sid m s).1 ≡ update sid (with_message m) s
unfolding add_message
add_message-update sid m s = ground arith

pub perform-NodupKeys :
    (c : Call) (s : SessionStore)
    → Dict.NodupKeys s.sessions
    → Dict.NodupKeys (perform c s).1.sessions
unfolding perform create touch add_message end_session sweep_once
perform-NodupKeys (creates session) s u =
    Dict.insert-NodupKeys session.session_id session s.sessions u
perform-NodupKeys (touches sid now) s u =
    ground (arith, NodupKeys-update sid (touch_session now) s u)
perform-NodupKeys (adds sid m) s u = ground (arith, NodupKeys-update sid (with_message m) s u)
perform-NodupKeys (ends sid) s u = Dict.erase-NodupKeys sid s.sessions u
perform-NodupKeys (sweeps now) s u =
    NodupKeys-delete_ids (expired_ids s.ttl now s.sessions) s.sessions u

pub perform-ttl : (c : Call) (s : SessionStore) → (perform c s).1.ttl ≡ s.ttl
unfolding perform create touch add_message end_session sweep_once update
perform-ttl (creates session) s = refl
perform-ttl (touches sid now) s = ground arith
perform-ttl (adds sid m) s = ground arith
perform-ttl (ends sid) s = refl
perform-ttl (sweeps now) s = refl

perform-reply : (c : Call) (s : SessionStore) → (perform c s).0 ≡ (specified s.ttl c (get s)).0
unfolding perform specified touch add_message end_session get
perform-reply (creates session) s = refl
perform-reply (touches sid now) s = ground arith
perform-reply (adds sid m) s = ground arith
perform-reply (ends sid) s = refl
perform-reply (sweeps now) s = refl

pub perform-view :
    (c : Call) (s : SessionStore) (sid : Uuid)
    → Dict.NodupKeys s.sessions
    → get (perform c s).1 sid ≡ (specified s.ttl c (get s)).1 sid
unfolding perform specified
perform-view (creates session) s sid u =
    unfold create get in Dict.lookup-insert sid session.session_id session s.sessions
perform-view (touches k now) s sid u =
    ap (λ t. get t sid) (touch-update k now s) ∙ get-update k sid (touch_session now) s
perform-view (adds k m) s sid u =
    ap (λ t. get t sid) (add_message-update k m s)
    ∙ get-update k sid (with_message m) s
    ∙ ap (λ f. set_at (get s) k (changed f (get s k)) sid) (with_message-said m)
perform-view (ends k) s sid u = unfold end_session get in Dict.lookup-erase sid k s.sessions
perform-view (sweeps now) s sid u =
    (sweep_once_lem s now u).0 sid ∙ alive-kept s.ttl now (get s sid)

specified_all-eq :
    (cs : List Call) (s : SessionStore) (ttl : ℕ) (g : Registry)
    → Dict.NodupKeys s.sessions
    → s.ttl ≡ ttl
    → get s ≡ g
    → ((perform_all cs s).0 ≡ (specified_all ttl cs g).0)
      × (get (perform_all cs s).1 ≡ (specified_all ttl cs g).1)
unfolding perform_all specified_all
specified_all-eq [] s ttl g u e v = (refl, v)
specified_all-eq (c ∷ cs) s ttl g u e v =
    let same : specified s.ttl c (get s) ≡ specified ttl c g = ap₂ (λ t h. specified t c h) e v in
    let view : get (perform c s).1 ≡ (specified s.ttl c (get s)).1 =
      fun_ext (λ sid. perform-view c s sid u) in
    let later =
      specified_all-eq cs (perform c s).1 ttl (specified ttl c g).1 (perform-NodupKeys c s u)
        (perform-ttl c s ∙ e) (view ∙ ap (λ p. p.1) same) in
    (ap₂ ◌∷◌ (perform-reply c s ∙ ap (λ p. p.0) same) later.0, later.1)

-- Any calls on a store whose ids are distinct, as those of a dict are, give the replies of the
-- specification, and leave at each id the session that the specification has there. How many
-- sessions a sweep takes is no reply here.
pub perform_all-specified :
    (cs : List Call) (s : SessionStore)
    → Dict.NodupKeys s.sessions
    → ((perform_all cs s).0 ≡ (specified_all s.ttl cs (get s)).0)
      × (get (perform_all cs s).1 ≡ (specified_all s.ttl cs (get s)).1)
perform_all-specified cs s u = specified_all-eq cs s s.ttl (get s) u refl refl
