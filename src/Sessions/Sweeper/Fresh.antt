-- ===== src/Sessions/Sweeper/Fresh.antt =====
-- What the sweeper leaves: sessions with a recent activity.
use mathlib.Core.Path.{subst}
use yeoun_ai.Base.{
  leb, ℕ, ◌+◌, ◌≤◌, ◌≡◌, refl, sym, ◌∙◌, Bool, true, false, Option, none, some, List, [], ◌∷◌,
  arith, ◌==◌, nat_eq, Bool-cases, inl, inr,
}
use yeoun_ai.Base.Uuid.{Uuid}
use yeoun_ai.Base.Dict
use yeoun_ai.Sessions.{
  MessageRecord, SessionState, SessionStore, running, get, create, touch, update, add_message,
  end_session, sweep_once,
}
use yeoun_ai.Sessions.Refinement.{
  Call, creates, touches, adds, ends, sweeps, Registry, set_at, changed, active_at, said, kept,
  perform, specified, perform-NodupKeys, perform-ttl, perform-view,
}
use yeoun_ai.Sessions.Sweeper.{Next, wakes, fails, cancels, calls, turn, sweep_loop}

-- The session was active at `t`, or at most `ttl` ticks before.
abbrev pub IsRecent : ℕ → ℕ → Option SessionState → Type 0
IsRecent ttl t none = Unit
IsRecent ttl t (some session) = t ≤ session.last_activity_at + ttl

-- A call that gives a session a time of activity is not made before `t`.
abbrev pub NotBefore : ℕ → Call → Type 0
NotBefore t (creates session) = t ≤ session.last_activity_at
NotBefore t (touches sid now) = t ≤ now
NotBefore t _ = Unit

-- The clock does not go back: wakes and calls come at times from `t` on, and nothing is cancelled.
abbrev pub InOrder : ℕ → List Next → Type 0
InOrder t [] = Unit
InOrder t (wakes now ∷ ns) = t ≤ now × InOrder now ns
InOrder t (fails ∷ ns) = InOrder t ns
InOrder t (cancels ∷ ns) = InOrder t ns
InOrder t (calls c ∷ ns) = NotBefore t c × InOrder t ns

abbrev pub has_cancel : List Next → Bool
has_cancel [] = false
has_cancel (cancels ∷ ns) = true
has_cancel (_ ∷ ns) = has_cancel ns

abbrev pub last_wake : ℕ → List Next → ℕ
last_wake t [] = t
last_wake t (wakes now ∷ ns) = last_wake now ns
last_wake t (_ ∷ ns) = last_wake t ns

-- A store whose sweeper runs, with distinct ids, and no session without activity for longer than
-- `ttl` at time `t`.
pub record IsFresh (ttl t : ℕ) (s : SessionStore) : Type 0 where
  pub same_ttl : s.ttl ≡ ttl
  pub task : s.sweeper_task ≡ running
  pub distinct : Dict.NodupKeys s.sessions
  pub recent : (sid : Uuid) → IsRecent ttl t (get s sid)

set_at-IsRecent :
    (ttl t : ℕ) (g : Registry) (sid j : Uuid) (o : Option SessionState)
    → IsRecent ttl t o
    → IsRecent ttl t (g j)
    → IsRecent ttl t (set_at g sid o j)
set_at-IsRecent ttl t g sid j o new old = elim (Bool-cases (j == sid)) [
  | inl here ↦ rw here new
  | inr other ↦ rw other old
]

active_at-IsRecent :
    (ttl t now : ℕ) (o : Option SessionState)
    → t ≤ now
    → IsRecent ttl t o
    → IsRecent ttl t (changed (active_at now) o)
active_at-IsRecent ttl t now none l h = tt
active_at-IsRecent ttl t now (some session) l h = omega arith

said-IsRecent :
    (ttl t : ℕ) (m : MessageRecord) (o : Option SessionState)
    → IsRecent ttl t o
    → IsRecent ttl t (changed (said m) o)
said-IsRecent ttl t m none h = tt
said-IsRecent ttl t m (some session) h = ground arith

kept-IsRecent : (ttl now : ℕ) (o : Option SessionState) → IsRecent ttl now (kept ttl now o)
kept-IsRecent ttl now none = tt
kept-IsRecent ttl now (some session) =
    elim (Bool-cases (leb now (session.last_activity_at + ttl))) [
      | inl young ↦ rw young (ground arith)
      | inr old ↦ rw old tt
    ]

kept-IsRecent_still :
    (ttl t now : ℕ) (o : Option SessionState) → IsRecent ttl t o → IsRecent ttl t (kept ttl now o)
kept-IsRecent_still ttl t now none h = tt
kept-IsRecent_still ttl t now (some session) h =
    elim (Bool-cases (leb now (session.last_activity_at + ttl))) [
      | inl young ↦ rw young h
      | inr old ↦ rw old tt
    ]

specified-IsRecent :
    (ttl t : ℕ) (c : Call) (g : Registry)
    → NotBefore t c
    → ((j : Uuid) → IsRecent ttl t (g j))
    → (j : Uuid) → IsRecent ttl t ((specified ttl c g).1 j)
unfolding specified
specified-IsRecent ttl t (creates session) g l h j =
    set_at-IsRecent ttl t g session.session_id j (some session) (omega arith) (h j)
specified-IsRecent ttl t (touches sid now) g l h j =
    set_at-IsRecent ttl t g sid j (changed (active_at now) (g sid))
      (active_at-IsRecent ttl t now (g sid) l (h sid)) (h j)
specified-IsRecent ttl t (adds sid m) g l h j =
    set_at-IsRecent ttl t g sid j (changed (said m) (g sid)) (said-IsRecent ttl t m (g sid) (h sid))
      (h j)
specified-IsRecent ttl t (ends sid) g l h j = set_at-IsRecent ttl t g sid j none tt (h j)
specified-IsRecent ttl t (sweeps now) g l h j = kept-IsRecent_still ttl t now (g j) (h j)

perform-task : (c : Call) (s : SessionStore) → (perform c s).1.sweeper_task ≡ s.sweeper_task
unfolding perform create touch add_message end_session sweep_once update
perform-task (creates session) s = refl
perform-task (touches sid now) s = ground arith
perform-task (adds sid m) s = ground arith
perform-task (ends sid) s = refl
perform-task (sweeps now) s = refl

perform-IsFresh :
    (ttl t u : ℕ) (c : Call) (s : SessionStore)
    → IsFresh ttl t s
    → ((j : Uuid) → IsRecent ttl u ((specified s.ttl c (get s)).1 j))
    → IsFresh ttl u (perform c s).1
perform-IsFresh ttl t u c s f h = record {
  same_ttl = perform-ttl c s ∙ f.same_ttl;
  task = perform-task c s ∙ f.task;
  distinct = perform-NodupKeys c s f.distinct;
  recent = λ j. subst (IsRecent ttl u) (sym (perform-view c s j f.distinct)) (h j);
}

-- A round that sweeps is the call `sweeps`.
turn-wakes :
    (now : ℕ) (s : SessionStore)
    → s.sweeper_task ≡ running
    → turn (wakes now) s ≡ (perform (sweeps now) s).1
unfolding turn perform
turn-wakes now s e = rw e refl

turn-fails : (s : SessionStore) → s.sweeper_task ≡ running → turn fails s ≡ s
unfolding turn
turn-fails s e = rw e refl

turn-IsFresh :
    (ttl t : ℕ) (c : Call) (s : SessionStore)
    → NotBefore t c
    → IsFresh ttl t s
    → IsFresh ttl t (turn (calls c) s)
unfolding turn
turn-IsFresh ttl t c s l f = perform-IsFresh ttl t t c s f (
    subst (λ u. (j : Uuid) → IsRecent ttl t ((specified u c (get s)).1 j)) (sym f.same_ttl)
      (specified-IsRecent ttl t c (get s) l f.recent))

wake-IsFresh :
    (ttl t now : ℕ) (s : SessionStore) → IsFresh ttl t s → IsFresh ttl now (turn (wakes now) s)
unfolding specified
wake-IsFresh ttl t now s f = subst (IsFresh ttl now) (sym (turn-wakes now s f.task)) (
    perform-IsFresh ttl t now (sweeps now) s f (λ j.
      subst (λ u. IsRecent ttl now (kept u now (get s j))) (sym f.same_ttl)
        (kept-IsRecent ttl now (get s j))))

sweep_loop-IsFresh :
    (ttl t : ℕ) (ns : List Next) (s : SessionStore)
    → IsFresh ttl t s
    → InOrder t ns
    → has_cancel ns ≡ false
    → IsFresh ttl (last_wake t ns) (sweep_loop ns s)
unfolding sweep_loop
sweep_loop-IsFresh ttl t [] s f o h = f
sweep_loop-IsFresh ttl t (wakes now ∷ ns) s f o h =
    sweep_loop-IsFresh ttl now ns (turn (wakes now) s) (wake-IsFresh ttl t now s f) o.1 h
sweep_loop-IsFresh ttl t (fails ∷ ns) s f o h =
    sweep_loop-IsFresh ttl t ns (turn fails s) (subst (IsFresh ttl t) (sym (turn-fails s f.task)) f)
      o h
sweep_loop-IsFresh ttl t (cancels ∷ ns) s f o h = cc
sweep_loop-IsFresh ttl t (calls c ∷ ns) s f o h =
    sweep_loop-IsFresh ttl t ns (turn (calls c) s) (turn-IsFresh ttl t c s o.0 f) o.1 h

any-IsRecent : (ttl : ℕ) (o : Option SessionState) → IsRecent ttl 0 o
any-IsRecent ttl none = tt
any-IsRecent ttl (some session) = omega arith

-- From a store whose sweeper runs and whose ids are distinct: whatever rounds fail and whatever calls
-- come between them, as long as the clock does not go back and the task is not cancelled, the sweeper
-- goes on running, and at the end every session was active within the last `ttl` ticks before the last
-- sweep.
pub sweep_loop-Recent :
    (ns : List Next) (s : SessionStore)
    → s.sweeper_task ≡ running
    → Dict.NodupKeys s.sessions
    → InOrder 0 ns
    → has_cancel ns ≡ false
    → ((sweep_loop ns s).sweeper_task ≡ running)
      × ((sid : Uuid) → IsRecent s.ttl (last_wake 0 ns) (get (sweep_loop ns s) sid))
sweep_loop-Recent ns s task distinct o h =
    let f =
      sweep_loop-IsFresh s.ttl 0 ns s
        (record {
          same_ttl = refl;
          task = task;
          distinct = distinct;
          recent = λ j. any-IsRecent s.ttl (get s j);
        })
        o h in
    (f.task, f.recent)
