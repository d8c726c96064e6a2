-- ===== src/Routers/Messages.antt =====
-- `post_message` of app/routers/sessions.py up to its stream: how many messages run at a time. The
-- streams of one worker are interleaved; each step is one stretch of code between two `await`s.
-- Where the code leaves a request without counting down, the request is kept among those lost.
pub mod Full
use yeoun_ai.Base.{
  refl, ℕ, ◌+◌, ◌-◌, ◌≡◌, ◌≤◌, true, Option, none, some, List, [], ◌∷◌, arith, if◌then◌else◌, leb,
  length, contains, ◌==◌, nat_eq,
}
use yeoun_ai.Base.Text.{codes}
use yeoun_ai.Base.Uuid.{Uuid}
use yeoun_ai.Base.Exec.{Exception, http_exception, cancelled_error, Result, ok, raise}
use yeoun_ai.Sessions
use yeoun_ai.Sessions.{SessionStore}
use yeoun_ai.Routers.{not_found, unavailable}

-- `_MAX_CONCURRENT_MESSAGES`
abbrev pub max_concurrent_messages : ℕ
max_concurrent_messages = 5

-- `_active_messages`, the requests that write the audio to a temporary file, and the streams that
-- the server has, each under a number of its own. `lost` is not in the code: the requests that are no
-- longer in work though no code has counted them down.
pub record Desk : Type 0 where
  pub active_messages : ℕ
  pub saving : List ℕ
  pub streams : List ℕ
  pub lost : List ℕ

abbrev pub too_many_requests : Exception
too_many_requests =
    http_exception
      (record { status_code = 503; code = codes "TOO_MANY_REQUESTS"; header = some (codes "30") })

-- The tests of a new request, in order, and the count that goes up. The store is `none` unless both
-- the registry and the store are there.
unfoldable pub enter : Option SessionStore → Uuid → ℕ → Desk → Result (Unit {0}) × Desk
enter none sid request desk = (raise unavailable, desk)
enter (some store) sid request desk = elim (Sessions.get store sid) [
  | none ↦ (raise not_found, desk)
  | some session ↦
      if leb max_concurrent_messages desk.active_messages
      then (raise too_many_requests, desk)
      else (
        ok tt,
        record desk { active_messages = desk.active_messages + 1; saving = request ∷ desk.saving },
      )
]

-- The first entry that is the request goes.
unfoldable pub take_out : ℕ → List ℕ → List ℕ
take_out request [] = []
take_out request (r ∷ rs) = let rest = take_out request rs in if r == request then rs else r ∷ rest

-- The audio is saved, and the stream is handed to the server.
unfoldable pub saved : ℕ → Desk → Desk
saved request desk =
    if contains desk.saving request
    then record desk { saving = take_out request desk.saving; streams = request ∷ desk.streams }
    else desk

-- The save ends with an exception. `except Exception` counts down and raises it again; it does not
-- catch a cancellation, and the count stays.
unfoldable pub save_failed : Exception → ℕ → Desk → Desk
save_failed e request desk =
    let rest : Desk = record desk { saving = take_out request desk.saving } in
    if contains desk.saving request
    then elim e [
      | cancelled_error ↦ record rest { lost = request ∷ desk.lost }
      | _ ↦ record rest { active_messages = desk.active_messages - 1 }
    ]
    else desk

-- The `finally` clause of `event_generator`, which runs once, however a stream that was started ends.
unfoldable pub stream_ended : ℕ → Desk → Desk
stream_ended request desk =
    if contains desk.streams request
    then record desk {
      active_messages = desk.active_messages - 1;
      streams = take_out request desk.streams;
    }
    else desk

-- A stream goes before its first event was asked for: no code of `event_generator` runs, its
-- `finally` clause neither.
unfoldable pub stream_unstarted : ℕ → Desk → Desk
stream_unstarted request desk =
    if contains desk.streams request
    then record desk { streams = take_out request desk.streams; lost = request ∷ desk.lost }
    else desk

-- The steps of the desk.
pub data Step : Type 0 where
  enters : Option SessionStore → Uuid → ℕ → Step
  saves ends goes_unstarted : ℕ → Step
  fails : Exception → ℕ → Step

unfoldable pub step : Step → Desk → Desk
step (enters store sid request) desk = (enter store sid request desk).1
step (saves request) desk = saved request desk
step (fails e request) desk = save_failed e request desk
step (ends request) desk = stream_ended request desk
step (goes_unstarted request) desk = stream_unstarted request desk

unfoldable pub run : List Step → Desk → Desk
run [] desk = desk
run (s ∷ steps) desk = run steps (step s desk)

abbrev pub new_desk : Desk
new_desk = record { active_messages = 0; saving = []; streams = []; lost = [] }

length-take_out :
    (request : ℕ) (rs : List ℕ)
    → contains rs request ≡ true
    → length (take_out request rs) + 1 ≡ length rs
unfolding take_out
length-take_out request [] h = cc
length-take_out request (r ∷ rs) h = ground (arith, length-take_out request rs)

-- How many of the steps cancel a save or drop a stream that was not started.
unfoldable pub leaks : List Step → ℕ
leaks [] = 0
leaks (fails cancelled_error request ∷ steps) = leaks steps + 1
leaks (goes_unstarted request ∷ steps) = leaks steps + 1
leaks (_ ∷ steps) = leaks steps

-- The count is that of the requests in work and of those lost, and at most the maximum.
abbrev pub IsCounted : Desk → Type 0
IsCounted desk =
    (desk.active_messages ≡ length desk.saving + length desk.streams + length desk.lost)
    × (desk.active_messages ≤ max_concurrent_messages)

enter-IsCounted :
    (store : Option SessionStore) (sid : Uuid) (request : ℕ) (desk : Desk)
    → IsCounted desk
    → IsCounted (enter store sid request desk).1
unfolding enter
enter-IsCounted none sid request desk h = h
enter-IsCounted (some store) sid request desk h = ground arith

enter-lost :
    (store : Option SessionStore) (sid : Uuid) (request : ℕ) (desk : Desk)
    → (enter store sid request desk).1.lost ≡ desk.lost
unfolding enter
enter-lost none sid request desk = refl
enter-lost (some store) sid request desk = ground arith

save_failed-IsCounted :
    (e : Exception) (request : ℕ) (desk : Desk)
    → IsCounted desk
    → IsCounted (save_failed e request desk)
unfolding save_failed
save_failed-IsCounted e request desk h = ground (arith, length-take_out request desk.saving)

step-IsCounted : (s : Step) (desk : Desk) → IsCounted desk → IsCounted (step s desk)
unfolding step saved stream_ended stream_unstarted
step-IsCounted (enters store sid request) desk h = enter-IsCounted store sid request desk h
step-IsCounted (saves request) desk h = ground (arith, length-take_out request desk.saving)
step-IsCounted (fails e request) desk h = save_failed-IsCounted e request desk h
step-IsCounted (ends request) desk h = ground (arith, length-take_out request desk.streams)
step-IsCounted (goes_unstarted request) desk h =
    ground (arith, length-take_out request desk.streams)

-- A desk keeps its lost requests, and loses at most `n` more.
abbrev Loses : ℕ → Desk → Desk → Type 0
Loses n before after =
    (length before.lost ≤ length after.lost) × (length after.lost ≤ length before.lost + n)

step-Loses : (s : Step) (desk : Desk) → Loses (leaks (s ∷ [])) desk (step s desk)
unfolding step saved save_failed stream_ended stream_unstarted leaks
step-Loses (enters store sid request) desk = ground (arith, enter-lost store sid request desk)
step-Loses (saves request) desk = ground arith
step-Loses (fails cancelled_error request) desk = ground arith
step-Loses (fails e request) desk = ground arith
step-Loses (ends request) desk = ground arith
step-Loses (goes_unstarted request) desk = ground arith

leaks-cons : (s : Step) (steps : List Step) → leaks (s ∷ steps) ≡ leaks (s ∷ []) + leaks steps
unfolding leaks
leaks-cons (enters store sid request) steps = omega arith
leaks-cons (saves request) steps = omega arith
leaks-cons (fails cancelled_error request) steps = omega arith
leaks-cons (fails e request) steps = omega arith
leaks-cons (ends request) steps = omega arith
leaks-cons (goes_unstarted request) steps = omega arith

-- From a desk whose count is right, whatever requests come, fail and end in whatever order: the count
-- of active messages is that of the requests in work and of those lost, and is at most five. A lost
-- request stays lost; and no more get lost than saves are cancelled and streams go unstarted.
pub run-IsCounted :
    (steps : List Step) (desk : Desk)
    → IsCounted desk
    → IsCounted (run steps desk)
      × (length desk.lost ≤ length (run steps desk).lost)
      × (length (run steps desk).lost ≤ length desk.lost + leaks steps)
unfolding run leaks
run-IsCounted [] desk h = (h, omega arith, omega arith)
run-IsCounted (s ∷ steps) desk h =
    let later = run-IsCounted steps (step s desk) (step-IsCounted s desk h) in
    let now = step-Loses s desk in let e = leaks-cons s steps in (later.0, omega arith, omega arith)
