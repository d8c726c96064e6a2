-- ===== src/Sessions/Tests.antt =====
-- A store with two sessions.
use yeoun_ai.Base.{arith, is_some, false, ◌≡◌, refl, List, [], ◌∷◌, nat_eq}
use yeoun_ai.Base.Text.{codes}
use yeoun_ai.Base.Uuid.{Uuid}
use yeoun_ai.Base.Dict
use yeoun_ai.Sessions.{
  user, SessionStore, new_store, running, get, sweep_once, touch, update, expired_ids, delete_ids,
}
use yeoun_ai.Sessions.Refinement.{
  Call, creates, touches, adds, ends, sweeps, perform, perform_all, specified_all,
  perform_all-specified,
}
use yeoun_ai.Sessions.Sweeper.{Next, wakes, fails, calls, turn, sweep_loop}
use yeoun_ai.Sessions.Sweeper.Fresh.{IsRecent, sweep_loop-Recent}
use yeoun_ai.Fixtures.{session}

abbrev store : SessionStore
store = record new_store {
  sessions = (9, session) ∷ (10, record session { session_id = 10; last_activity_at = 1950 }) ∷ [];
  sweeper_task = running;
}

abbrev some_calls : List Call
some_calls =
    touches 9 1990
    ∷ adds 10 (record { role = user; text = codes "안녕"; created_at = 1995 })
    ∷ sweeps 3795
    ∷ ends 9
    ∷ creates session
    ∷ []

perform_all-specified_example :
    ((perform_all some_calls store).0 ≡ (specified_all 1800 some_calls (get store)).0)
    × (get (perform_all some_calls store).1 ≡ (specified_all 1800 some_calls (get store)).1)
unfolding Dict.lookup nat_eq
perform_all-specified_example = perform_all-specified some_calls store (refl, (refl, tt))

-- The session 9 ends with the second sweep, after a round that fails.
abbrev rounds : List Next
rounds = wakes 2000 ∷ calls (touches 10 2500) ∷ fails ∷ wakes 3795 ∷ []

rounds_run : is_some (get (sweep_loop rounds store) 9) ≡ false
unfolding get sweep_loop turn perform touch update sweep_once expired_ids delete_ids Dict.lookup
    Dict.insert Dict.erase nat_eq
rounds_run = refl

sweep_loop-Recent_example :
    ((sweep_loop rounds store).sweeper_task ≡ running)
    × ((sid : Uuid) → IsRecent 1800 3795 (get (sweep_loop rounds store) sid))
unfolding Dict.lookup nat_eq
sweep_loop-Recent_example =
    sweep_loop-Recent rounds store refl (refl, (refl, tt))
      (omega arith, (omega arith, (omega arith, tt))) refl
