-- ===== src/Sessions/Sweeper.antt =====
-- `_sweep_loop` of app/sessions/store.py: the task that sweeps, between the calls of the others.
pub mod Fresh
use yeoun_ai.Base.{ℕ, Bool, true, false, ◌||◌, List, [], ◌∷◌}
use yeoun_ai.Sessions.{SessionStore, Task, absent, running, done, sweep_once}
use yeoun_ai.Sessions.Refinement.{Call, perform}

-- What comes next: the sleep of the loop ends, and `time.time()` is given; its round raises an
-- exception, which is logged; it is cancelled; or another task calls the store.
pub data Next : Type 0 where
  wakes : ℕ → Next
  fails cancels : Next
  calls : Call → Next

-- A round of the loop.
abbrev pub round : Next → SessionStore → SessionStore
round (wakes now) s = (sweep_once now s).1
round fails s = s
round cancels s = record s { sweeper_task = done }
round (calls c) s = (perform c s).1

-- The loop after its `break`, or before its start, does nothing.
unfoldable pub turn : Next → SessionStore → SessionStore
turn (calls c) s = (perform c s).1
turn n s = elim s.sweeper_task [ running ↦ round n s | _ ↦ s ]

unfoldable pub sweep_loop : List Next → SessionStore → SessionStore
sweep_loop [] s = s
sweep_loop (n ∷ ns) s = sweep_loop ns (turn n s)
