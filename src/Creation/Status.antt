-- ===== src/Creation/Status.antt =====
-- The status of a persona in the table, and its step in the progress store.
use yeoun_ai.Base.{
  ℕ, ◌≡◌, inl, inr, refl, true, Option, none, some, is_some, Option-cases, arith, nat_eq,
}
use yeoun_ai.Base.Text.{Text}
use yeoun_ai.Base.Uuid.{Uuid}
use yeoun_ai.Base.Dict
use yeoun_ai.Db.{PersonaStatus, PersonaRecord, Db}
use yeoun_ai.Db.Repository.{set_persona_status}
use yeoun_ai.Creation.{ProcessingStep, ProcessingState, ProcessingStore, set_step, get}

-- The status of a persona in the table.
abbrev pub status_of : Option PersonaRecord → Option PersonaStatus
status_of none = none
status_of (some r) = some r.status

abbrev pub table_status : Db → Uuid → Option PersonaStatus
table_status db pid = status_of (Dict.lookup pid db.personas)

abbrev pub IsPresent : Uuid → Db → Type 0
IsPresent pid db = is_some (Dict.lookup pid db.personas) ≡ true

pub set_persona_status-table_status :
    (status : PersonaStatus) (pid : Uuid) (db : Db)
    → IsPresent pid db
    → table_status (set_persona_status status pid db) pid ≡ some status
unfolding set_persona_status
set_persona_status-table_status status pid db h =
    elim (Option-cases (Dict.lookup pid db.personas)) [
      | inl e ↦ cc
      | inr (r, e) ↦
          rw (set_persona_status, e) (set_status pid (record r { status = status }) db.personas)
    ]
  where
    set_status :
        (pid : Uuid) (r : PersonaRecord) (personas : Dict.Dict Uuid PersonaRecord)
        → status_of (Dict.lookup pid (Dict.insert pid r personas)) ≡ some r.status
    set_status pid r personas = ground (arith, Dict.lookup-insert pid pid r personas)

pub IsPresent-set_persona_status :
    (status : PersonaStatus) (pid : Uuid) (db : Db)
    → IsPresent pid db
    → IsPresent pid (set_persona_status status pid db)
IsPresent-set_persona_status status pid db h =
    present _ (set_persona_status-table_status status pid db h)
  where
    present : (o : Option PersonaRecord) → status_of o ≡ some status → is_some o ≡ true
    present none e = cc
    present (some r) e = refl

pub get-set_step :
    (pid : Uuid) (step : ProcessingStep) (reason : Option Text) (now : ℕ) (store : ProcessingStore)
    → get (set_step pid step reason now store) pid
      ≡ some (record { persona_id = pid; step = step; error_reason = reason; updated_at = now })
unfolding get set_step
get-set_step pid step reason now store = found _ store
  where
    found :
        (x : ProcessingState) (store : ProcessingStore)
        → Dict.lookup pid (Dict.insert pid x store) ≡ some x
    found x store = ground (arith, Dict.lookup-insert pid pid x store)
