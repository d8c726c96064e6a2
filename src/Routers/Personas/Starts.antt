-- ===== src/Routers/Personas/Starts.antt =====
-- When a run of the pipeline is started.
use mathlib.Core.Bool.{true≢false}
use yeoun_ai.Base.{
  ◌≡◌, refl, sym, ap, ◌∙◌, true, false, ◌||◌, Option, none, some, [], ◌∷◌, ◌++◌, Bool-cases, inl,
  inr, nat_eq,
}
use yeoun_ai.Base.Uuid.{Uuid}
use yeoun_ai.Base.Dict
use mathlib.Core.Path.{subst, ap₂}
use yeoun_ai.Base.{◌⊎◌}
use yeoun_ai.Base.Exec.{Result, ok, raise, >>=-ok}
use yeoun_ai.Db.{PersonaRecord, PersonaStatus}
use yeoun_ai.Db.Repository.{mock, get_persona}
use yeoun_ai.Creation
use yeoun_ai.Creation.{ProcessingStore, ProcessingState, ProcessingStep}
use yeoun_ai.Models.Registry.{ModelRegistry}
use yeoun_ai.Routers.{App, Host, not_found, conflict, unavailable}
use yeoun_ai.Routers.Personas.{
  is_running, in_progress, is_taken, add_task, find, start_with, start_processing,
}

-- The application with one more task for the persona.
abbrev pub queued : Uuid → App → App
queued pid app = record app { background_tasks = app.background_tasks ++ (pid ∷ []) }

-- The last run of the pipeline is over, or there was none.
pub data Quiet : Option ProcessingState → Type 0 where
  never_run : Quiet none
  run_over :
      (state : ProcessingState)
      → (state.step ≡ ProcessingStep.ready) ⊎ (state.step ≡ ProcessingStep.failed)
      → Quiet (some state)

-- The row says that the persona was never made, or that making it failed.
pub data Unmade : PersonaStatus → Type 0 where
  is_draft : Unmade PersonaStatus.draft
  has_failed : Unmade PersonaStatus.failed

-- Why a start is a conflict: a run is under way, or the row says so, or the persona is there.
pub data Busy : Option ProcessingState → PersonaStatus → Type 0 where
  is_at_work :
      (state : ProcessingState) (status : PersonaStatus)
      → ¬ (state.step ≡ ProcessingStep.ready)
      → ¬ (state.step ≡ ProcessingStep.failed)
      → Busy (some state) status
  is_processing : (o : Option ProcessingState) → Busy o PersonaStatus.processing
  is_made : (o : Option ProcessingState) → Busy o PersonaStatus.ready

step-over :
    (step : ProcessingStep)
    → is_running step ≡ false
    → (step ≡ ProcessingStep.ready) ⊎ (step ≡ ProcessingStep.failed)
step-over ProcessingStep.ready h = inl refl
step-over ProcessingStep.failed h = inr refl
step-over ProcessingStep.pending h = cc
step-over ProcessingStep.selecting_voice h = cc
step-over ProcessingStep.transcribing h = cc
step-over ProcessingStep.extracting_ref h = cc
step-over ProcessingStep.rendering_idle h = cc

is_running-Busy :
    (state : ProcessingState) (status : PersonaStatus)
    → is_running state.step ≡ true
    → Busy (some state) status
is_running-Busy state status h =
    is_at_work state status (λ e. true≢false (sym h ∙ ap is_running e))
      (λ e. true≢false (sym h ∙ ap is_running e))

is_taken-Busy :
    (o : Option ProcessingState) (status : PersonaStatus) → is_taken status ≡ true → Busy o status
is_taken-Busy o PersonaStatus.draft h = cc
is_taken-Busy o PersonaStatus.processing h = is_processing o
is_taken-Busy o PersonaStatus.ready h = is_made o
is_taken-Busy o PersonaStatus.failed h = cc

is_taken-Unmade : (status : PersonaStatus) → is_taken status ≡ false → Unmade status
is_taken-Unmade PersonaStatus.draft h = is_draft
is_taken-Unmade PersonaStatus.processing h = cc
is_taken-Unmade PersonaStatus.ready h = cc
is_taken-Unmade PersonaStatus.failed h = has_failed

taken-Busy :
    (o : Option ProcessingState) (status : PersonaStatus)
    → (in_progress o || is_taken status) ≡ true
    → Busy o status
taken-Busy none status h = is_taken-Busy none status h
taken-Busy (some state) status h = elim (Bool-cases (is_running state.step)) [
  | inl e ↦ is_running-Busy state status e
  | inr e ↦ is_taken-Busy (some state) status (ap (λ b. b || is_taken status) (sym e) ∙ h)
]

free-Quiet :
    (o : Option ProcessingState) (status : PersonaStatus)
    → (in_progress o || is_taken status) ≡ false
    → Quiet o × Unmade status
free-Quiet none status h = (never_run, is_taken-Unmade status h)
free-Quiet (some state) status h = elim (Bool-cases (is_running state.step)) [
  | inl e ↦ absurd (true≢false (ap (λ b. b || is_taken status) (sym e) ∙ h))
  | inr e ↦ (
    run_over state (step-over state.step e),
    is_taken-Unmade status (ap (λ b. b || is_taken status) (sym e) ∙ h),
  )
]

Quiet-free :
    {o : Option ProcessingState} {status : PersonaStatus}
    → Quiet o
    → Unmade status
    → (in_progress o || is_taken status) ≡ false
Quiet-free never_run is_draft = refl
Quiet-free never_run has_failed = refl
Quiet-free (run_over state (inl e)) is_draft = ap (λ x. is_running x || false) e
Quiet-free (run_over state (inl e)) has_failed = ap (λ x. is_running x || false) e
Quiet-free (run_over state (inr e)) is_draft = ap (λ x. is_running x || false) e
Quiet-free (run_over state (inr e)) has_failed = ap (λ x. is_running x || false) e

-- How a start is answered: it is refused and nothing changes, or one task is queued. No two of the
-- four fit the same application.
pub data Starts (pid : Uuid) (app : App) : Result (Unit {0}) × App → Type 0 where
  is_unavailable :
      (app.registry ≡ none) ⊎ (app.persona_store ≡ none) → Starts pid app (raise unavailable, app)
  is_missing :
      (registry : ModelRegistry) (store : ProcessingStore)
      → app.registry ≡ some registry
      → app.persona_store ≡ some store
      → Dict.lookup pid app.db.personas ≡ none
      → Starts pid app (raise not_found, app)
  is_refused :
      (registry : ModelRegistry) (store : ProcessingStore) (r : PersonaRecord)
      → app.registry ≡ some registry
      → app.persona_store ≡ some store
      → Dict.lookup pid app.db.personas ≡ some r
      → Busy (Creation.get store pid) r.status
      → Starts pid app (raise conflict, app)
  is_queued :
      (registry : ModelRegistry) (store : ProcessingStore) (r : PersonaRecord)
      → app.registry ≡ some registry
      → app.persona_store ≡ some store
      → Dict.lookup pid app.db.personas ≡ some r
      → Quiet (Creation.get store pid)
      → Unmade r.status
      → Starts pid app (ok tt, queued pid app)

module _ (host : Host) (pid : Uuid) (in_memory : host.env.backend ≡ mock) where
  add_task-Starts :
      (app : App) (registry : ModelRegistry) (store : ProcessingStore) (o : Option PersonaRecord)
      → app.registry ≡ some registry
      → app.persona_store ≡ some store
      → Dict.lookup pid app.db.personas ≡ o
      → Starts pid app (add_task pid store o app)
  add_task-Starts app registry store none er es eo = is_missing registry store er es eo
  add_task-Starts app registry store (some r) er es eo =
      elim (Bool-cases (in_progress (Creation.get store pid) || is_taken r.status)) [
        | inl taken ↦ rw taken (is_refused registry store r er es eo (taken-Busy _ _ taken))
        | inr free ↦
            (let (q, u) = free-Quiet _ _ free in rw free (is_queued registry store r er es eo q u))
      ]

  find_run : (app : App) → find host pid app ≡ (ok (Dict.lookup pid app.db.personas), app)
  unfolding get_persona
  find_run app = rw in_memory refl

  start_with-Starts :
      (app : App) (registry : Option ModelRegistry) (store : Option ProcessingStore)
      → app.registry ≡ registry
      → app.persona_store ≡ store
      → Starts pid app (start_with host pid registry store app)
  unfolding start_with
  start_with-Starts app none store er es = is_unavailable (inl er)
  start_with-Starts app (some registry) none er es = is_unavailable (inr es)
  start_with-Starts app (some registry) (some store) er es =
      subst (Starts pid app) (sym (>>=-ok (find host pid) (add_task pid store) app (find_run app)))
        (add_task-Starts app registry store (Dict.lookup pid app.db.personas) er es refl)

  -- With the tables in memory, a start is refused and nothing changes: with 503 when the registry or
  -- the store is not there; else with 404 when no row has the id; else with 409 when a step other than
  -- READY and FAILED is under way or the row's status is PROCESSING or READY. Else it is answered, and
  -- one task is queued: no run was there or it is READY or FAILED, and the status is DRAFT or FAILED.
  pub start_processing-Starts : (app : App) → Starts pid app (start_processing host pid app)
  unfolding start_processing
  start_processing-Starts app = start_with-Starts app app.registry app.persona_store refl refl

  -- What a start that is answered has found.
  record Admits (app : App) : Type 0 where
    registry : ModelRegistry
    store : ProcessingStore
    persona : PersonaRecord
    has_registry : app.registry ≡ some registry
    has_store : app.persona_store ≡ some store
    found : Dict.lookup pid app.db.personas ≡ some persona
    free : (in_progress (Creation.get store pid) || is_taken persona.status) ≡ false

  Starts-Admits :
      {app : App} {m : Result (Unit {0}) × App} → Starts pid app m → m.0 ≡ ok tt → Admits app
  Starts-Admits (is_unavailable e) h = cc
  Starts-Admits (is_missing registry store er es e) h = cc
  Starts-Admits (is_refused registry store r er es ef busy) h = cc
  Starts-Admits (is_queued registry store r er es ef quiet unmade) h = record {
    registry = registry;
    store = store;
    persona = r;
    has_registry = er;
    has_store = es;
    found = ef;
    free = Quiet-free quiet unmade;
  }

  Admits-queued : (app : App) → Admits app → start_processing host pid app ≡ (ok tt, queued pid app)
  unfolding start_processing start_with
  Admits-queued app a =
      ap₂ (λ r s. start_with host pid r s app) a.has_registry a.has_store
      ∙ >>=-ok (find host pid) (add_task pid a.store) app (find_run app)
      ∙ ap (λ o. add_task pid a.store o app) a.found
      ∙ rw a.free refl

  -- With the tables in memory, a start that is answered queues the persona; and the same start again,
  -- before the first task has run, is answered too and queues the persona once more.
  pub start_processing_twice :
      (app : App)
      → (start_processing host pid app).0 ≡ ok tt
      → (start_processing host pid app ≡ (ok tt, queued pid app))
        × (start_processing host pid (queued pid app) ≡ (ok tt, queued pid (queued pid app)))
  start_processing_twice app h =
      let a = Starts-Admits (start_processing-Starts app) h in
      let again : Admits (queued pid app) = record {
        registry = a.registry;
        store = a.store;
        persona = a.persona;
        has_registry = a.has_registry;
        has_store = a.has_store;
        found = a.found;
        free = a.free;
      } in
      (Admits-queued app a, Admits-queued (queued pid app) again)
