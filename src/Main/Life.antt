-- ===== src/Main/Life.antt =====
-- What holds while the process serves, and after it.
use mathlib.Core.Path.{subst}
use yeoun_ai.Base.{ℕ, ◌≡◌, refl, sym, ap, ◌∙◌, ◌⊎◌, inl, inr, Option, none, some, arith}
use yeoun_ai.Base.Exec.{
  Exception, cancelled_error, Result, ok, raise, Exec, pure, ◌>>=◌, >>=-ok, >>=-raise, >>=-eq-ok,
}
use yeoun_ai.Config.{Settings}
use yeoun_ai.Models.{not_loaded, loaded, Vendor}
use yeoun_ai.Models.Registry
use yeoun_ai.Models.Registry.{
  ModelRegistry, new_registry, start-loaded, Unloads, all_dropped, not_dropped, stop-Unloads,
}
use yeoun_ai.Sessions
use yeoun_ai.Sessions.{SessionStore, Task, absent, running, new_store}
use yeoun_ai.Db.Engine.{ping}
use yeoun_ai.Routers.Health.{healthy, health, status_of, without_db, models_of, health-start}
use yeoun_ai.Routers.Lifetime.{service_state}
use yeoun_ai.Main.{
  Server, Serving, in_service, open_stores, with_value, start_models, startup, shutdown,
  finally_shutdown, lifespan,
}

-- The sweeper of the session store.
abbrev pub sweeper_of : Option SessionStore → Task
sweeper_of none = absent
sweeper_of (some store) = store.sweeper_task

module _ (settings : Settings) where
  -- The health route says healthy when the database replies and degraded when it does not, the video
  -- model is ready, there is a store without sessions for the session routes, and its sweeper runs.
  pub record IsServing (s : Serving) : Type 0 where
    pub with_database :
        (now : ℕ)
        → status_of (health settings now (in_service s).started_at (ok tt) (in_service s).app)
          ≡ some healthy
    pub without_database :
        (now : ℕ) (e : Exception)
        → status_of (health settings now (in_service s).started_at (raise e) (in_service s).app)
          ≡ without_db e
    pub ditto : (models_of (in_service s).app.registry).ditto ≡ loaded
    pub available :
        service_state (in_service s).app.registry (in_service s).app.session_store
        ≡ ok s.session_store
    pub no_sessions : Sessions.count s.session_store ≡ 0
    pub sweeps : s.session_store.sweeper_task ≡ running

-- No model is loaded, and no sweeper runs.
pub record IsStopped (s : Server) : Type 0 where
  pub models :
      models_of s.app.registry ≡ record { llm = not_loaded; tts = not_loaded; ditto = not_loaded }
  pub sweeper : sweeper_of s.app.session_store ≡ absent

-- How a process ends that served up to `s`, where the requests ended with `r`: all is stopped; or the
-- release of the memory of the GPU has raised, and the store is as the requests have left it, its
-- sweeper still running.
pub data Stopped (vendor : Vendor) (r : Result (Unit {0})) (s : Serving)
    : Result (Unit {0}) × Server → Type 0 where
  all_stopped : (t : Server) → IsStopped t → Stopped vendor r s (r, t)
  not_stopped :
      (e : Exception) (t : Server)
      → (vendor.empty_cache_llm ≡ raise e) ⊎ (vendor.empty_cache_tts ≡ raise e)
      → (models_of t.app.registry).ditto ≡ not_loaded
      → t.app.session_store ≡ some s.session_store
      → Stopped vendor r s (raise e, t)

stop-absent : (store : SessionStore) → (Sessions.stop store).sweeper_task ≡ absent
unfolding Sessions.stop
stop-absent store = ground arith

ditto_dropped :
    (registry : ModelRegistry)
    → registry.ditto ≡ none
    → (models_of (some registry)).ditto ≡ not_loaded
ditto_dropped registry h = rw h refl

module _ (vendor : Vendor) (r : Result (Unit {0})) (s : Serving) where
  -- The `finally` clause, from the end of `registry.stop` on.
  abbrev after_stop : Result (Unit {0}) × ModelRegistry → Result (Unit {0}) × Server
  after_stop (ok _, registry) = (
    r,
    in_service (record s { registry = registry; session_store = Sessions.stop s.session_store }),
  )
  after_stop (raise e, registry) = (raise e, in_service (record s { registry = registry }))

  finally_shutdown_lem :
      finally_shutdown vendor (r, s) ≡ after_stop (Registry.stop vendor s.registry)
  unfolding finally_shutdown shutdown
  finally_shutdown_lem = go (Registry.stop vendor s.registry) refl
    where
      go :
          (m : Result (Unit {0}) × ModelRegistry)
          → Registry.stop vendor s.registry ≡ m
          → finally_shutdown vendor (r, s) ≡ after_stop (Registry.stop vendor s.registry)
      go (ok tt, registry) e = rw e refl
      go (raise x, registry) e = rw e refl

  after_stop-Stopped :
      (m : Result (Unit {0}) × ModelRegistry) → Unloads vendor m → Stopped vendor r s (after_stop m)
  after_stop-Stopped _ all_dropped =
      all_stopped _ (record { models = refl; sweeper = stop-absent s.session_store })
  after_stop-Stopped _ (not_dropped e registry h d) =
      not_stopped e (in_service (record s { registry = registry })) h (ditto_dropped registry d)
        refl

  finally_shutdown-Stopped : Stopped vendor r s (finally_shutdown vendor (r, s))
  finally_shutdown-Stopped =
      subst (Stopped vendor r s) (sym finally_shutdown_lem)
        (after_stop-Stopped (Registry.stop vendor s.registry) (stop-Unloads vendor s.registry))

with_value-ok :
    (registry a : ModelRegistry) (r : Result (Unit {0}))
    → with_value registry r ≡ ok a
    → (r ≡ ok tt) × (registry ≡ a)
with_value-ok registry a (ok tt) h = (refl, cc)
with_value-ok registry a (raise e) h = cc

module _ (vendor : Vendor) (settings : Settings) (now : ℕ) (connect : Result (Unit {0})) where
  -- The server that the models are started in.
  abbrev opened : Server → Server
  opened server = open_stores (record server { started_at = some now })

  abbrev new_sessions : SessionStore
  new_sessions = (Sessions.start new_store).0

  started-IsServing :
      (s : Server)
      → s.started_at ≡ some now
      → (Registry.start vendor settings s.app.fs new_registry).0 ≡ ok tt
      → IsServing settings (record {
        server = (start_models vendor settings s).1;
        registry = (Registry.start vendor settings s.app.fs new_registry).1;
        session_store = new_sessions;
      })
  unfolding Sessions.start Sessions.count
  started-IsServing s et h =
      let serving : Serving = record {
        server = (start_models vendor settings s).1;
        registry = (Registry.start vendor settings s.app.fs new_registry).1;
        session_store = new_sessions;
      } in
      let app = (in_service serving).app in
      let status = health-start vendor settings s.app.fs new_registry app now in
      record {
        with_database = λ t.
            ap (λ (o : Option ℕ). status_of (health settings t o (ok tt) app)) et
            ∙ (status t h refl).0;
        without_database = λ t e.
            ap (λ (o : Option ℕ). status_of (health settings t o (raise e) app)) et
            ∙ (status t h refl).1 e;
        ditto = (start-loaded vendor settings s.app.fs new_registry h).2;
        available = refl;
        no_sessions = refl;
        sweeps = refl;
      }

  abbrev pub start_up : Exec Server (ModelRegistry × SessionStore)
  start_up = startup vendor settings now connect

  -- The life of a process: requests are served only when all has started, and whatever they do and
  -- however they end, the process is stopped after them; or the start raises, and none is served.
  pub data Lives (requests : Exec Serving (Unit {0})) (server : Server)
      : Result (Unit {0}) × Server → Type 0 where
    serves :
        (s : Serving) (m : Result (Unit {0}) × Server)
        → IsServing settings s
        → Stopped vendor (requests s).0 (requests s).1 m
        → Lives requests server m
    aborts :
        (e : Exception) (s : Server)
        → start_up server ≡ (raise e, s)
        → Lives requests server (raise e, s)

  -- `startup` after the stores are open.
  abbrev last_part : Exec Server (ModelRegistry × SessionStore)
  last_part = start_models vendor settings >>= λ registry. pure (registry, new_sessions)

  after_ping :
      (server : Server)
      → (start_up server ≡ last_part (opened server))
        ⊎ (start_up server ≡ (raise cancelled_error, record server { started_at = some now }))
  unfolding startup
  after_ping server = cases (ping settings connect) refl
    where
      cases :
          (p : Result _)
          → ping settings connect ≡ p
          → (start_up server ≡ last_part (opened server))
            ⊎ (start_up server ≡ (raise cancelled_error, record server { started_at = some now }))
      cases (ok b) e = inl (rw e refl)
      cases (raise cancelled_error) e = inr (rw e refl)
      cases (raise x) e = inl (rw e refl)

  -- What is served after a start.
  abbrev serving_of : Result (ModelRegistry × SessionStore) × Server → Serving
  serving_of (ok (registry, store), s) = record {
    server = s;
    registry = registry;
    session_store = store;
  }
  serving_of (raise e, s) = record {
    server = s;
    registry = new_registry;
    session_store = new_sessions;
  }

  last_part-IsServing :
      (s : Server) (p : ModelRegistry × SessionStore)
      → s.started_at ≡ some now
      → (last_part s).0 ≡ ok p
      → IsServing settings (serving_of (last_part s))
  last_part-IsServing s p et h =
      let (a, ea, run) =
        >>=-eq-ok (start_models vendor settings) (λ registry. pure (registry, new_sessions)) s p
          h in
      let (started, same) =
        with_value-ok (Registry.start vendor settings s.app.fs new_registry).1 a
          (Registry.start vendor settings s.app.fs new_registry).0 ea in
      subst (λ m. IsServing settings (serving_of m)) (sym run)
        (subst
          (λ (b : ModelRegistry).
            IsServing settings
              (serving_of (ok (b, new_sessions), (start_models vendor settings s).1)))
          same (started-IsServing s et started))

  startup-IsServing :
      (server : Server) (p : ModelRegistry × SessionStore)
      → (start_up server).0 ≡ ok p
      → IsServing settings (serving_of (start_up server))
  startup-IsServing server p h = elim (after_ping server) [
    | inl e ↦
        subst (λ m. IsServing settings (serving_of m)) (sym e)
          (last_part-IsServing (opened server) p refl (ap (λ m. m.0) (sym e) ∙ h))
    | inr e ↦ cc
  ]

  lifespan_cases :
      (requests : Exec Serving (Unit {0})) (server : Server)
      (m : Result (ModelRegistry × SessionStore) × Server)
      → start_up server ≡ m
      → Lives requests server (lifespan vendor settings now connect requests server)
  unfolding lifespan
  lifespan_cases requests server (ok (registry, store), s) e =
      let serving = serving_of (ok (registry, store), s) in
      subst (Lives requests server) (sym (>>=-ok start_up _ server e)) (
        serves serving _
          (subst (λ m. IsServing settings (serving_of m)) e
            (startup-IsServing server (registry, store) (ap (λ m. m.0) e)))
          (finally_shutdown-Stopped vendor (requests serving).0 (requests serving).1))
  lifespan_cases requests server (raise x, s) e =
      subst (Lives requests server) (sym (>>=-raise start_up _ server e)) (aborts x s e)

-- Requests are served only in a process whose models, session store and sweeper have all started, so
-- that its health is that of the database. Whatever the requests do and however they end, after them
-- no model is loaded and no sweeper runs; or the release of the memory of the GPU has raised, which
-- ends the process with that exception and leaves the store with its sweeper as it was. If the start
-- raises, no request is served.
pub lifespan-Lives :
    (vendor : Vendor) (settings : Settings) (now : ℕ) (connect : Result (Unit {0}))
    (requests : Exec Serving (Unit {0})) (server : Server)
    → Lives vendor settings now connect requests server
        (lifespan vendor settings now connect requests server)
lifespan-Lives vendor settings now connect requests server =
    lifespan_cases vendor settings now connect requests server
      (startup vendor settings now connect server) refl
