-- ===== src/Creation/Gives.antt =====
-- Steps of `process_persona` that return, one after the other.
use yeoun_ai.Base.{◌≡◌, refl, ap, ◌∙◌, none, nat_eq, list_eq}
use yeoun_ai.Base.Uuid.{Uuid}
use yeoun_ai.Base.Exec.{Result, ok, Exec, ◌>>=◌, >>=-ok}
use yeoun_ai.Fs.{Fs}
use yeoun_ai.Db.{PersonaStatus}
use yeoun_ai.Db.Repository.{mock, set_persona_status, update_persona_status}
use yeoun_ai.Pipeline.{Env}
use yeoun_ai.Creation.{ProcessingStep, set_step, World, on_fs}
use yeoun_ai.Creation.Process.{step_to, status_to}

-- A state that goes from one to the next.
pub record Gives {A : Type 0} (m : Exec World A) (w : World) (a : A) (w' : World) : Type 0 where
  pub runs : m w ≡ (ok a, w')

pub after-Gives :
    {A B : Type 0} {a : A} {b : B} {w w' w'' : World} (m : Exec World A) (f : A → Exec World B)
    → Gives m w a w'
    → Gives (f a) w' b w''
    → Gives (m >>= f) w b w''
after-Gives {w} m f h k = record { runs = >>=-ok m f w h.runs ∙ k.runs }

pub on_fs-Gives :
    {A : Type 0} (m : Exec Fs A) (a : A) (w : World) → m w.fs ≡ (ok a, w.fs) → Gives (on_fs m) w a w
on_fs-Gives m a w h = record { runs = ap (λ (r : Result _ × Fs). (r.0, record w { fs = r.1 })) h }

module _ (env : Env) (pid : Uuid) where
  pub step_to-Gives :
      (step : ProcessingStep) (w : World)
      → Gives
          (step_to env pid step)
          w
          tt
          (record w { progress = set_step pid step none env.now w.progress })
  unfolding step_to
  step_to-Gives step w = record { runs = refl }

  pub status_to-Gives :
      (status : PersonaStatus) (w : World)
      → env.backend ≡ mock
      → Gives (status_to env pid status) w tt (record w { db = set_persona_status status pid w.db })
  unfolding status_to update_persona_status
  status_to-Gives status w in_memory = record { runs = rw in_memory refl }
