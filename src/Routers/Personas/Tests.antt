-- ===== src/Routers/Personas/Tests.antt =====
-- Starts of the pipeline for a small persona.
use yeoun_ai.Base.{◌≡◌, refl, some, [], nat_eq}
use yeoun_ai.Base.Dict
use yeoun_ai.Base.Exec.{ok}
use yeoun_ai.Db.Repository.{get_persona}
use yeoun_ai.Creation
use yeoun_ai.Routers.{App}
use yeoun_ai.Routers.Personas.{start_processing}
use yeoun_ai.Routers.Personas.Starts.{
  Starts, queued, start_processing-Starts, start_processing_twice,
}
use yeoun_ai.Routers.Small.{host, open_app}

abbrev serving : App
serving = record open_app { persona_store = some [] }

start_processing-Starts_example : Starts 7 serving (start_processing host 7 serving)
start_processing-Starts_example = start_processing-Starts host 7 refl serving

start_processing_twice_example :
    (start_processing host 7 serving ≡ (ok tt, queued 7 serving))
    × (start_processing host 7 (queued 7 serving) ≡ (ok tt, queued 7 (queued 7 serving)))
unfolding start_processing get_persona Creation.get Dict.lookup nat_eq
start_processing_twice_example = start_processing_twice host 7 refl serving refl
