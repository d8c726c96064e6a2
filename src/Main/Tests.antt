-- ===== src/Main/Tests.antt =====
-- The life of a process that serves nothing.
use yeoun_ai.Base.{none}
use yeoun_ai.Base.Exec.{ok}
use yeoun_ai.Main.{Server, lifespan}
use yeoun_ai.Main.Life.{Lives, lifespan-Lives}
use yeoun_ai.Routers.Small.{app}
use yeoun_ai.Fixtures.{vendor, settings}

abbrev server : Server
server = record { app = app; started_at = none }

lifespan-Lives_example :
    Lives vendor settings 40
      (ok tt)
      (λ s. (ok tt, s))
      server
      (lifespan vendor settings 40 (ok tt) (λ s. (ok tt, s)) server)
lifespan-Lives_example = lifespan-Lives vendor settings 40 (ok tt) (λ s. (ok tt, s)) server
