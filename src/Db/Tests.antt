-- ===== src/Db/Tests.antt =====
-- Deletions from small tables.
use yeoun_ai.Base.{◌≡◌, ◌⊎◌}
use yeoun_ai.Base.Exec.{Exception, ok, raise}
use yeoun_ai.Db.Repository.{mock, postgres, delete_persona_tx}
use yeoun_ai.Db.Deletion.{delete_persona_tx-postgres}
use yeoun_ai.Fixtures.{db, server, IsPostgres-server}

delete_persona_tx-postgres_example :
    let (r, after) = delete_persona_tx (postgres server) 7 db in
    ((r ≡ ok tt) × (after ≡ (delete_persona_tx mock 7 db).1))
    ⊎ ((e : Exception) × (r ≡ raise e) × (after ≡ db))
delete_persona_tx-postgres_example = delete_persona_tx-postgres server IsPostgres-server 7 db
