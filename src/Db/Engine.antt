-- ===== src/Db/Engine.antt =====
-- app/db/engine.py. What SQLAlchemy does with the address of the database is the parameter `connect`:
-- that it makes an engine, connects and answers `SELECT 1`, or raises.
use yeoun_ai.Base.{Bool, true, if◌then◌else◌}
use yeoun_ai.Base.Exec.{Result, ok, raise}
use yeoun_ai.Config.{Settings}
use yeoun_ai.Db.Repository.{Backend, mock, postgres, Postgres}

-- `get_sessionmaker`, with the branch that the repository takes before it asks for one.
abbrev pub backend_of : Settings → Postgres → Backend
backend_of settings p = if settings.use_db_mock then mock else postgres p

abbrev answered : Result (Unit {0}) → Result Bool
answered (ok _) = ok true
answered (raise e) = raise e

unfoldable pub ping : Settings → Result (Unit {0}) → Result Bool
ping settings connect = if settings.use_db_mock then ok true else answered connect
