-- ===== src/Routers/Messages/Full.antt =====
-- A desk that five requests of app/routers/sessions.py have left without being counted down.
use yeoun_ai.Base.{nat_eq}
use yeoun_ai.Base.Uuid.{Uuid}
use yeoun_ai.Sessions
