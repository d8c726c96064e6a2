-- ===== src/Routers/Small.antt =====
-- A small application for the tests.
use yeoun_ai.Storage.Resolve.{IsName}
use yeoun_ai.Base.{false, refl, arith, true, none, some, [], nat_eq, list_eq, All}
use yeoun_ai.Sessions.{SessionStore, new_store, create}
use yeoun_ai.Models.Registry.{new_registry}
use yeoun_ai.Routers.{App, Host}
use yeoun_ai.Routers.Media.Ready.{IsPlain}
use yeoun_ai.Fixtures.{env, settings, fs_with, db, session}

abbrev pub store : SessionStore
store = create session new_store

abbrev pub host : Host
host = record {
  env = env;
  settings = settings;
  readlink = λ p. none;
  fuel = 8;
  rmtree_ok = true;
  removable = λ p. false;
}

abbrev pub app : App
app = record {
  registry = none;
  session_store = none;
  persona_store = none;
  fs = fs_with [];
  db = db;
  background_tasks = [];
}

abbrev pub open_app : App
open_app = record app { registry = some new_registry; session_store = some store }

pub persona_dir-names : All IsName settings.persona_dir
unfolding nat_eq list_eq
persona_dir-names = (
  record {
    no_slash = (refl, (refl, (refl, tt)));
    nonempty = refl;
    not_dot = refl;
    not_dots = refl;
  },
  (
    record {
      no_slash = (refl, (refl, (refl, (refl, (refl, (refl, (refl, tt)))))));
      nonempty = refl;
      not_dot = refl;
      not_dots = refl;
    },
    tt,
  ),
)

pub is_plain : IsPlain host
is_plain = record {
  no_links = λ p. refl;
  names = persona_dir-names;
  steps = omega arith;
  same_dir = refl;
  in_memory = refl;
}
