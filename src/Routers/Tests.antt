-- ===== src/Routers/Tests.antt =====
-- Requests to a small application.
use yeoun_ai.Base.{◌+◌, length, ◌≤◌, ◌≡◌, refl, some, List, [], ◌∷◌, ◌++◌, arith, nat_eq, list_eq}
use yeoun_ai.Base.Text.{codes}
use yeoun_ai.Storage.Range.{parse_range}
use yeoun_ai.Storage.Resolve.{safe_resolve, resolve, joinpath, pure_path}
use yeoun_ai.Fs.{write_bytes, replace, name, mkdir, parent, append_name}
use yeoun_ai.Base.Dict
use yeoun_ai.Base.Text.{starts_with}
use yeoun_ai.Base.Uuid.{str_uuid}
use yeoun_ai.Sessions.{SessionStore, new_store, create}
use yeoun_ai.Sessions
use yeoun_ai.Models.Registry.{new_registry}
use yeoun_ai.Base.Exec.{ok, os_error, cancelled_error}
use yeoun_ai.Routers.{App}
use yeoun_ai.Routers.{Credentials, require_internal_token}
use yeoun_ai.Routers.Access.{Admission, require_internal_token_lem}
use yeoun_ai.Base.{Option}
use yeoun_ai.Routers.Small.{persona_dir-names, host, app, store, open_app}
use yeoun_ai.Routers.Lifetime.{start_session, end_session}
use yeoun_ai.Routers.Lifetime.RoundTrip.{IsForgotten, end_session-start_session}
use yeoun_ai.Db.{PersonaStatus}
use yeoun_ai.Db.Repository.{get_persona, get_persona_interviews}
use yeoun_ai.Routers.Lifetime.End.{Ended, end_session-Ended}
use yeoun_ai.Routers.Media.{stream_response}
use yeoun_ai.Routers.Media.Body.{Answers, stream_response-Answers}
use yeoun_ai.Routers.Messages.{
  Desk, Step, enters, saves, fails, ends, goes_unstarted, leaks, run, step, enter, saved,
  save_failed, stream_ended, stream_unstarted, take_out, new_desk, IsCounted, run-IsCounted,
}
use yeoun_ai.Routers.Personas.{delete_persona}
use yeoun_ai.Routers.Personas.Deletion.{Deletes, delete_persona-Deletes}
use yeoun_ai.Routers.Uploads.{
  Upload, photo_content_types, photo_magic_prefixes, save_upload, read_upload, read_loop,
  after_chunk, looks_like, write_atomic,
}
use yeoun_ai.Routers.Uploads.Saved.{Saved, save_upload-Saved}
use yeoun_ai.Fixtures.{env, settings, fs_with, db, session, persona}

stream_response-Answers_example :
    Answers
      (codes "abcdefgh")
      (parse_range (some (codes "bytes=2-4")) 8)
      (stream_response (codes "abcdefgh") (some (codes "bytes=2-4")))
stream_response-Answers_example =
    stream_response-Answers (codes "abcdefgh") (some (codes "bytes=2-4"))

abbrev steps : List Step
steps =
    enters (some store) 9 1
    ∷ enters (some store) 9 2
    ∷ saves 1
    ∷ fails (os_error []) 2
    ∷ enters (some store) 9 3
    ∷ ends 1
    ∷ ends 1
    ∷ saves 3
    ∷ goes_unstarted 3
    ∷ enters (some store) 9 4
    ∷ fails cancelled_error 4
    ∷ []

-- Two requests are lost: nothing is in work, and the count stays at two.
steps_lost : (run steps new_desk).active_messages ≡ 2
unfolding run step enter saved save_failed stream_ended stream_unstarted take_out Sessions.get
    Dict.lookup create Dict.insert nat_eq
steps_lost = refl

run-IsCounted_example :
    IsCounted (run steps new_desk)
    × (0 ≤ length (run steps new_desk).lost)
    × (length (run steps new_desk).lost ≤ 0 + leaks steps)
run-IsCounted_example = run-IsCounted steps new_desk (omega arith, omega arith)

abbrev full_desk : Desk
full_desk = record { active_messages = 5; saving = []; streams = []; lost = 5 ∷ 4 ∷ 3 ∷ 2 ∷ 1 ∷ [] }

delete_persona-Deletes_example : Deletes host 7 app (delete_persona host 7 app)
delete_persona-Deletes_example =
    delete_persona-Deletes host 7 app refl (λ p. refl) persona_dir-names (omega arith)

abbrev upload : Upload
upload = record {
  content_type = some (codes "image/png");
  filename = some (codes "../a.png");
  content = codes "RIFF0";
}

save_upload-Saved_example :
    Saved host photo_content_types photo_magic_prefixes upload
      (settings.persona_dir ++ (str_uuid 7 ∷ codes "photo" ∷ codes "a.png" ∷ []))
      5
      (save_upload host 7 upload
        (codes "photo")
        photo_content_types
        photo_magic_prefixes
        (fs_with [])).1
unfolding save_upload read_upload read_loop after_chunk looks_like write_atomic write_bytes replace
    safe_resolve resolve joinpath pure_path name starts_with str_uuid nat_eq list_eq mkdir parent
    append_name Dict.lookup Dict.insert Dict.erase
save_upload-Saved_example =
    save_upload-Saved host 7 upload (codes "photo") photo_content_types photo_magic_prefixes
      (fs_with []) (settings.persona_dir ++ (str_uuid 7 ∷ codes "photo" ∷ codes "a.png" ∷ [])) 5
      refl

session_is_there : Sessions.get store 9 ≡ some session
unfolding Sessions.get Sessions.create Dict.lookup Dict.insert nat_eq
session_is_there = refl

end_session-Ended_example :
    ((end_session host 9 open_app).0 ≡ ok 2)
    × Ended host 9 session open_app (end_session host 9 open_app).1
end_session-Ended_example =
    end_session-Ended host 9 open_app new_registry store session refl refl session_is_there

abbrev ready_app : App
ready_app = record open_app {
  db = record db { personas = (7, record persona { status = PersonaStatus.ready }) ∷ [] };
}

session_starts : (start_session host [] 3 7 ready_app).0 ≡ ok 1000
unfolding start_session get_persona get_persona_interviews Dict.lookup nat_eq
session_starts = refl

end_session-start_session_example :
    ((end_session host 1000 (start_session host [] 3 7 ready_app).1).0 ≡ ok 0)
    × IsForgotten 1000 ready_app.session_store
        (end_session host 1000 (start_session host [] 3 7 ready_app).1).1.session_store
end_session-start_session_example =
    end_session-start_session host [] 3 7 1000 ready_app session_starts

abbrev bearer : Option Credentials
bearer = some (record { scheme = codes "Bearer"; credentials = codes "secret" })

require_internal_token_lem_example :
    Admission env.lower settings bearer (require_internal_token env.lower settings bearer app).0
    × ((require_internal_token env.lower settings bearer app).1 ≡ app)
require_internal_token_lem_example = require_internal_token_lem env.lower settings bearer app
