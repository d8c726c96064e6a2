-- ===== src/Routers/Media.antt =====
-- app/routers/media.py
pub mod Body
pub mod Ready
pub mod Video
mod Tests
use yeoun_ai.Base.{
  ℕ, zero, suc, ◌+◌, ◌-◌, ◌*◌, Bool, true, false, not, ◌||◌, Option, none, some, List, [], ◌∷◌,
  ◌++◌, if◌then◌else◌, ◌==◌, nat_eq, length, take, drop,
}
use yeoun_ai.Base.Int.{ℤ, pos, negsuc}
use yeoun_ai.Base.Text.{Text, codes, is_empty}
use yeoun_ai.Base.Number.{decimal}
use yeoun_ai.Base.Uuid.{Uuid, str_uuid}
use yeoun_ai.Base.Exec.{
  Exception, http_exception, permission_error, Result, ok, raise, Exec, pure, throw, lift, gets,
  ◌>>=◌,
}
use yeoun_ai.Fs.{FilePath, Bytes, File, Fs, get_file}
use yeoun_ai.Storage.Range.{
  Parsed, whole, part, not_satisfiable, parse_range, iter_file_range, range_chunk_size,
}
use yeoun_ai.Storage.Resolve.{safe_resolve}
use yeoun_ai.Db.{PersonaRecord}
use yeoun_ai.Db.Repository.{get_persona}
use yeoun_ai.Sessions
use yeoun_ai.Sessions.{SessionState, SessionStore}
use yeoun_ai.Creation.{on_db}
use yeoun_ai.Routers.{App, Host, not_found, unavailable}

-- A `StreamingResponse`, with its headers `Content-Length` and `Content-Range`.
pub record Streaming : Type 0 where
  pub status_code : ℕ
  pub content_length : ℕ
  pub content_range : Option Text
  pub body : List Bytes

-- `_FULL_CHUNK`
abbrev pub full_chunk : ℕ
full_chunk = 64 * 1024

-- The loop of `full_iter` over the rest of the file; one round for each byte is enough.
unfoldable pub full_loop : ℕ → Bytes → List Bytes
full_loop zero rest = []
full_loop (suc fuel) rest =
    let more = full_loop fuel (drop full_chunk rest) in
    let block = take full_chunk rest in if is_empty block then [] else block ∷ more

abbrev pub full_iter : Bytes → List Bytes
full_iter content = full_loop (length content) content

-- `f"bytes {start}-{end}/{size}"`
abbrev pub content_range : ℕ → ℕ → ℕ → Text
content_range start end size =
    codes "bytes " ++ (decimal start ++ (b'-' ∷ (decimal end ++ (b'/' ∷ decimal size))))

abbrev pub range_not_satisfiable : ℕ → Exception
range_not_satisfiable size = http_exception (record {
  status_code = 416;
  code = codes "RANGE_NOT_SATISFIABLE";
  header = some (codes "bytes */" ++ decimal size);
})

-- The answer for what `parse_range` returned; it accepts no negative bound.
unfoldable pub respond : Bytes → Parsed → Result Streaming
respond content whole = ok (record {
  status_code = 200;
  content_length = length content;
  content_range = none;
  body = full_iter content;
})
respond content (not_satisfiable e) = raise (range_not_satisfiable (length content))
respond content (part (pos start) (pos end)) = ok (record {
  status_code = 206;
  content_length = end + 1 - start;
  content_range = some (content_range start end (length content));
  body = iter_file_range content start end range_chunk_size;
})
respond content (part _ _) = raise (range_not_satisfiable (length content))

-- `_stream_response`
unfoldable pub stream_response : Bytes → Option Text → Result Streaming
stream_response content range_header = respond content (parse_range range_header (length content))

-- The file at a path, or 404.
abbrev pub stream_file : Option File → Option Text → Result Streaming
stream_file none range_header = raise not_found
stream_file (some f) range_header = stream_response f.content range_header

-- `except PermissionError`: 404, like a file that is not there.
abbrev pub send : Result FilePath → Option Text → Exec App Streaming
send (ok path) range_header app = (stream_file (get_file app.fs path) range_header, app)
send (raise (permission_error m)) range_header app = (raise not_found, app)
send (raise e) range_header app = (raise e, app)

module _ (host : Host) where
  abbrev pub on_tables : {A : Type 0} → Exec yeoun_ai.Db.Db A → Exec App A
  on_tables m app = let (r, db) = m app.db in (r, record app { db = db })

  abbrev pub idle_clip_parts : Uuid → ℕ → List Text
  idle_clip_parts pid idx = str_uuid pid ∷ codes "idle" ∷ (decimal idx ++ codes ".mp4") ∷ []

  clip_of : Uuid → ℕ → Option Text → Option PersonaRecord → Exec App Streaming
  clip_of pid idx range_header none = throw not_found
  clip_of pid idx range_header (some r) =
      send
        (safe_resolve host.readlink host.fuel host.settings.persona_dir (idle_clip_parts pid idx))
        range_header

  unfoldable pub get_idle_clip : Uuid → ℤ → Option Text → Exec App Streaming
  unfolding clip_of
  get_idle_clip pid (negsuc n) range_header = throw not_found
  get_idle_clip pid (pos idx) range_header =
      if not (idx == 0 || idx == 1)
      then throw not_found
      else (on_tables (get_persona host.env.backend pid) >>= clip_of pid idx range_header)

  abbrev pub media_parts : SessionState → Uuid → Uuid → List Text
  media_parts session sid mid =
      str_uuid session.persona_id
      ∷ codes "speak"
      ∷ str_uuid sid
      ∷ (str_uuid mid ++ codes ".mp4")
      ∷ []

  media_of : Uuid → Uuid → Option Text → Option SessionState → Exec App Streaming
  media_of sid mid range_header none = throw not_found
  media_of sid mid range_header (some session) =
      send
        (safe_resolve host.readlink host.fuel host.settings.persona_dir
          (media_parts session sid mid))
        range_header

  media_in : Uuid → Uuid → Option Text → Option SessionStore → Exec App Streaming
  unfolding media_of
  media_in sid mid range_header none = throw unavailable
  media_in sid mid range_header (some store) =
      media_of sid mid range_header (Sessions.get store sid)

  unfoldable pub get_session_media : Uuid → Uuid → Option Text → Exec App Streaming
  unfolding media_in
  get_session_media sid mid range_header app = media_in sid mid range_header app.session_store app
