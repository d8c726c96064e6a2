-- ===== src/Routers/Uploads.antt =====
-- The uploads of app/routers/personas.py. The values of `uuid4` are given by their use.
pub mod Reading
pub mod Saved
pub mod Written
pub mod Names
pub mod Picked
mod Tests
use yeoun_ai.Base.{
  ℕ, zero, suc, ◌+◌, ◌*◌, Bool, true, false, not, ◌&&◌, ◌||◌, Option, none, some, List, [], ◌∷◌,
  ◌++◌, if◌then◌else◌, ltb, leb, ◌==◌, nat_eq, list_eq, contains, length, take, drop,
}
use yeoun_ai.Base.Text.{Text, codes, is_empty, starts_with}
use yeoun_ai.Base.Uuid.{Uuid, str_uuid, hex}
use yeoun_ai.Base.Exec.{
  Exception, http, permission_error, cancelled_error, Result, ok, raise, Exec, pure, throw, lift,
  modify, ◌>>=◌, ◌>>◌,
}
use yeoun_ai.Fs.{
  FilePath, Bytes, Fs, mkdir, parent, name, append_name, write_bytes, replace, unlink,
}
use yeoun_ai.Storage.Resolve.{pure_path, safe_resolve}
use yeoun_ai.Db.{PersonaRecord, Db}
use yeoun_ai.Db.Repository.{insert_persona_photo_asset, insert_persona_voice_asset}
use yeoun_ai.Routers.{App, Host, not_found, conflict}
use yeoun_ai.Routers.Personas.{find, is_processing}

-- `UploadFile`
pub record Upload : Type 0 where
  pub content_type : Option Text
  pub filename : Option Text
  pub content : Bytes

-- `_PHOTO_CONTENT_TYPES`
abbrev pub photo_content_types : List Text
photo_content_types = codes "image/jpeg" ∷ codes "image/png" ∷ codes "image/webp" ∷ []

-- `_VOICE_CONTENT_TYPES`
abbrev pub voice_content_types : List Text
voice_content_types =
    codes "audio/wav"
    ∷ codes "audio/x-wav"
    ∷ codes "audio/wave"
    ∷ codes "audio/mpeg"
    ∷ codes "audio/mp3"
    ∷ codes "audio/mp4"
    ∷ codes "audio/m4a"
    ∷ codes "audio/x-m4a"
    ∷ codes "audio/webm"
    ∷ codes "audio/ogg"
    ∷ []

-- `_PHOTO_MAGIC_PREFIXES`
abbrev pub photo_magic_prefixes : List Bytes
photo_magic_prefixes =
    (0xff ∷ 0xd8 ∷ 0xff ∷ [])
    ∷ (0x89 ∷ (codes "PNG" ++ (13 ∷ 10 ∷ 26 ∷ 10 ∷ [])))
    ∷ codes "RIFF"
    ∷ []

-- `_VOICE_MAGIC_PREFIXES`
abbrev pub voice_magic_prefixes : List Bytes
voice_magic_prefixes =
    codes "RIFF"
    ∷ codes "ID3"
    ∷ (0xff ∷ 0xfb ∷ [])
    ∷ (0xff ∷ 0xf3 ∷ [])
    ∷ (0xff ∷ 0xf2 ∷ [])
    ∷ (0x1a ∷ 0x45 ∷ 0xdf ∷ 0xa3 ∷ [])
    ∷ codes "OggS"
    ∷ codes "ftyp"
    ∷ []

-- `_looks_like`
unfoldable pub looks_like : List Bytes → Bytes → Bool
looks_like [] head = false
looks_like (prefix ∷ prefixes) head =
    (prefix == codes "ftyp" && leb 8 (length head) && take 4 (drop 4 head) == codes "ftyp")
    || starts_with head prefix
    || looks_like prefixes head

abbrev pub unsupported_media_type : Exception
unsupported_media_type = http 415 (codes "UNSUPPORTED_MEDIA_TYPE")

abbrev pub payload_too_large : Exception
payload_too_large = http 413 (codes "PAYLOAD_TOO_LARGE")

abbrev pub bad_request : Exception
bad_request = http 400 (codes "BAD_REQUEST")

abbrev pub chunk_size : ℕ
chunk_size = 1024 * 1024

-- One round of the loop after a chunk: the tests of the first 16 bytes, and of the size so far.
unfoldable pub after_chunk : List Bytes → ℕ → Bytes → Bool → Result Bytes → Result Bytes
after_chunk prefixes limit buffer magic_checked more =
    if not magic_checked
      && leb 4 (length (take 16 buffer))
      && not (looks_like prefixes (take 16 buffer))
    then raise unsupported_media_type
    else if ltb limit (length buffer)
    then raise payload_too_large
    else more

-- The `while True` loop, with the size of a chunk, the buffer and `magic_checked`; one round for
-- each byte is enough.
unfoldable pub read_loop : ℕ → List Bytes → ℕ → ℕ → Bytes → Bytes → Bool → Result Bytes
read_loop zero prefixes limit chunk rest buffer magic_checked = ok buffer
read_loop (suc fuel) prefixes limit chunk rest buffer magic_checked =
    let grown = buffer ++ take chunk rest in
    let more =
      read_loop fuel prefixes limit chunk (drop chunk rest) grown
        (magic_checked || leb 4 (length (take 16 grown))) in
    if is_empty (take chunk rest)
    then ok buffer
    else after_chunk prefixes limit grown magic_checked more

abbrev type_of : Option Text → Text
type_of none = []
type_of (some t) = t

-- The `try` block around the reading; no content type is the empty text.
unfoldable pub read_upload : List Text → List Bytes → ℕ → Upload → Result Bytes
read_upload allowed prefixes limit file =
    if not (contains allowed (type_of file.content_type))
    then raise unsupported_media_type
    else read_loop (length file.content) prefixes limit chunk_size file.content [] false

abbrev or_nil : Option Text → Text
or_nil none = []
or_nil (some s) = s

-- `Path(file.filename or "").name`, or nothing if it is not safe.
abbrev pub raw_name : Option Text → Text
raw_name filename =
    let s = name (pure_path (or_nil filename)).parts in
    if s == codes "." || s == codes ".." || contains s 0 || contains s b'/' then [] else s

abbrev pub file_name : Uuid → Option Text → Text
file_name u filename =
    let s = raw_name filename in if is_empty s then codes "upload-" ++ hex 32 u else s

-- `except PermissionError`
abbrev pub guarded : Result FilePath → Result FilePath
guarded (raise (permission_error m)) = raise bad_request
guarded r = r

-- `except Exception` around the two writes: the temporary file goes; a cancellation leaves it.
abbrev pub tidy : FilePath → Result (Unit {0}) × Fs → Result (Unit {0}) × Fs
tidy tmp (ok _, fs) = (ok tt, fs)
tidy tmp (raise cancelled_error, fs) = (raise cancelled_error, fs)
tidy tmp (raise e, fs) = (raise e, unlink tmp fs)

module _ (host : Host) where
  abbrev pub tmp_path : FilePath → FilePath
  tmp_path target = append_name target (codes ".tmp." ++ hex 32 (host.env.fresh 1))

  unfoldable pub write_atomic : FilePath → Bytes → Exec Fs (Unit {0})
  write_atomic target content fs = tidy (tmp_path target) (
      (do
        write_bytes host.env.disk host.env.now (tmp_path target) content
        modify (replace (tmp_path target) target))
        (mkdir (parent target) fs))

  -- `_save_upload`
  unfoldable pub save_upload :
      Uuid → Upload → Text → List Text → List Bytes → Exec Fs (FilePath × ℕ)
  save_upload pid file subdir allowed prefixes = do
    buffer ← lift (read_upload allowed prefixes host.settings.max_upload_bytes file)
    target ← lift (
        guarded (
          safe_resolve host.readlink host.fuel host.settings.persona_dir
            (str_uuid pid ∷ subdir ∷ file_name (host.env.fresh 0) file.filename ∷ [])))
    write_atomic target buffer
    pure (target, length buffer)

  -- `_ensure_writable_persona`
  writable : Option PersonaRecord → Exec App (Unit {0})
  writable none = throw not_found
  writable (some r) = if is_processing r.status then throw conflict else pure tt

  unfoldable pub ensure_writable_persona : Uuid → Exec App (Unit {0})
  unfolding writable
  ensure_writable_persona pid = find host pid >>= writable

  abbrev on_files : {A : Type 0} → Exec Fs A → Exec App A
  on_files m app = let (r, fs) = m app.fs in (r, record app { fs = fs })

  abbrev on_tables : {A : Type 0} → Exec Db A → Exec App A
  on_tables m app = let (r, db) = m app.db in (r, record app { db = db })

  -- `UploadResult`, with `f"{persona_id}/photo/{target.name}"`
  abbrev upload_result : Uuid → Text → FilePath → ℕ → Text × ℕ
  upload_result pid subdir target size =
      (str_uuid pid ++ (b'/' ∷ (subdir ++ (b'/' ∷ name target))), size)

  unfoldable pub upload_photo : Uuid → Upload → Exec App (Text × ℕ)
  upload_photo pid file = do
    ensure_writable_persona pid
    (target, size) ←
        on_files (save_upload pid file (codes "photo") photo_content_types photo_magic_prefixes)
    on_tables (
        insert_persona_photo_asset host.env.backend (record {
          photo_asset_id = host.env.fresh 2;
          persona_id = pid;
          filesystem_path = target;
        }))
    pure (upload_result pid (codes "photo") target size)

  abbrev original_name : Option Text → FilePath → Text
  original_name filename target = let s = or_nil filename in if is_empty s then name target else s

  unfoldable pub upload_voice : Uuid → Upload → Exec App (Text × ℕ)
  upload_voice pid file = do
    ensure_writable_persona pid
    (target, size) ←
        on_files (save_upload pid file (codes "voice") voice_content_types voice_magic_prefixes)
    on_tables (
        insert_persona_voice_asset host.env.backend (record {
          voice_asset_id = host.env.fresh 2;
          persona_id = pid;
          original_name = original_name file.filename target;
          filesystem_path = target;
        }))
    pure (upload_result pid (codes "voice") target size)
