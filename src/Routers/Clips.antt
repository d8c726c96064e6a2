-- ===== src/Routers/Clips.antt =====
-- `get_idle_clips` of app/routers/personas.py: the list of the idle clips of a persona.
-- The digits of a file's name are taken to be ASCII.
pub mod Listed
pub mod Served
mod Tests
use yeoun_ai.Base.{
  ℕ, ◌-◌, Bool, Option, none, some, List, [], ◌∷◌, ◌++◌, if◌then◌else◌, length, take, reverse, ◌==◌,
  nat_eq,
}
use yeoun_ai.Base.Int.{ℤ, pos, negsuc}
use yeoun_ai.Base.Number.{parse_int}
use yeoun_ai.Base.Text.{Text, codes, starts_with, text_ltb}
use yeoun_ai.Base.Uuid.{Uuid, str_uuid}
use yeoun_ai.Base.Exec.{Exception, other_error, Result, ok, raise, Exec, ◌>>=◌}
use yeoun_ai.Fs.{FilePath, File, Fs, exists, files_in}
use yeoun_ai.Db.{PersonaRecord}
use yeoun_ai.Routers.{App, Host, not_found}
use yeoun_ai.Routers.Personas.{find}

pub record IdleClipMeta : Type 0 where
  pub index : ℕ
  pub path : Text
  pub size_bytes : ℕ

-- The pattern `*.mp4` on a name.
unfoldable pub is_mp4 : Text → Bool
unfolding starts_with
is_mp4 name = starts_with (reverse name) (reverse (codes ".mp4"))

-- `p.stem` of a name that `*.mp4` takes: a dot in front of a name starts no suffix.
unfoldable pub mp4_stem : Text → Text
mp4_stem name = if length name == 4 then name else take (length name - 4) name

-- The files that `glob("*.mp4")` yields and `is_file` lets through.
unfoldable pub glob_mp4 : List (Text × File) → List (Text × File)
glob_mp4 [] = []
glob_mp4 ((name, f) ∷ files) =
    let rest = glob_mp4 files in if is_mp4 name then (name, f) ∷ rest else rest

-- `sorted`, for the paths of one directory: by name.
unfoldable pub insert_path : Text × File → List (Text × File) → List (Text × File)
unfolding text_ltb
insert_path p [] = p ∷ []
insert_path p (q ∷ qs) =
    let rest = insert_path p qs in if text_ltb q.0 p.0 then q ∷ rest else p ∷ q ∷ qs

unfoldable pub sort_paths : List (Text × File) → List (Text × File)
sort_paths [] = []
sort_paths (p ∷ ps) = insert_path p (sort_paths ps)

-- `Field(..., ge=0)` on the index of a clip; the error is raised outside the `try` around `int`.
abbrev pub validation_error : Exception
validation_error = other_error (codes "ValidationError") (codes "index")

abbrev pub clip_meta : Uuid → ℕ → Text → File → IdleClipMeta
clip_meta pid idx name f = record {
  index = idx;
  path = str_uuid pid ++ (codes "/idle/" ++ name);
  size_bytes = length f.content;
}

abbrev pub with_clip : IdleClipMeta → Result (List IdleClipMeta) → Result (List IdleClipMeta)
with_clip clip (ok clips) = ok (clip ∷ clips)
with_clip clip (raise e) = raise e

-- One round of the loop, before the rounds for the other files.
abbrev pub add_clip :
    Uuid → Text × File → Option ℤ → Result (List IdleClipMeta) → Result (List IdleClipMeta)
add_clip pid p none rest = rest
add_clip pid p (some (negsuc n)) rest = raise validation_error
add_clip pid p (some (pos idx)) rest = with_clip (clip_meta pid idx p.0 p.1) rest

unfoldable pub clips_of : Uuid → List (Text × File) → Result (List IdleClipMeta)
clips_of pid [] = ok []
clips_of pid (p ∷ ps) = add_clip pid p (parse_int (mp4_stem p.0)) (clips_of pid ps)

module _ (host : Host) where
  abbrev pub idle_dir : Uuid → FilePath
  idle_dir pid = host.settings.persona_dir ++ (str_uuid pid ∷ codes "idle" ∷ [])

  abbrev pub clips_in : Uuid → Fs → Result (List IdleClipMeta)
  clips_in pid fs =
      if exists fs (idle_dir pid)
      then clips_of pid (sort_paths (glob_mp4 (files_in (idle_dir pid) fs)))
      else ok []

  abbrev pub answer_clips : Uuid → Option PersonaRecord → Exec App (List IdleClipMeta)
  answer_clips pid none app = (raise not_found, app)
  answer_clips pid (some r) app = (clips_in pid app.fs, app)

  unfoldable pub get_idle_clips : Uuid → Exec App (List IdleClipMeta)
  get_idle_clips pid = find host pid >>= answer_clips pid
