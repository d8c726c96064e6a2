-- ===== src/Creation/Tests.antt =====
-- A run of the pipeline on a small persona.
use yeoun_ai.Base.{refl, [], nat_eq}
use yeoun_ai.Base.{◌∷◌, ◌++◌, list_eq}
use yeoun_ai.Base.Text.{codes}
use yeoun_ai.Base.Number.{decimal}
use yeoun_ai.Base.Uuid.{str_uuid}
use yeoun_ai.Fs.{Fs, dir, file, mkdir, files_in}
use yeoun_ai.Creation.{World, newest, pick_file, root, idle_dir, clip_path}
use yeoun_ai.Creation.Skipping.{IsComplete, Repeats}
use yeoun_ai.Creation.Again.{process_persona-Repeats}
use yeoun_ai.Creation.Process.{process_persona}
use yeoun_ai.Creation.Outcome.{Settled, process_persona-Settled}
use yeoun_ai.Base.Dict
use yeoun_ai.Fixtures.{env, fs_with, db, persona_dir}

abbrev world : World
world = record { fs = fs_with []; db = db; progress = [] }

process_persona-Settled_example : Settled env 7 (process_persona env 7 world).1
unfolding Dict.lookup nat_eq
process_persona-Settled_example = process_persona-Settled env 7 world refl refl

-- A persona whose files are all there.
abbrev complete_fs : Fs
complete_fs =
    (codes "var" ∷ [], dir)
    ∷ (persona_dir, dir)
    ∷ (root env 7, dir)
    ∷ (idle_dir env 7, dir)
    ∷ (root env 7 ++ (codes "voice" ∷ []), dir)
    ∷ (root env 7 ++ (codes "photo" ∷ []), dir)
    ∷ (clip_path env 7 0, file (record { content = 1 ∷ []; mtime = 5 }))
    ∷ (clip_path env 7 1, file (record { content = 2 ∷ []; mtime = 5 }))
    ∷ (
      root env 7 ++ (codes "voice" ∷ codes "v.wav" ∷ []),
      file (record { content = 9 ∷ []; mtime = 1 }),
    )
    ∷ fs_with []

is_complete : IsComplete env 7 complete_fs
unfolding pick_file newest files_in mkdir Dict.lookup decimal str_uuid nat_eq list_eq
is_complete = record {
  voice_path = root env 7 ++ (codes "voice" ∷ codes "v.wav" ∷ []);
  has_voice = refl;
  photo_path = root env 7 ++ (codes "photo" ∷ codes "p.jpg" ∷ []);
  has_photo = refl;
  has_audio = refl;
  has_text = refl;
  has_dir = refl;
  has_first = refl;
  has_second = refl;
}

abbrev complete_world : World
complete_world = record { fs = complete_fs; db = db; progress = [] }

process_persona-Repeats_example :
    Repeats env 7 complete_world (process_persona env 7 complete_world)
unfolding Dict.lookup nat_eq
process_persona-Repeats_example = process_persona-Repeats env 7 complete_world refl refl is_complete
