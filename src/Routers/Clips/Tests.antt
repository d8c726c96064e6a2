-- ===== src/Routers/Clips/Tests.antt =====
-- A persona with a clip of number 7 and a file without a number.
use mathlib.Core.List.{Memᴰ}
use yeoun_ai.Base.{
  ◌≡◌, refl, none, List, [], ◌∷◌, ◌++◌, nat_eq, list_eq, arith, All, if◌then◌else◌, ltb,
}
use yeoun_ai.Base.Int.{pos}
use yeoun_ai.Base.Text.{codes, starts_with, text_ltb}
use yeoun_ai.Base.Number.{parse_int, decimal}
use yeoun_ai.Base.Uuid.{str_uuid}
use yeoun_ai.Base.Dict
use yeoun_ai.Base.Exec.{ok, raise}
use yeoun_ai.Fs.{File, dir, file, files_in}
use yeoun_ai.Db.Repository.{get_persona}
use yeoun_ai.Routers.{App, not_found}
use yeoun_ai.Routers.Small.{host, open_app, is_plain}
use yeoun_ai.Routers.Media.{stream_response, get_idle_clip}
use yeoun_ai.Routers.Clips.{
  IdleClipMeta, is_mp4, mp4_stem, glob_mp4, insert_path, sort_paths, clip_meta, clips_of, idle_dir,
  get_idle_clips,
}
use yeoun_ai.Routers.Clips.Listed.{NonNegative}
use yeoun_ai.Routers.Clips.Served.{clip_name, get_idle_clips-Listed}

abbrev seven : File
seven = record { content = 1 ∷ 2 ∷ []; mtime = 3 }

abbrev with_clips : App
with_clips = record open_app {
  fs =
      (idle_dir host 7, dir)
      ∷ (idle_dir host 7 ++ codes "x.mp4" ∷ [], file seven)
      ∷ (idle_dir host 7 ++ codes "7.mp4" ∷ [], file seven)
      ∷ (idle_dir host 7 ++ codes "0.mp4" ∷ [], file seven)
      ∷ open_app.fs;
}

get_idle_clips_run : get_idle_clips host 7 with_clips ≡ (
  ok (clip_meta 7 0 (codes "0.mp4") seven ∷ clip_meta 7 7 (codes "7.mp4") seven ∷ []),
  with_clips,
)
unfolding get_idle_clips get_persona Dict.lookup files_in str_uuid is_mp4 mp4_stem glob_mp4
    insert_path sort_paths clips_of text_ltb starts_with parse_int decimal nat_eq list_eq
get_idle_clips_run = refl

numbers : All NonNegative (files_in (idle_dir host 7) with_clips.fs)
unfolding files_in mp4_stem parse_int str_uuid nat_eq list_eq
numbers = (refl, (refl, (refl, tt)))

get_idle_clips-Listed_example :
    (clips : List IdleClipMeta) × (get_idle_clips host 7 with_clips ≡ (ok clips, with_clips))
    × Memᴰ (clip_meta 7 7 (clip_name 7) seven) clips
    × ((get_idle_clip host 7 (pos 7) none with_clips).0
        ≡ (if ltb 7 2 then stream_response seven.content none else raise not_found))
unfolding Dict.lookup str_uuid decimal nat_eq list_eq
get_idle_clips-Listed_example =
    get_idle_clips-Listed host 7 is_plain with_clips 7 seven none refl refl numbers (omega arith)
      refl
