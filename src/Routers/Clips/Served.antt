-- ===== src/Routers/Clips/Served.antt =====
-- The list of the clips beside the route that serves them.
use mathlib.Core.List.{Memᴰ, append_assoc, reverse-append}
use yeoun_ai.Base.{
  ℕ, ◌-◌, ◌<◌, ◌≡◌, ◌^◌, refl, sym, ap, ◌∙◌, true, false, not, ◌||◌, Option, none, some, List, [],
  ◌∷◌, ◌++◌, arith, if◌then◌else◌, ltb, length, take, reverse, ◌==◌, nat_eq, list_eq, length-append,
  Bool-cases, inl, inr, All,
}
use yeoun_ai.Base.Int.{pos}
use yeoun_ai.Base.Number.{parse_int, decimal, parse_int-decimal, decimal-nonempty}
use yeoun_ai.Base.Text.{Text, codes, starts_with-append, is_empty}
use yeoun_ai.Base.Uuid.{Uuid, str_uuid}
use yeoun_ai.Base.Exec.{Result, ok, raise}
use yeoun_ai.Base.Dict
use yeoun_ai.Fs.{File, Node, dir, file, exists, get_file, files_in, file_of}
use yeoun_ai.Fs.Nodes.{files_in-member}
use yeoun_ai.Db.{PersonaRecord}
use yeoun_ai.Db.Repository.{get_persona}
use yeoun_ai.Creation.Status.{IsPresent}
use yeoun_ai.Routers.{App, Host, not_found}
use yeoun_ai.Routers.Media.{Streaming, stream_response, stream_file, get_idle_clip}
use yeoun_ai.Routers.Media.Ready.{IsPlain, some_of_is_some, clip_path_lem, get_idle_clip_run}
use yeoun_ai.Routers.Clips.{
  IdleClipMeta, is_mp4, mp4_stem, glob_mp4, sort_paths, clip_meta, idle_dir, clips_in,
  get_idle_clips,
}
use yeoun_ai.Routers.Clips.Listed.{
  NonNegative, clips_of-Listing, All-sort_paths, All-glob_mp4, sort_paths-member, glob_mp4-member,
}

-- The name that the pipeline gives to clip `n`.
abbrev pub clip_name : ℕ → Text
clip_name n = decimal n ++ codes ".mp4"

take_front : (s t : Text) → take (length s) (s ++ t) ≡ s
take_front [] t = refl
take_front (c ∷ s) t = ap (λ r. c ∷ r) (take_front s t)

is_mp4-clip_name : (n : ℕ) → is_mp4 (clip_name n) ≡ true
unfolding is_mp4
is_mp4-clip_name n =
    rw (reverse-append (decimal n) (codes ".mp4"))
      (starts_with-append (reverse (codes ".mp4")) (reverse (decimal n)))

mp4_stem-append : (s : Text) → is_empty s ≡ false → mp4_stem (s ++ codes ".mp4") ≡ s
unfolding mp4_stem
mp4_stem-append [] h = cc
mp4_stem-append (c ∷ s) h =
    let l = length-append s (codes ".mp4") in
    let long : (length ((c ∷ s) ++ codes ".mp4") == 4) ≡ false = ground (arith, l) in
    let short : length ((c ∷ s) ++ codes ".mp4") - 4 ≡ length (c ∷ s) = omega (arith, l) in
    rw (mp4_stem, long, short) (take_front (c ∷ s) (codes ".mp4"))

file_at : (o : Option Node) (f : File) → file_of o ≡ some f → o ≡ some (file f)
file_at none f h = cc
file_at (some dir) f h = cc
file_at (some (file g)) f h = cc

module _ (host : Host) (pid : Uuid) (plain : IsPlain host) where
  get_idle_clips_run :
      (app : App) (r : PersonaRecord)
      → Dict.lookup pid app.db.personas ≡ some r
      → get_idle_clips host pid app ≡ (clips_in host pid app.fs, app)
  unfolding get_idle_clips get_persona
  get_idle_clips_run app r e = rw (plain.in_memory, e) refl

  refused :
      (app : App) (n : ℕ) (range_header : Option Text)
      → not (n == 0 || n == 1) ≡ true
      → (get_idle_clip host pid (pos n) range_header app).0 ≡ raise not_found
  unfolding get_idle_clip
  refused app n range_header h = rw h refl

  served :
      (app : App) (n : ℕ) (f : File) (range_header : Option Text) (r : PersonaRecord)
      → Dict.lookup pid app.db.personas ≡ some r
      → get_file app.fs (idle_dir host pid ++ clip_name n ∷ []) ≡ some f
      → (get_idle_clip host pid (pos n) range_header app).0
        ≡ (if ltb n 2 then stream_response f.content range_header else raise not_found)
  served app n f range_header r e h = elim (Bool-cases (ltb n 2)) [
    | inl low ↦
        let p =
          clip_path_lem host pid plain n
          ∙ sym (
              append_assoc host.settings.persona_dir (str_uuid pid ∷ codes "idle" ∷ [])
                (clip_name n ∷ [])) in
        rw low (
          ap (λ (m : Result Streaming × App). m.0)
            (get_idle_clip_run host pid plain n range_header app r (ground arith) e)
          ∙ ap (λ (o : Option File). stream_file o range_header) (ap (get_file app.fs) p ∙ h))
    | inr high ↦ rw high (refused app n range_header (ground arith))
  ]

  -- On a host without symbolic links, with a persona directory of plain names that the pipeline works
  -- in as well, fuel for a path below it and the tables in memory: if the persona is in the tables, its
  -- directory of idle clips is there, no file in that has a negative number for its name, and one has
  -- the name of clip `n`, a number that `int` reads, then the list is answered, with the number, the
  -- path and the size of this clip in it. A request for the clip gets its content only where `n` is
  -- below 2, and a 404 otherwise.
  pub get_idle_clips-Listed :
      (app : App) (n : ℕ) (f : File) (range_header : Option Text)
      → IsPresent pid app.db
      → exists app.fs (idle_dir host pid) ≡ true
      → All NonNegative (files_in (idle_dir host pid) app.fs)
      → n < 10 ^ 4300
      → get_file app.fs (idle_dir host pid ++ clip_name n ∷ []) ≡ some f
      → (clips : List IdleClipMeta) × (get_idle_clips host pid app ≡ (ok clips, app))
        × Memᴰ (clip_meta pid n (clip_name n) f) clips
        × ((get_idle_clip host pid (pos n) range_header app).0
            ≡ (if ltb n 2 then stream_response f.content range_header else raise not_found))
  get_idle_clips-Listed app n f range_header present there numbers small h =
      let d = idle_dir host pid in
      let files = files_in d app.fs in
      let ps = sort_paths (glob_mp4 files) in
      let (r, er) = some_of_is_some (Dict.lookup pid app.db.personas) present in
      let (clips, ec, l) =
        clips_of-Listing pid ps
          (All-sort_paths NonNegative (glob_mp4 files) (All-glob_mp4 NonNegative files numbers)) in
      let m =
        sort_paths-member (clip_name n, f) (glob_mp4 files)
          (glob_mp4-member (clip_name n, f) files (is_mp4-clip_name n)
            (files_in-member d (clip_name n) f app.fs
              (file_at (Dict.lookup (d ++ clip_name n ∷ []) app.fs) f h))) in
      let number =
        ap parse_int (mp4_stem-append (decimal n) (decimal-nonempty n))
        ∙ parse_int-decimal n small in
      (
        clips,
        get_idle_clips_run app r er
            ∙ rw there (ap (λ (x : Result (List IdleClipMeta)). (x, app)) ec),
        l (clip_name n, f) n m number,
        served app n f range_header r er h,
      )
