-- ===== src/Routers/Media/Ready.antt =====
-- The clips of a persona that the pipeline has made ready.
use mathlib.Core.Path.{subst}
use mathlib.Core.List.{append_assoc}
use yeoun_ai.Base.{
  ℕ, zero, suc, ◌+◌, ◌≡◌, ◌<◌, ◌≤◌, refl, sym, ap, ◌∙◌, true, false, not, ◌||◌, Option, none, some,
  is_some, List, [], ◌∷◌, ◌++◌, arith, ◌==◌, nat_eq, list_eq, length, All,
}
use yeoun_ai.Base.Int.{pos}
use yeoun_ai.Base.Text.{Text, codes, starts_with}
use yeoun_ai.Base.Number.{decimal}
use yeoun_ai.Base.Uuid.{Uuid, str_uuid}
use yeoun_ai.Base.Dict
use yeoun_ai.Base.Exec.{Result, ok}
use yeoun_ai.Fs.{FilePath, Fs, File, get_file}
use yeoun_ai.Fs.Nodes.{HasFile}
use yeoun_ai.Storage.Resolve.{IsName, safe_resolve, safe_resolve_names}
use yeoun_ai.Storage.Removal.{IsName-str_uuid}
use yeoun_ai.Db.{PersonaRecord}
use yeoun_ai.Db.Repository.{mock, get_persona}
use yeoun_ai.Creation.{World, get, ready, root, clip_path}
use yeoun_ai.Creation.Process.{process_persona}
use yeoun_ai.Creation.Steps.Clips.{NoDirs}
use yeoun_ai.Creation.Status.{IsPresent}
use yeoun_ai.Creation.Outcome.{process_persona-IsPresent}
use yeoun_ai.Creation.Made.{HasClips, step_of, process_persona-HasClips}
use yeoun_ai.Routers.{App, Host}
use yeoun_ai.Routers.Media.{
  Streaming, stream_response, stream_file, send, idle_clip_parts, get_idle_clip,
}

-- The files of a host: no symbolic links, a directory for the personas of plain names with enough
-- steps for a path in it, which the pipeline works in as well.
pub record IsPlain (host : Host) : Type 0 where
  pub no_links : (p : FilePath) → host.readlink p ≡ none
  pub names : All IsName host.settings.persona_dir
  pub steps : length host.settings.persona_dir + 3 ≤ host.fuel
  pub same_dir : host.env.persona_dir ≡ host.settings.persona_dir
  pub in_memory : host.env.backend ≡ mock

pub some_of_is_some : {A : Type 0} (o : Option A) → is_some o ≡ true → (a : A) × (o ≡ some a)
some_of_is_some none h = cc
some_of_is_some (some a) h = (a, refl)

IsName-idle : IsName (codes "idle")
unfolding nat_eq list_eq
IsName-idle = record {
  no_slash = (refl, (refl, (refl, (refl, tt))));
  nonempty = refl;
  not_dot = refl;
  not_dots = refl;
}

IsName-clip : (i : ℕ) → i < 2 → IsName (decimal i ++ codes ".mp4")
unfolding decimal nat_eq list_eq
IsName-clip zero l = record {
  no_slash = (refl, (refl, (refl, (refl, (refl, tt)))));
  nonempty = refl;
  not_dot = refl;
  not_dots = refl;
}
IsName-clip (suc zero) l = record {
  no_slash = (refl, (refl, (refl, (refl, (refl, tt)))));
  nonempty = refl;
  not_dot = refl;
  not_dots = refl;
}
IsName-clip (suc (suc i)) l = absurd (omega arith)

is_clip : (i : ℕ) → i < 2 → not (i == 0 || i == 1) ≡ false
is_clip i l = ground arith

module _ (host : Host) (pid : Uuid) (plain : IsPlain host) where
  parts-IsName : (i : ℕ) → i < 2 → All IsName (idle_clip_parts host pid i)
  parts-IsName i l = (IsName-str_uuid pid, (IsName-idle, (IsName-clip i l, tt)))

  pub clip_path_lem :
      (i : ℕ) → clip_path host.env pid i ≡ host.settings.persona_dir ++ idle_clip_parts host pid i
  clip_path_lem i =
      let d = host.env.persona_dir in
      let u : List Text = str_uuid pid ∷ [] in
      let n : List Text = (decimal i ++ codes ".mp4") ∷ [] in
      append_assoc (d ++ u) (codes "idle" ∷ []) n
      ∙ append_assoc d u (codes "idle" ∷ n)
      ∙ ap (λ (p : FilePath). p ++ idle_clip_parts host pid i) plain.same_dir

  resolved :
      (i : ℕ)
      → i < 2
      → safe_resolve host.readlink host.fuel host.settings.persona_dir (idle_clip_parts host pid i)
        ≡ ok (clip_path host.env pid i)
  resolved i l =
      safe_resolve_names host.readlink plain.no_links host.fuel host.settings.persona_dir
        (idle_clip_parts host pid i) plain.names (parts-IsName i l) plain.steps
      ∙ sym (ap ok (clip_path_lem i))

  pub get_idle_clip_run :
      (i : ℕ) (range_header : Option Text) (app : App) (r : PersonaRecord)
      → i < 2
      → Dict.lookup pid app.db.personas ≡ some r
      → get_idle_clip host pid (pos i) range_header app
        ≡ (stream_file (get_file app.fs (clip_path host.env pid i)) range_header, app)
  unfolding get_idle_clip get_persona
  get_idle_clip_run i range_header app r l e =
      rw (is_clip i l, plain.in_memory, e)
        (ap (λ (p : Result FilePath). send p range_header app) (resolved i l))

  clip_file :
      (fs : Fs) → HasClips host.env pid fs → (i : ℕ) → i < 2 → HasFile (clip_path host.env pid i) fs
  clip_file fs h zero l = h.0
  clip_file fs h (suc zero) l = h.1
  clip_file fs h (suc (suc i)) l = absurd (omega arith)

  -- On a host without symbolic links, with a persona directory of plain names that the pipeline works
  -- in as well, fuel for a path below it and the tables in memory: if the persona is in the tables, the
  -- temporary files of the pipeline lie outside the directory of the persona and no directory has the
  -- path of a clip, then after a run that ends at ready both clips are served: a request for one, with
  -- any Range header, is answered with the content of its file.
  pub process_persona-IsServed :
      (w : World) (app : App) (i : ℕ) (range_header : Option Text)
      → ((j : ℕ) → starts_with (host.env.temp_path j) (root host.env pid) ≡ false)
      → NoDirs host.env pid w.fs
      → IsPresent pid w.db
      → step_of (get (process_persona host.env pid w).1.progress pid) ≡ some ready
      → i < 2
      → app.fs ≡ (process_persona host.env pid w).1.fs
      → app.db ≡ (process_persona host.env pid w).1.db
      → (f : File) × (get_file app.fs (clip_path host.env pid i) ≡ some f)
        × ((get_idle_clip host pid (pos i) range_header app).0
            ≡ stream_response f.content range_header)
  process_persona-IsServed w app i range_header apart no_dirs present is_ready l same_fs same_db =
      let (f, ef) = some_of_is_some (get_file app.fs (clip_path host.env pid i)) (
        clip_file app.fs
          (subst (HasClips host.env pid) (sym same_fs)
            (process_persona-HasClips host.env pid w apart no_dirs is_ready))
          i l) in
      let (r, er) = some_of_is_some (Dict.lookup pid app.db.personas) (
        subst (IsPresent pid) (sym same_db)
          (process_persona-IsPresent host.env pid w plain.in_memory present)) in
      (
        f,
        ef,
        ap (λ (m : Result Streaming × App). m.0) (get_idle_clip_run i range_header app r l er)
            ∙ ap (λ (o : Option File). stream_file o range_header) ef,
      )
