-- ===== src/Routers/Personas/Deletion.antt =====
-- What the deletion of a persona takes away.
use mathlib.Core.Path.{subst, sym}
use yeoun_ai.Base.{
  ◌+◌, ◌≤◌, ◌≡◌, refl, ap, Bool, true, false, ◌&&◌, Option, none, some, [], ◌∷◌, ◌++◌,
  if◌then◌else◌, Bool-cases, ◌⊎◌, inl, inr, arith, All, length, list_eq, nat_eq,
}
use yeoun_ai.Base.Text.{starts_with}
use yeoun_ai.Base.Uuid.{Uuid, str_uuid}
use yeoun_ai.Base.Dict
use yeoun_ai.Base.Exec.{os_error, Result, ok, raise, >>=-ok}
use yeoun_ai.Fs.{FilePath, Fs, exists, rmtree, rmtree_part, lookup-rmtree, lookup-rmtree_part}
use yeoun_ai.Storage.Resolve.{IsName, safe_resolve, safe_rmtree, safe_resolve_names}
use yeoun_ai.Storage.Removal.{IsName-str_uuid}
use yeoun_ai.Db.{PersonaRecord}
use yeoun_ai.Db.Repository.{mock, get_persona, delete_persona_tx}
use yeoun_ai.Db.Deletion.{IsDeleted, delete_persona_tx-mock}
use yeoun_ai.Routers.{App, Host}
use yeoun_ai.Routers.Personas.{find, is_processing, after_files, delete_found, delete_persona}

module _ (host : Host) (pid : Uuid) (app : App) where
  abbrev pub directory : FilePath
  directory = host.settings.persona_dir ++ (str_uuid pid ∷ [])

  -- A deletion that returns has taken the persona out of the tables and its directory with all that
  -- was below it; one that raises has changed no table, and at most removed a part of the directory.
  abbrev pub Deletes : Result (Unit {0}) × App → Type 0
  Deletes (ok _, after) =
      IsDeleted pid app.db after.db
      × ((q : FilePath)
          → Dict.lookup q after.fs ≡ (
              if exists app.fs directory && starts_with q directory
              then none
              else Dict.lookup q app.fs))
  Deletes (raise e, after) =
      (after.db ≡ app.db)
      × ((q : FilePath)
          → (Dict.lookup q after.fs ≡ Dict.lookup q app.fs)
            ⊎ ((Dict.lookup q after.fs ≡ none) × (starts_with q directory ≡ true)))

  -- The three ends of `safe_rmtree` on the directory.
  data Removed : Result Bool × Fs → Type 0 where
    gone : exists app.fs directory ≡ true → Removed (ok true, rmtree directory app.fs)
    absent : exists app.fs directory ≡ false → Removed (ok false, app.fs)
    stuck : Removed (raise (os_error []), rmtree_part directory host.removable app.fs)

  module _ (in_memory : host.env.backend ≡ mock)
      (no_links : (p : FilePath) → host.readlink p ≡ none)
      (names : All IsName host.settings.persona_dir)
      (enough : length host.settings.persona_dir + 1 ≤ host.fuel) where
    removed : Result Bool × Fs
    removed =
        safe_rmtree host.readlink host.fuel host.rmtree_ok host.removable host.settings.persona_dir
          (str_uuid pid ∷ []) app.fs

    resolved :
        safe_resolve host.readlink host.fuel host.settings.persona_dir (str_uuid pid ∷ [])
        ≡ ok directory
    resolved =
        safe_resolve_names host.readlink no_links host.fuel host.settings.persona_dir
          (str_uuid pid ∷ []) names (IsName-str_uuid pid, tt) enough

    removed-Removed : Removed removed
    unfolding removed safe_rmtree
    removed-Removed = elim (Bool-cases (exists app.fs directory)) [
      | inr out ↦ rw (safe_rmtree, resolved, out) (absent out)
      | inl there ↦ elim (Bool-cases host.rmtree_ok) [
        | inl fine ↦ rw (safe_rmtree, resolved, there, fine) (gone there)
        | inr wrong ↦ rw (safe_rmtree, resolved, there, wrong) stuck
      ]
    ]

    after_part :
        (q : FilePath)
        → (Dict.lookup q (rmtree_part directory host.removable app.fs) ≡ Dict.lookup q app.fs)
          ⊎ ((Dict.lookup q (rmtree_part directory host.removable app.fs) ≡ none)
              × (starts_with q directory ≡ true))
    after_part q = ground (arith, lookup-rmtree_part directory q host.removable app.fs)

    after_files-Deletes : (m : Result Bool × Fs) → Removed m → Deletes (after_files host pid app m)
    unfolding after_files delete_persona_tx
    after_files-Deletes _ (gone there) =
        rw in_memory (
          (delete_persona_tx-mock pid app.db).1,
          (λ q. rw there (lookup-rmtree directory q app.fs)),
        )
    after_files-Deletes _ (absent out) =
        rw in_memory ((delete_persona_tx-mock pid app.db).1, (λ q. rw out refl))
    after_files-Deletes _ stuck = (refl, after_part)

    delete_found-Deletes : (o : Option PersonaRecord) → Deletes (delete_found host pid o app)
    unfolding delete_found removed
    delete_found-Deletes none = (refl, λ q. inl refl)
    delete_found-Deletes (some r) = elim (Bool-cases (is_processing r.status)) [
      | inl busy ↦ rw busy (refl, λ q. inl refl)
      | inr free ↦ rw free (after_files-Deletes removed removed-Removed)
    ]

    found : find host pid app ≡ (ok (Dict.lookup pid app.db.personas), app)
    unfolding get_persona
    found =
        ap (λ b. let (r, db) = get_persona b pid app.db in (r, record app { db = db })) in_memory

    -- With the tables in memory, no symbolic links and a persona directory of plain names: a
    -- deletion that returns has taken the persona out of the tables and its directory with all that
    -- was below it, and nothing else; one that raises has changed no table, and no file but that it may
    -- have removed a part of that directory.
    pub delete_persona-Deletes : Deletes (delete_persona host pid app)
    unfolding delete_persona
    delete_persona-Deletes =
        subst Deletes (sym (>>=-ok (find host pid) (delete_found host pid) app found))
          (delete_found-Deletes (Dict.lookup pid app.db.personas))
