-- ===== src/Db/Deletion.antt =====
-- What `delete_persona_tx` takes away, and that it is all or nothing.
use yeoun_ai.Base.{
  ◌≡◌, refl, sym, ◌⊎◌, inl, inr, ap, ◌∙◌, none, List, [], ◌∷◌, arith, if◌then◌else◌, ◌==◌, nat_eq,
}
use yeoun_ai.Base.Uuid.{Uuid}
use yeoun_ai.Base.Dict
use yeoun_ai.Base.Exec.{Exception, Result, ok, raise, Exec, ◌>>◌, >>-eq-ok}
use yeoun_ai.Db.{PhotoAsset, VoiceAsset, IdleClip, Db}
use yeoun_ai.Db.Repository.{
  Statement, delete_interviews, delete_photo_assets, delete_voice_assets, delete_idle_clips,
  delete_persona, Postgres, mock, postgres, without_persona, effect, delete_persona_tx,
  delete_block,
}

-- The rows of one persona in a table.
abbrev pub rows_of : {A : Type 0} → (A → Uuid) → Uuid → List A → List A
rows_of persona_of pid [] = []
rows_of persona_of pid (row ∷ rows) =
    let rest = rows_of persona_of pid rows in if persona_of row == pid then row ∷ rest else rest

-- Of each persona the tables hold what they held before, and of `pid` nothing; the safety logs stay.
pub record IsDeleted (pid : Uuid) (before after : Db) : Type 0 where
  pub same_logs : after.safety_logs ≡ before.safety_logs
  pub personas :
      (other : Uuid)
      → Dict.lookup other after.personas
        ≡ (if other == pid then none else Dict.lookup other before.personas)
  pub interviews :
      (other : Uuid)
      → Dict.lookup other after.interviews
        ≡ (if other == pid then none else Dict.lookup other before.interviews)
  pub photos :
      (other : Uuid)
      → let of : PhotoAsset → Uuid = λ a. a.persona_id in
        rows_of of other after.photo_assets
        ≡ (if other == pid then [] else rows_of of other before.photo_assets)
  pub voices :
      (other : Uuid)
      → let of : VoiceAsset → Uuid = λ a. a.persona_id in
        rows_of of other after.voice_assets
        ≡ (if other == pid then [] else rows_of of other before.voice_assets)
  pub clips :
      (other : Uuid)
      → let of : IdleClip → Uuid = λ c. c.persona_id in
        rows_of of other after.idle_clips
        ≡ (if other == pid then [] else rows_of of other before.idle_clips)

rows_of-without_persona :
    {A : Type 0} (persona_of : A → Uuid) (pid other : Uuid) (rows : List A)
    → rows_of persona_of other (without_persona persona_of pid rows)
      ≡ (if other == pid then [] else rows_of persona_of other rows)
unfolding without_persona
rows_of-without_persona persona_of pid other [] = ground arith
rows_of-without_persona persona_of pid other (row ∷ rows) =
    ground (arith, rows_of-without_persona persona_of pid other rows)

-- On the mock the deletion returns, no table has a row of the persona, the rows of every other
-- persona are as they were, and so are the safety logs.
pub delete_persona_tx-mock :
    (pid : Uuid) (db : Db)
    → ((delete_persona_tx mock pid db).0 ≡ ok tt)
      × IsDeleted pid db (delete_persona_tx mock pid db).1
unfolding delete_persona_tx
delete_persona_tx-mock pid db = (
  refl,
  record {
    same_logs = refl;
    personas = λ other. Dict.lookup-erase other pid db.personas;
    interviews = λ other. Dict.lookup-erase other pid db.interviews;
    photos = λ other.
        rows_of-without_persona (λ (a : PhotoAsset). a.persona_id) pid other db.photo_assets;
    voices = λ other.
        rows_of-without_persona (λ (a : VoiceAsset). a.persona_id) pid other db.voice_assets;
    clips =
        λ other. rows_of-without_persona (λ (c : IdleClip). c.persona_id) pid other db.idle_clips;
  },
)

-- What the program relies on of PostgreSQL and of a transaction of SQLAlchemy.
pub record IsPostgres (p : Postgres) : Type 0 where
  -- a statement that returns has done what it says
  pub executes :
      (st : Statement) (db : Db) → (p.execute st db).0 ≡ ok tt → (p.execute st db).1 ≡ effect st db
  -- a transaction that returns has run its block to the end, and committed what it did
  pub commits :
      (m : Exec Db (Unit {0})) (db : Db)
      → (p.begin m db).0 ≡ ok tt
      → ((m db).0 ≡ ok tt) × ((p.begin m db).1 ≡ (m db).1)
  -- a transaction that raises has changed nothing
  pub rolls_back :
      (m : Exec Db (Unit {0})) (db : Db) (e : Exception)
      → (p.begin m db).0 ≡ raise e
      → (p.begin m db).1 ≡ db

module _ (p : Postgres) (law : IsPostgres p) where
  execute_then :
      (st : Statement) (n : Exec Db (Unit {0})) (db : Db)
      → ((p.execute st >> n) db).0 ≡ ok tt
      → (p.execute st >> n) db ≡ n (effect st db)
  execute_then st n db h =
      let (done, e) = >>-eq-ok (p.execute st) n db h in e ∙ ap n (law.executes st db done)

  delete_block-effect :
      (pid : Uuid) (db : Db)
      → (delete_block p pid db).0 ≡ ok tt
      → (delete_block p pid db).1 ≡ (delete_persona_tx mock pid db).1
  unfolding delete_persona_tx effect
  delete_block-effect pid db h =
      let voices = p.execute (delete_voice_assets pid) >> clips in
      let photos = p.execute (delete_photo_assets pid) >> voices in
      let db1 = effect (delete_interviews pid) db in
      let db2 = effect (delete_photo_assets pid) db1 in
      let db3 = effect (delete_voice_assets pid) db2 in
      let db4 = effect (delete_idle_clips pid) db3 in
      let e1 = execute_then (delete_interviews pid) photos db h in
      let h1 : (photos db1).0 ≡ ok tt = sym (ap (λ q. q.0) e1) ∙ h in
      let e2 = execute_then (delete_photo_assets pid) voices db1 h1 in
      let h2 : (voices db2).0 ≡ ok tt = sym (ap (λ q. q.0) e2) ∙ h1 in
      let e3 = execute_then (delete_voice_assets pid) clips db2 h2 in
      let h3 : (clips db3).0 ≡ ok tt = sym (ap (λ q. q.0) e3) ∙ h2 in
      let e4 = execute_then (delete_idle_clips pid) (p.execute (delete_persona pid)) db3 h3 in
      let h4 : (p.execute (delete_persona pid) db4).0 ≡ ok tt = sym (ap (λ q. q.0) e4) ∙ h3 in
      ap (λ q. q.1) (e1 ∙ e2 ∙ e3 ∙ e4) ∙ law.executes (delete_persona pid) db4 h4
    where
      clips : Exec Db (Unit {0})
      clips = p.execute (delete_idle_clips pid) >> p.execute (delete_persona pid)

  -- On PostgreSQL the deletion either returns, and the tables are those that the mock would have,
  -- or it raises, and no table has changed.
  pub delete_persona_tx-postgres :
      (pid : Uuid) (db : Db)
      → let (r, after) = delete_persona_tx (postgres p) pid db in
        ((r ≡ ok tt) × (after ≡ (delete_persona_tx mock pid db).1))
        ⊎ ((e : Exception) × (r ≡ raise e) × (after ≡ db))
  unfolding delete_persona_tx
  delete_persona_tx-postgres pid db = go (p.begin (delete_block p pid) db).0 refl
    where
      go :
          (r : Result (Unit {0}))
          → (p.begin (delete_block p pid) db).0 ≡ r
          → (((p.begin (delete_block p pid) db).0 ≡ ok tt)
              × ((p.begin (delete_block p pid) db).1 ≡ (delete_persona_tx mock pid db).1))
            ⊎ ((e : Exception) × ((p.begin (delete_block p pid) db).0 ≡ raise e)
                × ((p.begin (delete_block p pid) db).1 ≡ db))
      go (ok tt) h =
          let (done, e) = law.commits (delete_block p pid) db h in
          inl (h, e ∙ delete_block-effect pid db done)
      go (raise x) h = inr (x, h, law.rolls_back (delete_block p pid) db x h)
