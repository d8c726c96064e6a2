-- ===== src/Routers/Uploads/Saved.antt =====
-- What `_save_upload` leaves.
use mathlib.Core.Path.{subst, sym}
use yeoun_ai.Base.{ℕ, ◌≡◌, refl, ap, ◌∙◌, some, List, [], ◌∷◌, arith, length, list_eq, nat_eq}
use yeoun_ai.Base.Text.{Text}
use yeoun_ai.Base.Exec.{
  Result, ok, raise, cancelled_error, Exec, modify, ◌>>◌, lift, ◌>>=◌, >>-eq-ok, >>-pure-ok,
}
use yeoun_ai.Fs.{
  FilePath, Bytes, Fs, File, Disk, file, get_file, write_bytes, replace, mkdir, parent,
  lookup-replace,
}
use yeoun_ai.Base.Dict
use yeoun_ai.Routers.{Host}
use yeoun_ai.Base.Uuid.{Uuid, str_uuid}
use yeoun_ai.Storage.Resolve.{safe_resolve}
use yeoun_ai.Routers.Uploads.{
  Upload, read_upload, tmp_path, write_atomic, tidy, save_upload, guarded, file_name,
}
use yeoun_ai.Routers.Uploads.Reading.{Accepted, read_upload-Accepted}

pub tidy-ok :
    (tmp : FilePath) (m : Result (Unit {0}) × Fs)
    → (tidy tmp m).0 ≡ ok tt
    → (m.0 ≡ ok tt) × ((tidy tmp m).1 ≡ m.1)
tidy-ok tmp (ok tt, fs) h = (refl, refl)
tidy-ok tmp (raise cancelled_error, fs) h = cc
tidy-ok tmp (raise _, fs) h = cc

write_bytes-stored :
    (disk : Disk) (now : ℕ) (p : FilePath) (content : Bytes) (fs : Fs)
    → (write_bytes disk now p content fs).0 ≡ ok tt
    → Dict.lookup p (write_bytes disk now p content fs).1
      ≡ some (file (record { content = content; mtime = now }))
unfolding write_bytes
write_bytes-stored disk now p content fs h =
    ground (arith, Dict.lookup-insert p p (file (record { content = content; mtime = now })) fs)

replace-stored :
    (src dst : FilePath) (fs : Fs) (f : File)
    → Dict.lookup src fs ≡ some (file f)
    → get_file (replace src dst fs) dst ≡ some f
replace-stored src dst fs f h = ground (arith, lookup-replace src dst dst fs (file f))

module _ (host : Host) where
  write_atomic-stored :
      (target : FilePath) (content : Bytes) (fs : Fs)
      → (write_atomic host target content fs).0 ≡ ok tt
      → get_file (write_atomic host target content fs).1 target
        ≡ some (record { content = content; mtime = host.env.now })
  unfolding write_atomic
  write_atomic-stored target content fs h =
      let tmp = tmp_path host target in
      let m : Exec Fs (Unit {0}) = write_bytes host.env.disk host.env.now tmp content in
      let n : Exec Fs (Unit {0}) = modify (replace tmp target) in
      let fs' = mkdir (parent target) fs in
      let t = tidy-ok tmp ((m >> n) fs') h in
      let e = >>-eq-ok m n fs' t.0 in
      subst
        (λ (r : Fs). get_file r target ≡ some (record { content = content; mtime = host.env.now }))
        (sym (t.1 ∙ ap (λ r. r.1) e.1))
        (replace-stored tmp target (m fs').1 _
          (write_bytes-stored host.env.disk host.env.now tmp content fs' e.0))

  -- An upload that is answered with its path and size: what was accepted stands at the path.
  pub record Saved (allowed : List Text) (prefixes : List Bytes) (upload : Upload)
      (target : FilePath) (size : ℕ) (fs : Fs) : Type 0 where
    pub accepted : Accepted allowed prefixes host.settings.max_upload_bytes upload upload.content
    pub counted : size ≡ length upload.content
    pub stored :
        get_file fs target ≡ some (record { content = upload.content; mtime = host.env.now })

  abbrev ending : FilePath → Bytes → Exec Fs (FilePath × ℕ)
  ending t b = write_atomic host t b >>= (λ _ s. (ok (t, length b), s))

  moved :
      {t t' : FilePath} {b b' : Bytes} {fs fs' : Fs}
      → t ≡ t'
      → b ≡ b'
      → fs' ≡ fs
      → get_file fs t ≡ some (record { content = b; mtime = host.env.now })
      → get_file fs' t' ≡ some (record { content = b'; mtime = host.env.now })
  moved et eb ef h = cc

  saved :
      (allowed : List Text) (prefixes : List Bytes) (upload : Upload) (t target : FilePath)
      (b : Bytes) (n : ℕ) (fs : Fs)
      → Accepted allowed prefixes host.settings.max_upload_bytes upload b
      → (ending t b fs).0 ≡ ok (target, n)
      → Saved allowed prefixes upload target n (ending t b fs).1
  saved allowed prefixes upload t target b n fs a h =
      let w = >>-pure-ok (write_atomic host t b) fs (t, length b) (target, n) h in
      let here = write_atomic-stored t b fs w.0 in
      record {
        accepted = subst (Accepted allowed prefixes host.settings.max_upload_bytes upload) a.all a;
        counted = sym (ap (λ p. p.1) w.1) ∙ ap length a.all;
        stored = moved (ap (λ p. p.0) w.1) a.all w.2 here;
      }

  -- An upload that `_save_upload` returns has an allowed type, is within the limit and looks like
  -- one of the formats, unless it is shorter than 4 bytes; it stands whole at the path that is
  -- returned, and its size is returned.
  pub save_upload-Saved :
      (pid : Uuid) (upload : Upload) (subdir : Text) (allowed : List Text) (prefixes : List Bytes)
      (fs : Fs) (target : FilePath) (n : ℕ)
      → (save_upload host pid upload subdir allowed prefixes fs).0 ≡ ok (target, n)
      → Saved allowed prefixes upload target n
          (save_upload host pid upload subdir allowed prefixes fs).1
  unfolding save_upload
  save_upload-Saved pid upload subdir allowed prefixes fs target n =
      go (read_upload allowed prefixes host.settings.max_upload_bytes upload) refl (
        guarded (
          safe_resolve host.readlink host.fuel host.settings.persona_dir
            (str_uuid pid ∷ subdir ∷ file_name (host.env.fresh 0) upload.filename ∷ [])))
    where
      whole : Result Bytes → Result FilePath → Exec Fs (FilePath × ℕ)
      whole r1 r2 = lift r1 >>= (λ b. lift r2 >>= (λ t. ending t b))

      go :
          (r1 : Result Bytes)
          → read_upload allowed prefixes host.settings.max_upload_bytes upload ≡ r1
          → (r2 : Result FilePath) → (whole r1 r2 fs).0 ≡ ok (target, n)
          → Saved allowed prefixes upload target n (whole r1 r2 fs).1
      go (ok b) e (ok t) h =
          saved allowed prefixes upload t target b n fs
            (read_upload-Accepted allowed prefixes _ upload b e) h
      go (ok b) e (raise x) h = cc
      go (raise x) e r2 h = cc
