-- ===== src/Routers/Uploads/Written.antt =====
-- What `_save_upload` leaves at each path.
use yeoun_ai.Base.{
  ℕ, ◌≡◌, sym, ap, ◌∙◌, none, some, List, [], ◌∷◌, arith, ◌==◌, list_eq, nat_eq, length, inl, inr,
  Option-cases, if◌then◌else◌,
}
use yeoun_ai.Base.Text.{Text}
use yeoun_ai.Base.Uuid.{Uuid, str_uuid}
use yeoun_ai.Base.Dict
use yeoun_ai.Base.Exec.{Result, ok, raise, Exec, lift, modify, ◌>>=◌, ◌>>◌, >>-eq-ok, >>-pure-ok}
use yeoun_ai.Fs.{
  FilePath, Bytes, file, File, Fs, Disk, mkdir, parent, write, write_bytes, replace, lookup-replace,
}
use yeoun_ai.Fs.Listing.{mkdir-NodupKeys}
use yeoun_ai.Storage.Resolve.{safe_resolve}
use yeoun_ai.Routers.{Host}
use yeoun_ai.Routers.Uploads.{Upload, read_upload, file_name, tmp_path, write_atomic, save_upload}
use yeoun_ai.Routers.Uploads.Saved.{tidy-ok}

write_bytes-run :
    (disk : Disk) (now : ℕ) (p : FilePath) (content : Bytes) (fs : Fs)
    → (write_bytes disk now p content fs).0 ≡ ok tt
    → (write_bytes disk now p content fs).1 ≡ write p content now fs
unfolding write_bytes
write_bytes-run disk now p content fs h = ground arith

replace-NodupKeys :
    (src dst : FilePath) (fs : Fs) → Dict.NodupKeys fs → Dict.NodupKeys (replace src dst fs)
unfolding replace
replace-NodupKeys src dst fs u = elim (Option-cases (Dict.lookup src fs)) [
  | inl e ↦ rw (replace, e) u
  | inr (n, e) ↦
      rw (replace, e)
        (Dict.insert-NodupKeys dst n (Dict.erase src fs) (Dict.erase-NodupKeys src fs u))
]

module _ (host : Host) where
  abbrev pub stored : Bytes → File
  stored content = record { content = content; mtime = host.env.now }

  -- The files after both writes.
  abbrev pub written : FilePath → Bytes → Fs → Fs
  written target content fs =
      replace (tmp_path host target) target
        (write (tmp_path host target) content host.env.now (mkdir (parent target) fs))

  write_atomic-run :
      (target : FilePath) (content : Bytes) (fs : Fs)
      → (write_atomic host target content fs).0 ≡ ok tt
      → (write_atomic host target content fs).1 ≡ written target content fs
  unfolding write_atomic
  write_atomic-run target content fs h =
      let tmp = tmp_path host target in
      let m : Exec Fs (Unit {0}) = write_bytes host.env.disk host.env.now tmp content in
      let n : Exec Fs (Unit {0}) = modify (replace tmp target) in
      let fs' = mkdir (parent target) fs in
      let t = tidy-ok tmp ((m >> n) fs') h in
      let e = >>-eq-ok m n fs' t.0 in
      t.1
      ∙ ap (λ r. r.1) e.1
      ∙ ap (replace tmp target) (write_bytes-run host.env.disk host.env.now tmp content fs' e.0)

  pub lookup-written :
      (target q : FilePath) (content : Bytes) (fs : Fs)
      → Dict.lookup q (written target content fs) ≡ (
          if q == target
          then some (file (stored content))
          else if q == tmp_path host target
          then none
          else Dict.lookup q (mkdir (parent target) fs))
  lookup-written target q content fs =
      let tmp = tmp_path host target in
      let fs' = mkdir (parent target) fs in
      let n = file (stored content) in
      let here : Dict.lookup tmp (write tmp content host.env.now fs') ≡ some n =
        ground (arith, Dict.lookup-insert tmp tmp n fs') in
      ground (
        arith,
        lookup-replace tmp target q (write tmp content host.env.now fs') n here,
        Dict.lookup-insert q tmp n fs',
      )

  pub written-NodupKeys :
      (target : FilePath) (content : Bytes) (fs : Fs)
      → Dict.NodupKeys fs
      → Dict.NodupKeys (written target content fs)
  written-NodupKeys target content fs u =
      let tmp = tmp_path host target in
      let n = file (stored content) in
      let fs' = mkdir (parent target) fs in
      let w = Dict.insert-NodupKeys tmp n fs' (mkdir-NodupKeys (parent target) fs u) in
      replace-NodupKeys tmp target (Dict.insert tmp n fs') w

  -- A call that returns has written the buffer at the resolved path.
  pub save_upload-written :
      (pid : Uuid) (upload : Upload) (subdir : Text) (allowed : List Text) (prefixes : List Bytes)
      (fs : Fs) (t target : FilePath) (n : ℕ)
      → safe_resolve host.readlink host.fuel host.settings.persona_dir
          (str_uuid pid ∷ subdir ∷ file_name (host.env.fresh 0) upload.filename ∷ [])
        ≡ ok t
      → (save_upload host pid upload subdir allowed prefixes fs).0 ≡ ok (target, n)
      → (target ≡ t)
        × ((b : Bytes) × ((save_upload host pid upload subdir allowed prefixes fs).1
              ≡ written t b fs))
  unfolding save_upload
  save_upload-written pid upload subdir allowed prefixes fs t target n resolved =
      rw resolved (go (read_upload allowed prefixes host.settings.max_upload_bytes upload))
    where
      whole : Result Bytes → Exec Fs (FilePath × ℕ)
      whole r = lift r >>= (λ b. write_atomic host t b >>= (λ _ s. (ok (t, length b), s)))

      go :
          (r : Result Bytes)
          → (whole r fs).0 ≡ ok (target, n)
          → (target ≡ t) × ((b : Bytes) × ((whole r fs).1 ≡ written t b fs))
      go (ok b) h =
          let w = >>-pure-ok (write_atomic host t b) fs (t, length b) (target, n) h in
          (sym (ap (λ p. p.0) w.1), (b, w.2 ∙ write_atomic-run t b fs w.0))
      go (raise x) h = cc
