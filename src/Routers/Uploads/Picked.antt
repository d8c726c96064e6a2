-- ===== src/Routers/Uploads/Picked.antt =====
-- The file of an upload, and the file that the pipeline picks.
use mathlib.Core.Path.{subst}
use mathlib.Core.List.Memᴰ
use mathlib.Core.List.{Memᴰ, append_assoc}
use yeoun_ai.Base.{
  ℕ, ◌+◌, ◌<◌, ◌≡◌, refl, sym, ap, ◌∙◌, Bool, true, false, inl, inr, Option, some, List, [], ◌∷◌,
  ◌++◌, arith, ◌==◌, list_eq, nat_eq, length, length-append, is_some, if◌then◌else◌, All, All-mono,
  Bool-cases, eq_of_beq, eq_refl,
}
use yeoun_ai.Base.Text.{Text}
use yeoun_ai.Base.Uuid.{Uuid, str_uuid}
use yeoun_ai.Base.Dict
use yeoun_ai.Base.Exec.{ok}
use yeoun_ai.Fs.{
  FilePath, Bytes, Node, file, File, Fs, files_in, exists, mkdir, parent, append_name, name,
}
use yeoun_ai.Fs.Nodes.{files_in-member, parent-append}
use yeoun_ai.Fs.Listing.{Stands, files_in-Stands, mkdir-file, mkdir-exists}
use yeoun_ai.Storage.Resolve.{IsName, safe_resolve, safe_resolve_names}
use yeoun_ai.Storage.Removal.{IsName-str_uuid}
use yeoun_ai.Creation.{root, pick_file}
use yeoun_ai.Creation.Newest.{IsOlder, newest_lem, pick_file_lem}
use yeoun_ai.Routers.{Host}
use yeoun_ai.Routers.Media.Ready.{IsPlain}
use yeoun_ai.Routers.Uploads.{Upload, file_name, tmp_path, save_upload}
use yeoun_ai.Routers.Uploads.Names.{IsName-file_name}
use yeoun_ai.Routers.Uploads.Written.{
  stored, written, lookup-written, written-NodupKeys, save_upload-written,
}

append_name-append : (d : FilePath) (t s : Text) → append_name (d ++ t ∷ []) s ≡ d ++ (t ++ s) ∷ []
unfolding append_name
append_name-append [] t s = refl
append_name-append (c ∷ []) t s = refl
append_name-append (c ∷ e ∷ d) t s = ap (λ p. c ∷ p) (append_name-append (e ∷ d) t s)

mkdir-exists_in :
    (d : FilePath) (t : Text) (fs : Fs) → exists (mkdir (d ++ t ∷ []) fs) (d ++ t ∷ []) ≡ true
mkdir-exists_in [] t fs = mkdir-exists t [] fs
mkdir-exists_in (c ∷ d) t fs = mkdir-exists c (d ++ t ∷ []) fs

all_at : {A : Type 0} (P : A → Type 0) (x : A) (xs : List A) → All P xs → Memᴰ x xs → P x
all_at P x [] h m = absurd (Memᴰ.not-nil m)
all_at P x (y ∷ ys) h (Memᴰ.head e) = subst P (sym e) h.0
all_at P x (y ∷ ys) h (Memᴰ.tail m) = all_at P x ys h.1 m

then_of : (c : Bool) (x y z : Option Node) → c ≡ true → (if c then x else y) ≡ z → x ≡ z
then_of true x y z h e = e
then_of false x y z h e = cc

else_of : (c : Bool) (x y z : Option Node) → c ≡ false → (if c then x else y) ≡ z → y ≡ z
else_of true x y z h e = cc
else_of false x y z h e = e

ne_of_longer : (p q : FilePath) → length p < length q → (p == q) ≡ false
ne_of_longer p q h = elim (Bool-cases (p == q)) [
  | inr other ↦ other
  | inl same ↦ absurd (omega (arith, ap (length {0}) (eq_of_beq p q same)))
]

last_eq : (d : FilePath) (s t : Text) → d ++ s ∷ [] ≡ d ++ t ∷ [] → s ≡ t
last_eq [] s t e = cc
last_eq (c ∷ d) s t e = last_eq d s t cc

module _ (host : Host) (pid : Uuid) (subdir : Text) where
  -- The directory of the uploads, as the pipeline names it.
  abbrev pub upload_dir : FilePath
  upload_dir = root host.env pid ++ (subdir ∷ [])

  resolved :
      (t : Text)
      → IsPlain host
      → IsName subdir
      → IsName t
      → safe_resolve host.readlink host.fuel host.settings.persona_dir
          (str_uuid pid ∷ subdir ∷ t ∷ [])
        ≡ ok (upload_dir ++ t ∷ [])
  resolved t plain sub name =
      let d = host.env.persona_dir in
      let u : List Text = str_uuid pid ∷ [] in
      let parts : List Text = str_uuid pid ∷ subdir ∷ t ∷ [] in
      safe_resolve_names host.readlink plain.no_links host.fuel host.settings.persona_dir parts
        plain.names (IsName-str_uuid pid, (sub, (name, tt))) plain.steps
      ∙ sym (
          ap ok (
            append_assoc (d ++ u) (subdir ∷ []) (t ∷ [])
            ∙ append_assoc d u (subdir ∷ t ∷ [])
            ∙ ap (λ (p : FilePath). p ++ parts) plain.same_dir))

  module _ (t : Text) (b : Bytes) (fs : Fs) where
    abbrev upload_path : FilePath
    upload_path = upload_dir ++ t ∷ []

    length-tmp : length (tmp_path host upload_path) ≡ length upload_dir + 1
    length-tmp = ap (length {0}) (append_name-append upload_dir t _) ∙ length-append upload_dir _

    -- The files that are there after an upload: the new one, and the old ones.
    IsOlder-written :
        ((n : Text) (g : File)
          → Dict.lookup (upload_dir ++ n ∷ []) fs ≡ some (file g)
          → g.mtime < host.env.now)
        → (x : Text × File) → Stands upload_dir (written host upload_path b fs) x
        → IsOlder (t, stored host b) x
    IsOlder-written older (n, g) h =
        let q : FilePath = upload_dir ++ n ∷ [] in
        let tmp = tmp_path host upload_path in
        let at = sym (lookup-written host upload_path q b fs) ∙ h in
        elim (Bool-cases (q == upload_path)) [
          | inl same ↦
              let e = then_of (q == upload_path) _ _ _ same at in
              let name = last_eq upload_dir n t (eq_of_beq q upload_path same) in inl cc
          | inr other ↦
              let rest = else_of (q == upload_path) _ _ _ other at in
              elim (Bool-cases (q == tmp)) [
                | inl temporary ↦ let clash = then_of (q == tmp) _ _ _ temporary rest in cc
                | inr old ↦ inr (
                    older n g
                      (mkdir-file (parent upload_path) q fs g (else_of (q == tmp) _ _ _ old rest)))
              ]
        ]

    exists-upload_dir : exists (written host upload_path b fs) upload_dir ≡ true
    exists-upload_dir =
        let l = length-append upload_dir (t ∷ []) in
        let tmp = tmp_path host upload_path in
        let other = ne_of_longer upload_dir upload_path (omega (arith, l)) in
        let other_tmp = ne_of_longer upload_dir tmp (omega (arith, length-tmp)) in
        let at =
          lookup-written host upload_path upload_dir b fs
          ∙ sym (else_of (upload_dir == upload_path) _ _ _ other refl)
          ∙ sym (else_of (upload_dir == tmp) _ _ _ other_tmp refl) in
        ap is_some at
        ∙ ap (λ p. exists (mkdir p fs) upload_dir) (parent-append upload_dir t)
        ∙ mkdir-exists_in (root host.env pid) subdir fs

    pick_file-written :
        Dict.NodupKeys fs
        → ((n : Text) (g : File)
            → Dict.lookup (upload_dir ++ n ∷ []) fs ≡ some (file g)
            → g.mtime < host.env.now)
        → pick_file upload_dir (written host upload_path b fs) ≡ ok upload_path
    pick_file-written u older =
        let fs' = written host upload_path b fs in
        let x : Text × File = (t, stored host b) in
        let files = files_in upload_dir fs' in
        let all =
          All-mono (Stands upload_dir fs') (IsOlder x) (IsOlder-written older) files
            (files_in-Stands upload_dir fs' (written-NodupKeys host upload_path b fs u)) in
        let here =
          lookup-written host upload_path upload_path b fs
          ∙ sym (then_of (upload_path == upload_path) _ _ _ (eq_refl upload_path) refl) in
        pick_file_lem upload_dir fs' x exists-upload_dir
          (newest_lem x files all (files_in-member upload_dir t (stored host b) fs' here))

-- On a host without symbolic links, with a persona directory of plain names that the pipeline works in
-- as well: when `_save_upload` returns and all files that were in the directory of the uploads are
-- older, the pipeline picks the uploaded file, whatever its name.
pub save_upload-Picked :
    (host : Host) (pid : Uuid) (upload : Upload) (subdir : Text) (allowed : List Text)
    (prefixes : List Bytes) (fs : Fs) (target : FilePath) (n : ℕ)
    → IsPlain host
    → IsName subdir
    → Dict.NodupKeys fs
    → All (λ (x : Text × File). x.1.mtime < host.env.now) (files_in (upload_dir host pid subdir) fs)
    → (save_upload host pid upload subdir allowed prefixes fs).0 ≡ ok (target, n)
    → pick_file
        (upload_dir host pid subdir)
        (save_upload host pid upload subdir allowed prefixes fs).1
      ≡ ok target
save_upload-Picked host pid upload subdir allowed prefixes fs target n plain sub u older h =
    let d = upload_dir host pid subdir in
    let t = file_name (host.env.fresh 0) upload.filename in
    let (same, (b, after)) =
      save_upload-written host pid upload subdir allowed prefixes fs (d ++ t ∷ []) target n
        (resolved host pid subdir t plain sub (IsName-file_name (host.env.fresh 0) upload.filename))
        h in
    ap (pick_file d) after
    ∙ pick_file-written host pid subdir t b fs u (λ m g e.
      all_at (λ (x : Text × File). x.1.mtime < host.env.now) (m, g) (files_in d fs) older
        (files_in-member d m g fs e))
    ∙ ap ok (sym same)
