-- ===== src/Routers/Uploads/Tests.antt =====
-- An upload beside an older photo.
use yeoun_ai.Base.{◌≡◌, refl, some, [], ◌∷◌, ◌++◌, arith, nat_eq, list_eq}
use yeoun_ai.Base.Text.{codes, starts_with}
use yeoun_ai.Base.Uuid.{str_uuid}
use yeoun_ai.Base.Dict
use yeoun_ai.Base.Exec.{ok}
use yeoun_ai.Fs.{Fs, dir, file, files_in, write_bytes, replace, name, mkdir, parent, append_name}
use yeoun_ai.Storage.Resolve.{IsName, safe_resolve, resolve, joinpath, pure_path}
use yeoun_ai.Creation.{pick_file}
use yeoun_ai.Routers.Small.{host, is_plain}
use yeoun_ai.Routers.Uploads.{
  Upload, photo_content_types, photo_magic_prefixes, save_upload, read_upload, read_loop,
  after_chunk, looks_like, write_atomic,
}
use yeoun_ai.Routers.Uploads.Picked.{upload_dir, save_upload-Picked}

abbrev upload : Upload
upload = record {
  content_type = some (codes "image/png");
  filename = some (codes "../a.png");
  content = codes "RIFF0";
}

abbrev before : Fs
before =
    (upload_dir host 7 (codes "photo"), dir)
    ∷ (
      upload_dir host 7 (codes "photo") ++ codes "b.png" ∷ [],
      file (record { content = []; mtime = 5 }),
    )
    ∷ []

IsName-photo : IsName (codes "photo")
unfolding nat_eq list_eq
IsName-photo = record {
  no_slash = (refl, (refl, (refl, (refl, (refl, tt)))));
  nonempty = refl;
  not_dot = refl;
  not_dots = refl;
}

save_upload-Picked_example :
    pick_file
      (upload_dir host 7 (codes "photo"))
      (save_upload host 7 upload (codes "photo") photo_content_types photo_magic_prefixes before).1
    ≡ ok (upload_dir host 7 (codes "photo") ++ codes "a.png" ∷ [])
unfolding save_upload read_upload read_loop after_chunk looks_like write_atomic write_bytes replace
    safe_resolve resolve joinpath pure_path name starts_with str_uuid nat_eq list_eq mkdir parent
    append_name Dict.lookup Dict.insert Dict.erase files_in
save_upload-Picked_example =
    save_upload-Picked host 7 upload (codes "photo") photo_content_types photo_magic_prefixes before
      (upload_dir host 7 (codes "photo") ++ codes "a.png" ∷ []) 5 is_plain IsName-photo
      (refl, (refl, tt)) (omega arith, tt) refl
