-- ===== src/Storage/Resolve.antt =====
-- `safe_resolve` and `safe_rmtree` of app/storage/filesystem.py, with the `pathlib` operations that
-- they use. The operating system's symbolic links are the parameter `readlink`.
use mathlib.Core.List.{append_assoc, append-nil}
use yeoun_ai.Base.{
  ℕ, zero, suc, ◌+◌, ◌≤◌, ◌≡◌, sym, ap, ◌∙◌, Bool, true, false, not, ◌&&◌, ◌||◌, Option, none, some,
  List, [], ◌∷◌, ◌++◌, arith, if◌then◌else◌, ◌==◌, nat_eq, list_eq, All, All-append, length,
  length-append,
}
use yeoun_ai.Base.Text.{Text, codes, is_empty, starts_with, starts_with-append}
use yeoun_ai.Base.Exec.{
  Result, ok, raise, permission_error, os_error, Exec, pure, throw, gets, modify, lift, ◌>>=◌, ◌>>◌,
}
use yeoun_ai.Base.Uuid.{NotSlash}
use yeoun_ai.Fs.{FilePath, Fs, parent, exists, rmtree, rmtree_part}

-- A path as `pathlib` reads it: parts with no `/`, no empty ones and no `.`.
pub record PurePath : Type 0 where
  pub absolute : Bool
  pub parts : List Text

cons_head : ℕ → List Text → List Text
cons_head c [] = (c ∷ []) ∷ []
cons_head c (t ∷ ts) = (c ∷ t) ∷ ts

-- `s.split("/")`
split_slash : Text → List Text
unfolding cons_head
split_slash [] = [] ∷ []
split_slash (c ∷ s) = let rest = split_slash s in if c == b'/' then [] ∷ rest else cons_head c rest

drop_empty : List Text → List Text
drop_empty [] = []
drop_empty (t ∷ ts) =
    let rest = drop_empty ts in if is_empty t || t == codes "." then rest else t ∷ rest

-- `Path(text)`
unfoldable pub pure_path : Text → PurePath
unfolding split_slash drop_empty
pure_path s = record { absolute = starts_with s (codes "/"); parts = drop_empty (split_slash s) }

-- `root.joinpath(*parts)`: an absolute part starts again from `/`.
unfoldable pub joinpath : FilePath → List Text → FilePath
unfolding pure_path
joinpath base [] = base
joinpath base (t ∷ ts) =
    let p = pure_path t in joinpath (if p.absolute then p.parts else base ++ p.parts) ts

module _ (readlink : FilePath → Option PurePath) where
  -- `p.resolve()`, from a resolved part on: `..` goes up, and a link is followed. `none` after as
  -- many steps as the fuel allows: a loop of links.
  resolve_loop : ℕ → FilePath → List Text → Option FilePath
  resolve_loop fuel done [] = some done
  resolve_loop zero done (c ∷ rest) = none
  resolve_loop (suc fuel) done (c ∷ rest) = elim (c == codes "..") [
    | true ↦ resolve_loop fuel (parent done) rest
    | false ↦ elim (readlink (done ++ c ∷ [])) [
      | none ↦ resolve_loop fuel (done ++ c ∷ []) rest
      | some target ↦
          resolve_loop fuel (if target.absolute then [] else done) (target.parts ++ rest)
    ]
  ]

  abbrev pub check_under : FilePath → FilePath → Result FilePath
  check_under root candidate =
      if not (root == candidate) && not (starts_with candidate root)
      then raise (permission_error [])
      else ok candidate

  -- `Path(root).resolve()`
  unfoldable pub resolve : ℕ → FilePath → Option FilePath
  unfolding resolve_loop
  resolve fuel p = resolve_loop fuel [] p

  -- `root_resolved in candidate.parents` says that the root is a prefix.
  unfoldable pub safe_resolve : ℕ → FilePath → List Text → Result FilePath
  safe_resolve fuel root parts = elim (resolve fuel root) [
    | none ↦ raise (os_error [])
    | some root_resolved ↦ elim (resolve fuel (joinpath root_resolved parts)) [
      | none ↦ raise (os_error [])
      | some candidate ↦ check_under root_resolved candidate
    ]
  ]

  -- `safe_rmtree`: whether something was deleted. `rmtree_ok` says whether `shutil.rmtree`
  -- succeeds; a failure is the `OSError` that it raises, with the nodes gone that it has removed by
  -- then.
  unfoldable pub safe_rmtree : ℕ → Bool → (FilePath → Bool) → FilePath → List Text → Exec Fs Bool
  safe_rmtree fuel rmtree_ok removable root parts = do
    target ← lift (safe_resolve fuel root parts)
    found ← gets (λ fs. exists fs target)
    if not found
        then pure false
        else if rmtree_ok
        then (do modify (rmtree target); pure true)
        else (do modify (rmtree_part target removable); throw (os_error []))

-- A name that `pathlib` takes as one plain component.
pub record IsName (t : Text) : Type 0 where
  pub no_slash : All NotSlash t
  pub nonempty : is_empty t ≡ false
  pub not_dot : (t == codes ".") ≡ false
  pub not_dots : (t == codes "..") ≡ false

split_slash_name : (c : ℕ) (t : Text) → All NotSlash (c ∷ t) → split_slash (c ∷ t) ≡ (c ∷ t) ∷ []
unfolding split_slash
split_slash_name c [] h = ground arith
split_slash_name c (d ∷ t) h = ground (arith, split_slash_name d t)

pub pure_path_name :
    (t : Text) → IsName t → pure_path t ≡ record { absolute = false; parts = t ∷ [] }
unfolding pure_path starts_with
pure_path_name [] h = cc (h.nonempty)
pure_path_name (c ∷ t) h = ground (arith, split_slash_name c t h.no_slash)

pub joinpath_names :
    (ts : List Text) (base : FilePath) → All IsName ts → joinpath base ts ≡ base ++ ts
unfolding joinpath
joinpath_names [] base h = sym (append-nil base)
joinpath_names (t ∷ ts) base h =
    ap (λ p. joinpath (if p.absolute then p.parts else base ++ p.parts) ts) (pure_path_name t h.0)
    ∙ joinpath_names ts (base ++ t ∷ []) h.1
    ∙ append_assoc base (t ∷ []) ts

module _ (readlink : FilePath → Option PurePath)
    (no_links : (p : FilePath) → readlink p ≡ none) where
  resolve_loop_names :
      (fuel : ℕ) (done ts : FilePath)
      → All IsName ts
      → length ts ≤ fuel
      → resolve_loop readlink fuel done ts ≡ some (done ++ ts)
  unfolding resolve_loop
  resolve_loop_names fuel done [] names h = rw append-nil
  resolve_loop_names zero done (c ∷ ts) names h = absurd (omega arith)
  resolve_loop_names (suc fuel) done (c ∷ ts) names h =
      rw (names.0.not_dots, no_links (done ++ c ∷ []), resolve_loop)
        (resolve_loop_names fuel (done ++ c ∷ []) ts names.1 (omega arith)
          ∙ ap some (append_assoc done (c ∷ []) ts))

  -- With no symbolic links, names that are plain components resolve to themselves below the root.
  pub safe_resolve_names :
      (fuel : ℕ) (root ts : FilePath)
      → All IsName root
      → All IsName ts
      → length root + length ts ≤ fuel
      → safe_resolve readlink fuel root ts ≡ ok (root ++ ts)
  unfolding safe_resolve resolve
  safe_resolve_names fuel root ts hr ht h = ground (
    arith,
    resolve_loop_names fuel [] root hr,
    joinpath_names ts root ht,
    resolve_loop_names fuel [] (root ++ ts) (All-append IsName root ts hr ht),
    length-append root ts,
    starts_with-append root ts,
  )
