-- ===== src/Fs.antt =====
-- The file system as the program sees it through `pathlib`, `os` and `shutil`: absolute paths by
-- their components, directories and regular files with contents and modification times.
pub mod Nodes
pub mod Listing
use yeoun_ai.Base.{
  ◌&&◌, ap, Bool-cases, inl, inr, eq_of_beq, ℕ, ◌≡◌, Bool, Option, none, some, List, [], ◌∷◌, ◌++◌,
  arith, if◌then◌else◌, is_some, ◌==◌, list_eq, nat_eq,
}
use yeoun_ai.Base.Text.{Text, starts_with}
use yeoun_ai.Base.Dict
use yeoun_ai.Base.Exec.{Exec, Exception, ok, raise}
use yeoun_ai.Base.Dict.{Dict}

abbrev pub FilePath : Type 0
FilePath = List Text

abbrev pub Bytes : Type 0
Bytes = List ℕ

pub record File : Type 0 where
  pub content : Bytes
  pub mtime : ℕ

pub data Node : Type 0 where
  dir : Node
  file : File → Node

abbrev pub Fs : Type 0
Fs = Dict FilePath Node

-- `p.exists()`
abbrev pub exists : Fs → FilePath → Bool
exists fs p = is_some (Dict.lookup p fs)

abbrev pub file_of : Option Node → Option File
file_of none = none
file_of (some dir) = none
file_of (some (file f)) = some f

abbrev pub get_file : Fs → FilePath → Option File
get_file fs p = file_of (Dict.lookup p fs)

-- `p.is_file()`
abbrev pub is_file : Fs → FilePath → Bool
is_file fs p = is_some (get_file fs p)

-- `p.write_bytes(content)` at time `now`
abbrev pub write : FilePath → Bytes → ℕ → Fs → Fs
write p content now fs = Dict.insert p (file (record { content = content; mtime = now })) fs

-- `p.unlink(missing_ok=True)`
abbrev pub unlink : FilePath → Fs → Fs
unlink p fs = if is_file fs p then Dict.erase p fs else fs

-- `src.replace(dst)`: the file moves, and an old `dst` is gone.
unfoldable pub replace : FilePath → FilePath → Fs → Fs
replace src dst fs = elim (Dict.lookup src fs) [
  | none ↦ fs
  | some n ↦ Dict.insert dst n (Dict.erase src fs)
]

-- Writes that fail: what was written by then, and the exception. `none` where the write succeeds.
abbrev pub Disk : Type 0
Disk = FilePath → Option (Bytes × Exception)

-- `p.write_bytes(content)`, `p.write_text(content)`
unfoldable pub write_bytes : Disk → ℕ → FilePath → Bytes → Exec Fs (Unit {0})
write_bytes disk now p content fs = elim (disk p) [
  | none ↦ (ok tt, write p content now fs)
  | some (written, e) ↦ (raise e, write p written now fs)
]

-- `p.parent`
unfoldable pub parent : FilePath → FilePath
parent [] = []
parent (c ∷ []) = []
parent (c ∷ d ∷ p) = c ∷ parent (d ∷ p)

-- `p.name`
unfoldable pub name : FilePath → Text
name [] = []
name (c ∷ []) = c
name (c ∷ d ∷ p) = name (d ∷ p)

-- `Path(str(p) + suffix)`
unfoldable pub append_name : FilePath → Text → FilePath
append_name [] suffix = []
append_name (c ∷ []) suffix = (c ++ suffix) ∷ []
append_name (c ∷ d ∷ p) suffix = c ∷ append_name (d ∷ p) suffix

-- The ancestors of `base ++ rest` below `base`, and itself.
mkdir_from : FilePath → FilePath → Fs → Fs
mkdir_from base [] fs = fs
mkdir_from base (c ∷ rest) fs =
    let p = base ++ c ∷ [] in mkdir_from p rest (if exists fs p then fs else Dict.insert p dir fs)

-- `p.mkdir(parents=True, exist_ok=True)`, where it does not raise
unfoldable pub mkdir : FilePath → Fs → Fs
unfolding mkdir_from
mkdir p fs = mkdir_from [] p fs

-- `shutil.rmtree(p)`: the node and all below it.
unfoldable pub rmtree : FilePath → Fs → Fs
rmtree p [] = []
rmtree p ((q, n) ∷ fs) = let rest = rmtree p fs in if starts_with q p then rest else (q, n) ∷ rest

-- `shutil.rmtree(p)` where it fails: the nodes that it has removed by then, or, with
-- `ignore_errors=True`, could remove at all.
unfoldable pub rmtree_part : FilePath → (FilePath → Bool) → Fs → Fs
rmtree_part p removable [] = []
rmtree_part p removable ((q, n) ∷ fs) =
    let rest = rmtree_part p removable fs in
    if starts_with q p && removable q then rest else (q, n) ∷ rest

-- The name of `q` in the directory `p`, if it stands there.
child_name : FilePath → FilePath → Option Text
child_name [] (name ∷ []) = some name
child_name [] _ = none
child_name (c ∷ p) [] = none
child_name (c ∷ p) (d ∷ q) = let rest = child_name p q in if c == d then rest else none

-- `p.iterdir()`, with the regular files only.
unfoldable pub files_in : FilePath → Fs → List (Text × File)
unfolding child_name
files_in p [] = []
files_in p ((q, dir) ∷ fs) = files_in p fs
files_in p ((q, file f) ∷ fs) =
    let rest = files_in p fs in elim (child_name p q) [ none ↦ rest | some name ↦ (name, f) ∷ rest ]

pub lookup-rmtree :
    (p q : FilePath) (fs : Fs)
    → Dict.lookup q (rmtree p fs) ≡ (if starts_with q p then none else Dict.lookup q fs)
unfolding rmtree Dict.lookup
lookup-rmtree p q [] = ground arith
lookup-rmtree p q ((r, n) ∷ fs) = ground (arith, lookup-rmtree p q fs)

pub lookup-rmtree_part :
    (p q : FilePath) (removable : FilePath → Bool) (fs : Fs)
    → Dict.lookup q (rmtree_part p removable fs)
      ≡ (if starts_with q p && removable q then none else Dict.lookup q fs)
unfolding rmtree_part Dict.lookup
lookup-rmtree_part p q removable [] = ground arith
lookup-rmtree_part p q removable ((r, n) ∷ fs) = elim (Bool-cases (q == r)) [
  | inl same ↦
      let e = eq_of_beq q r same in
      let r_like_q = ap removable e in ground (arith, lookup-rmtree_part p q removable fs)
  | inr other ↦ ground (arith, lookup-rmtree_part p q removable fs)
]

pub lookup-replace :
    (src dst q : FilePath) (fs : Fs) (n : Node)
    → Dict.lookup src fs ≡ some n
    → Dict.lookup q (replace src dst fs)
      ≡ (if q == dst then some n else if q == src then none else Dict.lookup q fs)
unfolding replace
lookup-replace src dst q fs n h =
    ground (arith, Dict.lookup-insert q dst n (Dict.erase src fs), Dict.lookup-erase q src fs)

-- Making directories leaves every node as it was.
lookup-mkdir_from :
    (base rest q : FilePath) (fs : Fs) (n : Node)
    → Dict.lookup q fs ≡ some n
    → Dict.lookup q (mkdir_from base rest fs) ≡ some n
unfolding mkdir_from
lookup-mkdir_from base [] q fs n h = h
lookup-mkdir_from base (c ∷ rest) q fs n h =
    lookup-mkdir_from (base ++ c ∷ []) rest q _ n
      (ground (arith, Dict.lookup-insert q (base ++ c ∷ []) dir fs))

pub lookup-mkdir :
    (p q : FilePath) (fs : Fs) (n : Node)
    → Dict.lookup q fs ≡ some n
    → Dict.lookup q (mkdir p fs) ≡ some n
unfolding mkdir
lookup-mkdir p q fs n h = lookup-mkdir_from [] p q fs n h
