-- ===== src/Creation/Newest.antt =====
-- The newest file of a directory.
use mathlib.Core.Path.{subst}
use mathlib.Core.List.{Memᴰ}
use mathlib.Core.List.Memᴰ
use yeoun_ai.Base.{
  ◌<◌, ◌≤◌, ◌≡◌, refl, sym, ap, true, false, ◌⊎◌, inl, inr, Option, none, some, List, [], ◌∷◌, ◌++◌,
  arith, All, ltb, Bool-cases, Option-cases, if◌then◌else◌,
}
use yeoun_ai.Base.Text.{Text}
use yeoun_ai.Base.Exec.{ok}
use yeoun_ai.Fs.{FilePath, File, Fs, exists, files_in}
use yeoun_ai.Creation.{newest, pick_file}

-- The file `x`, or one that is older.
abbrev pub IsOlder : Text × File → Text × File → Type 0
IsOlder x y = (y ≡ x) ⊎ (y.1.mtime < x.1.mtime)

-- Nothing, or a file that is not newer than `x`.
abbrev NotNewer : Text × File → Option (Text × File) → Type 0
NotNewer x none = Unit
NotNewer x (some y) = y.1.mtime ≤ x.1.mtime

IsOlder-bound : (x y : Text × File) → IsOlder x y → y.1.mtime ≤ x.1.mtime
IsOlder-bound x y (inl e) = omega (arith, ap (λ (z : Text × File). z.1.mtime) e)
IsOlder-bound x y (inr l) = omega arith

newest-NotNewer :
    (x : Text × File) (ys : List (Text × File)) → All (IsOlder x) ys → NotNewer x (newest ys)
unfolding newest
newest-NotNewer x [] h = tt
newest-NotNewer x (y ∷ ys) h = elim (Option-cases (newest ys)) [
  | inl e ↦ rw e (IsOlder-bound x y h.0)
  | inr (z, e) ↦
      let later = newest-NotNewer x ys h.1 in
      let first = IsOlder-bound x y h.0 in
      rw e (elim (Bool-cases (ltb y.1.mtime z.1.mtime)) [
        | inl lt ↦ rw lt (subst (NotNewer x) e later)
        | inr ge ↦ rw ge first
      ])
]

-- `max` takes `x` before files that are not newer.
first_wins :
    (x : Text × File) (o : Option (Text × File))
    → NotNewer x o
    → elim o as (λ _. Option (Text × File)) [
      | none ↦ some x
      | some (other, g) ↦ if ltb x.1.mtime g.mtime then some (other, g) else some x
    ]
      ≡ some x
first_wins x none h = refl
first_wins x (some y) h = let ge : ltb x.1.mtime y.1.mtime ≡ false = ground arith in rw ge refl

-- A file is the newest of those that are itself or older.
pub newest_lem :
    (x : Text × File) (ys : List (Text × File))
    → All (IsOlder x) ys
    → Memᴰ x ys
    → newest ys ≡ some x
unfolding newest
newest_lem x [] h m = absurd (Memᴰ.not-nil m)
newest_lem x (y ∷ ys) (inl same, h) m =
    subst (λ (z : Text × File). newest (z ∷ ys) ≡ some x) (sym same)
      (first_wins x (newest ys) (newest-NotNewer x ys h))
newest_lem x (y ∷ ys) (inr older, h) (Memᴰ.head e) =
    absurd (omega (arith, ap (λ (z : Text × File). z.1.mtime) e))
newest_lem x (y ∷ ys) (inr older, h) (Memᴰ.tail m) =
    let lt : ltb y.1.mtime x.1.mtime ≡ true = ground arith in rw (newest_lem x ys h m, lt) refl

pub pick_file_lem :
    (d : FilePath) (fs : Fs) (x : Text × File)
    → exists fs d ≡ true
    → newest (files_in d fs) ≡ some x
    → pick_file d fs ≡ ok (d ++ x.0 ∷ [])
unfolding pick_file
pick_file_lem d fs x there e = rw (there, e) refl
