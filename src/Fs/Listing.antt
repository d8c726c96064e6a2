-- ===== src/Fs/Listing.antt =====
-- The files of a directory against what stands at their paths.
use mathlib.Core.List.{append_assoc, append-nil}
use yeoun_ai.Base.{
  ◌≡◌, refl, sym, ap, ◌∙◌, true, Option, none, some, [], ◌∷◌, ◌++◌, arith, ◌==◌, list_eq, nat_eq,
  All, All-mono, Bool-cases, inl, inr, eq_of_beq, eq_refl, if◌then◌else◌,
}
use yeoun_ai.Base.Text.{Text}
use yeoun_ai.Base.Dict
use yeoun_ai.Fs.{
  FilePath, Node, dir, file, File, Fs, files_in, child_name, mkdir, mkdir_from, exists,
}

child_name-split : (d q : FilePath) (t : Text) → child_name d q ≡ some t → q ≡ d ++ t ∷ []
unfolding child_name
child_name-split [] [] t h = cc
child_name-split [] (c ∷ []) t h = cc
child_name-split [] (c ∷ e ∷ q) t h = cc
child_name-split (c ∷ d) [] t h = cc
child_name-split (c ∷ d) (e ∷ q) t h = elim (Bool-cases (c == e)) [
  | inl same ↦
      let rest = child_name-split d q t (ground arith) in let head = eq_of_beq c e same in cc
  | inr other ↦ absurd (ground arith)
]

-- The file stands at its path.
abbrev pub Stands : FilePath → Fs → Text × File → Type 0
Stands d fs (t, f) = Dict.lookup (d ++ t ∷ []) fs ≡ some (file f)

Stands-cons :
    (d q : FilePath) (n : Node) (fs : Fs)
    → Dict.lookup q fs ≡ none
    → (x : Text × File) → Stands d fs x
    → Stands d ((q, n) ∷ fs) x
unfolding Dict.lookup
Stands-cons d q n fs fresh (t, f) h = elim (Bool-cases ((d ++ t ∷ []) == q)) [
  | inl same ↦
      let e = eq_of_beq (d ++ t ∷ []) q same in
      let clash : some (file f) ≡ none = sym h ∙ ap (λ k. Dict.lookup k fs) e ∙ fresh in cc
  | inr other ↦ rw other h
]

files_in_child :
    (d q : FilePath) (f : File) (fs : Fs) (o : Option Text)
    → child_name d q ≡ o
    → All (Stands d ((q, file f) ∷ fs)) (files_in d fs)
    → All
        (Stands d ((q, file f) ∷ fs))
        (elim o [ none ↦ files_in d fs | some t ↦ (t, f) ∷ files_in d fs ])
unfolding Dict.lookup
files_in_child d q f fs none e h = h
files_in_child d q f fs (some t) e h =
    let same : ((d ++ t ∷ []) == q) ≡ true =
      ap (λ k. (d ++ t ∷ []) == k) (child_name-split d q t e) ∙ eq_refl (d ++ t ∷ []) in
    (rw same refl, h)

pub files_in-Stands :
    (d : FilePath) (fs : Fs) → Dict.NodupKeys fs → All (Stands d fs) (files_in d fs)
unfolding files_in
files_in-Stands d [] u = tt
files_in-Stands d ((q, dir) ∷ fs) u =
    All-mono (Stands d fs) (Stands d ((q, dir) ∷ fs)) (Stands-cons d q dir fs u.0) (files_in d fs)
      (files_in-Stands d fs u.1)
files_in-Stands d ((q, file f) ∷ fs) u = files_in_child d q f fs (child_name d q) refl (
    All-mono (Stands d fs) (Stands d ((q, file f) ∷ fs)) (Stands-cons d q (file f) fs u.0)
      (files_in d fs) (files_in-Stands d fs u.1))

-- Making directories makes no file, and keeps one entry for each path.
mkdir_from-file :
    (base rest q : FilePath) (fs : Fs) (f : File)
    → Dict.lookup q (mkdir_from base rest fs) ≡ some (file f)
    → Dict.lookup q fs ≡ some (file f)
unfolding mkdir_from
mkdir_from-file base [] q fs f h = h
mkdir_from-file base (c ∷ rest) q fs f h =
    let p : FilePath = base ++ c ∷ [] in
    let before = mkdir_from-file p rest q (if exists fs p then fs else Dict.insert p dir fs) f h in
    ground (arith, before, Dict.lookup-insert q p dir fs)

pub mkdir-file :
    (p q : FilePath) (fs : Fs) (f : File)
    → Dict.lookup q (mkdir p fs) ≡ some (file f)
    → Dict.lookup q fs ≡ some (file f)
unfolding mkdir
mkdir-file p q fs f h = mkdir_from-file [] p q fs f h

mkdir_from-NodupKeys :
    (base rest : FilePath) (fs : Fs) → Dict.NodupKeys fs → Dict.NodupKeys (mkdir_from base rest fs)
unfolding mkdir_from
mkdir_from-NodupKeys base [] fs u = u
mkdir_from-NodupKeys base (c ∷ rest) fs u =
    let p : FilePath = base ++ c ∷ [] in
    mkdir_from-NodupKeys p rest _ (ground (arith, Dict.insert-NodupKeys p dir fs u))

pub mkdir-NodupKeys : (p : FilePath) (fs : Fs) → Dict.NodupKeys fs → Dict.NodupKeys (mkdir p fs)
unfolding mkdir
mkdir-NodupKeys p fs u = mkdir_from-NodupKeys [] p fs u

mkdir_from-exists :
    (base rest : FilePath) (fs : Fs)
    → exists fs base ≡ true
    → exists (mkdir_from base rest fs) (base ++ rest) ≡ true
unfolding mkdir_from
mkdir_from-exists base [] fs h = rw (append-nil base) h
mkdir_from-exists base (c ∷ rest) fs h =
    let p : FilePath = base ++ c ∷ [] in
    let next : Fs = if exists fs p then fs else Dict.insert p dir fs in
    let there : exists next p ≡ true = ground (arith, Dict.lookup-insert p p dir fs) in
    ap (exists (mkdir_from p rest next)) (sym (append_assoc base (c ∷ []) rest))
    ∙ mkdir_from-exists p rest next there

-- A directory is there once it is made.
pub mkdir-exists :
    (c : Text) (rest : FilePath) (fs : Fs) → exists (mkdir (c ∷ rest) fs) (c ∷ rest) ≡ true
unfolding mkdir mkdir_from
mkdir-exists c rest fs =
    let p : FilePath = c ∷ [] in
    mkdir_from-exists p rest (if exists fs p then fs else Dict.insert p dir fs)
      (ground (arith, Dict.lookup-insert p p dir fs))
