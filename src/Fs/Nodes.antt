-- ===== src/Fs/Nodes.antt =====
-- What the operations on files leave at a path: a regular file, or no directory.
use mathlib.Core.Bool.{true≢false}
use mathlib.Core.List.{List, Memᴰ}
use yeoun_ai.Base.{
  ℕ, ◌+◌, ◌≡◌, ◌<◌, refl, sym, ap, ◌∙◌, Bool, true, false, Option, none, some, [], ◌∷◌, ◌++◌, arith,
  ◌==◌, list_eq, nat_eq, length, length-append, Bool-cases, Option-cases, inl, inr, eq_of_beq,
}
use yeoun_ai.Base.Text.{Text, starts_with}
use yeoun_ai.Base.Dict
use yeoun_ai.Fs.{
  FilePath, Bytes, Node, dir, file, Fs, Disk, exists, is_file, write, write_bytes, unlink, replace,
  mkdir, mkdir_from, parent, lookup-mkdir, File, child_name, files_in,
}

abbrev pub is_dir : Option Node → Bool
is_dir none = false
is_dir (some dir) = true
is_dir (some (file f)) = false

-- No directory is at the path.
abbrev pub NoDir : FilePath → Fs → Type 0
NoDir q fs = is_dir (Dict.lookup q fs) ≡ false

abbrev pub HasFile : FilePath → Fs → Type 0
HasFile q fs = is_file fs q ≡ true

pub exists-HasFile : (q : FilePath) (fs : Fs) → exists fs q ≡ true → NoDir q fs → HasFile q fs
exists-HasFile q fs h n = ground arith

pub write-NoDir :
    (p q : FilePath) (content : Bytes) (now : ℕ) (fs : Fs)
    → NoDir q fs
    → NoDir q (write p content now fs)
write-NoDir p q content now fs h =
    ground (arith, Dict.lookup-insert q p (file (record { content = content; mtime = now })) fs)

pub write-HasFile :
    (p q : FilePath) (content : Bytes) (now : ℕ) (fs : Fs)
    → HasFile q fs
    → HasFile q (write p content now fs)
write-HasFile p q content now fs h =
    ground (arith, Dict.lookup-insert q p (file (record { content = content; mtime = now })) fs)

pub unlink-NoDir : (p q : FilePath) (fs : Fs) → NoDir q fs → NoDir q (unlink p fs)
unlink-NoDir p q fs h = ground (arith, Dict.lookup-erase q p fs)

pub unlink-HasFile :
    (p q : FilePath) (fs : Fs) → (q == p) ≡ false → HasFile q fs → HasFile q (unlink p fs)
unlink-HasFile p q fs other h = ground (arith, Dict.lookup-erase q p fs)

pub write_bytes-NoDir :
    (disk : Disk) (now : ℕ) (p q : FilePath) (content : Bytes) (fs : Fs)
    → NoDir q fs
    → NoDir q (write_bytes disk now p content fs).1
unfolding write_bytes
write_bytes-NoDir disk now p q content fs h = elim (Option-cases (disk p)) [
  | inl e ↦ rw (write_bytes, e) (write-NoDir p q content now fs h)
  | inr ((written, x), e) ↦ rw (write_bytes, e) (write-NoDir p q written now fs h)
]

pub write_bytes-NoDir_self :
    (disk : Disk) (now : ℕ) (p : FilePath) (content : Bytes) (fs : Fs)
    → NoDir p (write_bytes disk now p content fs).1
unfolding write_bytes
write_bytes-NoDir_self disk now p content fs = elim (Option-cases (disk p)) [
  | inl e ↦ rw (write_bytes, e) (written_there content)
  | inr ((written, x), e) ↦ rw (write_bytes, e) (written_there written)
]
  where
    written_there : (content : Bytes) → NoDir p (write p content now fs)
    written_there content =
        ground (arith, Dict.lookup-insert p p (file (record { content = content; mtime = now })) fs)

pub write_bytes-HasFile :
    (disk : Disk) (now : ℕ) (p q : FilePath) (content : Bytes) (fs : Fs)
    → HasFile q fs
    → HasFile q (write_bytes disk now p content fs).1
unfolding write_bytes
write_bytes-HasFile disk now p q content fs h = elim (Option-cases (disk p)) [
  | inl e ↦ rw (write_bytes, e) (write-HasFile p q content now fs h)
  | inr ((written, x), e) ↦ rw (write_bytes, e) (write-HasFile p q written now fs h)
]

pub replace-NoDir :
    (src dst q : FilePath) (fs : Fs) → NoDir src fs → NoDir q fs → NoDir q (replace src dst fs)
unfolding replace
replace-NoDir src dst q fs s h = elim (Option-cases (Dict.lookup src fs)) [
  | inl e ↦ rw (replace, e) h
  | inr (n, e) ↦
      rw (replace, e)
        (ground (arith, Dict.lookup-insert q dst n (Dict.erase src fs), Dict.lookup-erase q src fs))
]

-- A path below a directory is none outside it.
pub ne_outside :
    (p q d : FilePath) → starts_with q d ≡ true → starts_with p d ≡ false → (q == p) ≡ false
ne_outside p q d inside outside = elim (Bool-cases (q == p)) [
  | inr other ↦ other
  | inl same ↦ absurd (
      true≢false
        (sym inside ∙ ap (λ (x : FilePath). starts_with x d) (eq_of_beq q p same) ∙ outside))
]

ne_of_shorter : (p q : FilePath) → length p < length q → (q == p) ≡ false
ne_of_shorter p q h = elim (Bool-cases (q == p)) [
  | inr other ↦ other
  | inl same ↦ absurd (omega (arith, ap (length {0}) (eq_of_beq q p same)))
]

lookup-mkdir_from_longer :
    (base rest q : FilePath) (fs : Fs)
    → length base + length rest < length q
    → Dict.lookup q (mkdir_from base rest fs) ≡ Dict.lookup q fs
unfolding mkdir_from
lookup-mkdir_from_longer base [] q fs h = refl
lookup-mkdir_from_longer base (c ∷ rest) q fs h =
    let p : FilePath = base ++ c ∷ [] in
    let l = length-append base (c ∷ []) in
    lookup-mkdir_from_longer p rest q _ (omega (arith, l))
    ∙ ground (arith, ne_of_shorter p q (omega (arith, l)), Dict.lookup-insert q p dir fs)

-- Making directories changes nothing at a longer path.
pub mkdir-NoDir :
    (p q : FilePath) (fs : Fs) → length p < length q → NoDir q fs → NoDir q (mkdir p fs)
unfolding mkdir
mkdir-NoDir p q fs l h = ap is_dir (lookup-mkdir_from_longer [] p q fs (omega (arith, l))) ∙ h

pub mkdir-HasFile : (p q : FilePath) (fs : Fs) → HasFile q fs → HasFile q (mkdir p fs)
mkdir-HasFile p q fs h = elim (Option-cases (Dict.lookup q fs)) [
  | inl e ↦ ground arith
  | inr (n, e) ↦ ground (arith, lookup-mkdir p q fs n e)
]

pub parent-append : (d : FilePath) (t : Text) → parent (d ++ t ∷ []) ≡ d
unfolding parent
parent-append [] t = refl
parent-append (c ∷ []) t = refl
parent-append (c ∷ e ∷ d) t = ap (λ p. c ∷ p) (parent-append (e ∷ d) t)

child_name-append : (d : FilePath) (t : Text) → child_name d (d ++ t ∷ []) ≡ some t
unfolding child_name
child_name-append [] t = refl
child_name-append (c ∷ d) t = ground (arith, child_name-append d t)

later_file :
    (d : FilePath) (t name : Text) (f g : File) (o : Option Text) (ps : List (Text × File))
    → Memᴰ (t, f) ps
    → Memᴰ (t, f) (elim o [ none ↦ ps | some name ↦ (name, g) ∷ ps ])
later_file d t name f g none ps m = m
later_file d t name f g (some _) ps m = Memᴰ.tail m

-- A file whose path is a name in a directory is among the files of the directory.
pub files_in-member :
    (d : FilePath) (t : Text) (f : File) (fs : Fs)
    → Dict.lookup (d ++ t ∷ []) fs ≡ some (file f)
    → Memᴰ (t, f) (files_in d fs)
unfolding files_in
files_in-member d t f [] h = unfold Dict.lookup in cc
files_in-member d t f ((q, dir) ∷ fs) h =
    files_in-member d t f fs (unfold Dict.lookup in ground arith)
files_in-member d t f ((q, file g) ∷ fs) h = elim (Bool-cases ((d ++ t ∷ []) == q)) [
  | inl here ↦
      let name = ap (child_name d) (sym (eq_of_beq (d ++ t ∷ []) q here)) ∙ child_name-append d t in
      let same : f ≡ g = unfold Dict.lookup in ground arith in
      rw (files_in, name, same) (Memᴰ.head refl)
  | inr other ↦
      later_file d t t f g (child_name d q) (files_in d fs)
        (files_in-member d t f fs (unfold Dict.lookup in ground arith))
]
