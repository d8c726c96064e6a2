-- ===== src/Routers/Clips/Listed.antt =====
-- Which clips are listed.
use mathlib.Core.List.Memᴰ
use mathlib.Core.List.{Memᴰ}
use yeoun_ai.Base.{
  ℕ, ◌≡◌, refl, sym, ap, ◌∙◌, Bool, true, false, Option, none, some, List, [], ◌∷◌, nat_eq, list_eq,
  Bool-cases, inl, inr, All,
}
use yeoun_ai.Base.Int.{ℤ, pos, negsuc}
use yeoun_ai.Base.Number.{parse_int}
use yeoun_ai.Base.Text.{Text, text_ltb}
use yeoun_ai.Base.Uuid.{Uuid}
use yeoun_ai.Base.Exec.{Result, ok}
use yeoun_ai.Fs.{File}
use yeoun_ai.Routers.Clips.{
  IdleClipMeta, is_mp4, mp4_stem, glob_mp4, insert_path, sort_paths, clip_meta, add_clip, clips_of,
}

abbrev Files : Type 0
Files = List (Text × File)

-- The name of a clip is not a negative number.
abbrev pub is_negative : Option ℤ → Bool
is_negative (some (negsuc n)) = true
is_negative _ = false

abbrev pub NonNegative : Text × File → Type 0
NonNegative p = is_negative (parse_int (mp4_stem p.0)) ≡ false

All-insert_path :
    (P : Text × File → Type 0) (p : Text × File) (ps : Files)
    → P p
    → All P ps
    → All P (insert_path p ps)
unfolding insert_path
All-insert_path P p [] h hs = (h, tt)
All-insert_path P p (q ∷ qs) h hs = elim (Bool-cases (text_ltb q.0 p.0)) [
  | inl lt ↦ rw (insert_path, lt) (hs.0, All-insert_path P p qs h hs.1)
  | inr ge ↦ rw (insert_path, ge) (h, hs)
]

pub All-sort_paths : (P : Text × File → Type 0) (ps : Files) → All P ps → All P (sort_paths ps)
unfolding sort_paths
All-sort_paths P [] h = tt
All-sort_paths P (p ∷ ps) h = All-insert_path P p (sort_paths ps) h.0 (All-sort_paths P ps h.1)

pub All-glob_mp4 : (P : Text × File → Type 0) (ps : Files) → All P ps → All P (glob_mp4 ps)
unfolding glob_mp4
All-glob_mp4 P [] h = tt
All-glob_mp4 P (p ∷ ps) h = elim (Bool-cases (is_mp4 p.0)) [
  | inl fits ↦ rw (glob_mp4, fits) (h.0, All-glob_mp4 P ps h.1)
  | inr other ↦ rw (glob_mp4, other) (All-glob_mp4 P ps h.1)
]

insert_path-head : (p : Text × File) (ps : Files) → Memᴰ p (insert_path p ps)
unfolding insert_path
insert_path-head p [] = Memᴰ.head refl
insert_path-head p (q ∷ qs) = elim (Bool-cases (text_ltb q.0 p.0)) [
  | inl lt ↦ rw (insert_path, lt) (Memᴰ.tail (insert_path-head p qs))
  | inr ge ↦ rw (insert_path, ge) (Memᴰ.head refl)
]

insert_path-tail : (p r : Text × File) (ps : Files) → Memᴰ r ps → Memᴰ r (insert_path p ps)
unfolding insert_path
insert_path-tail p r [] m = Memᴰ.tail m
insert_path-tail p r (q ∷ qs) m = elim (Bool-cases (text_ltb q.0 p.0)) [
  | inl lt ↦
      rw (insert_path, lt)
        (elim m [ Memᴰ.head e ↦ Memᴰ.head e | Memᴰ.tail n ↦ Memᴰ.tail (insert_path-tail p r qs n) ])
  | inr ge ↦ rw (insert_path, ge) (Memᴰ.tail m)
]

pub sort_paths-member : (r : Text × File) (ps : Files) → Memᴰ r ps → Memᴰ r (sort_paths ps)
unfolding sort_paths
sort_paths-member r [] m = m
sort_paths-member r (p ∷ ps) (Memᴰ.head e) = rw e (insert_path-head p (sort_paths ps))
sort_paths-member r (p ∷ ps) (Memᴰ.tail m) =
    insert_path-tail p r (sort_paths ps) (sort_paths-member r ps m)

pub glob_mp4-member :
    (r : Text × File) (ps : Files) → is_mp4 r.0 ≡ true → Memᴰ r ps → Memᴰ r (glob_mp4 ps)
unfolding glob_mp4
glob_mp4-member r [] y m = m
glob_mp4-member r (p ∷ ps) y (Memᴰ.head e) =
    rw (glob_mp4, sym (ap (λ (q : Text × File). is_mp4 q.0) e) ∙ y) (Memᴰ.head e)
glob_mp4-member r (p ∷ ps) y (Memᴰ.tail m) = elim (Bool-cases (is_mp4 p.0)) [
  | inl fits ↦ rw (glob_mp4, fits) (Memᴰ.tail (glob_mp4-member r ps y m))
  | inr other ↦ rw (glob_mp4, other) (glob_mp4-member r ps y m)
]

-- All files make a list, in which every file with a number has its entry.
abbrev pub IsListing : Uuid → Files → List IdleClipMeta → Type 0
IsListing pid ps clips =
    (r : Text × File) (idx : ℕ)
    → Memᴰ r ps
    → parse_int (mp4_stem r.0) ≡ some (pos idx)
    → Memᴰ (clip_meta pid idx r.0 r.1) clips

abbrev Listing : Uuid → Files → Result (List IdleClipMeta) → Type 0
Listing pid ps result = (clips : List IdleClipMeta) × (result ≡ ok clips) × IsListing pid ps clips

same_clip :
    (pid : Uuid) (i j : ℕ) (r p : Text × File)
    → r ≡ p
    → some (pos i) ≡ some (pos j)
    → clip_meta pid i r.0 r.1 ≡ clip_meta pid j p.0 p.1
same_clip pid i j r p same e = cc

add_clip-Listing :
    (pid : Uuid) (p : Text × File) (o : Option ℤ) (ps : Files) (clips : List IdleClipMeta)
    → parse_int (mp4_stem p.0) ≡ o
    → is_negative o ≡ false
    → IsListing pid ps clips
    → Listing pid (p ∷ ps) (add_clip pid p o (ok clips))
add_clip-Listing pid p none ps clips e n h =
    (clips, refl, λ r idx m i. elim m [ Memᴰ.head same ↦ cc | Memᴰ.tail m' ↦ h r idx m' i ])
add_clip-Listing pid p (some (negsuc k)) ps clips e n h = cc
add_clip-Listing pid p (some (pos j)) ps clips e n h = (
  clip_meta pid j p.0 p.1 ∷ clips,
  refl,
  λ r idx m i. elim m [
    | Memᴰ.head same ↦ Memᴰ.head (
        same_clip pid idx j r p same
          (sym i ∙ ap (λ (q : Text × File). parse_int (mp4_stem q.0)) same ∙ e))
    | Memᴰ.tail m' ↦ Memᴰ.tail (h r idx m' i)
  ],
)

pub clips_of-Listing :
    (pid : Uuid) (ps : Files) → All NonNegative ps → Listing pid ps (clips_of pid ps)
unfolding clips_of
clips_of-Listing pid [] h = ([], refl, λ r idx m i. absurd (Memᴰ.not-nil m))
clips_of-Listing pid (p ∷ ps) h =
    let (clips, e, l) = clips_of-Listing pid ps h.1 in
    rw (clips_of, e) (add_clip-Listing pid p (parse_int (mp4_stem p.0)) ps clips refl h.0 l)
