-- ===== src/Routers/Uploads/Reading.antt =====
-- What `_save_upload` accepts.
use mathlib.Core.Path.{subst, sym}
use mathlib.Core.List.{append_assoc, append-nil}
use yeoun_ai.Base.{
  ℕ, zero, suc, ◌≤◌, ◌<◌, ◌≡◌, refl, ap, ◌∙◌, Bool, true, false, not, ◌&&◌, ◌||◌, List, [], ◌∷◌,
  ◌++◌, arith, if◌then◌else◌, Bool-cases, inl, inr, ltb, leb, contains, length, take, drop,
  length-take, length-drop, take-append-drop, list_eq, nat_eq, min,
}
use yeoun_ai.Base.Text.{Text}
use yeoun_ai.Base.Exec.{Exception, Result, ok, raise}
use yeoun_ai.Fs.{Bytes}
use yeoun_ai.Routers.Uploads.{
  Upload, looks_like, unsupported_media_type, payload_too_large, chunk_size, after_chunk, read_loop,
  type_of, read_upload,
}

guard-ok :
    {A : Type 0} (c : Bool) (e : Exception) (m : Result A) (a : A)
    → (if c then raise e else m) ≡ ok a
    → (c ≡ false) × (m ≡ ok a)
guard-ok true e m a h = cc
guard-ok false e m a h = (refl, h)

take-take : (m n : ℕ) (xs : Bytes) → m ≤ n → take m (take n xs) ≡ take m xs
take-take zero n xs h = refl
take-take (suc m) zero xs h = absurd (omega arith)
take-take (suc m) (suc n) [] h = refl
take-take (suc m) (suc n) (x ∷ xs) h = ap (λ ys. x ∷ ys) (take-take m n xs (omega arith))

drop_all : (n : ℕ) (xs : Bytes) → length xs ≤ n → drop n xs ≡ []
drop_all zero [] h = refl
drop_all zero (x ∷ xs) h = absurd (omega arith)
drop_all (suc n) [] h = refl
drop_all (suc n) (x ∷ xs) h = drop_all n xs (omega arith)

ok-injective : {A : Type 0} {a b : A} → ok a ≡ ok b → a ≡ b
ok-injective h = cc

-- The bytes pass if they are too short for a test, or look like one of the formats.
abbrev pub IsRecognized : List Bytes → Bytes → Type 0
IsRecognized prefixes content =
    (ltb (length content) 4 || looks_like prefixes (take 16 content)) ≡ true

or_true : (a b : Bool) → b ≡ true → (a || b) ≡ true
or_true a b h = ground arith

must_look : (p q : Bool) → (not false && p && not q) ≡ false → p ≡ true → q ≡ true
must_look p q h e = ground arith

module _ (prefixes : List Bytes) (limit : ℕ) where
  after_chunk-ok :
      (buffer : Bytes) (magic_checked : Bool) (more : Result Bytes) (b : Bytes)
      → after_chunk prefixes limit buffer magic_checked more ≡ ok b
      → ((not magic_checked
            && leb 4 (length (take 16 buffer))
            && not (looks_like prefixes (take 16 buffer)))
          ≡ false)
        × (length buffer ≤ limit)
        × (more ≡ ok b)
  unfolding after_chunk
  after_chunk-ok buffer magic_checked more b h =
      let g1 =
        guard-ok
          (not magic_checked
            && leb 4 (length (take 16 buffer))
            && not (looks_like prefixes (take 16 buffer)))
          unsupported_media_type
          (if ltb limit (length buffer) then raise payload_too_large else more) b h in
      let g2 = guard-ok (ltb limit (length buffer)) payload_too_large more b g1.1 in
      (g1.0, ground (arith, g2.0), g2.1)

  -- Chunks of `k + 1` bytes.
  module _ (k : ℕ) where
    loop : ℕ → Bytes → Bytes → Bool → Result Bytes
    loop fuel rest buffer magic_checked =
        read_loop fuel prefixes limit (suc k) rest buffer magic_checked

    loop-nil :
        (fuel : ℕ) (buffer : Bytes) (magic_checked : Bool)
        → loop fuel [] buffer magic_checked ≡ ok buffer
    unfolding loop read_loop
    loop-nil zero buffer magic_checked = refl
    loop-nil (suc fuel) buffer magic_checked = refl

    -- From the test of the first bytes on.
    loop-checked :
        (fuel : ℕ) (rest buffer b : Bytes)
        → length rest ≤ fuel
        → length buffer ≤ limit
        → loop fuel rest buffer true ≡ ok b
        → (b ≡ buffer ++ rest) × (length b ≤ limit)
    unfolding loop read_loop
    loop-checked zero (c ∷ rest) buffer b f l h = absurd (omega arith)
    loop-checked fuel [] buffer b f l h =
        let e : buffer ≡ b = ok-injective (sym (loop-nil fuel buffer true) ∙ h) in
        (sym e ∙ sym (append-nil buffer), subst (λ x. length x ≤ limit) e l)
    loop-checked (suc fuel) (c ∷ rest) buffer b f l h =
        let grown = buffer ++ take (suc k) (c ∷ rest) in
        let g = after_chunk-ok grown true (loop fuel (drop (suc k) (c ∷ rest)) grown true) b h in
        let i =
          loop-checked fuel (drop (suc k) (c ∷ rest)) grown b (omega (arith, length-drop k rest))
            g.1 g.2 in
        (
          i.0
              ∙ (append_assoc buffer (take (suc k) (c ∷ rest)) (drop (suc k) (c ∷ rest))
                  ∙ ap (λ xs. buffer ++ xs) (take-append-drop (suc k) (c ∷ rest))),
          i.1,
        )

    short_head :
        (content : Bytes)
        → 16 ≤ suc k
        → leb 4 (length (take 16 (take (suc k) content))) ≡ false
        → length content < 4
    short_head content big h =
        let e = take-take 16 (suc k) content big in
        let h' : leb 4 (length (take 16 content)) ≡ false =
          subst (λ xs. leb 4 (length xs) ≡ false) e h in
        short (length (take 16 content)) (length content) (length-take 16 content) h'
      where
        short : (m n : ℕ) → m ≡ min 16 n → leb 4 m ≡ false → n < 4
        short m n e h = ground arith

    loop-first :
        (fuel : ℕ) (content b : Bytes)
        → 16 ≤ suc k
        → length content ≤ fuel
        → loop fuel content [] false ≡ ok b
        → (b ≡ content) × (length b ≤ limit) × IsRecognized prefixes content
    unfolding loop read_loop
    loop-first zero (c ∷ content) b big f h = absurd (omega arith)
    loop-first fuel [] b big f h =
        let e : [] ≡ b = ok-injective (sym (loop-nil fuel [] false) ∙ h) in
        (sym e, subst (λ x. length x ≤ limit) e (omega arith), refl)
    loop-first (suc fuel) (c ∷ content) b big f h =
        let all = c ∷ content in
        let grown = take (suc k) all in
        let more = loop fuel (drop (suc k) all) grown (leb 4 (length (take 16 grown))) in
        let g = after_chunk-ok grown false more b h in
        elim (Bool-cases (leb 4 (length (take 16 grown)))) [
          | inl long ↦
              let i =
                loop-checked fuel (drop (suc k) all) grown b (omega (arith, length-drop k content))
                  g.1 (subst (λ t. loop fuel (drop (suc k) all) grown t ≡ ok b) long g.2) in
              (
                i.0 ∙ take-append-drop (suc k) all,
                i.1,
                or_true _ _ (
                    subst (λ xs. looks_like prefixes xs ≡ true) (take-take 16 (suc k) all big)
                      (must_look _ _ g.0 long)),
              )
          | inr short ↦
              let small = short_head all big short in
              let rest_nil : drop (suc k) all ≡ [] = drop_all (suc k) all (omega arith) in
              let done : grown ≡ b = ok-injective (
                sym (loop-nil fuel grown _)
                ∙ subst (λ r. loop fuel r grown (leb 4 (length (take 16 grown))) ≡ ok b) rest_nil
                    g.2) in
              (
                sym done
                    ∙ (sym (append-nil grown)
                        ∙ (ap (λ r. grown ++ r) (sym rest_nil) ∙ take-append-drop (suc k) all)),
                subst (λ x. length x ≤ limit) done g.1,
                ground arith,
              )
        ]

-- What `read_upload` returns is the content of the file: of an allowed type, within the limit, and
-- of one of the formats by its first 16 bytes, unless it is shorter than 4.
pub record Accepted (allowed : List Text) (prefixes : List Bytes) (limit : ℕ) (upload : Upload)
    (b : Bytes) : Type 0 where
  pub all : b ≡ upload.content
  pub type : contains allowed (type_of upload.content_type) ≡ true
  pub small : length b ≤ limit
  pub recognized : IsRecognized prefixes upload.content

pub read_upload-Accepted :
    (allowed : List Text) (prefixes : List Bytes) (limit : ℕ) (upload : Upload) (b : Bytes)
    → read_upload allowed prefixes limit upload ≡ ok b
    → Accepted allowed prefixes limit upload b
unfolding read_upload loop
read_upload-Accepted allowed prefixes limit upload b h =
    let g =
      guard-ok (not (contains allowed (type_of upload.content_type))) unsupported_media_type
        (read_loop (length upload.content) prefixes limit chunk_size upload.content [] false) b h in
    let i = first upload.content g.1 in
    record { all = i.0; type = negated _ g.0; small = i.1; recognized = i.2 }
  where
    negated : (c : Bool) → not c ≡ false → c ≡ true
    negated c h = ground arith

    first :
        (content : Bytes)
        → read_loop (length content) prefixes limit 1_048_576 content [] false ≡ ok b
        → (b ≡ content) × (length b ≤ limit) × IsRecognized prefixes content
    first content h =
        loop-first prefixes limit 1_048_575 (length content) content b (omega arith) (omega arith) h
