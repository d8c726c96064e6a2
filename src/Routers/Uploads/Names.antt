-- ===== src/Routers/Uploads/Names.antt =====
-- The names under which uploads are stored.
use mathlib.Core.Bool.{true≢false}
use yeoun_ai.Base.{
  ◌≡◌, refl, sym, ap, ◌∙◌, Bool, false, ◌||◌, inl, inr, Option, [], ◌∷◌, ◌++◌, arith, ◌==◌, list_eq,
  nat_eq, if◌then◌else◌, contains, All, All-append, Bool-cases,
}
use yeoun_ai.Base.Text.{Text, codes, is_empty}
use yeoun_ai.Base.Uuid.{Uuid, hex, NotSlash, All-hex}
use yeoun_ai.Storage.Resolve.{IsName}
use yeoun_ai.Routers.Uploads.{raw_name, file_name}

All-NotSlash : (s : Text) → contains s b'/' ≡ false → All NotSlash s
All-NotSlash [] h = tt
All-NotSlash (c ∷ s) h = (ground arith, All-NotSlash s (ground arith))

-- The tests of a name, apart from where the name comes from.
abbrev tested : Text → Text
tested s = if s == codes "." || s == codes ".." || contains s 0 || contains s b'/' then [] else s

none_holds :
    (a b c d : Bool)
    → (a || b || c || d) ≡ false
    → (a ≡ false) × (b ≡ false) × (c ≡ false) × (d ≡ false)
none_holds a b c d h = ground arith

IsName-tested : (s : Text) → is_empty (tested s) ≡ false → IsName (tested s)
IsName-tested s h =
    let guard = s == codes "." || s == codes ".." || contains s 0 || contains s b'/' in
    elim (Bool-cases guard) [
      | inl unsafe ↦
          absurd (true≢false (sym (ap (λ (b : Bool). is_empty (if b then [] else s)) unsafe) ∙ h))
      | inr safe ↦
          let (dot, dots, nul, slash) =
            none_holds (s == codes ".") (s == codes "..") (contains s 0) (contains s b'/') safe in
          rw safe (record {
            no_slash = All-NotSlash s slash;
            nonempty = sym (ap (λ (b : Bool). is_empty (if b then [] else s)) safe) ∙ h;
            not_dot = dot;
            not_dots = dots;
          })
    ]

IsName-fresh : (u : Uuid) → IsName (codes "upload-" ++ hex 32 u)
unfolding nat_eq list_eq
IsName-fresh u = record {
  no_slash =
      All-append NotSlash (codes "upload-") (hex 32 u)
        (refl, (refl, (refl, (refl, (refl, (refl, (refl, tt))))))) (All-hex 32 u);
  nonempty = refl;
  not_dot = refl;
  not_dots = refl;
}

-- The name of a stored file is one plain component, whatever the client has sent.
pub IsName-file_name : (u : Uuid) (filename : Option Text) → IsName (file_name u filename)
IsName-file_name u filename = elim (Bool-cases (is_empty (raw_name filename))) [
  | inl missing ↦ rw missing (IsName-fresh u)
  | inr given ↦ rw given (IsName-tested _ given)
]
