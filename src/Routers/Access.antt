-- ===== src/Routers/Access.antt =====
-- Whom app/auth.py lets in.
use yeoun_ai.Base.{
  ◌≡◌, ◌≢◌, refl, false, Option, none, some, arith, ◌==◌, eq_refl, eq_of_beq, nat_eq, list_eq,
  Bool-cases, inl, inr,
}
use yeoun_ai.Base.Text.{Text, codes}
use yeoun_ai.Base.Exec.{Result, ok, raise}
use yeoun_ai.Config.{Settings}
use yeoun_ai.Routers.{App, Credentials, require_internal_token, unauthorized}

-- The answer to a request with these credentials. It is let in only with the token after the word
-- bearer; the token is missing if that word is, and wrong otherwise.
pub data Admission (lower : Text → Text) (settings : Settings)
    : Option Credentials → Result (Unit {0}) → Type 0 where
  let_in :
      (c : Credentials)
      → lower c.scheme ≡ codes "bearer"
      → c.credentials ≡ settings.internal_token
      → Admission lower settings (some c) (ok tt)
  without_credentials : Admission lower settings none (raise (unauthorized (codes "MISSING_TOKEN")))
  other_scheme :
      (c : Credentials)
      → lower c.scheme ≢ codes "bearer"
      → Admission lower settings (some c) (raise (unauthorized (codes "MISSING_TOKEN")))
  other_token :
      (c : Credentials)
      → lower c.scheme ≡ codes "bearer"
      → c.credentials ≢ settings.internal_token
      → Admission lower settings (some c) (raise (unauthorized (codes "INVALID_TOKEN")))

differs : (a b : Text) → (a == b) ≡ false → a ≢ b
differs a b h p = ground (arith, eq_refl a, p)

-- A request is let in exactly with the scheme bearer, in any case, and the internal token; without the
-- scheme it is told that the token is missing, and with another token that it is invalid; nothing
-- changes.
pub require_internal_token_lem :
    (lower : Text → Text) (settings : Settings) (credentials : Option Credentials) (app : App)
    → Admission lower settings credentials (require_internal_token lower settings credentials app).0
      × ((require_internal_token lower settings credentials app).1 ≡ app)
unfolding require_internal_token
require_internal_token_lem lower settings none app = (without_credentials, refl)
require_internal_token_lem lower settings (some c) app =
    elim (Bool-cases (lower c.scheme == codes "bearer")) [
      | inr other ↦
          rw other (other_scheme c (differs (lower c.scheme) (codes "bearer") other), refl)
      | inl bearer ↦ elim (Bool-cases (c.credentials == settings.internal_token)) [
        | inl same ↦
            rw (bearer, same)
              (
                let_in c (eq_of_beq (lower c.scheme) (codes "bearer") bearer)
                    (eq_of_beq c.credentials settings.internal_token same),
                refl,
              )
        | inr other ↦
            rw (bearer, other)
              (
                other_token c (eq_of_beq (lower c.scheme) (codes "bearer") bearer)
                    (differs c.credentials settings.internal_token other),
                refl,
              )
      ]
    ]
