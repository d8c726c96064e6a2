-- ===== src/Config/Cached.antt =====
-- The settings of a process stay what they were first.
use mathlib.Core.Path.{subst}
use yeoun_ai.Base.{
  zero, suc, ◌≤◌, ◌≡◌, refl, sym, ap, Option, none, some, List, [], ◌∷◌, arith, All,
}
use yeoun_ai.Base.Int.{ℤ, pos, negsuc}
use yeoun_ai.Base.Text.{Text}
use yeoun_ai.Base.Exec.{ok}
use yeoun_ai.Config.{
  Settings, Given, filled, at_least_one, with_token, new_settings, get_settings, get_all,
}

-- What the validation promises of settings.
abbrev IsValid : Option Text → Settings → Type 0
IsValid token s = (1 ≤ s.max_upload_bytes) × (some s.internal_token ≡ token)

at_least_one-IsValid :
    (g : Given) (token : Text) (z : ℤ) (s : Settings)
    → at_least_one g token z ≡ ok s
    → IsValid (some token) s
at_least_one-IsValid g token (pos zero) s e = cc
at_least_one-IsValid g token (pos (suc n)) s e =
    let same : filled g token (suc n) ≡ s = cc in
    (
      subst (λ (t : Settings). 1 ≤ t.max_upload_bytes) same (omega arith),
      sym (ap (λ (t : Settings). some t.internal_token) same),
    )
at_least_one-IsValid g token (negsuc n) s e = cc

with_token-IsValid :
    (g : Given) (token : Option Text) (s : Settings) → with_token g token ≡ ok s → IsValid token s
with_token-IsValid g none s e = cc
with_token-IsValid g (some token) s e = at_least_one-IsValid g token _ s e

get_all-kept : (gs : List Given) (s : Settings) → All (λ r. r ≡ ok s) (get_all gs (some s))
unfolding get_all get_settings
get_all-kept [] s = tt
get_all-kept (g ∷ gs) s = (refl, get_all-kept gs s)

get_all-first :
    (g : Given) (gs : List Given) (s : Settings)
    → new_settings g ≡ ok s
    → get_all (g ∷ gs) none ≡ ok s ∷ get_all gs (some s)
unfolding get_all get_settings
get_all-first g gs s e = rw e refl

-- When the first call finds values that are valid, each call returns the settings made of them,
-- whatever the environment holds by then; they have the token that was given and a limit of at least
-- one byte.
pub get_all-Same :
    (g : Given) (gs : List Given) (s : Settings)
    → new_settings g ≡ ok s
    → All (λ r. r ≡ ok s) (get_all (g ∷ gs) none)
      × (1 ≤ s.max_upload_bytes)
      × (some s.internal_token ≡ g.internal_token)
unfolding new_settings
get_all-Same g gs s e =
    let (bound, token) = with_token-IsValid g g.internal_token s e in
    rw (get_all-first g gs s e) ((refl, get_all-kept gs s), bound, token)
