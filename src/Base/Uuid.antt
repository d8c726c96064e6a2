-- ===== src/Base/Uuid.antt =====
-- `uuid.UUID` as its 128-bit number, and `str(uuid)`.
use Prim.Native.Nat.{ℕ, zero, suc, ◌+◌, ◌/◌, ◌%◌, ◌^◌}
use mathlib.Core.Path.{◌≡◌, refl}
use mathlib.Core.Bool.{false}
use mathlib.Core.List.{[], ◌∷◌, ◌++◌}
use native.Mathlib.Omega.{arith}
use yeoun_ai.Base.Tests.{ltb, if◌then◌else◌}
use yeoun_ai.Base.Equality.{◌==◌, nat_eq}
use yeoun_ai.Base.Lists.{All, All-append}
use yeoun_ai.Base.Text.{Text, codes}

abbrev pub Uuid : Type 0
Uuid = ℕ

hex_digit : ℕ → ℕ
hex_digit d = if ltb d 10 then 48 + d else 87 + d

-- The last `k` hexadecimal digits of `n`.
pub hex : ℕ → ℕ → Text
unfolding hex_digit
hex zero n = []
hex (suc k) n = hex_digit (n / 16 ^ k % 16) ∷ hex k n

-- `str(u)`: groups of 8, 4, 4, 4 and 12 digits.
unfoldable pub str_uuid : Uuid → Text
unfolding hex
str_uuid u =
    hex 8 (u / 16 ^ 24)
    ++ (b'-'
        ∷ (hex 4 (u / 16 ^ 20)
            ++ (b'-'
                ∷ (hex 4 (u / 16 ^ 16) ++ (b'-' ∷ (hex 4 (u / 16 ^ 12) ++ (b'-' ∷ hex 12 u)))))))

-- A character that takes a path apart.
abbrev pub NotSlash : ℕ → Type 0
NotSlash c = (c == b'/') ≡ false

NotSlash-hex_digit : (d : ℕ) → NotSlash (hex_digit d)
unfolding hex_digit
NotSlash-hex_digit d = ground arith

pub All-hex : (k n : ℕ) → All NotSlash (hex k n)
unfolding hex
All-hex zero n = tt
All-hex (suc k) n = (NotSlash-hex_digit (n / 16 ^ k % 16), All-hex k n)

group : (k n : ℕ) (t : Text) → All NotSlash t → All NotSlash (hex k n ++ (b'-' ∷ t))
group k n t h = All-append NotSlash (hex k n) (b'-' ∷ t) (All-hex k n) (ground arith, h)

pub All-str_uuid : (u : Uuid) → All NotSlash (str_uuid u)
unfolding str_uuid
All-str_uuid u =
    let t12 : Text = hex 4 (u / 16 ^ 12) ++ (b'-' ∷ hex 12 u) in
    let t16 : Text = hex 4 (u / 16 ^ 16) ++ (b'-' ∷ t12) in
    let t20 : Text = hex 4 (u / 16 ^ 20) ++ (b'-' ∷ t16) in
    group 8 (u / 16 ^ 24) t20 (
      group 4 (u / 16 ^ 20) t16
        (group 4 (u / 16 ^ 16) t12 (group 4 (u / 16 ^ 12) (hex 12 u) (All-hex 12 u))))

-- The first character is a digit or a letter.
pub str_uuid_head : (u : Uuid) → (c : ℕ) × (t : Text) × (str_uuid u ≡ c ∷ t) × ((c == b'.') ≡ false)
unfolding str_uuid
str_uuid_head u = (_, _, refl, ground arith)

str_uuid_run :
    str_uuid 0x123e4567e89b12d3a456426614174000 ≡ codes "123e4567-e89b-12d3-a456-426614174000"
unfolding str_uuid
str_uuid_run = refl
