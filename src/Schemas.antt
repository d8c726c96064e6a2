-- ===== src/Schemas.antt =====
-- app/schemas/common.py: the envelope of every answer that is no stream.
use yeoun_ai.Base.{Bool, true, false, Option, none, some}
use yeoun_ai.Base.Text.{Text}

pub record ErrorBody : Type 0 where
  pub code : Text
  pub message : Text

-- The field `data` is called `payload`.
pub record Envelope {ℓ} (A : Type ℓ) : Type ℓ where
  pub success : Bool
  pub payload : Option A
  pub error : Option ErrorBody

abbrev pub ok {ℓ} : {A : Type ℓ} → A → Envelope A
ok payload = record { success = true; payload = some payload; error = none }

abbrev pub fail {ℓ} : {A : Type ℓ} → Text → Text → Envelope A
fail code message = record {
  success = false;
  payload = none;
  error = some (record { code = code; message = message });
}
