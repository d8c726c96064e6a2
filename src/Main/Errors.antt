-- ===== src/Main/Errors.antt =====
-- The exception handlers of app/main.py, which put each error into the envelope.
use yeoun_ai.Base.{ℕ, ◌≡◌, refl, Option, none, some, List, [], ◌∷◌, nat_eq, if◌then◌else◌}
use yeoun_ai.Base.Text.{Text, codes, is_empty}
use yeoun_ai.Base.Dict
use yeoun_ai.Base.Dict.{Dict}
use yeoun_ai.Base.Exec.{Exception}
use yeoun_ai.Schemas
use yeoun_ai.Schemas.{Envelope}

-- `exc.detail`: a dict with a code and a message, or anything else with its `str`, which is empty for a
-- detail that counts as false.
pub data Detail : Type 0 where
  coded : Text → Text → Detail
  plain : Text → Detail

-- Starlette's `HTTPException`
pub record HttpException : Type 0 where
  pub status_code : ℕ
  pub detail : Detail
  pub headers : List (Text × Text)

-- A `JSONResponse`
pub record Response : Type 0 where
  pub status_code : ℕ
  pub content : Envelope (Unit {0})
  pub headers : List (Text × Text)

-- `_STATUS_CODE_TO_ERROR_CODE`
abbrev pub status_code_to_error_code : Dict ℕ Text
status_code_to_error_code =
    (400, codes "BAD_REQUEST")
    ∷ (401, codes "UNAUTHORIZED")
    ∷ (403, codes "FORBIDDEN")
    ∷ (404, codes "NOT_FOUND")
    ∷ (405, codes "METHOD_NOT_ALLOWED")
    ∷ (409, codes "CONFLICT")
    ∷ (422, codes "VALIDATION_ERROR")
    ∷ (429, codes "TOO_MANY_REQUESTS")
    ∷ (500, codes "INTERNAL_ERROR")
    ∷ (503, codes "SERVICE_UNAVAILABLE")
    ∷ []

-- `_STATUS_CODE_TO_ERROR_CODE.get(status_code, "ERROR")`
abbrev pub or_error : Option Text → Text
or_error none = codes "ERROR"
or_error (some code) = code

abbrev pub envelope_of : Text → Detail → Envelope (Unit {0})
envelope_of default_code (coded code message) = Schemas.fail code message
envelope_of default_code (plain text) =
    Schemas.fail default_code (if is_empty text then default_code else text)

unfoldable pub http_exception_handler : HttpException → Response
http_exception_handler exc = record {
  status_code = exc.status_code;
  content =
      envelope_of (or_error (Dict.lookup exc.status_code status_code_to_error_code)) exc.detail;
  headers = exc.headers;
}

unfoldable pub validation_exception_handler : Response
validation_exception_handler = record {
  status_code = 422;
  content = Schemas.fail (codes "VALIDATION_ERROR") (codes "요청 본문 검증에 실패했습니다.");
  headers = [];
}

-- The exception is logged, and not shown.
unfoldable pub unhandled_exception_handler : Exception → Response
unhandled_exception_handler exc = record {
  status_code = 500;
  content = Schemas.fail (codes "INTERNAL_ERROR") (codes "서버 내부 오류가 발생했습니다.");
  headers = [];
}

unknown_status :
    (http_exception_handler (record { status_code = 418; detail = plain []; headers = [] })).content
    ≡ Schemas.fail (codes "ERROR") (codes "ERROR")
unfolding http_exception_handler Dict.lookup nat_eq
unknown_status = refl
