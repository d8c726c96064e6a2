-- ===== src/Base/Exec.antt =====
-- Python's exceptions as values, and methods that change a state and may raise. What was written
-- before a raise stays written, so the state comes back beside the exception too.
use Prim.Native.Nat.{ℕ}
use mathlib.Core.Option.{Option, none}
use mathlib.Core.Path.{◌≡◌, refl, ap}
use mathlib.Core.Logic.{◌⊎◌, inl, inr}
use mathlib.Core.Bool.{Bool, true, false}
use yeoun_ai.Base.Text.{Text, codes}

-- `HTTPException(status_code, detail={"code": ...}, headers={"Retry-After" | "Content-Range"})`,
-- without the text for the operator.
pub record HttpError : Type 0 where
  pub status_code : ℕ
  pub code : Text
  pub header : Option Text

pub data Exception : Type 0 where
  http_exception : HttpError → Exception
  permission_error file_not_found_error os_error runtime_error face_detection_error :
      Text → Exception
  -- any other subclass of `Exception`: the name of the class, and the message
  other_error : Text → Text → Exception
  -- `asyncio.CancelledError`, which is no `Exception`
  cancelled_error : Exception

-- `type(exc).__name__`
unfoldable pub type_name : Exception → Text
type_name (http_exception e) = codes "HTTPException"
type_name (permission_error m) = codes "PermissionError"
type_name (file_not_found_error m) = codes "FileNotFoundError"
type_name (os_error m) = codes "OSError"
type_name (runtime_error m) = codes "RuntimeError"
type_name (face_detection_error m) = codes "FaceDetectionError"
type_name (other_error n m) = n
type_name cancelled_error = codes "CancelledError"

-- `str(exc)`
unfoldable pub message : Exception → Text
message (http_exception e) = e.code
message (permission_error m) = m
message (file_not_found_error m) = m
message (os_error m) = m
message (runtime_error m) = m
message (face_detection_error m) = m
message (other_error n m) = m
message cancelled_error = codes ""

-- `except OSError`
unfoldable pub is_os_error : Exception → Bool
is_os_error (permission_error m) = true
is_os_error (file_not_found_error m) = true
is_os_error (os_error m) = true
is_os_error _ = false

pub data Result {ℓ} (A : Type ℓ) : Type ℓ where
  ok : A → Result A
  raise : Exception → Result A

abbrev pub Exec {ℓ} : Type ℓ → Type ℓ → Type ℓ
Exec S A = S → Result A × S

module _ {ℓ} {S A : Type ℓ} where
  abbrev pub pure : A → Exec S A
  pure a s = (ok a, s)

  abbrev pub throw : Exception → Exec S A
  throw e s = (raise e, s)

  abbrev pub lift : Result A → Exec S A
  lift r s = (r, s)

  abbrev pub gets : (S → A) → Exec S A
  gets f s = (ok (f s), s)

abbrev pub modify : {S : Type 0} → (S → S) → Exec S (Unit {0})
modify f s = (ok tt, f s)

module _ {ℓ} {S A B : Type ℓ} where
  abbrev continue : Result A → (A → Exec S B) → Exec S B
  continue (ok a) f s = f a s
  continue (raise e) f s = (raise e, s)

  infixl 10 ◌>>=◌ ◌>>◌
  abbrev pub ◌>>=◌ : Exec S A → (A → Exec S B) → Exec S B
  ◌>>=◌ m f s = let (r, s') = m s in continue r f s'

  abbrev pub ◌>>◌ : Exec S A → Exec S B → Exec S B
  m >> n = m >>= λ _. n

abbrev pub http : ℕ → Text → Exception
http status code = http_exception (record { status_code = status; code = code; header = none })

continue-ok :
    {S : Type 0} (n : Exec S (Unit {0})) (r : Result (Unit {0})) (s : S)
    → (continue r (λ _. n) s).0 ≡ ok tt
    → (r ≡ ok tt) × (continue r (λ _. n) s ≡ n s)
continue-ok n (ok tt) s h = (refl, refl)
continue-ok n (raise e) s h = cc

-- A sequence that returns has run its first part to the end, and goes on from there.
pub >>-eq-ok :
    {S : Type 0} (m n : Exec S (Unit {0})) (s : S)
    → ((m >> n) s).0 ≡ ok tt
    → ((m s).0 ≡ ok tt) × ((m >> n) s ≡ n (m s).1)
>>-eq-ok m n s h = continue-ok n (m s).0 (m s).1 h

pub Result-cases {ℓ} :
    {A : Type ℓ} (r : Result A) → ((a : A) × (r ≡ ok a)) ⊎ ((e : Exception) × (r ≡ raise e))
Result-cases (ok a) = inl (a, refl)
Result-cases (raise e) = inr (e, refl)

continue-post :
    {S A : Type 0} (P : S → Type 0) (f : A → Exec S (Unit {0})) (r : Result A) (s : S)
    → ((a : A) (s' : S) → (f a s').0 ≡ ok tt → P (f a s').1)
    → (continue r f s).0 ≡ ok tt
    → P (continue r f s).1
continue-post P f (ok a) s h e = h a s e
continue-post P f (raise x) s h e = cc

-- What holds after the second part of a sequence that returns, whatever it starts from, holds after
-- the sequence.
pub >>=-post :
    {S A : Type 0} (P : S → Type 0) (m : Exec S A) (f : A → Exec S (Unit {0})) (s : S)
    → ((a : A) (s' : S) → (f a s').0 ≡ ok tt → P (f a s').1)
    → ((m >>= f) s).0 ≡ ok tt
    → P ((m >>= f) s).1
>>=-post P m f s h e = continue-post P f (m s).0 (m s).1 h e

continue-keeps :
    {S A B : Type 0} (P : S → Type 0) (f : A → Exec S B) (r : Result A) (s : S)
    → ((a : A) (s' : S) → P s' → P (f a s').1)
    → P s
    → P (continue r f s).1
continue-keeps P f (ok a) s h p = h a s p
continue-keeps P f (raise x) s h p = p

-- A sequence keeps what its two parts keep.
pub >>=-keeps :
    {S A B : Type 0} (P : S → Type 0) (m : Exec S A) (f : A → Exec S B)
    → ((s : S) → P s → P (m s).1)
    → ((a : A) (s : S) → P s → P (f a s).1)
    → (s : S) → P s
    → P ((m >>= f) s).1
>>=-keeps P m f hm hf s p = continue-keeps P f (m s).0 (m s).1 hf (hm s p)

-- A sequence whose first part is known to return goes on with its value.
pub >>=-ok :
    {S A B : Type 0} (m : Exec S A) (f : A → Exec S B) (s : S) {a : A} {s' : S}
    → m s ≡ (ok a, s')
    → (m >>= f) s ≡ f a s'
>>=-ok m f s e = ap (λ (p : Result _ × _). continue p.0 f p.1) e

-- A sequence whose first part raises stops there.
pub >>=-raise :
    {S A B : Type 0} (m : Exec S A) (f : A → Exec S B) (s : S) {e : Exception} {s' : S}
    → m s ≡ (raise e, s')
    → (m >>= f) s ≡ (raise e, s')
>>=-raise m f s h = ap (λ (p : Result _ × _). continue p.0 f p.1) h

continue-eq-ok :
    {S A B : Type 0} (f : A → Exec S B) (r : Result A) (s : S) (b : B)
    → (continue r f s).0 ≡ ok b
    → (a : A) × (r ≡ ok a) × (continue r f s ≡ f a s)
continue-eq-ok f (ok a) s b h = (a, refl, refl)
continue-eq-ok f (raise e) s b h = cc

-- The two parts of a sequence that returns.
pub >>=-eq-ok :
    {S A B : Type 0} (m : Exec S A) (f : A → Exec S B) (s : S) (b : B)
    → ((m >>= f) s).0 ≡ ok b
    → (a : A) × ((m s).0 ≡ ok a) × ((m >>= f) s ≡ f a (m s).1)
>>=-eq-ok m f s b h = continue-eq-ok f (m s).0 (m s).1 b h

continue-pure :
    {S A : Type 0} (r : Result (Unit {0})) (s : S) (a b : A)
    → (continue r (λ _ s'. (ok a, s')) s).0 ≡ ok b
    → (r ≡ ok tt) × (a ≡ b) × ((continue r (λ _ s'. (ok a, s')) s).1 ≡ s)
continue-pure (ok tt) s a b h = (refl, cc, refl)
continue-pure (raise e) s a b h = cc

-- A sequence that ends with a value and returns.
pub >>-pure-ok :
    {S A : Type 0} (m : Exec S (Unit {0})) (s : S) (a b : A)
    → ((m >>= (λ _ s'. (ok a, s'))) s).0 ≡ ok b
    → ((m s).0 ≡ ok tt) × (a ≡ b) × (((m >>= (λ _ s'. (ok a, s'))) s).1 ≡ (m s).1)
>>-pure-ok m s a b h = continue-pure (m s).0 (m s).1 a b h

continue-rule :
    {S A B : Type 0} (P : Result B × S → Type 0) (f : A → Exec S B) (r : Result A) (s : S)
    → ((e : Exception) → P (raise e, s))
    → ((a : A) → P (f a s))
    → P (continue r f s)
continue-rule P f (ok a) s hr ho = ho a
continue-rule P f (raise e) s hr ho = hr e

-- What holds of a sequence where its first part raises, and where it returns.
pub >>=-rule :
    {S A B : Type 0} (P : Result B × S → Type 0) (m : Exec S A) (f : A → Exec S B) (s : S)
    → ((e : Exception) → P (raise e, (m s).1))
    → ((a : A) → P (f a (m s).1))
    → P ((m >>= f) s)
>>=-rule P m f s hr ho = continue-rule P f (m s).0 (m s).1 hr ho
