-- ===== src/Common/Python.antt =====
-- Python's exceptions as values, and methods that change an object and may raise. What was
-- written before a raise stays written, so the state comes back beside the exception too.
use Prim.Native.String.{String}
use mathlib.Core.Bool.{Bool, true, false}
use mathlib.Core.Option.{Option, none, some}
use mathlib.Core.Path.{◌≡◌, refl}
use mathlib.Core.Logic.{◌⊎◌, inl, inr}

pub data Error : Type 0 where
  -- `KeyError`, with the missing key
  key_error : String → Error
  -- `AssertionError`
  assertion_error : Error
  -- `ValueError`, raised by the code or by a decoder
  value_error : String → Error
  -- `IndexError`
  index_error : Error
  -- `AttributeError`, such as an attribute of `None`
  attribute_error : Error
  -- `OSError` and its subclasses
  os_error : Error
  -- `Exception(text)`
  exception : String → Error
  -- `InvalidSignature` of the cryptography package
  invalid_signature : Error
  -- `VerifyError` of x509_cert.py
  verify_error : String → Error
  -- `ApiError(subject_code, reason_code, message)` of osmo-smdpp.py
  api_error : String → String → String → Error

pub data Result {ℓ} (A : Type ℓ) : Type ℓ where
  err : Error → Result A
  ok : A → Result A

-- `if c: raise e`
abbrev pub raise_if : Bool → Error → Result (Unit {0})
raise_if true e = err e
raise_if false e = ok tt

-- `d[key]` where the value may be missing
abbrev pub required {ℓ} : {A : Type ℓ} → Error → Option A → Result A
required e none = err e
required e (some a) = ok a

-- `d.get(key, default)`
abbrev pub get_or {ℓ} : {A : Type ℓ} → Option A → A → A
get_or none d = d
get_or (some a) d = a

-- What runs next when a step has returned; modules that chain states too rename these.
infixl 5 ◌>>=◌ ◌>>◌
abbrev pub ◌>>=◌ {κ ℓ} : {V : Type κ} {W : Type ℓ} → Result V → (V → Result W) → Result W
err e >>= next = err e
ok v >>= next = next v

abbrev pub ◌>>◌ {ℓ} : {W : Type ℓ} → Result (Unit {0}) → Result W → Result W
step >> rest = step >>= λ _. rest

pub ok-injective {ℓ} : {A : Type ℓ} {a b : A} → ok a ≡ ok b → a ≡ b
ok-injective h = cc

-- A chain that returned: its first step returned, and what runs next did on that value.
pub >>=-eq-ok {κ ℓ} :
    {V : Type κ} {W : Type ℓ} (step : Result V) (next : V → Result W) {w : W}
    → (step >>= next) ≡ ok w
    → (v : V) × (step ≡ ok v) × (next v ≡ ok w)
>>=-eq-ok (err e) next h = absurd (cc)
>>=-eq-ok (ok v) next h = (v, refl, h)

pub required-eq-ok {ℓ} :
    {A : Type ℓ} (e : Error) (o : Option A) {a : A} → required e o ≡ ok a → o ≡ some a
required-eq-ok e none h = absurd (cc)
required-eq-ok e (some x) h = cc

pub err-ne-ok {ℓ} : {A : Type ℓ} {e : Error} {a : A} → err e ≡ ok a → ⊥
err-ne-ok h = cc

pub Result-cases {ℓ} :
    {A : Type ℓ} (r : Result A) → ((a : A) × (r ≡ ok a)) ⊎ ((e : Error) × (r ≡ err e))
Result-cases (ok a) = inl (a, refl)
Result-cases (err e) = inr (e, refl)
