-- ===== src/Common/Errors.antt =====
-- `apiError` and the calls that may return one.
use Prim.Native.Nat.{ℕ}
use Prim.Native.String.{String}
use mathlib.Core.Path.{◌≡◌, refl}
use mathlib.Core.Logic.{◌⊎◌, inl, inr}
use mathlib.Core.Bool.{Bool, true, false}
use lite_api.Common.Tests.{Text, codes}

pub record ApiError : Type 0 where
  pub status : ℕ
  pub message : Text

unfoldable pub api_error : ℕ → String → ApiError
api_error code text = record { status = code; message = codes text }

pub data Result {ℓ} (X : Type ℓ) : Type ℓ where
  ok : X → Result X
  err : ApiError → Result X

unfoldable pub bad : String → ApiError
unfolding api_error
bad text = api_error 400 text

infixl 5 ◌>>=◌ ◌>>◌
abbrev pub ◌>>=◌ {ℓ κ} : {X : Type ℓ} {Y : Type κ} → Result X → (X → Result Y) → Result Y
err failure >>= next = err failure
ok x >>= next = next x

unfoldable pub conflict : String → ApiError
unfolding api_error
conflict text = api_error 409 text

-- `if test { return e }`.
abbrev pub fail_if : Bool → ApiError → Result (Unit {0})
fail_if false e = ok tt
fail_if true e = err e

abbrev pub ◌>>◌ {ℓ} : {Y : Type ℓ} → Result (Unit {0}) → Result Y → Result Y
check >> rest = check >>= λ _. rest

pub >>=-eq-ok {ℓ κ} :
    {A : Type ℓ} {B : Type κ} (call : Result A) (next : A → Result B) {b : B}
    → (call >>= next) ≡ ok b
    → (a : A) × (call ≡ ok a) × (next a ≡ ok b)
>>=-eq-ok (ok a) f h = (a, refl, h)
>>=-eq-ok (err e) f h = cc

pub fail_if-eq-ok {ℓ} :
    {B : Type ℓ} (t : Bool) (e : ApiError) (k : Result B) {b : B}
    → (fail_if t e >> k) ≡ ok b
    → (t ≡ false) × (k ≡ ok b)
fail_if-eq-ok true e k h = cc
fail_if-eq-ok false e k h = (refl, h)

pub Result-cases {ℓ} :
    {A : Type ℓ} (r : Result A) → ((a : A) × (r ≡ ok a)) ⊎ ((e : ApiError) × (r ≡ err e))
Result-cases (ok a) = inl (a, refl)
Result-cases (err e) = inr (e, refl)
