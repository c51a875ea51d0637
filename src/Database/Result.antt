-- ===== src/Database/Result.antt =====
-- Exceptions: the outcomes of a step that may raise, and its `do` notation.
use saasmint.Base.{◌≡◌, refl, Bool, true, false, ◌⊎◌, inl, inr}

-- `domain` errors of core/core/saasmint_core/exceptions, HTTP errors that the views raise, and the
-- errors of Python, Django and the Stripe SDK.
pub data Error : Type 0 where
  webhook_data_error subscription_not_found user_not_found org_not_found : Error
  insufficient_permission seats_below_member_count seat_cap_reached_at_accept : Error
  stripe_error resource_missing connection_error operational_error integrity_error does_not_exist :
      Error
  key_error type_error attribute_error value_error index_error : Error
  not_found gone conflict permission_denied validation_error authentication_failed : Error
  email_exists invalid_credentials account_deactivated invalid_password password_required : Error
  email_not_verified : Error
  invalid_token token_revoked token_expired token_used inactive_user : Error

pub data Result {ℓ} (A : Type ℓ) : Type ℓ where
  ok : A → Result A
  err : Error → Result A

infixl 5 ◌>>=◌ ◌>>◌
abbrev pub ◌>>=◌ {ℓ κ} : {A : Type ℓ} {B : Type κ} → Result A → (A → Result B) → Result B
ok a >>= f = f a
err e >>= f = err e

abbrev pub ◌>>◌ {ℓ κ} : {A : Type ℓ} {B : Type κ} → Result A → Result B → Result B
m >> k = m >>= λ _. k

abbrev pub and_then {ℓ κ} : {A : Type ℓ} {B : Type κ} → Result A → (A → Result B) → Result B
and_then m f = m >>= f

abbrev pub raise_if : Bool → Error → Result (Unit {0})
raise_if true e = err e
raise_if false e = ok tt

pub >>=-eq-ok {ℓ κ} :
    {A : Type ℓ} {B : Type κ} (m : Result A) (f : A → Result B) (b : B)
    → (m >>= f) ≡ ok b
    → (a : A) × (m ≡ ok a) × (f a ≡ ok b)
>>=-eq-ok (ok a) f b h = (a, refl, h)
>>=-eq-ok (err e) f b h = cc

pub Result-cases {ℓ} :
    {A : Type ℓ} (r : Result A) → ((a : A) × (r ≡ ok a)) ⊎ ((e : Error) × (r ≡ err e))
Result-cases (ok a) = inl (a, refl)
Result-cases (err e) = inr (e, refl)
