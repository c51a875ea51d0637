-- ===== src/Billing/Webhooks/Checkout.antt =====
-- The checkout handlers: `_on_checkout_completed` and `_on_product_checkout_completed`. Each first reads
-- its arguments out of the payload, and returns early where one is missing; then it calls its callback.
use saasmint.Base.{Bool, Option, none, some, String, if◌then◌else◌}
use saasmint.Domain.{Uuid}
use saasmint.Json.{Value, bool}
use saasmint.Json.Access.{get, get_default, truthy, or_else, equals_text, empty_object}
use saasmint.Database.{Action}
use saasmint.Database.Result.{Result, ok, err, value_error, ◌>>=◌}
use saasmint.Billing.Env.{Env, Texts, to_text, to_uuid}

-- The arguments of the callback for a team checkout, in the order of the source. The org name, the live
-- mode and the subscription are passed on as they stand in the payload.
pub record TeamCheckout : Type 0 where
  pub user_id : Uuid
  pub org_name : Value
  pub stripe_customer_id : String
  pub livemode : Value
  pub subscription_id : Value
  pub keep_personal : Bool

pub record ProductCheckout : Type 0 where
  pub stripe_session_id : String
  pub product_id : Uuid
  pub user_id : Uuid
  pub org_id : Option Uuid

abbrev pub OnTeamCheckout : Type 0
OnTeamCheckout = TeamCheckout → Action (Unit {0})

abbrev pub OnProductCheckout : Type 0
OnProductCheckout = ProductCheckout → Action (Unit {0})

-- `except ValueError: return`; `none` stands for the early return.
abbrev skip_on_value_error {ℓ} :
    {A B : Type ℓ} → Result A → (A → Result (Option B)) → Result (Option B)
skip_on_value_error (ok a) k = k a
skip_on_value_error (err value_error) k = ok none
skip_on_value_error (err other) k = err other

-- `if not value: return`
abbrev unless_missing {ℓ} : {B : Type ℓ} → Value → Result (Option B) → Result (Option B)
unless_missing v k = if truthy v then k else ok none

-- `UUID(product_ref), UUID(client_ref)`
abbrev two_uuids : Texts → Value → Value → Result (Uuid × Uuid)
two_uuids t a b = do u ← to_uuid t a; v ← to_uuid t b; ok (u, v)

-- `UUID(org_ref) if org_ref else None`
abbrev optional_uuid : Texts → Value → Result (Option Uuid)
optional_uuid t v = if truthy v then (to_uuid t v >>= λ u. ok (some u)) else ok none

-- The part of `_on_product_checkout_completed` before its callback.
unfoldable pub read_product_checkout : Texts → Value → Result (Option ProductCheckout)
unfolding get truthy or_else to_uuid to_text
read_product_checkout t session_data = do
  session_id ← get "id" session_data
  unless_missing session_id do
    raw_metadata ← get "metadata" session_data
    let metadata = or_else raw_metadata empty_object
    product_ref ← get "product_id" metadata
    unless_missing product_ref do
      client_ref ← get "client_reference_id" session_data
      unless_missing client_ref (
          skip_on_value_error (two_uuids t product_ref client_ref) λ (product_id, user_id). do
            org_ref ← get "org_id" metadata
            skip_on_value_error (optional_uuid t org_ref) λ org_id. ok (
                some (record {
                  stripe_session_id = to_text t session_id;
                  product_id = product_id;
                  user_id = user_id;
                  org_id = org_id;
                })))

-- The part of `_on_checkout_completed` for a subscription session, before its callback.
unfoldable pub read_team_checkout : Texts → Value → Result (Option TeamCheckout)
unfolding get get_default truthy or_else to_uuid to_text equals_text
read_team_checkout t session_data = do
  raw_metadata ← get "metadata" session_data
  let metadata = or_else raw_metadata empty_object
  org_name ← get "org_name" metadata
  unless_missing org_name do
    client_ref ← get "client_reference_id" session_data
    unless_missing client_ref do
      user_id ← to_uuid t client_ref
      customer ← get "customer" session_data
      unless_missing customer do
        subscription_id ← get "subscription" session_data
        livemode ← get_default "livemode" (bool Bool.false) session_data
        kept ← get "keep_personal_subscription" metadata
        ok (
            some (record {
              user_id = user_id;
              org_name = org_name;
              stripe_customer_id = to_text t customer;
              livemode = livemode;
              subscription_id = subscription_id;
              keep_personal = equals_text "true" kept;
            }))

-- The call of a callback, where one is registered, with the arguments that were read.
abbrev pub call_back {ℓ} :
    {A : Type ℓ} → Option (A → Action (Unit {0})) → Result (Option A) → Action (Unit {0})
call_back callback (err x) db = (err x, db)
call_back callback (ok none) db = (ok tt, db)
call_back none (ok (some a)) db = (ok tt, db)
call_back (some f) (ok (some a)) db = f a db

-- `_on_product_checkout_completed`
unfoldable pub on_product_checkout_completed :
    Env → Option OnProductCheckout → Value → Action (Unit {0})
unfolding read_product_checkout
on_product_checkout_completed e callback session_data =
    call_back callback (read_product_checkout e.texts session_data)

-- `_on_checkout_completed`
unfoldable pub on_checkout_completed :
    Env → Option OnTeamCheckout → Option OnProductCheckout → Value → Action (Unit {0})
unfolding get equals_text on_product_checkout_completed read_team_checkout
on_checkout_completed e on_team on_product session_data db = elim (get "mode" session_data) [
  | err x ↦ (err x, db)
  | ok mode ↦
      (if equals_text "payment" mode
          then on_product_checkout_completed e on_product session_data
          else call_back on_team (read_team_checkout e.texts session_data))
        db
]
