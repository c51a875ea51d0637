-- ===== src/Billing/Services/Sessions.antt =====
-- The hosted sessions of core/core/saasmint_core/services/billing.py: checkout and customer portal.
use text.Mathlib.Text.{◌==◌ as str_eq}
use saasmint.Base.{ℕ, Option, none, String}
use saasmint.Json.{Value, Entries}
use saasmint.Stripe.{
  Stripe, Service, subscription_mode, payment_mode, checkout_session_create, portal_session_create,
  request, attribute, lift, ◌>>=◌,
}

-- `create_checkout_session`. The promotion codes, the automatic tax, the collection of tax ids and of the
-- address are asked for in every session.
unfoldable pub create_checkout_session :
    Stripe
    → (customer : Value) (price client_reference_id billing_currency : String) (quantity : ℕ)
    → (locale success_url cancel_url : String) (trial_period_days : Option ℕ)
    → (metadata : Option Entries) → Service Value
unfolding request attribute
create_checkout_session stripe customer price client currency quantity locale success cancel trial
      metadata =
    do
      session ← request stripe (
          checkout_session_create (record {
            customer = customer;
            client_reference_id = client;
            mode = subscription_mode;
            price = price;
            quantity = quantity;
            locale = locale;
            success_url = success;
            cancel_url = cancel;
            adaptive_pricing = str_eq currency "usd";
            trial_period_days = trial;
            metadata = metadata;
          }))
      lift (attribute "url" session)

-- `create_product_checkout_session`
unfoldable pub create_product_checkout_session :
    Stripe
    → (customer : Value) (price client_reference_id billing_currency : String)
    → (locale success_url cancel_url : String) (metadata : Option Entries) → Service Value
unfolding request attribute
create_product_checkout_session stripe customer price client currency locale success cancel
      metadata =
    do
      session ← request stripe (
          checkout_session_create (record {
            customer = customer;
            client_reference_id = client;
            mode = payment_mode;
            price = price;
            quantity = 1;
            locale = locale;
            success_url = success;
            cancel_url = cancel;
            adaptive_pricing = str_eq currency "usd";
            trial_period_days = none;
            metadata = metadata;
          }))
      lift (attribute "url" session)

-- `create_billing_portal_session`; no call gives it `flow_data`.
unfoldable pub create_billing_portal_session :
    Stripe → (customer locale return_url : String) → Service Value
unfolding request attribute
create_billing_portal_session stripe customer locale return_url = do
  session ← request stripe (portal_session_create customer locale return_url)
  lift (attribute "url" session)
