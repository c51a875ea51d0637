-- ===== src/Billing/Views/Checkout.antt =====
-- The views of core/apps/billing/views.py that open a hosted session: `CheckoutSessionView`,
-- `ProductCheckoutSessionView` and `PortalSessionView`. The URLs of a body are validated by its serializer.
pub mod Completed
pub mod Examples
use text.Mathlib.Text.{◌==◌ as str_eq}
use saasmint.Base.{
  ℕ, Bool, true, false, not, ◌&&◌, Option, none, some, List, String, ◌==◌, leb, if◌then◌else◌,
  get_or, any, find, keep,
}
use saasmint.Domain.{
  Uuid, PlanContext, personal, team, PlanPrice, Product, OrgMember, OrgRole, StripeCustomer, User,
}
use saasmint.Json.{Value, str, Entries, end, entry}
use saasmint.Database.{Db}
use saasmint.Database.Result as R
use saasmint.Database.Result.{Result, ok, err, Error, raise_if}
use saasmint.Stripe.{Stripe, Service, pure, raise, lift, gets, ◌>>=◌, ◌>>◌}
use saasmint.Prices.Catalog.{Catalog, ProductPrice, plan_price, product_price}
use saasmint.Orgs.Roles.{is_owner}
use saasmint.Billing.Env.{Env, Texts}
use saasmint.Billing.Services.Customer.{get_or_create_customer, create_team_stripe_customer}
use saasmint.Billing.Services.Sessions.{
  create_checkout_session, create_product_checkout_session, create_billing_portal_session,
}
use saasmint.Billing.Views.{
  Keys, first, is_of_user, validate_subscription_context, default_subscription_context,
  require_billing_authority, resolve_billing_customer,
}
use saasmint.Billing.Views.Checks.{
  is_seat_limit, plan_of, get_active_plan_price, validate_quantity_for_context,
}
use saasmint.Billing.Views.Pricing.{
  PythonText, PricingRequest, Preferences, resolve_billing_currency, resolve_checkout_price,
}

-- The user with the preferences, of which the locale has a default.
pub record Caller : Type 0 where
  pub user : User
  pub locale : String
  pub currency : Option String

abbrev pub preferences_of : Caller → Preferences
preferences_of a = record { preferred_currency = a.currency; preferred_locale = some a.locale }

-- The body of a plan checkout.
pub record CheckoutRequest : Type 0 where
  pub plan_price_id : Uuid
  pub seat_limit : ℕ
  pub success_url : String
  pub cancel_url : String
  pub trial_period_days : Option ℕ
  pub org_name : Option String
  pub keep_personal_subscription : Bool

abbrev is_trial : Option ℕ → Bool
is_trial none = true
is_trial (some n) = leb 1 n && leb n 90

-- The bounds of `CheckoutRequestSerializer`.
unfoldable pub is_valid_checkout : CheckoutRequest → Bool
is_valid_checkout r = is_seat_limit (some r.seat_limit) && is_trial r.trial_period_days

-- `_validate_team_checkout`
unfoldable pub validate_team_checkout : Uuid → (org_name : Option String) → Db → Result (Unit {0})
validate_team_checkout user_id org_name db =
    if any (λ (m : OrgMember). m.user_id == user_id && is_owner m.role) db.members
    then err Error.conflict
    else elim org_name [ none ↦ err Error.validation_error | some n ↦ ok tt ]

-- `_build_checkout_metadata`
unfoldable pub build_checkout_metadata :
    PlanContext → (org_name : Option String) (keep_personal : Bool) → Result (Option Entries)
build_checkout_metadata personal org_name keep_personal = ok none
build_checkout_metadata team none keep_personal = err Error.key_error
build_checkout_metadata team (some n) keep_personal = ok (
    some (
      entry "org_name" (str n)
        (entry "keep_personal_subscription" (str (if keep_personal then "true" else "false")) end)))

-- `_resolve_product_purchase_context`
unfoldable pub resolve_product_purchase_context :
    Keys → Uuid → Option PlanContext → Db → Result (Option Uuid)
unfolding first
resolve_product_purchase_context key user_id context db =
    let membership = first key (keep (is_of_user user_id) db.members) in
    let default : PlanContext = elim membership [ none ↦ personal | some m ↦ team ] in
    elim (get_or context default) [
      | personal ↦ ok none
      | team ↦ elim membership [
        | none ↦ err Error.validation_error
        | some m ↦ if is_owner m.role then ok (some m.org_id) else err Error.permission_denied
      ]
    ]

-- `_get_active_product_price`
unfoldable pub get_active_product_price : Uuid → Catalog → Db → Result ProductPrice
get_active_product_price i c db =
    elim (find
      (λ (p : ProductPrice).
        p.id == i && any (λ (q : Product). q.id == p.product_id && q.is_active) db.products)
      c.product_prices) [ none ↦ err Error.not_found | some p ↦ ok p ]

-- The metadata of a product checkout.
unfoldable pub purchase_metadata : Texts → (product_id : Uuid) (org_id : Option Uuid) → Entries
purchase_metadata t product_id none = entry "product_id" (str (t.show_uuid product_id)) end
purchase_metadata t product_id (some o) =
    entry "product_id" (str (t.show_uuid product_id)) (entry "org_id" (str (t.show_uuid o)) end)

-- What the session is charged for: the price, the currency, and the number of seats.
pub record Charge : Type 0 where
  pub price_id : String
  pub currency : String
  pub quantity : ℕ
  pub context : PlanContext

module _ (t : PythonText) (billing : List String) (e : Env) (stripe : Stripe) (row_id : Uuid)
    (c : Catalog) (key : Keys) (a : Caller) (q : PricingRequest) where
  -- The part of `CheckoutSessionView.post` before the team checks.
  unfoldable pub checkout_charge : CheckoutRequest → Result Charge
  unfolding resolve_billing_currency get_active_plan_price validate_quantity_for_context
      resolve_checkout_price
  checkout_charge r = R.and_then (resolve_billing_currency t billing q.currency a.currency) λ _.
      R.and_then (get_active_plan_price r.plan_price_id c) λ price. elim (plan_of price.plan_id c) [
        | none ↦ err Error.does_not_exist
        | some plan ↦
            R.and_then (validate_quantity_for_context plan.context r.seat_limit) λ quantity.
              R.and_then
                (resolve_checkout_price t billing q (preferences_of a) (plan_price price.id)
                  price.stripe_price_id c)
                λ (price_id, currency). ok (record {
                  price_id = price_id;
                  currency = currency;
                  quantity = quantity;
                  context = plan.context;
                })
      ]

  -- The Stripe customer of the checkout: a new one for a team, and the user's own for a person.
  unfoldable pub checkout_customer : PlanContext → Service Value
  unfolding create_team_stripe_customer get_or_create_customer
  checkout_customer team =
      create_team_stripe_customer e.texts stripe a.user.id a.user.email (some a.user.full_name)
        a.locale
  checkout_customer personal =
      get_or_create_customer e stripe row_id (some a.user.id) none a.user.email
        (some a.user.full_name) a.locale
      >>= λ customer. pure (str customer.stripe_id)

  abbrev pub check_team : PlanContext → CheckoutRequest → Db → Result (Unit {0})
  check_team personal r db = ok tt
  check_team team r db = validate_team_checkout a.user.id r.org_name db

  -- Orgs have no trial.
  abbrev pub trial_of : PlanContext → Option ℕ → Option ℕ
  trial_of personal days = days
  trial_of team days = none

  -- `CheckoutSessionView.post`, with the URL of the session.
  unfoldable pub post_checkout : CheckoutRequest → Service Value
  unfolding is_valid_checkout checkout_charge validate_team_checkout build_checkout_metadata
      checkout_customer create_checkout_session
  post_checkout r =
      lift (raise_if (not (is_valid_checkout r)) Error.validation_error)
      >> (lift (checkout_charge r) >>= λ charge. gets (check_team charge.context r) >>= λ checked.
          lift checked
          >> (lift (build_checkout_metadata charge.context r.org_name r.keep_personal_subscription)
              >>= λ metadata. checkout_customer charge.context >>= λ customer.
                  create_checkout_session stripe customer charge.price_id
                    (e.texts.show_uuid a.user.id) charge.currency charge.quantity a.locale
                    r.success_url r.cancel_url (trial_of charge.context r.trial_period_days)
                    metadata))

  -- The customer of a purchase.
  unfoldable pub purchase_customer : (org_id : Option Uuid) → Service StripeCustomer
  unfolding get_or_create_customer
  purchase_customer none =
      get_or_create_customer e stripe row_id (some a.user.id) none a.user.email
        (some a.user.full_name) a.locale
  purchase_customer (some o) =
      get_or_create_customer e stripe row_id none (some o) a.user.email (some a.user.full_name)
        a.locale

  -- `ProductCheckoutSessionView.post`
  unfoldable pub post_product_checkout :
      (context : Option String) (product_price_id : Uuid) (success_url cancel_url : String)
      → Service Value
  unfolding validate_subscription_context resolve_product_purchase_context resolve_billing_currency
      get_active_product_price resolve_checkout_price purchase_metadata purchase_customer
      create_product_checkout_session
  post_product_checkout query product_price_id success_url cancel_url =
      lift (validate_subscription_context query) >>= λ context.
      gets (resolve_product_purchase_context key a.user.id context) >>= λ resolved.
      lift resolved >>= λ org_id.
      lift (resolve_billing_currency t billing q.currency a.currency) >>= λ _.
      gets (get_active_product_price product_price_id c) >>= λ found. lift found >>= λ price.
      lift (
        resolve_checkout_price t billing q (preferences_of a) (product_price price.id)
          price.stripe_price_id c)
      >>= λ (price_id, currency). purchase_customer org_id >>= λ customer.
          create_product_checkout_session stripe (str customer.stripe_id) price_id
            (e.texts.show_uuid a.user.id) currency a.locale success_url cancel_url
            (some (purchase_metadata e.texts price.product_id org_id))

  -- The customer whose portal is opened.
  unfoldable pub portal_customer : PlanContext → Service String
  unfolding require_billing_authority resolve_billing_customer get_or_create_customer
  portal_customer personal =
      get_or_create_customer e stripe row_id (some a.user.id) none a.user.email
        (some a.user.full_name) a.locale
      >>= λ customer. pure customer.stripe_id
  portal_customer team = gets (require_billing_authority key a.user.id team) >>= λ resolved.
      lift resolved >>= λ org_id.
      gets (resolve_billing_customer key a.user.id (some team) org_id) >>= λ found. elim found [
        | none ↦ raise Error.not_found
        | some customer ↦ pure customer.stripe_id
      ]

  -- `PortalSessionView.post`
  unfoldable pub post_portal : (context : Option String) (return_url : String) → Service Value
  unfolding validate_subscription_context default_subscription_context portal_customer
      create_billing_portal_session
  post_portal query return_url = lift (validate_subscription_context query) >>= λ context.
      gets (default_subscription_context a.user.id) >>= λ default.
      portal_customer (get_or context default) >>= λ customer.
      create_billing_portal_session stripe customer a.locale return_url
