-- ===== src/Billing/Services.antt =====
-- core/core/saasmint_core/services/billing.py and subscriptions.py: what the billing services read out of
-- the answers of Stripe. The services themselves are in the children.
pub mod Customer
pub mod Cancel
pub mod Plans
pub mod Active
pub mod Mirror
pub mod Changes
pub mod Steps
pub mod Performed
pub mod Seats
pub mod Sessions
pub mod Examples
use text.Mathlib.Text.{◌==◌ as str_eq}
use saasmint.Base.{ℕ, Bool, not, true, false, Option, none, some, String, ltb, if◌then◌else◌}
use saasmint.Domain.{Time, Subscription, SubscriptionStatus}
use saasmint.Json.{Value, null, bool, num, real, str}
use saasmint.Json.Access.{index, item, truthy, or_else, as_int}
use saasmint.Database.Result.{Result, ok, err, Error, ◌>>=◌}
use saasmint.Stripe.{attribute, safe_get}
use saasmint.Billing.Env.{Texts, to_text}
use saasmint.Billing.Webhooks.Payload.{parse_status, ts_to_dt}

-- An unknown status leaves the existing one.
unfoldable pub mirrored_status : SubscriptionStatus → Value → SubscriptionStatus
unfolding parse_status
mirrored_status old (str s) = elim (parse_status s) [ ok new ↦ new | err x ↦ old ]
mirrored_status old v = old

-- The row that `_mirror_cancel_state_from_stripe` saves.
unfoldable pub cancel_state_from : Subscription → Value → Result Subscription
unfolding attribute ts_to_dt mirrored_status
cancel_state_from active stripe_sub = do
  cancel_at_ts ← attribute "cancel_at" stripe_sub
  canceled_at_ts ← attribute "canceled_at" stripe_sub
  status ← attribute "status" stripe_sub
  cancel_at ← ts_to_dt cancel_at_ts
  canceled_at ← ts_to_dt canceled_at_ts
  ok (record active {
    cancel_at = cancel_at;
    canceled_at = canceled_at;
    status = mirrored_status active.status status;
  })

-- `sub["items"]["data"][0]`
unfoldable pub first_item_of : Value → Result Value
unfolding index item
first_item_of sub = do items ← index "items" sub; rows ← index "data" items; item 0 rows

-- What `change_plan` reads out of the subscription.
pub record PlanItem : Type 0 where
  pub item_id : String
  pub current_quantity : ℕ
  pub is_downgrade : Bool

-- `isinstance(current_amount, int) and new_price_amount < current_amount`
unfoldable pub is_below : ℕ → Value → Bool
unfolding as_int
is_below new current = elim (as_int current) [ none ↦ false | some amount ↦ ltb new amount ]

unfoldable pub read_downgrade : Option ℕ → Value → Result Bool
unfolding safe_get is_below
read_downgrade none first_item = ok false
read_downgrade (some amount) first_item = do
  price ← safe_get "price" first_item
  current_amount ← safe_get "unit_amount" price
  ok (is_below amount current_amount)

unfoldable pub read_plan_item : Texts → (new_price_amount : Option ℕ) → Value → Result PlanItem
unfolding first_item_of index to_text safe_get as_int read_downgrade
read_plan_item t new_price_amount sub = do
  first_item ← first_item_of sub
  item_value ← index "id" first_item
  raw_quantity ← safe_get "quantity" first_item
  is_downgrade ← read_downgrade new_price_amount first_item
  ok (record {
    item_id = to_text t item_value;
    current_quantity = elim (as_int raw_quantity) [ none ↦ 1 | some n ↦ n ];
    is_downgrade = is_downgrade;
  })

-- `value is None`
unfoldable pub is_null : Value → Bool
is_null null = true
is_null v = false

-- `_read_period_field`
unfoldable pub read_period_field : (sub first_item : Value) (field : String) → Result ℕ
unfolding safe_get as_int index is_null
read_period_field sub first_item field = do
  of_item ← safe_get field first_item
  value ← if is_null of_item then safe_get field sub else ok of_item
  elim (as_int value) [ some n ↦ ok n | none ↦ (index "id" sub >>= λ i. err Error.value_error) ]

-- What `_schedule_downgrade_at_period_end` reads out of the subscription.
pub record DowngradeTerms : Type 0 where
  pub period_start : ℕ
  pub period_end : ℕ
  pub current_price_id : String
  pub current_currency : String

-- `str(value or "").lower()`
unfoldable pub lower_text : Texts → Value → String
unfolding or_else to_text
lower_text t v = t.lower (to_text t (or_else v (str "")))

-- `object_get` is the method `.get` of a Stripe object, which the SDK defines.
unfoldable pub read_downgrade_terms :
    Texts → (object_get : String → Value → Result Value) → Value → Result DowngradeTerms
unfolding first_item_of read_period_field index to_text lower_text
read_downgrade_terms t object_get sub = do
  first_item ← first_item_of sub
  period_end ← read_period_field sub first_item "current_period_end"
  period_start ← read_period_field sub first_item "current_period_start"
  price ← index "price" first_item
  price_value ← index "id" price
  currency ← object_get "currency" price
  ok (record {
    period_start = period_start;
    period_end = period_end;
    current_price_id = to_text t price_value;
    current_currency = lower_text t currency;
  })

-- `current_currency and new_currency and current_currency != new_currency`
unfoldable pub currencies_differ : String → String → Bool
unfolding truthy
currencies_differ a b =
    if truthy (str a) then (if truthy (str b) then not (str_eq a b) else false) else false

-- `quantity > current_quantity`
unfoldable pub is_above : ℕ → Value → Result Bool
is_above quantity (num n) = ok (ltb n quantity)
is_above quantity (real n) = ok (ltb n quantity)
is_above quantity (bool b) = ok (ltb (if b then 1 else 0) quantity)
is_above quantity v = err Error.type_error

-- The item of `update_seat_count` with its seats, and whether there are more of them now. A quantity that is
-- no number raises; that of a float is compared by its whole part.
unfoldable pub read_seat_item : Texts → ℕ → Value → Result (String × Bool)
unfolding first_item_of index to_text is_above
read_seat_item t quantity sub = do
  first_item ← first_item_of sub
  item_value ← index "id" first_item
  current ← index "quantity" first_item
  more ← is_above quantity current
  ok (to_text t item_value, more)
