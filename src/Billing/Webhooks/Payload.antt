-- ===== src/Billing/Webhooks/Payload.antt =====
-- What the handlers read out of a subscription or a schedule payload.
use text.Mathlib.Text.{◌==◌ as str_eq}
use saasmint.Base.{ℕ, Option, none, some, String, ltb, if◌then◌else◌}
use saasmint.Domain.{
  Uuid, Time, Subscription, SubscriptionStatus, active, trialing, past_due, canceled, incomplete,
  incomplete_expired, paused, unpaid,
}
use saasmint.Json.{Value, null, bool, num, real, str, arr, obj, nil}
use saasmint.Json.Access.{get, get_default, index, item, len, truthy, or_else, as_int}
use saasmint.Database.Result.{Result, ok, err, Error, ◌>>=◌}
use saasmint.Billing.Env.{Env, Texts, to_text, from_timestamp}

-- `SubscriptionStatus(text)`
unfoldable pub parse_status : String → Result SubscriptionStatus
parse_status t =
    if str_eq t "active"
    then ok active
    else if str_eq t "trialing"
    then ok trialing
    else if str_eq t "past_due"
    then ok past_due
    else if str_eq t "canceled"
    then ok canceled
    else if str_eq t "incomplete"
    then ok incomplete
    else if str_eq t "incomplete_expired"
    then ok incomplete_expired
    else if str_eq t "paused"
    then ok paused
    else if str_eq t "unpaid"
    then ok unpaid
    else err Error.value_error

-- `ts_to_dt(value)`. `int(text)` of a text parses it: no Stripe timestamp is a text, and the model
-- raises there.
unfoldable pub ts_to_dt : Value → Result (Option Time)
unfolding from_timestamp
ts_to_dt null = ok none
ts_to_dt (num n) = from_timestamp n >>= λ t. ok (some t)
ts_to_dt (real n) = from_timestamp n >>= λ t. ok (some t)
ts_to_dt (bool b) = ok (some (if b then 1 else 0))
ts_to_dt (str s) = err Error.value_error
ts_to_dt _ = err Error.type_error

-- A value that must be there and be an `int`.
unfoldable pub period_field : Value → Result ℕ
unfolding as_int
period_field v = elim (as_int v) [ none ↦ err Error.webhook_data_error | some n ↦ ok n ]

-- `_extract_period_window`: the line item first, then the subscription.
unfoldable pub extract_period_window : Value → Value → Result (ℕ × ℕ)
unfolding period_field get_default get
extract_period_window sub_data first_item = do
  start_below ← get "current_period_start" sub_data
  period_start ← get_default "current_period_start" start_below first_item
  end_below ← get "current_period_end" sub_data
  period_end ← get_default "current_period_end" end_below first_item
  start ← period_field period_start
  end ← period_field period_end
  ok (start, end)

-- `int(first_item.get("quantity") or 1)`; the parse of a quantity that is a text is left out, and the
-- model raises there.
unfoldable pub quantity_of : Value → Result ℕ
quantity_of (num n) = ok (if ltb 0 n then n else 1)
quantity_of (real n) = ok n
quantity_of (bool b) = ok 1
quantity_of null = ok 1
quantity_of v = if truthy v then err Error.type_error else ok 1

-- The fields of the row that `_build_subscription_row` reads out of the payload.
pub record PayloadFields : Type 0 where
  pub status : SubscriptionStatus
  pub seat_limit : ℕ
  pub trial_ends_at : Option Time
  pub current_period_start : Time
  pub current_period_end : Time
  pub canceled_at : Option Time
  pub cancel_at : Option Time
  pub currency : String

unfoldable pub read_fields :
    Texts → (sub_data first_item : Value) (period_start period_end : ℕ) → Result PayloadFields
unfolding get index to_text parse_status ts_to_dt quantity_of or_else from_timestamp
read_fields t sub_data first_item start end = do
  status ← index "status" sub_data >>= λ v. parse_status (to_text t v)
  seat_limit ← get "quantity" first_item >>= quantity_of
  trial_ends_at ← get "trial_end" sub_data >>= ts_to_dt
  current_period_start ← from_timestamp start
  current_period_end ← from_timestamp end
  canceled_at ← get "canceled_at" sub_data >>= ts_to_dt
  cancel_at ← get "cancel_at" sub_data >>= ts_to_dt
  sub_currency ← get "currency" sub_data
  item_currency ←
      if truthy sub_currency then ok null else (index "price" first_item >>= get "currency")
  ok (record {
    status = status;
    seat_limit = seat_limit;
    trial_ends_at = trial_ends_at;
    current_period_start = current_period_start;
    current_period_end = current_period_end;
    canceled_at = canceled_at;
    cancel_at = cancel_at;
    currency = t.lower (to_text t (or_else (or_else sub_currency item_currency) (str "usd")));
  })

-- The row itself: new, or with the identity and the pending change of the row that it replaces.
unfoldable pub row_of :
    Env
    → PayloadFields
    → (stripe_sub_id : String) (customer_id : Uuid)
    → (customer_user_id : Option Uuid) (plan_id : Uuid) (existing : Option Subscription)
    → Subscription
row_of e f sub_id customer_id user_id plan_id existing = record {
  id = elim existing [ none ↦ e.fresh_id | some s ↦ s.id ];
  stripe_id = some sub_id;
  stripe_customer_id = some customer_id;
  user_id = user_id;
  status = f.status;
  plan_id = plan_id;
  seat_limit = f.seat_limit;
  trial_ends_at = f.trial_ends_at;
  current_period_start = f.current_period_start;
  current_period_end = f.current_period_end;
  canceled_at = f.canceled_at;
  cancel_at = f.cancel_at;
  scheduled_plan_id = elim existing [ none ↦ none | some s ↦ s.scheduled_plan_id ];
  scheduled_change_at = elim existing [ none ↦ none | some s ↦ s.scheduled_change_at ];
  currency = f.currency;
  created_at = elim existing [ none ↦ e.now | some s ↦ s.created_at ];
}

-- `_build_subscription_row`
unfoldable pub build_subscription_row :
    Env
    → (sub_data first_item : Value) (stripe_sub_id : String) (customer_id : Uuid)
    → (customer_user_id : Option Uuid) (plan_id : Uuid) (period_start period_end : ℕ)
    → (existing : Option Subscription) → Result Subscription
unfolding row_of
build_subscription_row e sub_data first_item sub_id customer_id user_id plan_id start end existing =
    elim (read_fields e.texts sub_data first_item start end) [
      | ok f ↦ ok (row_of e f sub_id customer_id user_id plan_id existing)
      | err x ↦ err x
    ]

-- `next_price.get("id") if isinstance(next_price, dict) else next_price`
unfoldable pub price_id_of : Value → Result Value
unfolding get
price_id_of (obj r) = get "id" (obj r)
price_id_of v = ok v

-- `_parse_schedule_pending_change`: `none` where the payload holds no pending change.
unfoldable pub parse_schedule_pending_change : Texts → Value → Result (Option (String × Time))
unfolding get item len or_else truthy price_id_of ts_to_dt to_text
parse_schedule_pending_change t schedule_data = do
  raw_phases ← get "phases" schedule_data
  let phases = or_else raw_phases (arr nil)
  n ← len phases
  let two_phases : Result (Option (String × Time)) = do
    current_phase ← item 0 phases
    next_phase ← item 1 phases
    raw_items ← get "items" next_phase
    let some_items : Result (Option (String × Time)) = do
      next_price ← item 0 raw_items >>= get "price"
      next_price_id ← price_id_of next_price
      let priced : Result (Option (String × Time)) = do
        end_date ← get "end_date" current_phase
        start_date ← if truthy end_date then ok null else get "start_date" next_phase
        change_at ← ts_to_dt (or_else end_date start_date)
        ok (elim change_at [ none ↦ none | some at ↦ some (to_text t next_price_id, at) ])
      if truthy next_price_id then priced else ok none
    if truthy raw_items then some_items else ok none
  if ltb n 2 then ok none else two_phases
