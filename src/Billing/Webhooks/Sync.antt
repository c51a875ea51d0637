-- ===== src/Billing/Webhooks/Sync.antt =====
-- The subscription handlers: `sync_subscription_from_data` and `_on_subscription_deleted`.
pub mod Replay
pub mod Deletion
use saasmint.Base.{ℕ, Bool, true, false, Option, none, some, String, if◌then◌else◌, is_some}
use saasmint.Domain.{Uuid, Subscription, canceled, StripeCustomer, PlanPrice}
use saasmint.Json.{Value}
use saasmint.Json.Access.{index, item, len}
use saasmint.Database.{Db, Action, pure}
use saasmint.Database.Result.{Result, ok, err, Error, ◌>>=◌}
use saasmint.Billing.Customers
use saasmint.Billing.Env.{Env, Texts, to_text}
use saasmint.Billing.Repositories.{get_price_by_stripe_id, get_by_stripe_id, save}
use saasmint.Billing.Webhooks.Payload.{extract_period_window, build_subscription_row}

-- What `sync_subscription_from_data` reads out of the payload before it reads the tables.
pub record SubscriptionRefs : Type 0 where
  pub first_item : Value
  pub customer_text : String
  pub price_text : String
  pub sub_id : String
  pub period_start : ℕ
  pub period_end : ℕ

unfoldable pub read_refs : Texts → Value → Result SubscriptionRefs
unfolding index item len to_text
read_refs t sub_data = do
  customer_value ← index "customer" sub_data
  items ← index "items" sub_data
  rows ← index "data" items
  _count ← len rows
  first_item ← item 0 rows
  price ← index "price" first_item
  price_value ← index "id" price
  sub_value ← index "id" sub_data
  (period_start, period_end) ← extract_period_window sub_data first_item
  ok (record {
    first_item = first_item;
    customer_text = to_text t customer_value;
    price_text = to_text t price_value;
    sub_id = to_text t sub_value;
    period_start = period_start;
    period_end = period_end;
  })

-- The row for the customer, the price and the existing row that the tables hold: an unknown customer
-- is found out before an unknown price.
unfoldable pub row_for :
    Env
    → Value
    → SubscriptionRefs
    → Option StripeCustomer
    → Option PlanPrice
    → Option Subscription
    → Result Subscription
row_for e sub_data refs none plan_price existing = err Error.webhook_data_error
row_for e sub_data refs (some customer) none existing = err Error.webhook_data_error
row_for e sub_data refs (some customer) (some plan_price) existing =
    build_subscription_row e sub_data refs.first_item refs.sub_id customer.id customer.user_id
      plan_price.plan_id refs.period_start refs.period_end existing

-- The rest of the handler: three reads, the row, and its save.
unfoldable pub upsert : Env → Value → SubscriptionRefs → Action (Unit {0})
upsert e sub_data refs db =
    elim (row_for e sub_data refs (Customers.get_by_stripe_id refs.customer_text db)
      (get_price_by_stripe_id refs.price_text db) (get_by_stripe_id refs.sub_id db)) [
        | ok subscription ↦ save e subscription db
        | err x ↦ (err x, db)
      ]

-- `sync_subscription_from_data`
unfoldable pub sync_subscription_from_data : Env → Value → Action (Unit {0})
sync_subscription_from_data e sub_data db = elim (read_refs e.texts sub_data) [
  | ok refs ↦ upsert e sub_data refs db
  | err x ↦ (err x, db)
]

-- The callback for a canceled team subscription, where one is registered.
abbrev pub OrgCallback : Type 0
OrgCallback = Option (Uuid → Action (Unit {0}))

abbrev pub call_with : OrgCallback → Uuid → Action (Unit {0})
call_with none org = pure tt
call_with (some f) org = f org

abbrev org_of_customer : Option StripeCustomer → Option Uuid
org_of_customer none = none
org_of_customer (some c) = c.org_id

-- The org that a deletion event takes down: that of a subscription with no user.
unfoldable pub org_to_deactivate : Subscription → Db → Option Uuid
unfolding Customers.get_by_id
org_to_deactivate s db = if is_some s.user_id then none else elim s.stripe_customer_id [
  | none ↦ none
  | some c ↦ org_of_customer (Customers.get_by_id c db)
]

abbrev pub deactivate : OrgCallback → Option Uuid → Action (Unit {0})
deactivate f none = pure tt
deactivate f (some org) = call_with f org

abbrev pub mark_canceled : Env → Subscription → Subscription
mark_canceled e s = record s { status = canceled; canceled_at = some e.now }

abbrev pub cancel_existing : Env → OrgCallback → Option Subscription → Action (Unit {0})
cancel_existing e on_canceled none db = (ok tt, db)
cancel_existing e on_canceled (some s) db =
    let (result, db') = save e (mark_canceled e s) db in
    elim result [
      | ok _ ↦ deactivate on_canceled (org_to_deactivate s db') db'
      | err x ↦ (err x, db')
    ]

-- `_on_subscription_deleted`
unfoldable pub on_subscription_deleted : Env → OrgCallback → Value → Action (Unit {0})
unfolding index to_text org_to_deactivate
on_subscription_deleted e on_canceled sub_data db = elim (index "id" sub_data) [
  | ok sub_value ↦
      cancel_existing e on_canceled (get_by_stripe_id (to_text e.texts sub_value) db) db
  | err x ↦ (err x, db)
]
