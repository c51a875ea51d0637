-- ===== src/Billing/Webhooks/Process.antt =====
-- `_dispatch` and `process_stored_event`.
use saasmint.Base.{◌||◌, Option, String, if◌then◌else◌}
use saasmint.Domain.{ErrorText, plain, with_class}
use saasmint.Json.{Value}
use saasmint.Json.Access.{get, index, equals_text}
use saasmint.Database.{Action}
use saasmint.Database.Result.{Result, ok, err, Error, ◌>>=◌}
use saasmint.Billing.Env.{Env}
use saasmint.Billing.Events
use saasmint.Billing.Webhooks.Sync.{
  OrgCallback, sync_subscription_from_data, on_subscription_deleted,
}
use saasmint.Billing.Webhooks.Schedule.{
  on_subscription_schedule_upserted, on_subscription_schedule_cleared,
}
use saasmint.Billing.Webhooks.Checkout.{OnTeamCheckout, OnProductCheckout, on_checkout_completed}

-- The callbacks of `WebhookRepos`; its repositories are the tables of `Db`.
pub record WebhookRepos : Type 0 where
  pub on_team_checkout_completed : Option OnTeamCheckout
  pub on_org_subscription_canceled : OrgCallback
  pub on_product_checkout_completed : Option OnProductCheckout

pub data Kind : Type 0 where
  checkout_completed subscription_synced subscription_deleted : Kind
  schedule_upserted schedule_cleared invoice unhandled : Kind

-- The patterns of the `match` in `_dispatch`.
unfoldable pub kind_of : Value → Kind
unfolding equals_text
kind_of t =
    if equals_text "checkout.session.completed" t
    then checkout_completed
    else if equals_text "customer.subscription.created" t
        || equals_text "customer.subscription.updated" t
    then subscription_synced
    else if equals_text "customer.subscription.deleted" t
    then subscription_deleted
    else if equals_text "subscription_schedule.created" t
        || equals_text "subscription_schedule.updated" t
    then schedule_upserted
    else if equals_text "subscription_schedule.released" t
        || equals_text "subscription_schedule.canceled" t
        || equals_text "subscription_schedule.aborted" t
    then schedule_cleared
    else if equals_text "invoice.payment_succeeded" t || equals_text "invoice.payment_failed" t
    then invoice
    else unhandled

-- `event["data"]["object"]`
unfoldable pub object_of : Value → Result Value
unfolding index
object_of event = index "data" event >>= index "object"

-- The handler of a kind of event, at the object of the event. The invoice handlers only log
-- `invoice_data.get("id")`.
unfoldable pub handle : Env → WebhookRepos → Kind → Value → Action (Unit {0})
unfolding get
handle e r checkout_completed object db =
    on_checkout_completed e r.on_team_checkout_completed r.on_product_checkout_completed object db
handle e r subscription_synced object db = sync_subscription_from_data e object db
handle e r subscription_deleted object db =
    on_subscription_deleted e r.on_org_subscription_canceled object db
handle e r schedule_upserted object db = on_subscription_schedule_upserted e object db
handle e r schedule_cleared object db = on_subscription_schedule_cleared e object db
handle e r invoice object db = (get "id" object >>= (λ _. ok tt), db)
handle e r unhandled object db = (ok tt, db)

abbrev pub handle_event : Env → WebhookRepos → Kind → Value → Action (Unit {0})
handle_event e r unhandled event db = (ok tt, db)
handle_event e r kind event db = elim (object_of event) [
  | ok object ↦ handle e r kind object db
  | err x ↦ (err x, db)
]

-- `_dispatch`
unfoldable pub dispatch : Env → WebhookRepos → Value → Action (Unit {0})
unfolding handle kind_of object_of
dispatch e r event db = elim (index "type" event) [
  | ok type_value ↦ handle_event e r (kind_of type_value) event db
  | err x ↦ (err x, db)
]

-- What the three `except` clauses store, given `str(exc)`. The second is for every `stripe.StripeError`, of
-- which an `InvalidRequestError` for what is missing is one.
unfoldable pub stored_message : (Error → String) → Error → ErrorText
stored_message message Error.webhook_data_error = plain (message Error.webhook_data_error)
stored_message message Error.stripe_error = plain (message Error.stripe_error)
stored_message message Error.resource_missing = plain (message Error.resource_missing)
stored_message message Error.connection_error = plain (message Error.connection_error)
stored_message message other = with_class (message other)

module _ (message : Error → String) where
  -- `process_stored_event`
  unfoldable pub process_stored_event : Env → WebhookRepos → Value → String → Action (Unit {0})
  unfolding Events.mark_processed Events.mark_failed
  process_stored_event e r event stripe_id db =
      let (result, db') = dispatch e r event db in
      elim result [
        | ok _ ↦ Events.mark_processed e stripe_id db'
        | err x ↦
            let (_, db'') = Events.mark_failed stripe_id (stored_message message x) db' in
            (err x, db'')
      ]
