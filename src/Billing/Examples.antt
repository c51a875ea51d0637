-- ===== src/Billing/Examples.antt =====
-- The theorems about core/apps/billing and the billing services at a small set of tables.
use mathlib.Core.Path.{subst}
use saasmint.Base.{ap, ◌≡◌, refl, false, none, some, String, find, arith}
use saasmint.Domain.{Uuid, Subscription, canceled}
use saasmint.Json.{Value, num, str, arr, obj, nil, cons, end, entry}
use saasmint.Database.{Db, Action, enqueue, delete_org_on_subscription_cancel}
use saasmint.Database.Result.{ok, Error}
use saasmint.Samples.{env, db, subscription, plan_price, subscription_data}
use saasmint.Billing.Env.{to_text}
use saasmint.Json.Access.{index, get, truthy}
use saasmint.Billing.Customers
use saasmint.Billing.Repositories.{save, get_by_stripe_id, get_price_by_stripe_id}
use saasmint.Billing.Repositories.Distinct.{IsDistinct}
use saasmint.Billing.Repositories.Update.{Rewrites}
use saasmint.Billing.Webhooks.Sync.{
  OrgCallback, read_refs, upsert, row_for, sync_subscription_from_data, on_subscription_deleted,
}
use saasmint.Billing.Webhooks.Sync.Replay.{later, sync-sync}
use saasmint.Billing.Webhooks.Sync.Deletion.{EndsBehind, on_subscription_deleted-cancels}
use saasmint.Billing.Webhooks.Schedule.{with_pending, on_subscription_schedule_upserted}
use saasmint.Billing.Webhooks.Schedule.Pending.{on_subscription_schedule_upserted-Rewrites}
use saasmint.Billing.Webhooks.Payload.{
  extract_period_window, build_subscription_row, read_fields, parse_schedule_pending_change,
}
use saasmint.Billing.Webhooks.Process.{WebhookRepos, dispatch, process_stored_event}
use saasmint.Billing.Webhooks.Endpoint.{is_event, Request, verified, stripe_webhook}
use saasmint.Billing.Webhooks.Frame.{IsSoundRepos, IsSound}
use saasmint.Billing.Webhooks.Recorded.{
  settled_row, process_stored_event-settles, stripe_webhook-again,
}
use saasmint.Billing.Credits.{Owner, grant_credits_for_session}
use saasmint.Billing.Credits.Ledger.{
  IsAudited, grant_credits_for_session-IsAudited, grant_credits_for_session-again,
}

subscriptions-IsDistinct : IsDistinct db.subscriptions
subscriptions-IsDistinct = (refl, refl, tt)

abbrev synced : Db
synced = (sync_subscription_from_data env subscription_data db).1

sync-sync_example :
    sync_subscription_from_data (later env 900 51) subscription_data synced ≡ (ok tt, synced)
unfolding sync_subscription_from_data read_refs extract_period_window upsert row_for
    Customers.get_by_stripe_id get_price_by_stripe_id build_subscription_row read_fields save
    get_by_stripe_id
sync-sync_example = sync-sync env 900 51 subscription_data db synced subscriptions-IsDistinct refl

abbrev deactivation : Uuid → Action (Unit {0})
deactivation o = enqueue (delete_org_on_subscription_cancel o)

abbrev repos : WebhookRepos
repos = record {
  on_team_checkout_completed = none;
  on_org_subscription_canceled = none;
  on_product_checkout_completed = none;
}

abbrev event : Value
event = obj (
    entry "id" (str "evt_1") (
      entry "type" (str "customer.subscription.updated") (
        entry "livemode" (Value.bool false)
          (entry "data" (obj (entry "object" subscription_data end)) end))))

abbrev message : Error → String
message x = "Unknown customer"

abbrev deactivating : WebhookRepos
deactivating = record repos { on_org_subscription_canceled = some deactivation }

deactivation-IsSound : (o : Uuid) → IsSound (deactivation o)
unfolding enqueue
deactivation-IsSound o _ = record { events = refl; distinct = λ d. d }

deactivating-IsSound : IsSoundRepos deactivating
deactivating-IsSound = record {
  team = λ f e a. absurd cc;
  org = λ f e o.
      subst (λ (g : Uuid → Action (Unit {0})). IsSound (g o))
        (ap (λ (x : OrgCallback). elim x [ none ↦ deactivation | some g ↦ g ]) e)
        (deactivation-IsSound o);
  product = λ f e a. absurd cc;
}

-- The end of the subscription of the org 1.
abbrev ended : Value
ended = obj (
    entry "id" (str "evt_1") (
      entry "type" (str "customer.subscription.deleted")
        (entry "data" (obj (entry "object" subscription_data end)) end)))

process_stored_event-settles_example :
    let (result, db') = process_stored_event message env deactivating ended "evt_1" db in
    (result ≡ (dispatch env deactivating ended db).0)
    × ((t' : String)
        → find (is_event t') db'.events
          ≡ settled_row env message "evt_1" result (find (is_event t') db.events))
    × (IsDistinct db.subscriptions → IsDistinct db'.subscriptions)
process_stored_event-settles_example =
    process_stored_event-settles message env deactivating ended "evt_1" db deactivating-IsSound

abbrev request : Request
request = record {
  content_length = some 400;
  body_length = 400;
  check = verified;
  payload = some event;
}

stripe_webhook-again_example :
    let (status, db') = stripe_webhook env false request db in
    stripe_webhook (later env 900 51) false request db' ≡ (status, db')
stripe_webhook-again_example = stripe_webhook-again env 900 51 false request db

abbrev row : Subscription
row = record subscription { seat_limit = 5 }

on_subscription_deleted-cancels_example :
    (db' : Db) × Rewrites "sub_1"
      (record row { status = canceled; canceled_at = some env.now })
      db
      (ok tt, db')
    × (db' ≡ record db { subscriptions = db'.subscriptions })
    × EndsBehind
        (some deactivation)
        row
        db
        db'
        (on_subscription_deleted env (some deactivation) subscription_data db)
unfolding get_by_stripe_id index to_text
on_subscription_deleted-cancels_example =
    on_subscription_deleted-cancels env (some deactivation) subscription_data (str "sub_1") db row
      subscriptions-IsDistinct refl refl refl

-- A schedule with a second phase at another price.
abbrev schedule_data : Value
schedule_data = obj (
    entry "subscription" (str "sub_1") (
      entry "phases"
        (arr (
          cons (obj (entry "end_date" (num 40) end)) (
            cons
              (obj (entry "items" (arr (cons (obj (entry "price" (str "price_1") end)) nil)) end))
              nil)))
        end))

on_subscription_schedule_upserted-Rewrites_example :
    Rewrites "sub_1"
      (with_pending 7 40 row)
      db
      (on_subscription_schedule_upserted env schedule_data db)
unfolding get_by_stripe_id get_price_by_stripe_id parse_schedule_pending_change get truthy to_text
on_subscription_schedule_upserted-Rewrites_example =
    on_subscription_schedule_upserted-Rewrites env schedule_data (str "sub_1") "price_1" 40 db row
      plan_price subscriptions-IsDistinct refl refl refl refl refl refl

db-IsAudited : IsAudited db
db-IsAudited = record { balanced = λ w. refl; one_owner = refl }

grant_credits_for_session-IsAudited_example :
    IsAudited (grant_credits_for_session "cs_1" 25 "purchase" (some 11) none db).1
grant_credits_for_session-IsAudited_example =
    grant_credits_for_session-IsAudited "cs_1" 25 "purchase" (some 11) none db db-IsAudited

abbrev granted : Db
granted = (grant_credits_for_session "cs_1" 25 "purchase" (some 11) none db).1

grant_credits_for_session-again_example :
    grant_credits_for_session "cs_1" 30 "again" none (some 1) granted ≡ (ok false, granted)
unfolding grant_credits_for_session
grant_credits_for_session-again_example =
    grant_credits_for_session-again "cs_1" 25 30 "purchase" "again" (Owner.user 11) (Owner.org 1) db
      granted refl (omega arith)
