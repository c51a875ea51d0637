-- ===== src/Billing/Webhooks/Sync/Replay.antt =====
-- Replays of the subscription events: a second delivery finds the row of the first and leaves the
-- tables as they are.
use saasmint.Base.{◌≡◌, false, Option, none, some, arith, inl, inr, any}
use saasmint.Domain.{Uuid, Time, Subscription, StripeCustomer, PlanPrice}
use saasmint.Json.{Value}
use saasmint.Database.{Db}
use saasmint.Database.Result.{ok, Result-cases}
use saasmint.Billing.Customers
use saasmint.Billing.Env.{Env}
use saasmint.Billing.Repositories.{
  get_by_stripe_id, get_price_by_stripe_id, save, put_row, is_refused,
}
use saasmint.Billing.Repositories.Distinct.{
  IsDistinct, clashes_elsewhere, find-put_row, put_row-put_row, put_row-no_clash, created_time,
}
use saasmint.Billing.Webhooks.Payload.{build_subscription_row}
use saasmint.Billing.Webhooks.Sync.{
  SubscriptionRefs, read_refs, row_for, upsert, sync_subscription_from_data,
}

-- A second run: the same texts, another clock, another fresh id.
abbrev pub later : Env → Time → Uuid → Env
later e now' id' = record e { now = now'; fresh_id = id' }

module _ (e : Env) (now' : Time) (id' : Uuid) (sub_data : Value) (refs : SubscriptionRefs) where
  -- A row that was built carries the `stripe_id` of the payload.
  row_for-stripe_id :
      (c : Option StripeCustomer) (p : Option PlanPrice) (x : Option Subscription)
      (s : Subscription)
      → row_for e sub_data refs c p x ≡ ok s
      → s.stripe_id ≡ some refs.sub_id
  unfolding row_for build_subscription_row
  row_for-stripe_id none p x s h = cc
  row_for-stripe_id (some c) none x s h = cc
  row_for-stripe_id (some c) (some p) x s h = ground arith

  -- Built again over the stored row, it is that row.
  row_for-again :
      (c : Option StripeCustomer) (p : Option PlanPrice) (x : Option Subscription)
      (s : Subscription) (t : Time)
      → row_for e sub_data refs c p x ≡ ok s
      → row_for (later e now' id') sub_data refs c p (some (record s { created_at = t }))
        ≡ ok (record s { created_at = t })
  unfolding row_for build_subscription_row
  row_for-again none p x s t h = cc
  row_for-again (some c) none x s t h = cc
  row_for-again (some c) (some p) x s t h = ground arith

  -- What a successful upsert has done.
  pub upsert-eq-ok :
      (db db' : Db)
      → upsert e sub_data refs db ≡ (ok tt, db')
      → (s : Subscription) × (row_for e sub_data refs
            (Customers.get_by_stripe_id refs.customer_text db)
            (get_price_by_stripe_id refs.price_text db)
            (get_by_stripe_id refs.sub_id db)
          ≡ ok s)
        × (is_refused s db.subscriptions ≡ false)
        × (db' ≡ (record db { subscriptions = put_row e.now s db.subscriptions }))
  unfolding upsert save
  upsert-eq-ok db db' h =
      elim (Result-cases (
        row_for e sub_data refs (Customers.get_by_stripe_id refs.customer_text db)
          (get_price_by_stripe_id refs.price_text db) (get_by_stripe_id refs.sub_id db))) [
            | inl (s, built) ↦ (s, built, ground (arith, built, h), ground (arith, built, h))
            | inr (x, failed) ↦ absurd (ground (arith, failed, h))
          ]

  upsert-again :
      (db : Db) (s : Subscription)
      → IsDistinct db.subscriptions
      → row_for e sub_data refs
          (Customers.get_by_stripe_id refs.customer_text db)
          (get_price_by_stripe_id refs.price_text db)
          (get_by_stripe_id refs.sub_id db)
        ≡ ok s
      → is_refused s db.subscriptions ≡ false
      → let db' : Db = record db { subscriptions = put_row e.now s db.subscriptions } in
        upsert (later e now' id') sub_data refs db' ≡ (ok tt, db')
  unfolding upsert save get_by_stripe_id get_price_by_stripe_id Customers.get_by_stripe_id
  upsert-again db s d built fits =
      let t : Time = created_time e.now s.id db.subscriptions in
      let no_clash : any (clashes_elsewhere s) db.subscriptions ≡ false = ground arith in
      rw
        (
          upsert,
          find-put_row e.now s refs.sub_id db.subscriptions (row_for-stripe_id _ _ _ s built) d
              no_clash,
        )
        (rw (upsert, row_for-again _ _ _ s t built)
          (ground (
            arith,
            put_row-no_clash e.now s db.subscriptions no_clash,
            put_row-put_row e.now s now' t db.subscriptions,
          )))

-- After a subscription event was synced, another delivery of it succeeds and changes nothing, whatever
-- the clock and the fresh id of the second run are, if the table's keys were distinct before.
pub sync-sync :
    (e : Env) (now' : Time) (id' : Uuid) (sub_data : Value) (db db' : Db)
    → IsDistinct db.subscriptions
    → sync_subscription_from_data e sub_data db ≡ (ok tt, db')
    → sync_subscription_from_data (later e now' id') sub_data db' ≡ (ok tt, db')
unfolding sync_subscription_from_data
sync-sync e now' id' sub_data db db' d h = elim (Result-cases (read_refs e.texts sub_data)) [
  | inr (x, failed) ↦ absurd (ground (arith, failed, h))
  | inl (refs, read) ↦
      let (s, built, fits, written) =
        upsert-eq-ok e now' id' sub_data refs db db'
          (rw (sync_subscription_from_data, read) at h) in
      rw (sync_subscription_from_data, read, written)
        (upsert-again e now' id' sub_data refs db s d built fits)
]
