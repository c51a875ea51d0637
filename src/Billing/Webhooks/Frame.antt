-- ===== src/Billing/Webhooks/Frame.antt =====
-- What every handler keeps: the stored events, and the distinct keys of the subscription table.
use saasmint.Base.{
  ◌≡◌, refl, ◌∙◌, Bool, true, false, Option, none, some, String, arith, inl, inr, Bool-cases,
  if◌then◌else◌,
}
use saasmint.Domain.{Uuid, Time, Subscription, PlanPrice}
use saasmint.Json.{Value}
use saasmint.Json.Access.{get, index, truthy, equals_text}
use saasmint.Database.{Db, Action, pure}
use saasmint.Database.Result.{Result, ok, err}
use saasmint.Billing.Env.{Env, to_text}
use saasmint.Billing.Repositories.{save, is_refused, get_by_stripe_id, get_price_by_stripe_id}
use saasmint.Billing.Repositories.Distinct.{IsDistinct, put_row-IsDistinct}
use saasmint.Billing.Webhooks.Sync.{
  OrgCallback, SubscriptionRefs, read_refs, row_for, cancel_existing, mark_canceled, deactivate,
  org_to_deactivate, upsert, sync_subscription_from_data, on_subscription_deleted,
}
use saasmint.Billing.Webhooks.Schedule.{
  mirror_pending, clear_pending, mirror_change, mirror_parsed, mirror_schedule, clear_schedule,
  on_subscription_schedule_upserted, on_subscription_schedule_cleared,
}
use saasmint.Billing.Webhooks.Payload.{parse_schedule_pending_change}
use saasmint.Billing.Webhooks.Checkout.{
  TeamCheckout, ProductCheckout, OnTeamCheckout, OnProductCheckout, read_team_checkout,
  read_product_checkout, call_back, on_product_checkout_completed, on_checkout_completed,
}
use saasmint.Billing.Webhooks.Process.{
  WebhookRepos, Kind, kind_of, object_of, handle, handle_event, dispatch,
}

-- The tables after a handler against those before it.
pub record Sound (db db' : Db) : Type 0 where
  pub events : db'.events ≡ db.events
  pub distinct : IsDistinct db.subscriptions → IsDistinct db'.subscriptions

abbrev pub IsSound {ℓ} : {A : Type ℓ} → Action A → Type 0
IsSound m = (db : Db) → Sound db (m db).1

pub Sound-refl : (db : Db) → Sound db db
Sound-refl db = record { events = refl; distinct = λ d. d }

pub Sound-trans : {a b c : Db} → Sound a b → Sound b c → Sound a c
Sound-trans s t = record { events = t.events ∙ s.events; distinct = λ d. t.distinct (s.distinct d) }

after {ℓ κ} :
    {A : Type ℓ} {B : Type κ} (db : Db) (r : Result A) (db' : Db) (f : A → Action B)
    → Sound db db'
    → ((a : A) → IsSound (f a))
    → Sound db (elim r as (λ _. Result B × Db) [ ok a ↦ f a db' | err e ↦ (err e, db') ]).1
after db (ok a) db' f s h = Sound-trans s (h a db')
after db (err e) db' f s h = s

if-IsSound {ℓ} :
    {A : Type ℓ} (b : Bool) (m k : Action A) → IsSound m → IsSound k → IsSound (if b then m else k)
if-IsSound true m k hm hk = hm
if-IsSound false m k hm hk = hk

pub save-IsSound : (e : Env) (s : Subscription) → IsSound (save e s)
unfolding save
save-IsSound e s db = elim (Bool-cases (is_refused s db.subscriptions)) [
  | inl refused ↦ rw (save, refused) (Sound-refl db)
  | inr fits ↦
      rw (save, fits)
        (record {
          events = refl;
          distinct = λ d. put_row-IsDistinct e.now s db.subscriptions d (ground arith);
        })
]

pure-IsSound : IsSound {A = Unit {0}} (pure tt)
pure-IsSound db = Sound-refl db

mirror_pending-IsSound :
    (e : Env) (plan : Uuid) (at : Time) (x : Option Subscription)
    → IsSound (mirror_pending e plan at x)
unfolding mirror_pending
mirror_pending-IsSound e plan at none = pure-IsSound
mirror_pending-IsSound e plan at (some s) = if-IsSound _ (pure tt) _ pure-IsSound (save-IsSound e _)

clear_pending-IsSound : (e : Env) (x : Option Subscription) → IsSound (clear_pending e x)
unfolding clear_pending
clear_pending-IsSound e none = pure-IsSound
clear_pending-IsSound e (some s) = if-IsSound _ (pure tt) _ pure-IsSound (save-IsSound e _)

mirror_change-IsSound :
    (e : Env) (sub_id price_id : String) (at : Time) → IsSound (mirror_change e sub_id price_id at)
unfolding mirror_change
mirror_change-IsSound e sub_id price_id at db =
    priced (get_by_stripe_id sub_id db) (get_price_by_stripe_id price_id db)
  where
    priced :
        (x : Option Subscription) (p : Option PlanPrice)
        → Sound db
            ((elim p as (λ _. Action (Unit {0})) [
              | none ↦ pure tt
              | some p' ↦ mirror_pending e p'.plan_id at x
            ])
              db).1
    priced x none = Sound-refl db
    priced x (some p) = mirror_pending-IsSound e p.plan_id at x db

pub on_subscription_schedule_upserted-IsSound :
    (e : Env) (v : Value) → IsSound (on_subscription_schedule_upserted e v)
unfolding on_subscription_schedule_upserted
on_subscription_schedule_upserted-IsSound e v db =
    after db (get "subscription" v) db (λ u. if truthy u then mirror_schedule e v u else pure tt)
      (Sound-refl db)
      λ u. if-IsSound (truthy u) (mirror_schedule e v u) (pure tt) (mirror u) pure-IsSound
  where
    mirror : (sub_value : Value) → IsSound (mirror_schedule e v sub_value)
    mirror sub_value db' =
        after db' (parse_schedule_pending_change e.texts v) db' (mirror_parsed e sub_value)
          (Sound-refl db')
          (elim [ none ↦ pure-IsSound | some change ↦ mirror_change-IsSound e _ change.0 change.1 ])

pub on_subscription_schedule_cleared-IsSound :
    (e : Env) (v : Value) → IsSound (on_subscription_schedule_cleared e v)
unfolding on_subscription_schedule_cleared
on_subscription_schedule_cleared-IsSound e v db =
    after db (get "subscription" v) db (λ u. if truthy u then clear_schedule e u else pure tt)
      (Sound-refl db)
      λ u.
        if-IsSound (truthy u) (clear_schedule e u) (pure tt)
          (λ db'. clear_pending-IsSound e (get_by_stripe_id (to_text e.texts u) db') db')
          pure-IsSound

upsert-IsSound : (e : Env) (v : Value) (refs : SubscriptionRefs) → IsSound (upsert e v refs)
unfolding upsert
upsert-IsSound e v refs db = row (row_for _ _ _ _ _ _)
  where
    row :
        (r : Result Subscription)
        → Sound db
            (elim r as (λ _. Result (Unit {0}) × Db) [ ok s ↦ save e s db | err x ↦ (err x, db) ]).1
    row (ok s) = save-IsSound e s db
    row (err x) = Sound-refl db

pub sync_subscription_from_data-IsSound :
    (e : Env) (v : Value) → IsSound (sync_subscription_from_data e v)
unfolding sync_subscription_from_data
sync_subscription_from_data-IsSound e v db = read (read_refs e.texts v)
  where
    read :
        (r : Result SubscriptionRefs)
        → Sound db
            (elim r as (λ _. Result (Unit {0}) × Db) [
              | ok refs ↦ upsert e v refs db
              | err x ↦ (err x, db)
            ]).1
    read (ok refs) = upsert-IsSound e v refs db
    read (err x) = Sound-refl db

-- The callbacks keep the same.
pub record IsSoundRepos (r : WebhookRepos) : Type 0 where
  pub team :
      (f : OnTeamCheckout)
      → r.on_team_checkout_completed ≡ some f
      → (a : TeamCheckout) → IsSound (f a)
  pub org :
      (f : Uuid → Action (Unit {0}))
      → r.on_org_subscription_canceled ≡ some f
      → (o : Uuid) → IsSound (f o)
  pub product :
      (f : OnProductCheckout)
      → r.on_product_checkout_completed ≡ some f
      → (a : ProductCheckout) → IsSound (f a)

deactivate-IsSound :
    (callback : OrgCallback)
    → ((f : Uuid → Action (Unit {0})) → callback ≡ some f → (o : Uuid) → IsSound (f o))
    → (o : Option Uuid) → IsSound (deactivate callback o)
deactivate-IsSound callback h none = pure-IsSound
deactivate-IsSound none h (some o) = pure-IsSound
deactivate-IsSound (some f) h (some o) = h f refl o

cancel_existing-IsSound :
    (e : Env) (callback : OrgCallback) (x : Option Subscription)
    → ((f : Uuid → Action (Unit {0})) → callback ≡ some f → (o : Uuid) → IsSound (f o))
    → IsSound (cancel_existing e callback x)
cancel_existing-IsSound e callback none h db = Sound-refl db
cancel_existing-IsSound e callback (some s) h db =
    after db (save e (mark_canceled e s) db).0 (save e (mark_canceled e s) db).1
      (λ _ db'. deactivate callback (org_to_deactivate s db') db')
      (save-IsSound e (mark_canceled e s) db)
      (λ _ db'. deactivate-IsSound callback h (org_to_deactivate s db') db')

pub on_subscription_deleted-IsSound :
    (e : Env) (callback : OrgCallback) (v : Value)
    → ((f : Uuid → Action (Unit {0})) → callback ≡ some f → (o : Uuid) → IsSound (f o))
    → IsSound (on_subscription_deleted e callback v)
unfolding on_subscription_deleted
on_subscription_deleted-IsSound e callback v h db =
    after db (index "id" v) db
      (λ u db'. cancel_existing e callback (get_by_stripe_id (to_text e.texts u) db') db')
      (Sound-refl db)
      λ u db'. cancel_existing-IsSound e callback (get_by_stripe_id (to_text e.texts u) db') h db'

call_back-IsSound {ℓ} :
    {A : Type ℓ} (callback : Option (A → Action (Unit {0}))) (a : Result (Option A))
    → ((f : A → Action (Unit {0})) → callback ≡ some f → (x : A) → IsSound (f x))
    → IsSound (call_back callback a)
call_back-IsSound callback (err x) h db = Sound-refl db
call_back-IsSound callback (ok none) h db = Sound-refl db
call_back-IsSound none (ok (some a)) h db = Sound-refl db
call_back-IsSound (some f) (ok (some a)) h db = h f refl a db

module _ (e : Env) (r : WebhookRepos) (h : IsSoundRepos r) where
  on_checkout_completed-IsSound :
      (v : Value)
      → IsSound
          (on_checkout_completed e r.on_team_checkout_completed r.on_product_checkout_completed v)
  unfolding on_checkout_completed
  on_checkout_completed-IsSound v db =
      after db (get "mode" v) db
        (λ mode.
          if equals_text "payment" mode
          then on_product_checkout_completed e r.on_product_checkout_completed v
          else call_back r.on_team_checkout_completed (read_team_checkout e.texts v))
        (Sound-refl db)
        λ mode.
          if-IsSound (equals_text "payment" mode) _ _
            (call_back-IsSound r.on_product_checkout_completed (read_product_checkout e.texts v)
              h.product)
            (call_back-IsSound r.on_team_checkout_completed (read_team_checkout e.texts v) h.team)

  handle-IsSound : (kind : Kind) (object : Value) → IsSound (handle e r kind object)
  unfolding handle
  handle-IsSound Kind.checkout_completed object db = on_checkout_completed-IsSound object db
  handle-IsSound Kind.subscription_synced object db =
      sync_subscription_from_data-IsSound e object db
  handle-IsSound Kind.subscription_deleted object db =
      on_subscription_deleted-IsSound e r.on_org_subscription_canceled object h.org db
  handle-IsSound Kind.schedule_upserted object db =
      on_subscription_schedule_upserted-IsSound e object db
  handle-IsSound Kind.schedule_cleared object db =
      on_subscription_schedule_cleared-IsSound e object db
  handle-IsSound Kind.invoice object db = Sound-refl db
  handle-IsSound Kind.unhandled object db = Sound-refl db

  handle_event-IsSound : (kind : Kind) (event : Value) → IsSound (handle_event e r kind event)
  handle_event-IsSound Kind.unhandled event db = Sound-refl db
  handle_event-IsSound kind event db =
      after db (object_of event) db (λ object. handle e r kind object) (Sound-refl db)
        (handle-IsSound kind)

  -- Whatever the payload holds, a dispatch keeps the event table and the distinct keys of the
  -- subscription table, if the callbacks do.
  pub dispatch-IsSound : (event : Value) → IsSound (dispatch e r event)
  unfolding dispatch
  dispatch-IsSound event db =
      after db (index "type" event) db (λ t. handle_event e r (kind_of t) event) (Sound-refl db)
        λ t. handle_event-IsSound (kind_of t) event
