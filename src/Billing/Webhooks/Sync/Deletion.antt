-- ===== src/Billing/Webhooks/Sync/Deletion.antt =====
-- What a deletion event does to its subscription and to the org behind it.
use mathlib.Core.Path.{subst}
use saasmint.Base.{
  ◌≡◌, refl, true, none, some, ◌⊎◌, inl, inr, Bool-cases, Option-cases, arith, sym, ap,
}
use saasmint.Domain.{Uuid, Subscription, StripeCustomer, canceled}
use saasmint.Json.{Value}
use saasmint.Json.Access.{index}
use saasmint.Database.{Db, Action}
use saasmint.Database.Result.{Result, ok, err}
use saasmint.Billing.Env.{Env, to_text}
use saasmint.Billing.Customers
use saasmint.Billing.Repositories.{get_by_stripe_id, save, put_row, is_refused}
use saasmint.Billing.Repositories.Distinct.{IsDistinct}
use saasmint.Billing.Repositories.Update.{has_owner, Rewrites, save-Rewrites}
use saasmint.Billing.Webhooks.Sync.{
  OrgCallback, deactivate, org_to_deactivate, mark_canceled, on_subscription_deleted,
}

-- The org behind a subscription that no user has: that of its customer.
abbrev pub IsBehind : Subscription → Db → Uuid → Type 0
IsBehind s db o =
    (s.user_id ≡ none)
    × ((i : Uuid) × (c : StripeCustomer) × (s.stripe_customer_id ≡ some i)
        × (Customers.get_by_id i db ≡ some c)
        × (c.org_id ≡ some o))

-- A run that ends with the callback for the org behind a subscription, where there are both, and that does
-- nothing more otherwise.
abbrev pub EndsBehind : OrgCallback → Subscription → (db db' : Db) → Result (Unit {0}) × Db → Type 0
EndsBehind callback s db db' run =
    ((o : Uuid) × (f : Uuid → Action (Unit {0})) × IsBehind s db o
      × (callback ≡ some f)
      × (run ≡ f o db'))
    ⊎ (((o : Uuid) → IsBehind s db o → callback ≡ none) × (run ≡ (ok tt, db')))

org_to_deactivate-IsBehind :
    (s : Subscription) (db : Db) (o : Uuid) → org_to_deactivate s db ≡ some o → IsBehind s db o
unfolding org_to_deactivate
org_to_deactivate-IsBehind s db o h = elim (Option-cases s.user_id) [
  | inr (u, owned) ↦ ground (arith, owned)
  | inl free ↦ elim (Option-cases s.stripe_customer_id) [
    | inl missing ↦ ground (arith, free, missing)
    | inr (i, there) ↦ elim (Option-cases (Customers.get_by_id i db)) [
      | inl gone ↦ ground (arith, free, there, gone)
      | inr (c, found) ↦ (free, (i, c, there, found, ground (arith, free, there, found)))
    ]
  ]
]

org_to_deactivate-of_IsBehind :
    (s : Subscription) (db : Db) (o : Uuid) → IsBehind s db o → org_to_deactivate s db ≡ some o
unfolding org_to_deactivate
org_to_deactivate-of_IsBehind s db o (free, (i, c, there, found, named)) =
    rw (org_to_deactivate, free, there, found) named

deactivate-EndsBehind :
    (callback : OrgCallback) (s : Subscription) (db db' : Db)
    → EndsBehind callback s db db' (deactivate callback (org_to_deactivate s db) db')
deactivate-EndsBehind none s db db' = elim (Option-cases (org_to_deactivate s db)) [
  | inl nowhere ↦ inr (λ o h. refl, rw nowhere refl)
  | inr (o, there) ↦ inr (λ o h. refl, rw there refl)
]
deactivate-EndsBehind (some f) s db db' = elim (Option-cases (org_to_deactivate s db)) [
  | inl nowhere ↦ inr (
    λ o h. absurd (ground (arith, nowhere, org_to_deactivate-of_IsBehind s db o h)),
    rw nowhere refl,
  )
  | inr (o, there) ↦ inl (o, f, org_to_deactivate-IsBehind s db o there, refl, rw there refl)
]

save-writes :
    (e : Env) (row : Subscription) (db : Db)
    → (save e row db).0 ≡ ok tt
    → save e row db ≡ (ok tt, record db { subscriptions = put_row e.now row db.subscriptions })
unfolding save
save-writes e row db h = elim (Bool-cases (is_refused row db.subscriptions)) [
  | inl refused ↦ ground (arith, refused)
  | inr fits ↦ rw (save, fits) refl
]

-- What follows the save.
abbrev after_save : OrgCallback → Subscription → Result (Unit {0}) × Db → Result (Unit {0}) × Db
after_save callback s x = elim x.0 [
  | ok _ ↦ deactivate callback (org_to_deactivate s x.1) x.1
  | err error ↦ (err error, x.1)
]

-- A deletion event for a subscription of the table cancels it: in the subscriptions, and in no other table,
-- the row is canceled now and otherwise as before, and every other `stripe_id` finds what it found. From there
-- the callback runs for the org of the subscription's customer, if the subscription has no user and there are
-- such an org and a callback; otherwise nothing more happens.
pub on_subscription_deleted-cancels :
    (e : Env) (callback : OrgCallback) (v u : Value) (db : Db) (s : Subscription)
    → IsDistinct db.subscriptions
    → index "id" v ≡ ok u
    → get_by_stripe_id (to_text e.texts u) db ≡ some s
    → has_owner s ≡ true
    → (db' : Db) × Rewrites
        (to_text e.texts u)
        (record s { status = canceled; canceled_at = some e.now })
        db
        (ok tt, db')
      × (db' ≡ record db { subscriptions = db'.subscriptions })
      × EndsBehind callback s db db' (on_subscription_deleted e callback v db)
unfolding on_subscription_deleted org_to_deactivate
on_subscription_deleted-cancels e callback v u db s d read known owned =
    let t = to_text e.texts u in
    let row = mark_canceled e s in
    let r = save-Rewrites e t db s row d known refl refl owned in
    let db' : Db = record db { subscriptions = put_row e.now row db.subscriptions } in
    let saved : save e row db ≡ (ok tt, db') = save-writes e row db r.succeeds in
    (
      db',
      subst (λ x. Rewrites t row db (ok tt, x)) (ap (λ x. x.1) saved)
          (record { succeeds = refl; rewritten = r.rewritten; others = r.others }),
      refl,
      rw (on_subscription_deleted, read, known)
          (subst (λ x. EndsBehind callback s db db' (after_save callback s x)) (sym saved)
            (deactivate-EndsBehind callback s db db')),
    )
