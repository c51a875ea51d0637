-- ===== src/Orgs/Checkout.antt =====
-- The creation of an org by a team checkout: `_create_org_with_owner` and `on_team_checkout_completed` of
-- core/apps/orgs/services.py.
pub mod Again
pub mod Examples
use text.Mathlib.Text.{◌==◌ as str_eq}
use saasmint.Base.{
  ℕ, Bool, true, false, not, ◌||◌, Option, none, some, List, [], ◌∷◌, ◌++◌, String, ◌==◌,
  if◌then◌else◌, find, any,
}
use saasmint.Domain.{Uuid, Org, OrgMember, owner, StripeCustomer, User}
use saasmint.Json.{Value, null}
use saasmint.Database as D
use saasmint.Database.{Db, Action}
use saasmint.Database.Result.{Result, ok, err, Error}
use saasmint.Stripe.{
  Stripe, World, Service, subscription_retrieve, request, pure, raise, lift, gets, on_db, ◌>>=◌,
  ◌>>◌,
}
use saasmint.Billing.Customers
use saasmint.Billing.Env.{Env, to_text}
use saasmint.Billing.Services.{is_null}
use saasmint.Billing.Services.Customer.{as_flag}
use saasmint.Billing.Services.Cancel.{cancel_subscription}
use saasmint.Billing.Webhooks.Checkout.{TeamCheckout}
use saasmint.Billing.Webhooks.Sync.{sync_subscription_from_data}
use saasmint.Orgs.Invitations.{insert_member}
use saasmint.Orgs.Members.{is_membership}
use saasmint.Orgs.Slugs.{generate_unique_slug}

-- The defaults of the ids of the two rows, the clock, and Django's `slugify`.
pub record Fresh : Type 0 where
  pub org_id : Uuid
  pub customer_id : Uuid
  pub now : ℕ
  pub slugify : String → String

-- `Org.objects.create(…)`: the id and the slug are unique.
unfoldable pub insert_org : Org → Action (Unit {0})
insert_org o db =
    if any (λ (r : Org). r.id == o.id || str_eq r.slug o.slug) db.orgs
    then (err Error.integrity_error, db)
    else (ok tt, record db { orgs = db.orgs ++ o ∷ [] })

abbrev pub org_of : Option Uuid → Db → Option Org
org_of none db = none
org_of (some i) db = find (λ (o : Org). o.id == i) db.orgs

abbrev pub member_of : Option Org → Uuid → Db → Option (Org × OrgMember)
member_of none user_id db = none
member_of (some o) user_id db = elim (find (is_membership o.id user_id) db.members) [
  | none ↦ none
  | some m ↦ some (o, m)
]

-- The org and the membership that an earlier delivery made for this Stripe customer.
unfoldable pub already_created : Option String → Uuid → Db → Option (Org × OrgMember)
unfolding Customers.get_by_stripe_id
already_created none user_id db = none
already_created (some t) user_id db = elim (Customers.get_by_stripe_id t db) [
  | none ↦ none
  | some c ↦ member_of (org_of c.org_id db) user_id db
]

module _ (f : Fresh) where
  abbrev pub new_org : (user_id : Uuid) (name slug : String) → Org
  new_org user_id name slug = record {
    id = f.org_id;
    name = name;
    slug = slug;
    created_by = some user_id;
  }

  abbrev pub first_member : (user_id : Uuid) → OrgMember
  first_member user_id = record {
    org_id = f.org_id;
    user_id = user_id;
    role = owner;
    is_billing = true;
  }

  abbrev pub org_customer : (stripe_id : String) (livemode : Bool) → StripeCustomer
  org_customer stripe_id livemode = record {
    id = f.customer_id;
    stripe_id = stripe_id;
    user_id = none;
    org_id = some f.org_id;
    livemode = livemode;
    created_at = f.now;
  }

  abbrev pub insert_org_customer : Option String → (livemode : Bool) → Action (Unit {0})
  insert_org_customer none livemode db = (ok tt, db)
  insert_org_customer (some t) livemode db =
      Customers.insert_customer f.customer_id f.now (org_customer t livemode) db

  -- The three inserts. The generator returns a slug for every name, so the first clause is never used.
  unfoldable pub create_rows :
      (user_id : Uuid) (name : String) (slug : Option String)
      → Option String
      → (livemode : Bool) → Action (Org × OrgMember)
  unfolding insert_org insert_member Customers.insert_customer
  create_rows user_id name none stripe_id livemode db = (err Error.value_error, db)
  create_rows user_id name (some slug) stripe_id livemode db =
      let (made, db1) = insert_org (new_org user_id name slug) db in
      let (joined, db2) = insert_member (first_member user_id) db1 in
      let (linked, db3) = insert_org_customer stripe_id livemode db2 in
      elim made [
        | err x ↦ (err x, db)
        | ok _ ↦ elim joined [
          | err x ↦ (err x, db)
          | ok _ ↦ elim linked [
            | err x ↦ (err x, db)
            | ok _ ↦ (ok (new_org user_id name slug, first_member user_id), db3)
          ]
        ]
      ]

  -- `_create_org_with_owner`
  unfoldable pub create_org_with_owner :
      (user_id : Uuid) (name : String)
      → Option String
      → (livemode : Bool) → Action (Org × OrgMember)
  unfolding already_created create_rows generate_unique_slug
  create_org_with_owner user_id name stripe_id livemode db =
      elim (already_created stripe_id user_id db) [
        | some found ↦ (ok found, db)
        | none ↦
            create_rows user_id name (generate_unique_slug f.slugify name db) stripe_id livemode db
      ]

-- `User.objects.aget(id=user_id)`
abbrev pub get_user : Uuid → Db → Result User
get_user u db = elim (find (λ (r : User). r.id == u) db.users) [
  | none ↦ err Error.does_not_exist
  | some r ↦ ok r
]

module _ (e : Env) (stripe : Stripe) (f : Fresh) where
  -- `_persist_team_subscription`
  unfoldable pub persist_team_subscription : Value → Service (Unit {0})
  unfolding request to_text sync_subscription_from_data
  persist_team_subscription subscription_id = do
    sub ← request stripe (subscription_retrieve (to_text e.texts subscription_id))
    on_db (sync_subscription_from_data e sub)

  -- `except SubscriptionNotFoundError: return`
  abbrev pub unless_not_found : Result (Unit {0}) × World → Result (Unit {0}) × World
  unless_not_found (ok a, w) = (ok a, w)
  unless_not_found (err Error.subscription_not_found, w) = (ok tt, w)
  unless_not_found (err x, w) = (err x, w)

  -- `_schedule_personal_cancel_at_period_end`
  unfoldable pub schedule_personal_cancel_at_period_end : Uuid → Service (Unit {0})
  unfolding Customers.get_by_user_id cancel_subscription
  schedule_personal_cancel_at_period_end user_id w = elim (Customers.get_by_user_id user_id w.db) [
    | none ↦ (ok tt, w)
    | some c ↦ unless_not_found (cancel_subscription e stripe c.id true w)
  ]

  abbrev pub persist_if_any : Value → Service (Unit {0})
  persist_if_any subscription_id =
      if is_null subscription_id then pure tt else persist_team_subscription subscription_id

  abbrev pub cancel_personal_unless : Bool → Uuid → Service (Unit {0})
  cancel_personal_unless keep user_id =
      if keep then pure tt else schedule_personal_cancel_at_period_end user_id

  -- `on_team_checkout_completed`
  unfoldable pub on_team_checkout_completed : TeamCheckout → Service (Unit {0})
  unfolding create_org_with_owner as_flag to_text
  on_team_checkout_completed checkout = do
    found ← gets (get_user checkout.user_id)
    user ← lift found
    livemode ← lift (as_flag checkout.livemode)
    _created ← on_db (
        create_org_with_owner f checkout.user_id (to_text e.texts checkout.org_name)
          (some checkout.stripe_customer_id) livemode)
    _persisted ← persist_if_any checkout.subscription_id
    cancel_personal_unless checkout.keep_personal checkout.user_id
