-- ===== src/Billing/Repositories.antt =====
-- The subscription and price repositories of core/apps/billing/repositories.py over the tables of `Db`. A row and its domain object have the same
-- fields, so `_to_domain` is the identity.
pub mod Distinct
pub mod Update
use text.Mathlib.Text.{◌==◌ as str_eq}
use saasmint.Base.{
  ℕ, Bool, true, false, not, ◌&&◌, ◌||◌, Option, none, some, List, [], ◌∷◌, ◌++◌, String, ◌==◌, leb,
  if◌then◌else◌, is_some, is_some_of, find, any, keep, update_where,
}
use saasmint.Domain.{Uuid, Time, PlanPrice, Subscription, is_active_status, StripeCustomer}
use saasmint.Database.{Db, Action}
use saasmint.Database.Result.{ok, err, Error}
use saasmint.Billing.Env.{Env}

-- `stripe_id = text` on a nullable column.
abbrev pub has_text : String → Option String → Bool
has_text t none = false
has_text t (some s) = str_eq s t

-- Whether two nullable unique columns clash: NULL clashes with nothing.
abbrev pub clashes : Option String → Option String → Bool
clashes none b = false
clashes (some s) b = has_text s b

-- `DjangoPlanRepository.get_price_by_stripe_id`
unfoldable pub get_price_by_stripe_id : String → Db → Option PlanPrice
get_price_by_stripe_id t db = find (λ p. str_eq p.stripe_price_id t) db.plan_prices

unfoldable pub get_by_stripe_id : String → Db → Option Subscription
get_by_stripe_id t db = find (λ s. has_text t s.stripe_id) db.subscriptions

-- `queryset.alatest("created_at")`
unfoldable pub latest : List Subscription → Option Subscription
latest [] = none
latest (s ∷ r) = elim (latest r) [
  | none ↦ some s
  | some t ↦ if leb t.created_at s.created_at then some s else some t
]

abbrev pub is_active_of : Uuid → Subscription → Bool
is_active_of c s = is_some_of s.stripe_customer_id c && is_active_status s.status

-- `aget` finds one row, none, or several, of which the latest is then read.
unfoldable pub get_active_for_customer : Uuid → Db → Option Subscription
unfolding latest is_active_status
get_active_for_customer c db = latest (keep (is_active_of c) db.subscriptions)

-- `stripe_customer__user_id = user`
abbrev pub customer_of_user : Uuid → Db → Subscription → Bool
customer_of_user u db s = elim s.stripe_customer_id [
  | none ↦ false
  | some c ↦ any (λ (r : StripeCustomer). r.id == c && is_some_of r.user_id u) db.customers
]

abbrev pub newer : Option Subscription → Option Subscription → Option Subscription
newer none b = b
newer (some a) none = some a
newer (some a) (some b) = if leb b.created_at a.created_at then some a else some b

unfoldable pub get_active_for_user : Uuid → Db → Option Subscription
unfolding latest is_active_status
get_active_for_user u db =
    newer
      (latest (keep (λ s. is_active_status s.status && is_some_of s.user_id u) db.subscriptions))
      (latest (keep (λ s. is_active_status s.status && customer_of_user u db s) db.subscriptions))

-- The database refuses a second row with a `stripe_id` in use, and a row with no owner.
abbrev pub is_refused : Subscription → List Subscription → Bool
is_refused s rows =
    any (λ (r : Subscription). not (r.id == s.id) && clashes s.stripe_id r.stripe_id) rows
    || not (is_some s.user_id || is_some s.stripe_customer_id)

-- The update or the insert of `aupdate_or_create(id=…)`; `created_at` is not among its defaults.
unfoldable pub put_row : Time → Subscription → List Subscription → List Subscription
put_row now s rows =
    if any (λ (r : Subscription). r.id == s.id) rows
    then update_where (λ (r : Subscription). r.id == s.id)
        (λ r. record s { created_at = r.created_at }) rows
    else rows ++ (record s { created_at = now }) ∷ []

-- `DjangoSubscriptionRepository.save`
unfoldable pub save : Env → Subscription → Action (Unit {0})
unfolding put_row
save e s db =
    if is_refused s db.subscriptions
    then (err Error.integrity_error, db)
    else (ok tt, record db { subscriptions = put_row e.now s db.subscriptions })
