-- ===== src/Billing/Views.antt =====
-- core/apps/billing/views.py: which subscription a request may change, and the endpoint that drops a
-- scheduled change. `?context=` is the query parameter, an absent one is `none`.
pub mod Context
pub mod Authority
pub mod Checks
pub mod Notices
pub mod Update
pub mod Pricing
pub mod Checkout
pub mod Examples
use text.Mathlib.Text.{◌==◌ as str_eq}
use saasmint.Base.{
  ℕ, Bool, true, false, ◌&&◌, Option, none, some, List, [], ◌∷◌, String, ◌==◌, leb, if◌then◌else◌,
  get_or, any, keep,
}
use saasmint.Domain.{Uuid, PlanContext, personal, team, OrgMember, StripeCustomer, Subscription}
use saasmint.Database.{Db}
use saasmint.Database.Result.{Result, ok, err, Error, ◌>>=◌}
use saasmint.Stripe.{Stripe, World, Service}
use saasmint.Billing.Customers
use saasmint.Billing.Env.{Env}
use saasmint.Billing.Services.Cancel.{active_at_stripe, release_pending_schedule_for_customer}

-- `_validate_subscription_context`, whose text is one of the two values of `PlanContext` or absent.
unfoldable pub validate_subscription_context : Option String → Result (Option PlanContext)
validate_subscription_context none = ok none
validate_subscription_context (some s) =
    if str_eq s ""
    then ok none
    else if str_eq s "team"
    then ok (some team)
    else if str_eq s "personal"
    then ok (some personal)
    else err Error.validation_error

abbrev pub is_of_user : Uuid → OrgMember → Bool
is_of_user u m = m.user_id == u

abbrev pub is_billing_of_user : Uuid → OrgMember → Bool
is_billing_of_user u m = m.user_id == u && m.is_billing

-- The primary keys of the memberships, by which `.first()` orders them: random UUIDs, which the rows of the
-- model leave out.
abbrev pub Keys : Type 0
Keys = OrgMember → ℕ

-- `.first()`
unfoldable pub first : Keys → List OrgMember → Option OrgMember
first key [] = none
first key (m ∷ r) = elim (first key r) [
  | none ↦ some m
  | some n ↦ if leb (key m) (key n) then some m else some n
]

-- `_default_subscription_context`
unfoldable pub default_subscription_context : Uuid → Db → PlanContext
default_subscription_context user_id db =
    if any (is_of_user user_id) db.members then team else personal

-- `_require_billing_authority`
unfoldable pub require_billing_authority : Keys → Uuid → PlanContext → Db → Result (Option Uuid)
unfolding first
require_billing_authority key user_id personal db = ok none
require_billing_authority key user_id team db =
    elim (first key (keep (is_billing_of_user user_id) db.members)) [
      | none ↦ err Error.permission_denied
      | some m ↦ ok (some m.org_id)
    ]

-- The branch of `_resolve_mutation_context` for a request without a context.
unfoldable pub default_mutation_context : Option OrgMember → Result (PlanContext × Option Uuid)
default_mutation_context none = ok (personal, none)
default_mutation_context (some m) =
    if m.is_billing then ok (team, some m.org_id) else err Error.permission_denied

-- `_resolve_mutation_context`
unfoldable pub resolve_mutation_context :
    Keys → Uuid → (query : Option String) → Db → Result (PlanContext × Option Uuid)
unfolding validate_subscription_context require_billing_authority first default_mutation_context
resolve_mutation_context key user_id query db = do
  explicit ← validate_subscription_context query
  elim explicit [
    | some c ↦ (require_billing_authority key user_id c db >>= λ org_id. ok (c, org_id))
    | none ↦ default_mutation_context (first key (keep (is_of_user user_id) db.members))
  ]

-- The customer of the team: that of the given org, else that of the first org of the user.
unfoldable pub team_customer : Keys → Uuid → (org_id : Option Uuid) → Db → Option StripeCustomer
unfolding first Customers.get_by_org_id
team_customer key user_id (some o) db = Customers.get_by_org_id o db
team_customer key user_id none db = elim (first key (keep (is_of_user user_id) db.members)) [
  | none ↦ none
  | some m ↦ Customers.get_by_org_id m.org_id db
]

-- `_resolve_billing_customer`
unfoldable pub resolve_billing_customer :
    Keys → Uuid → (context : Option PlanContext) (org_id : Option Uuid) → Db → Option StripeCustomer
unfolding default_subscription_context team_customer Customers.get_by_user_id
resolve_billing_customer key user_id context org_id db =
    elim (get_or context (default_subscription_context user_id db)) [
      | team ↦ team_customer key user_id org_id db
      | personal ↦ Customers.get_by_user_id user_id db
    ]

-- `_get_customer_and_paid_subscription`
unfoldable pub get_customer_and_paid_subscription :
    Keys
    → Uuid
    → (context : Option PlanContext) (org_id : Option Uuid) → Db
    → Result (StripeCustomer × Subscription × String)
unfolding resolve_billing_customer active_at_stripe
get_customer_and_paid_subscription key user_id context org_id db =
    elim (resolve_billing_customer key user_id context org_id db) [
      | none ↦ err Error.not_found
      | some c ↦ elim (active_at_stripe c.id db) [
        | none ↦ err Error.not_found
        | some (s, t) ↦ ok (c, s, t)
      ]
    ]

-- The prologue of the endpoints that change a subscription: the context, the authority, and the target.
unfoldable pub mutation_target :
    Keys → Uuid → (query : Option String) → Db → Result (StripeCustomer × Subscription × String)
unfolding resolve_mutation_context get_customer_and_paid_subscription
mutation_target key user_id query db = do
  (context, org_id) ← resolve_mutation_context key user_id query db
  get_customer_and_paid_subscription key user_id (some context) org_id db

-- `ScheduledChangeView.delete`
unfoldable pub delete_scheduled_change :
    Env → Stripe → Keys → Uuid → (query : Option String) → Service (Unit {0})
unfolding mutation_target release_pending_schedule_for_customer
delete_scheduled_change e stripe key user_id query w =
    elim (mutation_target key user_id query w.db) [
      | err x ↦ (err x, w)
      | ok (c, s, t) ↦ release_pending_schedule_for_customer e stripe c.id w
    ]
