-- ===== src/Billing/Views/Notices.antt =====
-- The subscription that the views of core/apps/billing/views.py read after a change, and the notices of it.
use saasmint.Base.{
  Bool, false, not, ◌&&◌, ◌||◌, Option, none, some, List, [], ◌∷◌, ◌++◌, String, ◌==◌,
  if◌then◌else◌, is_some, is_some_of, any, find, keep,
}
use saasmint.Domain.{
  Uuid, PlanContext, personal, team, Subscription, is_active_status, StripeCustomer, OrgMember,
  User,
}
use saasmint.Database.{Db, Action, Task}
use saasmint.Database.Result.{Result, ok, err, Error}
use saasmint.Stripe.{Service, pure, lift, gets, on_db, ◌>>=◌}
use saasmint.Prices.Catalog.{Catalog}
use saasmint.Billing.Repositories.{latest, customer_of_user}
use saasmint.Billing.Views.{Keys, first, is_of_user}
use saasmint.Billing.Views.Checks.{plan_of}

-- `stripe_customer__org_id = org`
abbrev pub customer_of_org : Uuid → Db → Subscription → Bool
customer_of_org o db s = elim s.stripe_customer_id [
  | none ↦ false
  | some i ↦ any (λ (r : StripeCustomer). r.id == i && is_some_of r.org_id o) db.customers
]

-- The team subscription and the personal one of `_get_active_subscriptions_for_user`.
unfoldable pub team_subscription : Keys → Uuid → Db → Option Subscription
unfolding first latest is_active_status
team_subscription key user_id db = elim (first key (keep (is_of_user user_id) db.members)) [
  | none ↦ none
  | some m ↦
      latest
        (keep (λ s. is_active_status s.status && customer_of_org m.org_id db s) db.subscriptions)
]

unfoldable pub personal_subscription : Uuid → Db → Option Subscription
unfolding latest is_active_status
personal_subscription user_id db = latest (
    keep
      (λ s.
        is_active_status s.status
        && (is_some_of s.user_id user_id || customer_of_user user_id db s))
      db.subscriptions)

abbrev pub to_list : Option Subscription → List Subscription
to_list none = []
to_list (some s) = s ∷ []

-- `_get_active_subscriptions_for_user`
unfoldable pub get_active_subscriptions_for_user : Keys → Uuid → Db → List Subscription
unfolding team_subscription personal_subscription
get_active_subscriptions_for_user key user_id db =
    let subs = to_list (team_subscription key user_id db) in
    subs
    ++ keep (λ p. not (any (λ (s : Subscription). s.id == p.id) subs))
        (to_list (personal_subscription user_id db))

-- Whether the customer of a subscription is an org's.
abbrev pub is_of_org : Db → Subscription → Bool
is_of_org db s = elim s.stripe_customer_id [
  | none ↦ false
  | some i ↦ any (λ (r : StripeCustomer). r.id == i && is_some r.org_id) db.customers
]

-- `_refetch_subscription_after_mutation`
unfoldable pub refetch_subscription_after_mutation :
    Keys → Uuid → PlanContext → Db → Result Subscription
unfolding get_active_subscriptions_for_user
refetch_subscription_after_mutation key user_id context db =
    let subs = get_active_subscriptions_for_user key user_id db in
    let found : Option Subscription = elim context [
      | team ↦ find (is_of_org db) subs
      | personal ↦ find (λ s. not (is_of_org db s)) subs
    ] in
    elim found [ none ↦ err Error.not_found | some s ↦ ok s ]

-- The emails of the users in a list of memberships.
abbrev pub emails_of : List OrgMember → List User → List String
emails_of [] users = []
emails_of (m ∷ r) users = elim (find (λ (u : User). u.id == m.user_id) users) [
  | none ↦ emails_of r users
  | some u ↦ u.email ∷ emails_of r users
]

-- `_billing_notice_recipients`
unfoldable pub billing_notice_recipients : User → (org_id : Option Uuid) → Db → List String
billing_notice_recipients user none db = user.email ∷ []
billing_notice_recipients user (some o) db =
    emails_of (keep (λ (m : OrgMember). m.org_id == o && m.is_billing) db.members) db.users

-- `send_subscription_cancel_notice_task.delay(…)`, at the commit.
unfoldable pub notify : List String → (plan_name action : String) → Action (Unit {0})
notify recipients plan_name action db = (
  ok tt,
  record db {
    queue = db.queue ++ Task.send_subscription_cancel_notice recipients plan_name action ∷ [];
  },
)

-- `sub.plan.name`, where the foreign key finds its plan.
unfoldable pub plan_name : Subscription → Catalog → Result String
plan_name sub c = elim (plan_of sub.plan_id c) [
  | none ↦ err Error.does_not_exist
  | some p ↦ ok p.name
]

-- The notice of a PATCH.
unfoldable pub notify_toggle :
    Catalog → User → (org_id : Option Uuid) → Option Bool → Subscription → Service (Unit {0})
unfolding billing_notice_recipients notify plan_name
notify_toggle c user org_id none sub = pure tt
notify_toggle c user org_id (some toggle) sub =
    gets (billing_notice_recipients user org_id) >>= λ recipients. elim recipients [
      | [] ↦ pure tt
      | email ∷ others ↦
          (lift (plan_name sub c) >>= λ name.
          on_db (notify (email ∷ others) name (if toggle then "scheduled" else "resumed")))
    ]
