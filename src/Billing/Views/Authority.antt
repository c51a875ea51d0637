-- ===== src/Billing/Views/Authority.antt =====
-- The target of a change of a subscription is one that the user may bill.
use mathlib.Core.Path.{subst}
use saasmint.Base.{
  ◌≡◌, refl, true, Option, none, some, String, is_some_of, find-eq-some, arith, ◌⊎◌, inl, inr,
  Option-cases,
}
use saasmint.Domain.{PlanContext, personal, team, Uuid, StripeCustomer, Subscription}
use saasmint.Database.{Db}
use saasmint.Database.Result.{ok, err, Error, Result-cases}
use saasmint.Stripe.{Stripe, World}
use saasmint.Billing.Customers
use saasmint.Billing.Env.{Env}
use saasmint.Billing.Repositories.{is_active_of, get_active_for_customer}
use saasmint.Billing.Services.Active.{latest-holds}
use saasmint.Billing.Services.Cancel.{active_at_stripe, release_pending_schedule_for_customer}
use saasmint.Billing.Views.{
  Keys, resolve_mutation_context, team_customer, resolve_billing_customer,
  get_customer_and_paid_subscription, mutation_target, delete_scheduled_change,
}
use saasmint.Billing.Views.Context.{bills, MayMutate, resolve_mutation_context-MayMutate}

-- What a change of a subscription may be made to: the active subscription, known to Stripe, of a customer that
-- is the user's own, or that of an org in which the user is a billing member.
pub record IsMutationTarget (u : Uuid) (db : Db) (c : StripeCustomer) (s : Subscription)
    (t : String) : Type 0 where
  pub owned :
      (is_some_of c.user_id u ≡ true)
      ⊎ ((o : Uuid) × (is_some_of c.org_id o ≡ true) × (bills o u db.members ≡ true))
  pub of_customer : is_active_of c.id s ≡ true
  pub has_id : s.stripe_id ≡ some t

resolve_billing_customer-owned :
    (key : Keys) (u : Uuid) (context : PlanContext) (org : Option Uuid) (db : Db)
    (c : StripeCustomer)
    → MayMutate u db (context, org)
    → resolve_billing_customer key u (some context) org db ≡ some c
    → (is_some_of c.user_id u ≡ true)
      ⊎ ((o : Uuid) × (is_some_of c.org_id o ≡ true) × (bills o u db.members ≡ true))
unfolding resolve_billing_customer team_customer Customers.get_by_org_id Customers.get_by_user_id
resolve_billing_customer-owned key u personal org db c may h =
    inl (find-eq-some (λ (r : StripeCustomer). is_some_of r.user_id u) db.customers c h)
resolve_billing_customer-owned key u team none db c may h = ground arith
resolve_billing_customer-owned key u team (some o) db c may h = elim may [
  | inl own ↦ ground arith
  | inr (i, of_team, same, pays) ↦ inr (
    o,
    find-eq-some (λ (r : StripeCustomer). is_some_of r.org_id o) db.customers c h,
    ground arith,
  )
]

pub get_customer_and_paid_subscription-IsMutationTarget :
    (key : Keys) (u : Uuid) (context : PlanContext) (org : Option Uuid) (db : Db)
    (c : StripeCustomer) (s : Subscription) (t : String)
    → MayMutate u db (context, org)
    → get_customer_and_paid_subscription key u (some context) org db ≡ ok (c, s, t)
    → IsMutationTarget u db c s t
unfolding get_customer_and_paid_subscription active_at_stripe get_active_for_customer
get_customer_and_paid_subscription-IsMutationTarget key u context org db c s t may h =
    elim (Option-cases (resolve_billing_customer key u (some context) org db)) [
      | inl missing ↦ ground arith
      | inr (d, there) ↦ elim (Option-cases (get_active_for_customer d.id db)) [
        | inl inactive ↦ ground arith
        | inr (r, live) ↦ elim (Option-cases r.stripe_id) [
          | inl local ↦ ground arith
          | inr (i, known) ↦
              let same : (d, r, i) ≡ (c, s, t) = ground arith in
              subst
                (λ (x : StripeCustomer × Subscription × String). IsMutationTarget u db x.0 x.1 x.2)
                same
                (record {
                  owned = resolve_billing_customer-owned key u context org db d may there;
                  of_customer = latest-holds (is_active_of d.id) db.subscriptions r live;
                  has_id = known;
                })
        ]
      ]
    ]

mutation_target-IsMutationTarget :
    (key : Keys) (u : Uuid) (query : Option String) (db : Db) (c : StripeCustomer)
    (s : Subscription) (t : String)
    → mutation_target key u query db ≡ ok (c, s, t)
    → IsMutationTarget u db c s t
unfolding mutation_target
mutation_target-IsMutationTarget key u query db c s t h =
    elim (Result-cases (resolve_mutation_context key u query db)) [
      | inr (x, refused) ↦ ground arith
      | inl ((context, org), there) ↦
          get_customer_and_paid_subscription-IsMutationTarget key u context org db c s t
            (resolve_mutation_context-MayMutate key u query (context, org) db there) (ground arith)
    ]

-- A request to drop a scheduled change, whatever its context, is refused and leaves the tables and Stripe as
-- they were, or it releases the schedule of a customer that is the user's own or that of an org in which the
-- user is a billing member, and whose active subscription is known to Stripe.
pub delete_scheduled_change-authorised :
    (e : Env) (stripe : Stripe) (key : Keys) (u : Uuid) (query : Option String) (w : World)
    → ((x : Error) × (delete_scheduled_change e stripe key u query w ≡ (err x, w)))
      ⊎ ((c : StripeCustomer) × (s : Subscription) × (t : String) × IsMutationTarget u w.db c s t
          × (delete_scheduled_change e stripe key u query w
              ≡ release_pending_schedule_for_customer e stripe c.id w))
unfolding delete_scheduled_change
delete_scheduled_change-authorised e stripe key u query w =
    elim (Result-cases (mutation_target key u query w.db)) [
      | inr (x, refused) ↦ inl (x, rw (delete_scheduled_change, refused) refl)
      | inl ((c, s, t), there) ↦ inr (
        c,
        s,
        t,
        mutation_target-IsMutationTarget key u query w.db c s t there,
        rw (delete_scheduled_change, there) refl,
      )
    ]
