-- ===== src/Billing/Views/Update.antt =====
-- The PATCH and the DELETE of `SubscriptionView` in core/apps/billing/views.py.
pub mod Authority
pub mod Seats
use text.Mathlib.Text.{◌==◌ as str_eq}
use saasmint.Base.{
  ℕ, Bool, true, false, not, ◌&&◌, ◌||◌, Option, none, some, List, [], ◌∷◌, ◌++◌, String, ◌==◌, leb,
  ltb, if◌then◌else◌, is_some, is_some_of, any, find, keep, pos, negsuc,
}
use saasmint.Domain.{
  Uuid, Plan, PlanContext, personal, team, PlanPrice, Subscription, is_active_status,
  StripeCustomer, OrgMember, User,
}
use saasmint.Json.{Value}
use saasmint.Database as D
use saasmint.Database.{Db, Action, Task}
use saasmint.Database.Result as R
use saasmint.Database.Result.{Result, ok, err, Error, raise_if}
use saasmint.Stripe.{Stripe, World, Service, pure, raise, lift, gets, on_db, ◌>>=◌, ◌>>◌}
use saasmint.Prices.Catalog.{Catalog, LocalizedPrice, same_owner, plan_price}
use saasmint.Orgs.Seats.{member_count}
use saasmint.Billing.Env.{Env}
use saasmint.Billing.Repositories.{latest, customer_of_user}
use saasmint.Billing.Services.Cancel.{cancel_subscription, resume_subscription}
use saasmint.Billing.Services.Plans.{change_plan, update_seat_count}
use saasmint.Billing.Views.{
  Keys, first, is_of_user, resolve_mutation_context, get_customer_and_paid_subscription,
}
use saasmint.Billing.Views.Checks.{
  SubscriptionPatch, is_seat_limit, is_valid_update, min_team_seats, validate_quantity_for_context,
  reject_seat_limit_below_member_count, plan_of, is_active_plan, get_active_plan_price,
  localized_for_currency, resolve_plan_change_price, check_seats, check_current_plan,
  check_new_plan, requested_plan,
}
use saasmint.Billing.Views.Notices.{
  customer_of_org, team_subscription, personal_subscription, to_list,
  get_active_subscriptions_for_user, is_of_org, refetch_subscription_after_mutation, emails_of,
  billing_notice_recipients, notify, plan_name, notify_toggle,
}

module _ (e : Env) (stripe : Stripe) (object_get : String → Value → Result Value)
    (c : Catalog) where
  -- `_apply_cancel_toggle`
  unfoldable pub apply_cancel_toggle : StripeCustomer → Bool → Service (Unit {0})
  unfolding cancel_subscription resume_subscription
  apply_cancel_toggle customer cancel_at_period_end =
      if cancel_at_period_end
      then cancel_subscription e stripe customer.id true
      else resume_subscription e stripe customer.id

  -- `_apply_plan_change`
  unfoldable pub apply_plan_change :
      Subscription
      → (stripe_id : String) → PlanPrice
      → (seat_limit : Option ℕ) (prorate : Bool) → (org_id : Option Uuid) → Service (Unit {0})
  unfolding resolve_plan_change_price check_seats change_plan
  apply_plan_change sub stripe_id price seat_limit prorate org_id =
      lift (resolve_plan_change_price price sub.currency c) >>= λ (new_price, amount).
      gets (check_seats seat_limit org_id) >>= λ checked.
      lift checked
      >> change_plan e stripe object_get stripe_id new_price (some amount) prorate seat_limit

  -- `_apply_seat_only`
  unfoldable pub apply_seat_only :
      Subscription → (seat_limit : ℕ) (org_id : Option Uuid) → Service (Unit {0})
  unfolding check_current_plan check_seats update_seat_count
  apply_seat_only sub seat_limit org_id = lift (check_current_plan sub seat_limit c) >>= λ _.
      gets (check_seats (some seat_limit) org_id) >>= λ checked.
      lift checked >> update_seat_count e stripe sub seat_limit

  -- The three branches of the `_do` of a PATCH.
  unfoldable pub apply_update :
      SubscriptionPatch
      → Option PlanPrice
      → (org_id : Option Uuid) → StripeCustomer × Subscription × String
      → Service (Unit {0})
  unfolding apply_cancel_toggle apply_plan_change apply_seat_only
  apply_update p price org_id (customer, sub, stripe_id) = elim p.cancel_at_period_end [
    | some toggle ↦ apply_cancel_toggle customer toggle
    | none ↦ elim price [
      | some new ↦ apply_plan_change sub stripe_id new p.seat_limit p.prorate org_id
      | none ↦ elim p.seat_limit [ some n ↦ apply_seat_only sub n org_id | none ↦ pure tt ]
    ]
  ]

module _ (e : Env) (stripe : Stripe) (object_get : String → Value → Result Value) (c : Catalog)
    (key : Keys) (user : User) where
  -- What a PATCH does after the change.
  unfoldable pub finish_update :
      SubscriptionPatch → (context : PlanContext) (org_id : Option Uuid) → Service Subscription
  unfolding refetch_subscription_after_mutation notify_toggle
  finish_update p context org_id =
      gets (refetch_subscription_after_mutation key user.id context) >>= λ refetched.
      lift refetched >>= λ sub. notify_toggle c user org_id p.cancel_at_period_end sub >> pure sub

  -- What follows the prologue of `SubscriptionView.patch`.
  unfoldable pub update_at :
      SubscriptionPatch → (context : PlanContext) (org_id : Option Uuid) → Service Subscription
  unfolding requested_plan get_customer_and_paid_subscription apply_update finish_update
  update_at p context org_id = lift (requested_plan p c) >>= λ price.
      gets (get_customer_and_paid_subscription key user.id (some context) org_id) >>= λ found.
      lift found >>= λ target.
      apply_update e stripe object_get c p price org_id target >> finish_update p context org_id

  -- `SubscriptionView.patch`, with the subscription that it serializes.
  unfoldable pub patch : (query : Option String) → SubscriptionPatch → Service Subscription
  unfolding is_valid_update resolve_mutation_context update_at
  patch query p =
      lift (raise_if (not (is_valid_update p)) Error.validation_error)
      >> (gets (resolve_mutation_context key user.id query) >>= λ resolved.
          lift resolved >>= λ (context, org_id). update_at p context org_id)

  -- The notice of a DELETE, for which the subscription is read only where there are recipients.
  unfoldable pub notify_cancel :
      (context : PlanContext) (org_id : Option Uuid) → List String → Service (Unit {0})
  unfolding refetch_subscription_after_mutation notify_toggle
  notify_cancel context org_id [] = pure tt
  notify_cancel context org_id (email ∷ others) =
      gets (refetch_subscription_after_mutation key user.id context) >>= λ refetched.
      lift refetched >>= notify_toggle c user org_id (some true)

  -- `SubscriptionView.delete`
  unfoldable pub delete : (query : Option String) → Service (Unit {0})
  unfolding resolve_mutation_context get_customer_and_paid_subscription cancel_subscription
      billing_notice_recipients notify_cancel
  delete query = gets (resolve_mutation_context key user.id query) >>= λ resolved.
      lift resolved >>= λ (context, org_id).
      gets (get_customer_and_paid_subscription key user.id (some context) org_id) >>= λ found.
      lift found >>= λ (customer, sub, stripe_id).
      cancel_subscription e stripe customer.id true
      >> (gets (billing_notice_recipients user org_id) >>= notify_cancel context org_id)
