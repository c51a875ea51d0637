-- ===== src/Billing/Views/Update/Authority.antt =====
-- Whose subscription a PATCH and a DELETE may change.
use saasmint.Base.{◌≡◌, refl, Option, some, String, ◌⊎◌, inl, inr, Bool-cases}
use saasmint.Domain.{Uuid, PlanContext, PlanPrice, Subscription, StripeCustomer, User}
use saasmint.Json.{Value}
use saasmint.Database.Result.{Result, err, Error, Result-cases}
use saasmint.Stripe.{Stripe, World, lift, gets, ◌>>=◌, ◌>>◌}
use saasmint.Prices.Catalog.{Catalog}
use saasmint.Billing.Env.{Env}
use saasmint.Billing.Views.{Keys, resolve_mutation_context, get_customer_and_paid_subscription}
use saasmint.Billing.Views.Context.{resolve_mutation_context-MayMutate}
use saasmint.Billing.Views.Authority.{
  IsMutationTarget, get_customer_and_paid_subscription-IsMutationTarget,
}
use saasmint.Billing.Views.Checks.{SubscriptionPatch, is_valid_update, requested_plan}
use saasmint.Billing.Views.Update.{apply_update, finish_update, update_at, patch}

module _ (e : Env) (stripe : Stripe) (object_get : String → Value → Result Value) (c : Catalog)
    (key : Keys) (user : User) where
  -- A change that goes through: its context and org, its plan, and its target.
  pub record Change (p : SubscriptionPatch) (w : World) : Type 0 where
    pub context : PlanContext
    pub org_id : Option Uuid
    pub price : Option PlanPrice
    pub customer : StripeCustomer
    pub sub : Subscription
    pub stripe_id : String
    pub allowed : IsMutationTarget user.id w.db customer sub stripe_id

  -- A PATCH, whatever its context and its body, is refused and leaves the tables and Stripe as they were, or it
  -- applies the change to the subscription of a customer that is the user's own or that of an org in which the
  -- user is a billing member.
  pub patch-authorised :
      (query : Option String) (p : SubscriptionPatch) (w : World)
      → ((x : Error) × (patch e stripe object_get c key user query p w ≡ (err x, w)))
        ⊎ ((a : Change p w) × (patch e stripe object_get c key user query p w
              ≡ (apply_update e stripe object_get c p a.price a.org_id
                      (a.customer, a.sub, a.stripe_id)
                    >> finish_update e stripe object_get c key user p a.context a.org_id)
                  w))
  unfolding patch update_at ◌>>=◌ lift gets
  patch-authorised query p w = elim (Bool-cases (is_valid_update p)) [
    | inr invalid ↦ inl (Error.validation_error, rw (patch, invalid) refl)
    | inl valid ↦ elim (Result-cases (resolve_mutation_context key user.id query w.db)) [
      | inr (x, refused) ↦ inl (x, rw (patch, valid, refused) refl)
      | inl ((context, org_id), resolved) ↦ elim (Result-cases (requested_plan p c)) [
        | inr (x, unknown) ↦ inl (x, rw (patch, valid, resolved, update_at, unknown) refl)
        | inl (price, known) ↦
            elim (Result-cases
              (get_customer_and_paid_subscription key user.id (some context) org_id w.db)) [
                | inr (x, missing) ↦
                    inl (x, rw (patch, valid, resolved, update_at, known, missing) refl)
                | inl ((customer, sub, stripe_id), found) ↦ inr (
                  record {
                    context = context;
                    org_id = org_id;
                    price = price;
                    customer = customer;
                    sub = sub;
                    stripe_id = stripe_id;
                    allowed =
                        get_customer_and_paid_subscription-IsMutationTarget key user.id context
                          org_id w.db customer sub stripe_id
                          (resolve_mutation_context-MayMutate key user.id query (context, org_id)
                            w.db resolved)
                          found;
                  },
                  rw (patch, valid, resolved, update_at, known, found) refl,
                )
              ]
      ]
    ]
  ]
