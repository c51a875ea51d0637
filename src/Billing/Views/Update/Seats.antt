-- ===== src/Billing/Views/Update/Seats.antt =====
-- A PATCH does not take the seats of members.
use saasmint.Base.{
  ℕ, ◌≡◌, refl, Bool, true, Option, none, some, String, ltb, arith, inl, inr, Bool-cases,
  Option-cases,
}
use saasmint.Domain.{Uuid, PlanContext, PlanPrice, Subscription, StripeCustomer, User}
use saasmint.Json.{Value}
use saasmint.Database.{Db}
use saasmint.Database.Result.{Result, ok, err, Error, Result-cases}
use saasmint.Stripe.{Stripe, World, lift, gets, ◌>>=◌}
use saasmint.Prices.Catalog.{Catalog}
use saasmint.Orgs.Seats.{member_count}
use saasmint.Billing.Env.{Env}
use saasmint.Billing.Views.{Keys, resolve_mutation_context, get_customer_and_paid_subscription}
use saasmint.Billing.Views.Checks.{
  SubscriptionPatch, is_valid_update, reject_seat_limit_below_member_count, check_seats,
  check_current_plan, resolve_plan_change_price, requested_plan,
}
use saasmint.Billing.Views.Update.{
  apply_plan_change, apply_seat_only, apply_update, update_at, patch,
}

-- A limit on seats comes with no toggle of the cancellation.
no_toggle :
    (p : SubscriptionPatch) (n : ℕ)
    → is_valid_update p ≡ true
    → p.seat_limit ≡ some n
    → p.cancel_at_period_end ≡ none
unfolding is_valid_update
no_toggle p n valid asked = elim (Option-cases p.cancel_at_period_end) [
  | inl none_ ↦ none_
  | inr (b, toggled) ↦ ground arith
]

check_seats-few :
    (n : ℕ) (o : Uuid) (db : Db)
    → ltb n (member_count o db) ≡ true
    → check_seats (some n) (some o) db ≡ err Error.seats_below_member_count
unfolding check_seats reject_seat_limit_below_member_count
check_seats-few n o db few = rw (check_seats, few) refl

module _ (e : Env) (stripe : Stripe) (object_get : String → Value → Result Value) (c : Catalog)
    (n : ℕ) (o : Uuid) (w : World) (few : ltb n (member_count o w.db) ≡ true) where
  apply_plan_change-refuses :
      (sub : Subscription) (stripe_id : String) (price : PlanPrice) (prorate : Bool)
      → (x : Error) × (apply_plan_change e stripe object_get c sub stripe_id price
            (some n)
            prorate
            (some o)
            w
          ≡ (err x, w))
  unfolding apply_plan_change ◌>>=◌ lift gets
  apply_plan_change-refuses sub stripe_id price prorate =
      elim (Result-cases (resolve_plan_change_price price sub.currency c)) [
        | inr (x, unpriced) ↦ (x, rw (apply_plan_change, unpriced) refl)
        | inl (new, priced) ↦ (
          Error.seats_below_member_count,
          rw (apply_plan_change, priced, check_seats-few n o w.db few) refl,
        )
      ]

  apply_seat_only-refuses :
      (sub : Subscription)
      → (x : Error) × (apply_seat_only e stripe object_get c sub n (some o) w ≡ (err x, w))
  unfolding apply_seat_only ◌>>=◌ lift gets
  apply_seat_only-refuses sub = elim (Result-cases (check_current_plan sub n c)) [
    | inr (x, unfit) ↦ (x, rw (apply_seat_only, unfit) refl)
    | inl (q, fit) ↦ (
      Error.seats_below_member_count,
      rw (apply_seat_only, fit, check_seats-few n o w.db few) refl,
    )
  ]

  apply_update-refuses :
      (p : SubscriptionPatch) (price : Option PlanPrice)
      (target : StripeCustomer × Subscription × String)
      → p.cancel_at_period_end ≡ none
      → p.seat_limit ≡ some n
      → (x : Error) × (apply_update e stripe object_get c p price (some o) target w ≡ (err x, w))
  unfolding apply_update
  apply_update-refuses p none (customer, sub, stripe_id) untoggled asked =
      let (x, refused) = apply_seat_only-refuses sub in
      (x, rw (apply_update, untoggled, asked) refused)
  apply_update-refuses p (some price) (customer, sub, stripe_id) untoggled asked =
      let (x, refused) = apply_plan_change-refuses sub stripe_id price p.prorate in
      (x, rw (apply_update, untoggled, asked) refused)

  -- A PATCH with fewer seats than the org that it is about has members is refused, with or without a change of
  -- the plan, before anything is asked of Stripe, and the tables stay as they were.
  pub patch-refuses_seats :
      (key : Keys) (user : User) (query : Option String) (p : SubscriptionPatch)
      (context : PlanContext)
      → resolve_mutation_context key user.id query w.db ≡ ok (context, some o)
      → p.seat_limit ≡ some n
      → (x : Error) × (patch e stripe object_get c key user query p w ≡ (err x, w))
  unfolding patch update_at ◌>>=◌ lift gets
  patch-refuses_seats key user query p context resolved asked =
      elim (Bool-cases (is_valid_update p)) [
        | inr invalid ↦ (Error.validation_error, rw (patch, invalid) refl)
        | inl valid ↦ elim (Result-cases (requested_plan p c)) [
          | inr (x, unknown) ↦ (x, rw (patch, valid, resolved, update_at, unknown) refl)
          | inl (price, known) ↦
              elim (Result-cases
                (get_customer_and_paid_subscription key user.id (some context) (some o) w.db)) [
                  | inr (x, missing) ↦
                      (x, rw (patch, valid, resolved, update_at, known, missing) refl)
                  | inl (target, found) ↦
                      let (x, refused) =
                        apply_update-refuses p price target (no_toggle p n valid asked) asked in
                      (x, rw (patch, valid, resolved, update_at, known, found, refused) refl)
                ]
        ]
      ]
