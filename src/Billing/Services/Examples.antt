-- ===== src/Billing/Services/Examples.antt =====
-- The theorems about the billing services at a small world, with a Stripe that gives one answer to all.
use saasmint.Billing.Repositories.{get_active_for_customer}
use saasmint.Base.{◌≡◌, refl, true, false, none, some, [], String}
use saasmint.Domain.{Subscription, StripeCustomer}
use saasmint.Json.{Value, null, bool, num, str, arr, obj, nil, cons, end, entry}
use saasmint.Database.Result.{Result, ok, err, stripe_error}
use saasmint.Samples.{env, db, subscription}
use saasmint.Stripe.{Stripe, World, request, pure, lift, gets, on_db, ◌>>=◌}
use saasmint.Billing.Repositories.Distinct.{IsDistinct}
use saasmint.Billing.Services.{PlanItem}
use saasmint.Billing.Services.Customer.{get_or_create_customer}
use saasmint.Billing.Services.Customer.Again.{get_or_create_customer-again}
use saasmint.Billing.Services.Cancel.{
  active_at_stripe, cancel_call, cancel_subscription, mirror_cancel_state,
}
use saasmint.Billing.Services.Plans.{change_plan}
use saasmint.Billing.Services.Mirror.{IsMirrored, cancel_subscription-IsMirrored}

abbrev item : Value
item = obj (
    entry "id" (str "si_1") (
      entry "quantity" (num 5) (
        entry "current_period_start" (num 10) (
          entry "current_period_end" (num 90) (
            entry "price" (obj (entry "id" (str "price_1") (entry "unit_amount" (num 900) end)))
              end)))))

abbrev answer : Value
answer = obj (
    entry "id" (str "sub_1") (
      entry "livemode" (bool false) (
        entry "schedule" null (
          entry "cancel_at" (num 20) (
            entry "canceled_at" (num 12) (
              entry "status" (str "active") (
                entry "items" (obj (entry "data" (arr (cons item nil)) end))
                  (entry "currency" (str "usd") end))))))))

abbrev stripe : Stripe
stripe = λ calls c. ok answer

abbrev failing : Stripe
failing = λ calls c. err stripe_error

abbrev world : World
world = record { db = db; calls = [] }

abbrev row : Subscription
row = record subscription { seat_limit = 5 }

rows-IsDistinct : IsDistinct world.db.subscriptions
rows-IsDistinct = (refl, refl, tt)

cancel_subscription-IsMirrored_example :
    IsMirrored env stripe row "sub_1"
      (cancel_call env stripe true "sub_1")
      world
      (cancel_subscription env stripe 3 true world).1
unfolding active_at_stripe get_active_for_customer cancel_subscription ◌>>=◌ gets pure request
    mirror_cancel_state lift on_db
cancel_subscription-IsMirrored_example =
    cancel_subscription-IsMirrored env stripe 3 true row "sub_1" world
      (cancel_subscription env stripe 3 true world).1 rows-IsDistinct refl refl

abbrev plan : PlanItem
plan = record { item_id = "si_1"; current_quantity = 5; is_downgrade = true }

abbrev object_get : String → Value → Result Value
object_get = λ k v. ok (str "usd")

-- The downgrade of the next example succeeds.
downgrade :
    (change_plan env stripe object_get "sub_1" "price_0" (some 400) true none world).0 ≡ ok tt
unfolding change_plan ◌>>=◌ lift pure
downgrade = refl

abbrev made : World
made = (get_or_create_customer env stripe 60 (some 12) none "user@example.com" none "en" world).1

abbrev made_customer : StripeCustomer
made_customer = record {
  id = 50;
  stripe_id = "sub_1";
  user_id = some 12;
  org_id = none;
  livemode = false;
  created_at = 100;
}

get_or_create_customer-again_example :
    (r : StripeCustomer) × (get_or_create_customer env failing 61
        (some 12)
        none
        "user@example.com"
        none
        "en"
        made
      ≡ (ok r, made))
    × (r.stripe_id ≡ "sub_1")
unfolding get_or_create_customer ◌>>=◌ gets lift on_db
get_or_create_customer-again_example =
    get_or_create_customer-again env env stripe failing 60 61 (some 12) none "user@example.com" none
      "en" world made made_customer refl
