-- ===== src/Billing/Views/Examples.antt =====
-- The theorem about the endpoints of core/apps/billing/views.py at a small world.
use saasmint.Billing.Views.{resolve_mutation_context}
use saasmint.Orgs.Seats.{member_count}
use saasmint.Billing.Repositories.{get_active_for_customer}
use saasmint.Stripe.{◌>>◌}
use saasmint.Json.{Value}
use saasmint.Database.Result.{Result}
use saasmint.Samples.{plan_price, user}
use saasmint.Domain.{month, team}
use saasmint.Prices.Catalog.{Catalog}
use saasmint.Billing.Views.Checks.{SubscriptionPatch}
use saasmint.Billing.Views.Update.{apply_update, finish_update, patch}
use saasmint.Billing.Views.Update.Authority.{Change, patch-authorised}
use saasmint.Billing.Views.Update.Seats.{patch-refuses_seats}
use saasmint.Base.{true, ◌∷◌, ◌≡◌, refl, none, [], ◌⊎◌, some, String}
use saasmint.Domain.{StripeCustomer, Subscription}
use saasmint.Database.Result.{Error, ok, err}
use saasmint.Json.{null, str, obj, end, entry}
use saasmint.Samples.{env, db, customer, subscription}
use saasmint.Stripe.{Stripe, World}
use saasmint.Billing.Services.Cancel.{release_pending_schedule_for_customer}
use saasmint.Billing.Views.{Keys, delete_scheduled_change, mutation_target}
use saasmint.Billing.Views.Authority.{IsMutationTarget, delete_scheduled_change-authorised}

abbrev stripe : Stripe
stripe = λ calls c. ok (obj (entry "schedule" null end))

abbrev world : World
world = record { db = db; calls = [] }

abbrev key : Keys
key = λ m. m.org_id

-- The owner reaches the customer of the org, and its admin is refused, who does not bill.
owner_target :
    (mutation_target key 11 none db
      ≡ ok (customer, record subscription { seat_limit = 5 }, "sub_1"))
    × (mutation_target key 12 none db ≡ err Error.permission_denied)
unfolding mutation_target get_active_for_customer
owner_target = (refl, refl)

delete_scheduled_change-authorised_example :
    ((x : Error) × (delete_scheduled_change env stripe key 11 (some "team") world ≡ (err x, world)))
    ⊎ ((c : StripeCustomer) × (s : Subscription) × (t : String) × IsMutationTarget 11 world.db c s t
        × (delete_scheduled_change env stripe key 11 (some "team") world
            ≡ release_pending_schedule_for_customer env stripe c.id world))
delete_scheduled_change-authorised_example =
    delete_scheduled_change-authorised env stripe key 11 (some "team") world

abbrev catalog : Catalog
catalog = record {
  plans =
      record {
        id = 7;
        name = "Team";
        description = "";
        context = team;
        tier = 2;
        interval = month;
        is_active = true;
      }
      ∷ [];
  plan_prices = plan_price ∷ [];
  product_prices = [];
  localized_prices = [];
  country_prices = [];
}

abbrev object_get : String → Value → Result Value
object_get = λ k v. ok (str "usd")

abbrev fewer_seats : SubscriptionPatch
fewer_seats = record {
  plan_price_id = none;
  prorate = true;
  seat_limit = some 2;
  cancel_at_period_end = none;
}

patch-authorised_example :
    ((x : Error) × (patch env stripe object_get catalog key (user 11) none fewer_seats world
        ≡ (err x, world)))
    ⊎ ((a : Change env stripe object_get catalog key (user 11) fewer_seats world) × (patch env
            stripe object_get catalog key
            (user 11)
            none
            fewer_seats
            world
          ≡ (apply_update env stripe object_get catalog fewer_seats a.price a.org_id
                  (a.customer, a.sub, a.stripe_id)
                >> finish_update env stripe object_get catalog key
                    (user 11)
                    fewer_seats
                    a.context
                    a.org_id)
              world))
patch-authorised_example =
    patch-authorised env stripe object_get catalog key (user 11) none fewer_seats world

patch-refuses_seats_example :
    (x : Error) × (patch env stripe object_get catalog key (user 11) none fewer_seats world
      ≡ (err x, world))
unfolding member_count resolve_mutation_context
patch-refuses_seats_example =
    patch-refuses_seats env stripe object_get catalog 2 1 world refl key (user 11) none fewer_seats
      team refl refl
