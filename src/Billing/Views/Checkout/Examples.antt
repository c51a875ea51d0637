-- ===== src/Billing/Views/Checkout/Examples.antt =====
-- The theorems about the checkouts at small requests.
use saasmint.Base.{
  pos, ap, ℕ, zero, suc, true, false, ◌≡◌, refl, none, some, [], ◌∷◌, String, Option, ◌⊎◌, any,
}
use saasmint.Domain.{Uuid}
use saasmint.Json.{null, bool, str, end, entry}
use saasmint.Json.Access.{truthy}
use saasmint.Database.Result.{ok}
use saasmint.Prices.Catalog.{Catalog, plan_price}
use saasmint.Samples
use saasmint.Billing.Env.{Env}
use saasmint.Billing.Credits
use saasmint.Billing.Webhooks.Checkout.{OnTeamCheckout, OnProductCheckout, on_checkout_completed}
use saasmint.Billing.Views.Checkout.{purchase_metadata, build_checkout_metadata}
use saasmint.Billing.Views.Checkout.Completed.{
  completed, on_checkout_completed-purchase_metadata, on_checkout_completed-build_checkout_metadata,
}
use saasmint.Billing.Views.Pricing.{
  PythonText, PricingRequest, Preferences, resolve_checkout_price, is_in,
}
use saasmint.Billing.Views.Pricing.Charged.{
  is_country_row, is_localized_row, resolve_checkout_price-listed,
}

-- A number as so many ones.
unfoldable tally : Uuid → String
tally zero = "0"
tally (suc n) = String.◌∷◌ "1" (tally n)

unfoldable count_ones : String → ℕ
count_ones String.[] = 0
count_ones (String.◌∷◌ c String.[]) = 0
count_ones (String.◌∷◌ c (String.◌∷◌ d s)) = suc (count_ones (String.◌∷◌ d s))

count_ones-tally : (n : Uuid) → some (count_ones (tally n)) ≡ some n
unfolding count_ones tally
count_ones-tally zero = refl
count_ones-tally (suc zero) = refl
count_ones-tally (suc (suc n)) =
    ap (λ (o : Option Uuid). elim o [ none ↦ some 0 | some m ↦ some (suc m) ])
      (count_ones-tally (suc n))

tally-shown : (n : Uuid) → truthy (str (tally n)) ≡ true
unfolding tally truthy
tally-shown zero = refl
tally-shown (suc n) = refl

abbrev env : Env
env = record Samples.env {
  texts = record Samples.texts { parse_uuid = λ s. some (count_ones s); show_uuid = tally };
}

abbrev on_team : OnTeamCheckout
on_team = λ a db. (ok tt, db)

abbrev on_product : OnProductCheckout
on_product = Credits.on_product_checkout_completed (λ s. s)

on_checkout_completed-purchase_metadata_example :
    on_checkout_completed env none
      (some on_product)
      (completed "payment" "cs_1"
        (tally 11)
        (str "cus_1")
        null
        (bool false)
        (purchase_metadata env.texts 4 (some 1)))
      Samples.db
    ≡ on_product
        (record { stripe_session_id = "cs_1"; product_id = 4; user_id = 11; org_id = some 1 })
        Samples.db
unfolding truthy
on_checkout_completed-purchase_metadata_example =
    on_checkout_completed-purchase_metadata env count_ones-tally tally-shown none on_product "cs_1"
      (str "cus_1") null (bool false) 11 4 (some 1) Samples.db refl

on_checkout_completed-build_checkout_metadata_example :
    on_checkout_completed env
      (some on_team)
      none
      (completed "subscription" "cs_1"
        (tally 11)
        (str "cus_1")
        (str "sub_1")
        (bool false)
        (entry "org_name" (str "Acme") (entry "keep_personal_subscription" (str "true") end)))
      Samples.db
    ≡ on_team
        (record {
          user_id = 11;
          org_name = str "Acme";
          stripe_customer_id = "cus_1";
          livemode = bool false;
          subscription_id = str "sub_1";
          keep_personal = true;
        })
        Samples.db
unfolding truthy build_checkout_metadata
on_checkout_completed-build_checkout_metadata_example =
    on_checkout_completed-build_checkout_metadata env count_ones-tally tally-shown none on_team
      "cs_1" "Acme" "cus_1" (str "sub_1") (bool false) 11 true Samples.db
      (entry "org_name" (str "Acme") (entry "keep_personal_subscription" (str "true") end)) refl
      refl refl

abbrev text : PythonText
text = record {
  lower = λ s. s;
  upper = λ s. s;
  strip = λ s. s;
  first_part = λ s. s;
  isalpha = λ s. true;
  subtags = λ s. s ∷ [];
}

abbrev request : PricingRequest
request = record {
  currency = none;
  country = some "FR";
  accept_language = none;
  edge_country = none;
}

abbrev preferences : Preferences
preferences = record { preferred_currency = none; preferred_locale = none }

abbrev catalog : Catalog
catalog = record {
  plans = [];
  plan_prices = [];
  product_prices = [];
  localized_prices = [];
  country_prices =
      record {
        owner = plan_price 7;
        country = "FR";
        currency = "eur";
        sticker_minor = pos 1199;
        base_minor = pos 999;
        is_curated = true;
        stripe_price_id = some "price_fr";
        updated_at = 0;
      }
      ∷ [];
}

abbrev eur : String
eur = "eur"

abbrev price_fr : String
price_fr = "price_fr"

resolve_checkout_price-listed_example :
    (any (is_country_row (plan_price 7) "price_fr" "eur") catalog.country_prices ≡ true)
    ⊎ (((is_in ("eur" ∷ []) "eur" ≡ true) ⊎ (eur ≡ "usd"))
        × ((any (is_localized_row (plan_price 7) "price_fr" "eur") catalog.localized_prices ≡ true)
            ⊎ (price_fr ≡ "price_usd")))
unfolding resolve_checkout_price
resolve_checkout_price-listed_example =
    resolve_checkout_price-listed text ("eur" ∷ []) request preferences (plan_price 7) "price_usd"
      catalog "price_fr" "eur" refl
