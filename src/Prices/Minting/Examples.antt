-- ===== src/Prices/Minting/Examples.antt =====
-- A product of 100 credits whose price is minted.
use saasmint.Base.{◌≡◌, refl, true, none, some, List, [], ◌∷◌, ◌++◌, String, ◌⊎◌, pos}
use saasmint.Domain.{Product}
use saasmint.Database.Result.{ok}
use saasmint.Json.Access.{truthy}
use saasmint.Orgs.Slugs.{decimal}
use saasmint.Prices.Catalog.{Catalog, product_price}
use saasmint.Prices.Minting.{bare, StripePrice, Wanted, Site, Request, upsert_price}
use saasmint.Prices.Minting.Owners.{of_product, wanted_of, write_price_id}
use saasmint.Prices.Minting.Keys.{slug}
use saasmint.Prices.Minting.Keys.{get_price}
use saasmint.Prices.Minting.Remembered.{stripe, listing, product_at, stripe-Remembers}
use saasmint.Prices.Minting.Again.{upsert_price-again}
use saasmint.Prices.Minting.Sold.{creation, Opened, Sells, upsert_price-sold}
use saasmint.Prices.Minting.Stamped.{resolve_checkout_price-write_price_id}
use saasmint.Billing.Views.Pricing.{
  PythonText, PricingRequest, Preferences, resolve_pricing_country, resolve_billing_currency,
  get_country_stripe_price, resolve_checkout_price,
}

abbrev credits : Product
credits = record { id = 4; name = "Credits"; credits = 100; is_active = true }

abbrev catalog : Catalog
catalog = record {
  plans = [];
  plan_prices = [];
  product_prices = [];
  localized_prices =
      record {
        key = record { owner = product_price 6; currency = "eur" };
        amount_minor = pos 999;
        stripe_price_id = none;
        synced_at = 0;
      }
      ∷ [];
  country_prices = [];
}

abbrev site : Site
site = record { catalog = catalog; requests = [] }

abbrev wanted : Wanted
wanted = wanted_of (λ u. "4") (of_product credits) "product_credits_eur" (pos 999) "eur" []

-- The price was 8.99 before.
abbrev stale : StripePrice
stale = record {
  id = "old";
  lookup_key = some "product_credits_eur";
  unit_amount = some (pos 899);
  currency = "eur";
  interval = none;
  tax_behavior = some "exclusive";
  product = bare "prod";
}

slug_example : slug (λ t. t) "  a__b  9-" ≡ "a_b_9"
unfolding slug
slug_example = refl

upsert_price-sold_example :
    ((p : StripePrice) × (some stale ≡ some p) × Sells p wanted × (p.id ≡ "price"))
    ⊎ ((product : String) × (before : List Request) × Opened stripe
          (some stale)
          wanted
          product
          []
          before
        × (stripe before (creation product wanted) ≡ ok "price")
        × ((upsert_price stripe (some stale) wanted site).1.requests
            ≡ before ++ creation product wanted ∷ []))
unfolding upsert_price wanted_of decimal
upsert_price-sold_example =
    upsert_price-sold stripe (some stale) wanted site
      (upsert_price stripe (some stale) wanted site).1 "price" refl

-- The site after a first call.
abbrev minted_site : Site
minted_site = (upsert_price stripe none wanted site).1

upsert_price-again_example :
    upsert_price stripe
      (get_price "product_credits_eur" (listing minted_site.requests))
      wanted
      minted_site
    ≡ (ok "price", minted_site)
unfolding upsert_price truthy
upsert_price-again_example =
    upsert_price-again stripe listing product_at stripe-Remembers (λ u. "4") (of_product credits)
      "product_credits_eur" (pos 999) "eur" [] site minted_site "price" refl refl

abbrev text : PythonText
text = record {
  lower = λ s. s;
  upper = λ s. s;
  strip = λ s. s;
  first_part = λ s. s;
  isalpha = λ s. true;
  subtags = λ s. s ∷ [];
}

-- A request from France for euros.
abbrev request : PricingRequest
request = record {
  currency = some "eur";
  country = some "FR";
  accept_language = none;
  edge_country = none;
}

abbrev preferences : Preferences
preferences = record { preferred_currency = none; preferred_locale = none }

resolve_checkout_price-write_price_id_example :
    resolve_checkout_price text
      ("usd" ∷ "eur" ∷ [])
      request
      preferences
      (product_price 6)
      "usd_id"
      (write_price_id (product_price 6) "new" "eur" catalog)
    ≡ ok ("new", "eur")
unfolding truthy resolve_pricing_country get_country_stripe_price resolve_billing_currency
resolve_checkout_price-write_price_id_example =
    resolve_checkout_price-write_price_id (product_price 6) "eur" "new" text ("usd" ∷ "eur" ∷ [])
      request preferences (some "FR") none "usd_id" catalog refl refl refl refl refl refl
