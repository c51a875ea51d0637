-- ===== src/Prices/Examples.antt =====
-- A sticker of 19.99 at a rate of 21 percent, an amount of 17.23, and a sync of one plan's price.
use mathlib.Core.Option
use saasmint.Base.{
  ◌⊎◌, negsuc, ◌+◌, ◌*◌, ◌≤◌, ◌<◌, ◌≡◌, refl, ℕ, some, List, [], ◌∷◌, String, false, true, arith,
  pos, keep, map,
}
use saasmint.Database.Result.{ok}
use saasmint.Samples
use saasmint.Prices.Currency.{
  Amount, is_zero_decimal, distance, round_friendly, supported_currencies,
}
use saasmint.Prices.Currency.Nearest.{charm, round_friendly-nearest}
use saasmint.Prices.Catalog.{PriceKey, plan_price, CountryPrice, Catalog, localized}
use saasmint.Prices.Sync.{Env, Payload, Rate, api_rates, sources, sync_localized_prices}
use saasmint.Prices.Sync.Rows.{refreshed}
use saasmint.Prices.Sync.Amounts.{wanted}
use saasmint.Prices.Sync.Refinement.{sync_localized_prices-refreshed}
use saasmint.Prices.Sync.Again.{timeless, sync_localized_prices-again, sync_localized_prices-keeps}
use saasmint.Prices.{derive_base}
use saasmint.Prices.Rounding.{derive_base-sticker}

derive_base-sticker_example :
    (derive_base 1999 210 * (2 * (1000 + 210)) ≤ 2000 * 1999 + (1000 + 210))
    × (2000 * 1999 < derive_base 1999 210 * (2 * (1000 + 210)) + (1000 + 210))
derive_base-sticker_example = derive_base-sticker 1999 210

abbrev amount : Amount
amount = record { n = 1723; d = 100 }

-- 17.23 is rounded to 16.99.
rounded_down : round_friendly (λ t. t) amount "eur" ≡ pos 1699
unfolding round_friendly
rounded_down = refl

round_friendly-nearest_example :
    ((24 * 100 < 100 * 1723)
      × ((j : ℕ) × (round_friendly (λ t. t) amount "eur" ≡ charm j))
      × (distance amount (round_friendly (λ t. t) amount "eur") ≤ distance amount (charm 34)))
    ⊎ ((100 * 1723 ≤ 24 * 100) × (round_friendly (λ t. t) amount "eur" ≡ negsuc 0))
unfolding is_zero_decimal
round_friendly-nearest_example =
    round_friendly-nearest (λ t. t) amount "eur" 34 (omega arith) (omega arith) refl

abbrev env : Env
env = record { lower = λ t. t; upper = λ t. t; now = 100 }

-- 0.9213 euros and 149.2 yen to the dollar.
abbrev feed : Payload
feed = record {
  is_success = true;
  rates = some (
      ("eur", some (record { n = 9213; d = 10000 }))
      ∷ ("jpy", some (record { n = 1492; d = 10 }))
      ∷ []);
}

abbrev rates : List (String × Rate)
rates = ("eur", record { n = 9213; d = 10000 }) ∷ ("jpy", record { n = 1492; d = 10 }) ∷ []

abbrev france : CountryPrice
france = record {
  owner = plan_price 2;
  country = "FR";
  currency = "eur";
  sticker_minor = pos 500;
  base_minor = pos 417;
  is_curated = false;
  stripe_price_id = some "price_fr";
  updated_at = 1;
}

abbrev euros : PriceKey
euros = record { owner = plan_price 2; currency = "eur" }

-- The plan price of 9.00 dollars, with a localized price in euros, a price for France and a curated one for Spain.
abbrev catalog : Catalog
catalog = record {
  plans = [];
  plan_prices = Samples.plan_price ∷ [];
  product_prices = [];
  localized_prices =
      record {
        key = euros;
        amount_minor = pos 799;
        stripe_price_id = some "price_eur";
        synced_at = 1;
      }
      ∷ [];
  country_prices = france ∷ record france { country = "ES"; is_curated = true } ∷ [];
}

abbrev synced : Catalog
synced = (sync_localized_prices env (some feed) catalog).1

sync_localized_prices-refreshed_example :
    localized euros synced.localized_prices
    ≡ refreshed 100 euros
        (wanted (λ t. t) rates supported_currencies euros (sources catalog))
        (localized euros catalog.localized_prices)
unfolding api_rates sources sync_localized_prices
sync_localized_prices-refreshed_example =
    sync_localized_prices-refreshed env (some feed) rates catalog synced 3 euros (refl, tt) refl
      refl

sync_localized_prices-again_example :
    (c'' : Catalog) × (sync_localized_prices (record env { now = 200 }) (some feed) synced
      ≡ (ok 0, c''))
    × (c''.country_prices ≡ synced.country_prices)
    × (Option.map timeless (localized euros c''.localized_prices)
        ≡ Option.map timeless (localized euros synced.localized_prices))
unfolding api_rates sources sync_localized_prices
sync_localized_prices-again_example =
    sync_localized_prices-again env (some feed) rates catalog synced 3 200 euros (refl, tt) refl
      refl

sync_localized_prices-keeps_example :
    (keep (λ (r : CountryPrice). r.is_curated) synced.country_prices
      ≡ keep (λ (r : CountryPrice). r.is_curated) catalog.country_prices)
    × (map (λ (r : CountryPrice). r.stripe_price_id) synced.country_prices
        ≡ map (λ (r : CountryPrice). r.stripe_price_id) catalog.country_prices)
sync_localized_prices-keeps_example = sync_localized_prices-keeps env (some feed) catalog
