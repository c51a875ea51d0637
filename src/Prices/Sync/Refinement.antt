-- ===== src/Prices/Sync/Refinement.antt =====
-- The sync as a function of each key, and a second sync of the same rates.

use saasmint.Base.{
  ℕ, ◌≡◌, refl, ap, ◌∙◌, true, false, Option, some, List, [], ◌∷◌, String, is_some, any, All, ℤ,
  pos, arith, inl, inr, Option-cases,
}
use saasmint.Database.Result.{ok, Result-cases}
use saasmint.Prices.Currency.{supported_currencies}
use saasmint.Prices.Catalog.{PriceOwner, PriceKey, LocalizedPrice, CountryPrice, Catalog, localized}
use saasmint.Prices.Sync.{
  Env, Rate, Payload, api_rates, all_amounts, all_upserts, sources, write_upserts,
  refresh_countries, sync_rates, sync_localized_prices,
}
use saasmint.Prices.Sync.Rows.{Agree, is_job, refreshed, localized-write_upserts}
use saasmint.Prices.Sync.Amounts.{IsDistinct, wanted, all_amounts-any, all_amounts-All}

Agree-of_All :
    (k : PriceKey) (t : Option ℤ) (n : ℤ) (js : List (PriceKey × ℤ))
    → t ≡ some n
    → All (λ j. is_job k j ≡ true → t ≡ some j.1) js
    → Agree k n js
Agree-of_All k t n [] same h = tt
Agree-of_All k t n (j ∷ js) same (h, hs) =
    (λ here. let asked = h here in ground arith, Agree-of_All k t n js same hs)

Agree-of_not-any :
    (k : PriceKey) (n : ℤ) (js : List (PriceKey × ℤ)) → any (is_job k) js ≡ false → Agree k n js
Agree-of_not-any k n [] h = tt
Agree-of_not-any k n (j ∷ js) h = (λ here. ground arith, Agree-of_not-any k n js (ground arith))

module _ (e : Env) (rates : List (String × Rate)) (cs : List String) where
  localized-written :
      (k : PriceKey) (ps : List (PriceOwner × ℕ)) (rows : List LocalizedPrice)
      → IsDistinct ps
      → localized k (write_upserts e.now (all_upserts rows (all_amounts e.lower rates cs ps)) rows)
        ≡ refreshed e.now k (wanted e.lower rates cs k ps) (localized k rows)
  localized-written k ps rows d =
      let js = all_amounts e.lower rates cs ps in
      let is_asked = all_amounts-any e.lower rates cs k ps d in
      let asked = all_amounts-All e.lower rates cs k ps d in
      elim (Option-cases (wanted e.lower rates cs k ps)) [
        | inl nothing ↦
            localized-write_upserts e.now k (pos 0) rows js
              (Agree-of_not-any k (pos 0) js (is_asked ∙ ap is_some nothing))
            ∙ rw (is_asked, nothing) refl
        | inr (n, there) ↦
            localized-write_upserts e.now k n rows js
              (Agree-of_All k (wanted e.lower rates cs k ps) n js there asked)
            ∙ rw (is_asked, there) refl
      ]

module _ (e : Env) (rates : List (String × Rate)) (cs : List String) (c c' : Catalog) (n : ℕ) where
  -- What a sync with the rates leaves, where it does not raise.
  pub record Synced : Type 0 where
    pub countries : List CountryPrice
    pub moved : ℕ
    pub went : refresh_countries e rates c c.country_prices ≡ ok (countries, moved)
    pub after : c' ≡ record c {
      localized_prices =
          write_upserts e.now
            (all_upserts c.localized_prices (all_amounts e.lower rates cs (sources c)))
            c.localized_prices;
      country_prices = countries;
    }

  pub sync_rates-Synced : sync_rates e cs rates c ≡ (ok n, c') → Synced
  unfolding sync_rates
  sync_rates-Synced h = elim (Result-cases (refresh_countries e rates c c.country_prices)) [
    | inr (x, failed) ↦ ground arith
    | inl ((countries, moved), went) ↦ record {
      countries = countries;
      moved = moved;
      went = went;
      after = ground arith;
    }
  ]

  -- The row at each key is the old one refreshed by what is wanted there.
  pub sync_rates-localized :
      (k : PriceKey)
      → IsDistinct (sources c)
      → sync_rates e cs rates c ≡ (ok n, c')
      → localized k c'.localized_prices
        ≡ refreshed e.now k (wanted e.lower rates cs k (sources c)) (localized k c.localized_prices)
  sync_rates-localized k d h =
      let s = sync_rates-Synced h in
      ap (λ (x : Catalog). localized k x.localized_prices) s.after
      ∙ localized-written e rates cs k (sources c) c.localized_prices d

-- After a sync with the rates of the feed, where the primary keys of the prices are distinct, every key of
-- the table of localized prices, whatever it is, finds just what a function of the key makes of what it found
-- before: where the price and the rate are there and the currency is supported, the row of the friendly amount,
-- new or with the Stripe id that it had; elsewhere what it found.
pub sync_localized_prices-refreshed :
    (e : Env) (payload : Option Payload) (rates : List (String × Rate)) (c c' : Catalog) (n : ℕ)
    (k : PriceKey)
    → IsDistinct (sources c)
    → api_rates e.lower payload ≡ some rates
    → sync_localized_prices e payload c ≡ (ok n, c')
    → localized k c'.localized_prices
      ≡ refreshed e.now k
          (wanted e.lower rates supported_currencies k (sources c))
          (localized k c.localized_prices)
unfolding sync_localized_prices
sync_localized_prices-refreshed e payload rates c c' n k d feed h =
    sync_rates-localized e rates supported_currencies c c' n k d
      (rw (sync_localized_prices, feed) at h)
