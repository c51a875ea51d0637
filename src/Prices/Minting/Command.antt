-- ===== src/Prices/Minting/Command.antt =====
-- The command of sync_stripe_catalog.py: `handle` with its loops over the plans, the products and the prices per
-- country. The messages on the console are left out.
use text.Mathlib.Text.{◌==◌ as str_eq}
use saasmint.Base.{
  ℕ, pos, eq_ℤ, Bool, ◌&&◌, Option, none, some, List, [], ◌∷◌, ◌++◌, String, ◌==◌, map, keep, find,
  update_where, if◌then◌else◌,
}
use saasmint.Domain.{Uuid, Plan, PlanPrice, Product}
use saasmint.Database.Result.{Result, ok, err, Error}
use saasmint.Database.Result as R
use saasmint.Prices.{derive_base_of, standard_vat_rate}
use saasmint.Prices.Catalog.{
  Catalog, ProductPrice, PriceOwner, plan_price, product_price, CountryPrice, same_owner,
}
use saasmint.Prices.Sync.{Env, Payload}
use saasmint.Prices.Minting.{
  Answers, StripePrice, Run, pure, lift, write, ◌>>=◌, ◌>>◌, same_text, upsert_price,
}
use saasmint.Prices.Minting.Owners.{
  Owned, of_plan, of_product, owner_of_price, is_active_owner, unit_amount_for, write_price_id,
  base_lookup_key, wanted_of,
}
use saasmint.Prices.Minting.Keys.{
  plan_lookup_key, product_lookup_key, country_lookup_key, get_price, bulk_fetch_existing,
}

abbrev pub collect_results : {A B : Type 0} → (A → Result B) → List A → Result (List B)
collect_results f [] = ok []
collect_results f (x ∷ xs) =
    R.and_then (f x) λ y. R.and_then (collect_results f xs) λ ys. ok (y ∷ ys)

abbrev pub flatten : List (List String) → List String
flatten [] = []
flatten (xs ∷ r) = xs ++ flatten r

-- A loop whose rounds are run one after the other.
abbrev pub for_each : {A : Type 0} → (A → Run (Unit {0})) → List A → Run (Unit {0})
for_each f [] = pure tt
for_each f (x ∷ xs) = f x >> for_each f xs

abbrev active_plans : Catalog → List Plan
active_plans c = keep (λ (p : Plan). p.is_active) c.plans

abbrev active_products : List Product → List Product
active_products ps = keep (λ (p : Product). p.is_active) ps

-- `by_country` is the order of the database by the column `country`.
module _ (e : Env) (feed : Catalog → Option Payload) (stripe : Answers) (show_uuid : Uuid → String)
    (by_country : List CountryPrice → List CountryPrice) (products : List Product) where
  -- One round of `_sync_plans` or `_sync_products`, at a price row.
  unfoldable pub sync_owner :
      List StripePrice → (currency : String) → Owned × PriceOwner × ℕ → Run (Unit {0})
  unfolding unit_amount_for base_lookup_key wanted_of get_price upsert_price write_price_id
  sync_owner existing currency (owned, owner, amount) =
      unit_amount_for e feed owner amount currency >>= λ unit_amount. elim unit_amount [
        | none ↦ pure tt
        | some n ↦ lift (base_lookup_key e.lower owned currency) >>= λ k.
            upsert_price stripe (get_price k existing) (wanted_of show_uuid owned k n currency [])
            >>= λ new_price_id. write (write_price_id owner new_price_id currency)
      ]

  -- The active plans that have a price row, and so the products.
  unfoldable pub plan_rows : Catalog → List Plan → List (Owned × PriceOwner × ℕ)
  plan_rows c [] = []
  plan_rows c (p ∷ r) =
      let rest = plan_rows c r in
      elim (find (λ (q : PlanPrice). q.plan_id == p.id) c.plan_prices) [
        | none ↦ rest
        | some q ↦ (of_plan p, plan_price q.id, q.amount) ∷ rest
      ]

  unfoldable pub product_rows : Catalog → List Product → List (Owned × PriceOwner × ℕ)
  product_rows c [] = []
  product_rows c (p ∷ r) =
      let rest = product_rows c r in
      elim (find (λ (q : ProductPrice). q.product_id == p.id) c.product_prices) [
        | none ↦ rest
        | some q ↦ (of_product p, product_price q.id, q.amount) ∷ rest
      ]

  -- `_sync_plans` and `_sync_products`
  unfoldable pub sync_currency : List StripePrice → (currency : String) → Run (Unit {0})
  unfolding sync_owner plan_rows product_rows
  sync_currency existing currency =
      (λ s.
        for_each (sync_owner existing currency) (plan_rows s.catalog (active_plans s.catalog)) s)
      >> λ s.
          for_each (sync_owner existing currency)
            (product_rows s.catalog (active_products products)) s

  abbrev pub is_country_price : CountryPrice → CountryPrice → Bool
  is_country_price cp r = same_owner r.owner cp.owner && str_eq r.country cp.country

  -- `cp.save(update_fields=[...])`
  abbrev pub save_country : CountryPrice → (CountryPrice → CountryPrice) → Catalog → Catalog
  save_country cp f c = record c {
    country_prices = update_where (is_country_price cp) f c.country_prices;
  }

  -- One round of `_sync_country_prices`.
  unfoldable pub sync_country_price : List StripePrice → CountryPrice × Owned → Run (Unit {0})
  unfolding derive_base_of standard_vat_rate base_lookup_key country_lookup_key get_price wanted_of
      upsert_price
  sync_country_price existing (cp, owned) =
      lift (derive_base_of cp.sticker_minor (standard_vat_rate e.upper cp.country)) >>= λ base.
      write (λ c.
        if eq_ℤ cp.base_minor (pos base)
        then c
        else save_country cp (λ r. record r { base_minor = pos base }) c)
      >> (lift (base_lookup_key e.lower owned "usd") >>= λ base_key.
          let k = country_lookup_key e.lower base_key cp.country in
          upsert_price stripe (get_price k existing)
            (wanted_of show_uuid owned k (pos base) cp.currency (("country", cp.country) ∷ []))
          >>= λ new_price_id. write λ c.
            if same_text cp.stripe_price_id (some new_price_id)
            then c
            else save_country cp (λ r. record r { stripe_price_id = some new_price_id }) c)

  -- The rows whose owner is active, each with its owner.
  unfoldable pub country_rows : Catalog → List CountryPrice → List (CountryPrice × Owned)
  unfolding owner_of_price
  country_rows c [] = []
  country_rows c (cp ∷ r) =
      let rest = country_rows c r in
      elim (owner_of_price products c cp.owner) [
        | none ↦ rest
        | some owned ↦ if is_active_owner (some owned) then (cp, owned) ∷ rest else rest
      ]

  -- `_sync_country_prices`
  unfoldable pub sync_country_prices : List StripePrice → Run (Unit {0})
  unfolding sync_country_price country_rows
  sync_country_prices existing s =
      for_each (sync_country_price existing)
        (country_rows s.catalog (by_country s.catalog.country_prices)) s

  -- `_collect_lookup_keys`
  unfoldable pub collect_lookup_keys : (currencies : List String) → Catalog → Result (List String)
  unfolding plan_lookup_key product_lookup_key country_lookup_key base_lookup_key country_rows
  collect_lookup_keys currencies c =
      R.and_then
        (collect_results (λ (p : Plan). collect_results (plan_lookup_key p) currencies)
          (active_plans c))
        λ of_plans.
          R.and_then
            (collect_results
              (λ (row : CountryPrice × Owned).
                R.and_then (base_lookup_key e.lower row.1 "usd")
                  λ k. ok (country_lookup_key e.lower k row.0.country))
              (country_rows c c.country_prices))
            λ of_countries. ok (
              flatten of_plans
              ++ (flatten (
                    map (λ (p : Product). map (product_lookup_key e.lower p) currencies)
                      (active_products products))
                  ++ of_countries))

  -- `handle`, with a key of Stripe; `list_prices` is the answer of `stripe.Price.list`.
  unfoldable pub handle :
      (list_prices : List String → Result (List StripePrice)) (currencies : List String)
      → Run (Unit {0})
  unfolding collect_lookup_keys bulk_fetch_existing sync_currency sync_country_prices
  handle list_prices currencies s =
      (lift (collect_lookup_keys currencies s.catalog) >>= λ wanted_keys.
      lift (bulk_fetch_existing list_prices wanted_keys) >>= λ existing.
      for_each (sync_currency existing) currencies >> sync_country_prices existing)
        s
