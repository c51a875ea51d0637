-- ===== src/Prices/Minting/Owners.antt =====
-- The owners of the prices of sync_stripe_catalog.py: their amounts, their lookup keys and what Stripe is to have
-- for them, and the write of the ids that Stripe gave.
use Prim.Native.String.{◌++◌ as join}
use text.Mathlib.Text.{◌==◌ as str_eq}
use saasmint.Base.{
  ℕ, ℤ, pos, Bool, false, Option, none, some, List, [], ◌∷◌, String, ◌==◌, find, update_where,
  if◌then◌else◌,
}
use saasmint.Domain.{Uuid, Plan, PlanPrice, Product}
use saasmint.Database.Result.{Result, ok, err}
use saasmint.Orgs.Slugs.{decimal}
use saasmint.Prices.Catalog.{
  Catalog, ProductPrice, PriceOwner, plan_price, product_price, PriceKey, LocalizedPrice, localized,
  same_key,
}
use saasmint.Prices.Sync.{Env, Payload, sync_localized_prices}
use saasmint.Prices.Minting.{Wanted, Run, non_empty}
use saasmint.Prices.Minting.Keys.{interval_name, plan_lookup_key, product_lookup_key}

-- The plan or the product that owns a price.
pub data Owned : Type 0 where
  of_plan : Plan → Owned
  of_product : Product → Owned

-- The owner of a row of a country; the foreign keys have their rows.
unfoldable pub owner_of_price : List Product → Catalog → PriceOwner → Option Owned
owner_of_price products c (plan_price i) =
    elim (find (λ (p : PlanPrice). p.id == i) c.plan_prices) [
      | none ↦ none
      | some price ↦ elim (find (λ (p : Plan). p.id == price.plan_id) c.plans) [
        | none ↦ none
        | some plan ↦ some (of_plan plan)
      ]
    ]
owner_of_price products c (product_price i) =
    elim (find (λ (p : ProductPrice). p.id == i) c.product_prices) [
      | none ↦ none
      | some price ↦ elim (find (λ (p : Product). p.id == price.product_id) products) [
        | none ↦ none
        | some product ↦ some (of_product product)
      ]
    ]

abbrev pub is_active_owner : Option Owned → Bool
is_active_owner none = false
is_active_owner (some (of_plan p)) = p.is_active
is_active_owner (some (of_product p)) = p.is_active

-- `_unit_amount_for`: `feed` is the answer of the exchange rates at the time.
unfoldable pub unit_amount_for :
    Env
    → (feed : Catalog → Option Payload) → PriceOwner
    → (amount : ℕ) (currency : String) → Run (Option ℤ)
unfolding sync_localized_prices
unit_amount_for e feed owner amount currency s =
    let k : PriceKey = record { owner = owner; currency = currency } in
    if str_eq currency "usd"
    then (ok (some (pos amount)), s)
    else elim (localized k s.catalog.localized_prices) [
      | some r ↦ (ok (some r.amount_minor), s)
      | none ↦
          let (changed, c) = sync_localized_prices e (feed s.catalog) s.catalog in
          elim changed [
            | err x ↦ (err x, record s { catalog = c })
            | ok n ↦ elim (localized k c.localized_prices) [
              | none ↦ (ok none, record s { catalog = c })
              | some r ↦ (ok (some r.amount_minor), record s { catalog = c })
            ]
          ]
    ]

-- `price_row.stripe_price_id = new_price_id` with its save; a row with that id is left as it is.
unfoldable pub stamp_price : PriceOwner → (new_price_id : String) → Catalog → Catalog
stamp_price (plan_price i) new_price_id c = record c {
  plan_prices =
      update_where (λ (p : PlanPrice). p.id == i) (λ p. record p { stripe_price_id = new_price_id })
        c.plan_prices;
}
stamp_price (product_price i) new_price_id c = record c {
  product_prices =
      update_where (λ (p : ProductPrice). p.id == i)
        (λ p. record p { stripe_price_id = new_price_id }) c.product_prices;
}

-- `_write_price_id`
unfoldable pub write_price_id : PriceOwner → (new_price_id currency : String) → Catalog → Catalog
unfolding stamp_price
write_price_id owner new_price_id currency c =
    if str_eq currency "usd" then stamp_price owner new_price_id c else record c {
      localized_prices =
          update_where
            (λ (r : LocalizedPrice). same_key r.key (record { owner = owner; currency = currency }))
            (λ r. record r { stripe_price_id = some new_price_id }) c.localized_prices;
    }

-- The base lookup key and the other fields of an owner, `_owner_base_lookup_key` first.
unfoldable pub base_lookup_key :
    (lower : String → String) → Owned → (currency : String) → Result String
unfolding plan_lookup_key product_lookup_key
base_lookup_key lower (of_plan p) currency = plan_lookup_key p currency
base_lookup_key lower (of_product p) currency = ok (product_lookup_key lower p currency)

-- What `_upsert_price` is called with for an owner; `country` stands in the metadata of a country's price.
unfoldable pub wanted_of :
    (show_uuid : Uuid → String)
    → Owned
    → (lookup_key : String) (amount : ℤ) (currency : String) → (country : List (String × String))
    → Wanted
wanted_of show (of_plan p) k n currency country = record {
  lookup_key = k;
  unit_amount = n;
  currency = currency;
  interval = some (interval_name p.interval);
  product_name = p.name;
  product_description = non_empty (some p.description);
  product_metadata = ("local_plan_id", show p.id) ∷ ("kind", "plan") ∷ [];
  price_metadata = ("local_plan_id", show p.id) ∷ country;
}
wanted_of show (of_product p) k n currency country = record {
  lookup_key = k;
  unit_amount = n;
  currency = currency;
  interval = none;
  product_name = p.name;
  product_description = some (join (decimal p.credits) " credits");
  product_metadata = ("local_product_id", show p.id) ∷ ("kind", "product") ∷ [];
  price_metadata = ("local_product_id", show p.id) ∷ country;
}
