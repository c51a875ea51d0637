-- ===== src/Prices/Catalog.antt =====
-- The tables of prices: `ProductPrice`, `LocalizedPrice` and `CountryPrice` of core/apps/billing/models.py.
pub mod Keys
use text.Mathlib.Text.{◌==◌ as str_eq}
use saasmint.Base.{ℕ, ℤ, Bool, false, ◌&&◌, Option, none, some, List, String, ◌==◌, find}
use saasmint.Domain.{Uuid, Time, Plan, PlanPrice}

pub record ProductPrice : Type 0 where
  pub id : Uuid
  pub product_id : Uuid
  pub stripe_price_id : String
  pub amount : ℕ

-- Which of the two foreign keys is set: a check constraint asks for just one.
pub data PriceOwner : Type 0 where
  plan_price product_price : Uuid → PriceOwner

abbrev pub same_owner : PriceOwner → PriceOwner → Bool
same_owner (plan_price a) (plan_price b) = a == b
same_owner (product_price a) (product_price b) = a == b
same_owner a b = false

-- The owner and the currency, which are unique together and stand for the primary key.
pub record PriceKey : Type 0 where
  pub owner : PriceOwner
  pub currency : String

abbrev pub same_key : PriceKey → PriceKey → Bool
same_key a b = same_owner a.owner b.owner && str_eq a.currency b.currency

pub record LocalizedPrice : Type 0 where
  pub key : PriceKey
  pub amount_minor : ℤ
  pub stripe_price_id : Option String
  pub synced_at : Time

pub record CountryPrice : Type 0 where
  pub owner : PriceOwner
  pub country : String
  pub currency : String
  pub sticker_minor : ℤ
  pub base_minor : ℤ
  pub is_curated : Bool
  pub stripe_price_id : Option String
  pub updated_at : Time

pub record Catalog : Type 0 where
  pub plans : List Plan
  pub plan_prices : List PlanPrice
  pub product_prices : List ProductPrice
  pub localized_prices : List LocalizedPrice
  pub country_prices : List CountryPrice

abbrev pub localized : PriceKey → List LocalizedPrice → Option LocalizedPrice
localized k = find (λ (r : LocalizedPrice). same_key r.key k)

-- The amount in USD cents of the price that owns a row.
unfoldable pub owner_amount : PriceOwner → Catalog → Option ℕ
owner_amount (plan_price i) c = elim (find (λ (p : PlanPrice). p.id == i) c.plan_prices) [
  | none ↦ none
  | some p ↦ some p.amount
]
owner_amount (product_price i) c = elim (find (λ (p : ProductPrice). p.id == i) c.product_prices) [
  | none ↦ none
  | some p ↦ some p.amount
]
