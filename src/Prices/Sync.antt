-- ===== src/Prices/Sync.antt =====
-- `sync_localized_prices` of core/apps/billing/tasks.py.
pub mod Writes
pub mod Rows
pub mod Amounts
pub mod Countries
pub mod Refinement
pub mod Again
use text.Mathlib.Text.{◌==◌ as str_eq}
use saasmint.Base.{
  ℕ, ◌+◌, ◌*◌, Bool, true, false, not, ◌&&◌, ◌||◌, Option, none, some, List, [], ◌∷◌, ◌++◌, map,
  String, if◌then◌else◌, update_where, count, one_if, ℤ, eq_ℤ, pos,
}
use saasmint.Domain.{Time, PlanPrice}
use saasmint.Database.Result.{Result, ok, err, Error, ◌>>=◌}
use saasmint.Prices.{derive_base_of, standard_vat_rate}
use saasmint.Prices.Currency.{
  Amount, supported_currencies, format_amount, round_friendly, to_minor_units,
}
use saasmint.Prices.Catalog.{
  ProductPrice, PriceOwner, plan_price, product_price, PriceKey, LocalizedPrice, CountryPrice,
  Catalog, localized, same_key, owner_amount,
}

-- Python's `str.lower` and `str.upper`, and the clock.
pub record Env : Type 0 where
  pub lower : String → String
  pub upper : String → String
  pub now : Time

-- A rate of the feed: the fraction `n / d`, not negative.
abbrev pub Rate : Type 0
Rate = Amount

-- The JSON object that the feed answered with: `rates` is `none` where it is no dict, and a rate `none` where
-- `float` raises.
pub record Payload : Type 0 where
  pub is_success : Bool
  pub rates : Option (List (String × Option Rate))

-- `{k.lower(): float(v) for k, v in rates_raw.items()}`
unfoldable pub lower_rates :
    (lower : String → String) → List (String × Option Rate) → Option (List (String × Rate))
lower_rates lower [] = some []
lower_rates lower ((k, none) ∷ r) = none
lower_rates lower ((k, some v) ∷ r) = elim (lower_rates lower r) [
  | none ↦ none
  | some rest ↦ some ((lower k, v) ∷ rest)
]

-- The rates, where the request succeeds and the payload is well formed.
unfoldable pub api_rates :
    (lower : String → String) → Option Payload → Option (List (String × Rate))
unfolding lower_rates
api_rates lower none = none
api_rates lower (some p) =
    if p.is_success then (elim p.rates [ none ↦ none | some raw ↦ lower_rates lower raw ]) else none

-- `api_rates.get(currency)`: of equal keys the last one stands in the dict.
unfoldable pub get_rate : String → List (String × Rate) → Option Rate
get_rate c [] = none
get_rate c ((k, v) ∷ r) = elim (get_rate c r) [
  | some w ↦ some w
  | none ↦ if str_eq k c then some v else none
]

abbrev pub times : Amount → Rate → Amount
times a r = record { n = a.n * r.n; d = a.d * r.d }

-- The friendly amount in minor units.
unfoldable pub convert : (lower : String → String) → ℕ → Rate → String → ℤ
unfolding format_amount round_friendly to_minor_units
convert lower amount rate currency =
    to_minor_units lower
      (round_friendly lower (times (format_amount lower amount "usd") rate) currency) currency

-- `_suggested_sticker`
unfoldable pub suggested_sticker :
    (lower : String → String) → List (String × Rate) → ℕ → String → Option ℤ
unfolding get_rate convert
suggested_sticker lower rates amount currency =
    if str_eq currency "usd" then some (pos amount) else elim (get_rate currency rates) [
      | none ↦ none
      | some rate ↦ some (convert lower amount rate currency)
    ]

-- `_compute_new_amounts`, for the currencies of a list.
unfoldable pub compute_new_amounts :
    (lower : String → String) → List (String × Rate) → ℕ → List String → List (String × ℤ)
unfolding get_rate convert
compute_new_amounts lower rates amount [] = []
compute_new_amounts lower rates amount (c ∷ r) =
    let rest = compute_new_amounts lower rates amount r in
    if str_eq c "usd" then rest else elim (get_rate c rates) [
      | none ↦ rest
      | some rate ↦ (c, convert lower amount rate c) ∷ rest
    ]

-- What a row is to become: one of `to_create`, `to_update_changed` or `to_update_heartbeat`.
pub data Upsert : Type 0 where
  create change : PriceKey → ℤ → Upsert
  heartbeat : PriceKey → Upsert

-- One round of the loop of `_upsert_for_price`, which reads the rows as they were at the start.
unfoldable pub upsert : List LocalizedPrice → PriceKey → ℤ → Upsert
upsert rows k new_amount = elim (localized k rows) [
  | none ↦ create k new_amount
  | some r ↦ if eq_ℤ r.amount_minor new_amount then heartbeat k else change k new_amount
]

-- The owners of the prices with their amounts, those of the plans first.
unfoldable pub sources : Catalog → List (PriceOwner × ℕ)
sources c =
    map (λ (p : PlanPrice). (plan_price p.id, p.amount)) c.plan_prices
    ++ map (λ (p : ProductPrice). (product_price p.id, p.amount)) c.product_prices

-- The new amount of each price in each currency.
unfoldable pub all_amounts :
    (lower : String → String)
    → List (String × Rate)
    → List String
    → List (PriceOwner × ℕ)
    → List (PriceKey × ℤ)
unfolding compute_new_amounts
all_amounts lower rates currencies [] = []
all_amounts lower rates currencies ((owner, amount) ∷ r) =
    map (λ (a : String × ℤ). (record { owner = owner; currency = a.0 }, a.1))
      (compute_new_amounts lower rates amount currencies)
    ++ all_amounts lower rates currencies r

-- The rounds of `_upsert_for_price` for every price.
unfoldable pub all_upserts : List LocalizedPrice → List (PriceKey × ℤ) → List Upsert
unfolding upsert
all_upserts rows [] = []
all_upserts rows ((k, n) ∷ r) = upsert rows k n ∷ all_upserts rows r

unfoldable pub created : (now : Time) → List Upsert → List LocalizedPrice
created now [] = []
created now (create k n ∷ us) =
    (record { key = k; amount_minor = n; stripe_price_id = none; synced_at = now }) ∷ created now us
created now (u ∷ us) = created now us

-- `bulk_create(all_create)`
unfoldable pub bulk_create : (now : Time) → List Upsert → List LocalizedPrice → List LocalizedPrice
unfolding created
bulk_create now us rows = rows ++ created now us

abbrev pub is_row : PriceKey → LocalizedPrice → Bool
is_row k r = same_key r.key k

-- `bulk_update(all_update_changed, ["amount_minor", "synced_at"])`
unfoldable pub bulk_change : (now : Time) → List Upsert → List LocalizedPrice → List LocalizedPrice
bulk_change now [] rows = rows
bulk_change now (change k n ∷ us) rows =
    bulk_change now us
      (update_where (is_row k) (λ r. record r { amount_minor = n; synced_at = now }) rows)
bulk_change now (u ∷ us) rows = bulk_change now us rows

-- `bulk_update(all_update_heartbeat, ["synced_at"])`
unfoldable pub bulk_heartbeat :
    (now : Time) → List Upsert → List LocalizedPrice → List LocalizedPrice
bulk_heartbeat now [] rows = rows
bulk_heartbeat now (heartbeat k ∷ us) rows =
    bulk_heartbeat now us (update_where (is_row k) (λ r. record r { synced_at = now }) rows)
bulk_heartbeat now (u ∷ us) rows = bulk_heartbeat now us rows

-- Whether an upsert counts as changed.
abbrev pub is_changed : Upsert → Bool
is_changed (heartbeat k) = false
is_changed u = true

-- One round of the loop over the rows that are not curated: the row after it, and whether it changed. The
-- owner is there by the foreign key.
unfoldable pub refresh_country :
    Env → List (String × Rate) → Catalog → CountryPrice → Result (CountryPrice × Bool)
unfolding suggested_sticker derive_base_of standard_vat_rate owner_amount
refresh_country e rates c cp = elim (owner_amount cp.owner c) [
  | none ↦ err Error.attribute_error
  | some amount ↦ elim (suggested_sticker e.lower rates amount cp.currency) [
    | none ↦ ok (cp, false)
    | some suggested ↦ do
      new_base ← derive_base_of suggested (standard_vat_rate e.upper cp.country)
      if not (eq_ℤ cp.sticker_minor suggested) || not (eq_ℤ cp.base_minor (pos new_base))
          then ok (
            record cp { sticker_minor = suggested; base_minor = pos new_base; updated_at = e.now },
            true,
          )
          else ok (cp, false)
  ]
]

-- The loop, with the number of rows that changed.
unfoldable pub refresh_countries :
    Env → List (String × Rate) → Catalog → List CountryPrice → Result (List CountryPrice × ℕ)
unfolding refresh_country
refresh_countries e rates c [] = ok ([], 0)
refresh_countries e rates c (cp ∷ r) = do
  (cp', changed) ← if cp.is_curated then ok (cp, false) else refresh_country e rates c cp
  (rest, n) ← refresh_countries e rates c r
  ok (cp' ∷ rest, one_if changed + n)

-- The rows after the three bulk writes.
unfoldable pub write_upserts :
    (now : Time) → List Upsert → List LocalizedPrice → List LocalizedPrice
unfolding bulk_create bulk_change bulk_heartbeat
write_upserts now us rows = bulk_heartbeat now us (bulk_change now us (bulk_create now us rows))

-- The transaction of `sync_localized_prices` for some currencies. What it wrote is taken back by a raise.
unfoldable pub sync_rates :
    Env → (currencies : List String) → List (String × Rate) → Catalog → Result ℕ × Catalog
unfolding all_amounts sources all_upserts write_upserts refresh_countries
sync_rates e currencies rates c =
    let us = all_upserts c.localized_prices (all_amounts e.lower rates currencies (sources c)) in
    elim (refresh_countries e rates c c.country_prices) [
      | err x ↦ (err x, c)
      | ok (countries, n) ↦ (
        ok (count is_changed us + n),
        record c {
          localized_prices = write_upserts e.now us c.localized_prices;
          country_prices = countries;
        },
      )
    ]

-- `sync_localized_prices`: the answer of the feed is `none` where the request failed or was no JSON.
unfoldable pub sync_localized_prices : Env → Option Payload → Catalog → Result ℕ × Catalog
unfolding api_rates sync_rates
sync_localized_prices e payload c = elim (api_rates e.lower payload) [
  | none ↦ (ok 0, c)
  | some rates ↦ sync_rates e supported_currencies rates c
]
