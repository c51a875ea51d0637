-- ===== src/Prices/Minting/Keys.antt =====
-- The lookup keys of the Stripe prices in sync_stripe_catalog.py, and the prices that Stripe has for them.
use Prim.Native.Char.{Char, code}
use Prim.Native.String.{◌++◌ as join}
use text.Mathlib.Text.{◌==◌ as str_eq}
use saasmint.Base.{
  ℕ, zero, suc, Bool, false, not, ◌&&◌, ◌||◌, Option, none, some, List, [], ◌∷◌, ◌++◌, String, ◌==◌,
  leb, length, if◌then◌else◌,
}
use saasmint.Domain.{Plan, Product, PlanContext, personal, team, PlanInterval, month, year}
use saasmint.Json.Access.{truthy}
use saasmint.Database.Result.{Result, ok, err, Error, ◌>>=◌}
use saasmint.Prices.Minting.{StripePrice, non_empty}

-- `[a-z0-9]`
abbrev is_alnum : Char → Bool
is_alnum c = (leb 97 (code c) && leb (code c) 122) || (leb 48 (code c) && leb (code c) 57)

-- A run of other characters becomes one underscore; those in front and at the end are dropped.
abbrev after_gap : (gap : Bool) → Char → String → String
after_gap gap c s = if gap then String.◌∷◌ "_" (String.◌∷◌ c s) else String.◌∷◌ c s

-- `_slug` after the first character that it keeps, with whether a gap was read since.
unfoldable pub slug_from : (gap : Bool) → String → String
slug_from gap String.[] = String.[]
slug_from gap (String.◌∷◌ c s) =
    let rest = slug_from (not (is_alnum c)) s in if is_alnum c then after_gap gap c rest else rest

unfoldable pub skip_gap : String → String
skip_gap String.[] = String.[]
skip_gap (String.◌∷◌ c s) = if is_alnum c then String.◌∷◌ c s else skip_gap s

-- `_slug`
unfoldable pub slug : (lower : String → String) → String → String
unfolding slug_from skip_gap
slug lower value = slug_from false (skip_gap (lower value))

abbrev pub context_name : PlanContext → String
context_name personal = "personal"
context_name team = "team"

abbrev pub interval_name : PlanInterval → String
interval_name month = "month"
interval_name year = "year"

-- `PlanTier(tier).name.lower()`
unfoldable pub tier_name : ℕ → Result String
tier_name n =
    if n == 1
    then ok "free"
    else if n == 2
    then ok "basic"
    else if n == 3
    then ok "pro"
    else err Error.value_error

abbrev pub suffixed : (base currency : String) → String
suffixed base currency = if str_eq currency "usd" then base else join base (join "_" currency)

-- `_plan_lookup_key`
unfoldable pub plan_lookup_key : Plan → (currency : String) → Result String
unfolding tier_name
plan_lookup_key plan currency = do
  tier ← tier_name plan.tier
  let tail = join "_" (join tier (join "_" (interval_name plan.interval)))
  ok (suffixed (join "plan_" (join (context_name plan.context) tail)) currency)

-- `_product_lookup_key`
unfoldable pub product_lookup_key :
    (lower : String → String) → Product → (currency : String) → String
unfolding slug
product_lookup_key lower product currency =
    suffixed (join "product_" (slug lower product.name)) currency

-- `_country_lookup_key`
unfoldable pub country_lookup_key : (lower : String → String) → (base country : String) → String
country_lookup_key lower base country = join base (join "_c_" (lower country))

-- `existing_prices.get(key)`: the last of the prices with a key was put in last.
unfoldable pub get_price : String → List StripePrice → Option StripePrice
unfolding truthy
get_price k [] = none
get_price k (p ∷ r) = elim (get_price k r) [
  | some q ↦ some q
  | none ↦ elim (non_empty p.lookup_key) [
    | none ↦ none
    | some j ↦ if str_eq j k then some p else none
  ]
]

-- `keys[:n]` and `keys[n:]`
abbrev pub take : ℕ → List String → List String
take zero xs = []
take (suc n) [] = []
take (suc n) (x ∷ xs) = x ∷ take n xs

abbrev pub drop : ℕ → List String → List String
drop zero xs = xs
drop (suc n) [] = []
drop (suc n) (x ∷ xs) = drop n xs

-- The batches of the loop, whose fuel is at least the number of keys.
unfoldable pub batches : (fuel : ℕ) → List String → List (List String)
batches zero keys = []
batches (suc fuel) [] = []
batches (suc fuel) (k ∷ ks) = take 10 (k ∷ ks) ∷ batches fuel (drop 10 (k ∷ ks))

unfoldable pub fetch_batches :
    (list_prices : List String → Result (List StripePrice))
    → List (List String)
    → Result (List StripePrice)
fetch_batches list_prices [] = ok []
fetch_batches list_prices (b ∷ bs) = do
  page ← list_prices b
  rest ← fetch_batches list_prices bs
  ok (page ++ rest)

-- `_bulk_fetch_existing`; `list_prices` is the answer of `stripe.Price.list`.
unfoldable pub bulk_fetch_existing :
    (list_prices : List String → Result (List StripePrice))
    → List String
    → Result (List StripePrice)
unfolding batches fetch_batches
bulk_fetch_existing list_prices keys = fetch_batches list_prices (batches (length keys) keys)
