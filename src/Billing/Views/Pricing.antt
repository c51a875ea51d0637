-- ===== src/Billing/Views/Pricing.antt =====
-- Which Stripe price a checkout charges: the currency and the country of a request in
-- core/apps/billing/views.py.
pub mod Charged
use Prim.Native.String.{len}
use text.Mathlib.Text.{◌==◌ as str_eq}
use saasmint.Base.{
  Bool, true, false, not, ◌&&◌, Option, none, some, List, [], ◌∷◌, String, ◌==◌, if◌then◌else◌, any,
  find, is_some,
}
use saasmint.Json.{str}
use saasmint.Json.Access.{truthy}
use saasmint.Database.Result.{Result, ok, err, Error, ◌>>=◌}
use saasmint.Prices.Currency.{supported_currencies}
use saasmint.Prices.Catalog.{Catalog, PriceOwner, same_owner, CountryPrice}
use saasmint.Billing.Views.Checks.{localized_for_currency}

-- Python's methods of texts: `first_part` is `text.split(",")[0]` and `subtags` is `re.split(r"[-_]", text)`.
pub record PythonText : Type 0 where
  pub lower : String → String
  pub upper : String → String
  pub strip : String → String
  pub first_part : String → String
  pub isalpha : String → Bool
  pub subtags : String → List String

-- The query parameters and the headers that the pricing reads.
pub record PricingRequest : Type 0 where
  pub currency : Option String
  pub country : Option String
  pub accept_language : Option String
  pub edge_country : Option String

-- What it reads of the user.
pub record Preferences : Type 0 where
  pub preferred_currency : Option String
  pub preferred_locale : Option String

abbrev pub is_in : List String → String → Bool
is_in cs c = any (str_eq c) cs

-- `value` where it is truthy.
abbrev pub present : Option String → Option String
present none = none
present (some s) = if truthy (str s) then some s else none

-- The query parameter, which has to be a supported currency.
unfoldable pub requested_currency : PythonText → Option String → Result (Option String)
unfolding truthy
requested_currency t query = elim (present query) [
  | none ↦ ok none
  | some q ↦
      if is_in supported_currencies (t.lower q)
      then ok (some (t.lower q))
      else err Error.validation_error
]

unfoldable pub preferred_currency : PythonText → Option String → Option String
unfolding truthy
preferred_currency t preference = elim (present preference) [
  | none ↦ none
  | some p ↦ if is_in supported_currencies (t.lower p) then some (t.lower p) else none
]

-- `requested or user_pref or "usd"`
abbrev pub target_currency : (requested user_pref : Option String) → String
target_currency (some c) user_pref = c
target_currency none (some c) = c
target_currency none none = "usd"

-- `_resolve_billing_currency`, with the currency of a second display; `billing` is
-- `settings.BILLING_CURRENCIES`.
unfoldable pub resolve_billing_currency :
    PythonText
    → (billing : List String) → (query preference : Option String) → Result (String × Option String)
unfolding requested_currency preferred_currency
resolve_billing_currency t billing query preference = do
  requested ← requested_currency t query
  let user_pref = preferred_currency t preference
  let target = target_currency requested user_pref
  let charged = if is_in billing target then target else "usd"
  ok (charged, elim user_pref [ none ↦ none | some p ↦ if str_eq p charged then none else some p ])

abbrev pub lang_default_countries : List (String × String)
lang_default_countries =
    ("es", "ES")
    ∷ ("fr", "FR")
    ∷ ("de", "DE")
    ∷ ("it", "IT")
    ∷ ("nl", "NL")
    ∷ ("pt", "PT")
    ∷ ("pl", "PL")
    ∷ ("sv", "SE")
    ∷ ("da", "DK")
    ∷ ("zh", "CN")
    ∷ []

-- `_LANG_DEFAULT_COUNTRY.get(language)`
unfoldable pub default_country : String → Option String
default_country language =
    elim (find (λ (row : String × String). str_eq row.0 language) lang_default_countries) [
      | none ↦ none
      | some row ↦ some row.1
    ]

abbrev pub is_country_code : PythonText → String → Bool
is_country_code t s = len s == 2 && t.isalpha s

-- The country of the subtags; `re.split` gives one at least.
unfoldable pub country_of_subtags : PythonText → List String → Option String
unfolding default_country
country_of_subtags t [] = none
country_of_subtags t (language ∷ []) = default_country (t.lower language)
country_of_subtags t (language ∷ region ∷ r) =
    if is_country_code t region then some (t.upper region) else default_country (t.lower language)

-- `_country_from_locale`
unfoldable pub country_from_locale : PythonText → Option String → Option String
unfolding country_of_subtags truthy
country_from_locale t locale = elim (present locale) [
  | none ↦ none
  | some l ↦ country_of_subtags t (t.subtags (t.strip (t.first_part l)))
]

-- The signal of the edge, whose `XX` is no country.
unfoldable pub edge_country : PythonText → Option String → Option String
unfolding truthy
edge_country t header = elim (present header) [
  | none ↦ none
  | some c ↦ if is_country_code t c && not (str_eq (t.upper c) "XX") then some (t.upper c) else none
]

abbrev pub or_else : Option String → Option String → Option String
or_else none b = b
or_else (some a) b = some a

-- `_resolve_pricing_country`
unfoldable pub resolve_pricing_country :
    PythonText → PricingRequest → Preferences → Result (Option String)
unfolding truthy country_from_locale edge_country
resolve_pricing_country t r p = elim (present r.country) [
  | some override ↦
      if is_country_code t (t.upper (t.strip override))
      then ok (some (t.upper (t.strip override)))
      else err Error.validation_error
  | none ↦
      let locale = or_else (present p.preferred_locale) r.accept_language in
      ok (or_else (present (country_from_locale t locale)) (edge_country t r.edge_country))
]

-- `_get_country_stripe_price`
unfoldable pub get_country_stripe_price : PriceOwner → Option String → Catalog → Option CountryPrice
unfolding truthy
get_country_stripe_price owner country c = elim (present country) [
  | none ↦ none
  | some code ↦
      find
        (λ (r : CountryPrice).
          str_eq r.country code && (is_some r.stripe_price_id && same_owner r.owner owner))
        c.country_prices
]

-- `_resolve_stripe_price_id`; `usd_id` is the price's own column.
unfoldable pub resolve_stripe_price_id : PriceOwner → (usd_id currency : String) → Catalog → String
unfolding localized_for_currency truthy
resolve_stripe_price_id owner usd_id currency c =
    if str_eq currency "usd" then usd_id else elim (localized_for_currency owner currency c) [
      | none ↦ usd_id
      | some r ↦ elim (present r.stripe_price_id) [ none ↦ usd_id | some i ↦ i ]
    ]

-- The price of the country, where there is one that Stripe has.
abbrev pub minted : Option CountryPrice → Option (String × String)
minted none = none
minted (some r) = elim (present r.stripe_price_id) [ none ↦ none | some i ↦ some (i, r.currency) ]

-- `_resolve_checkout_price`: the Stripe price, and the currency to bill in.
unfoldable pub resolve_checkout_price :
    PythonText
    → (billing : List String) → PricingRequest
    → Preferences
    → PriceOwner
    → (usd_id : String) → Catalog
    → Result (String × String)
unfolding truthy resolve_pricing_country get_country_stripe_price resolve_billing_currency
    resolve_stripe_price_id
resolve_checkout_price t billing r p owner usd_id c = do
  country ← resolve_pricing_country t r p
  elim (minted (get_country_stripe_price owner country c)) [
    | some priced ↦ ok priced
    | none ↦
        (resolve_billing_currency t billing r.currency p.preferred_currency >>= λ (currency, _).
        ok (resolve_stripe_price_id owner usd_id currency c, currency))
  ]
