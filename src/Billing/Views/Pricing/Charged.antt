-- ===== src/Billing/Views/Pricing/Charged.antt =====
-- What a checkout may charge.
use text.Mathlib.Text.{◌==◌ as str_eq}
use mathlib.Core.Path.{subst}
use saasmint.Base.{
  ◌≡◌, Bool, true, false, ◌&&◌, Option, none, some, List, String, any, find, arith, ◌⊎◌, inl, inr,
  ◌∙◌, ap, str_eq_refl, any-of-find-and, is_some, Bool-cases, Option-cases, find-eq-some,
}
use saasmint.Database.Result.{ok, Result-cases}
use saasmint.Prices.Catalog.{Catalog, PriceOwner, same_owner, CountryPrice, LocalizedPrice}
use saasmint.Billing.Views.Checks.{localized_for_currency}
use saasmint.Billing.Views.Pricing.{
  target_currency, PythonText, PricingRequest, Preferences, is_in, present, minted,
  requested_currency, preferred_currency, resolve_billing_currency, resolve_pricing_country,
  get_country_stripe_price, resolve_stripe_price_id, resolve_checkout_price,
}

abbrev pub has_price : String → Option String → Bool
has_price i none = false
has_price i (some j) = str_eq j i

-- A row of the owner for some country, with this Stripe price and currency.
abbrev pub is_country_row : PriceOwner → (price_id currency : String) → CountryPrice → Bool
is_country_row owner i cur r =
    same_owner r.owner owner && (has_price i r.stripe_price_id && str_eq r.currency cur)

-- The row of the owner for a currency, with this Stripe price.
abbrev pub is_localized_row : PriceOwner → (price_id currency : String) → LocalizedPrice → Bool
is_localized_row owner i cur r =
    same_owner r.key.owner owner && (has_price i r.stripe_price_id && str_eq r.key.currency cur)

abbrev is_localized_key : PriceOwner → String → LocalizedPrice → Bool
is_localized_key owner cur r =
    same_owner r.key.owner owner && (str_eq r.key.currency cur && is_some r.stripe_price_id)

abbrev is_country_key : PriceOwner → String → CountryPrice → Bool
is_country_key owner code r =
    str_eq r.country code && (is_some r.stripe_price_id && same_owner r.owner owner)

present-same : (o : Option String) (j : String) → present o ≡ some j → o ≡ some j
present-same none j e = ground arith
present-same (some i) j e = ground arith

is_localized_row-of_key :
    (owner : PriceOwner) (i cur : String) (r : LocalizedPrice)
    → is_localized_key owner cur r ≡ true
    → r.stripe_price_id ≡ some i
    → is_localized_row owner i cur r ≡ true
is_localized_row-of_key owner i cur r k own = ground (arith, k, own, str_eq_refl i)

is_country_row-of_key :
    (owner : PriceOwner) (i code : String) (r : CountryPrice)
    → is_country_key owner code r ≡ true
    → r.stripe_price_id ≡ some i
    → is_country_row owner i r.currency r ≡ true
is_country_row-of_key owner i code r k own =
    ground (arith, k, str_eq_refl i, str_eq_refl r.currency)

resolve_billing_currency-billed :
    (t : PythonText) (billing : List String) (query preference : Option String) (cur : String)
    (display : Option String)
    → resolve_billing_currency t billing query preference ≡ ok (cur, display)
    → (is_in billing cur ≡ true) ⊎ (cur ≡ "usd")
unfolding resolve_billing_currency
resolve_billing_currency-billed t billing query preference cur display h =
    elim (Result-cases (requested_currency t query)) [
      | inr (x, refused) ↦ ground (arith, refused)
      | inl (requested, asked) ↦
          let target = target_currency requested (preferred_currency t preference) in
          elim (Bool-cases (is_in billing target)) [
            | inl kept ↦ ground arith
            | inr other ↦ ground arith
          ]
    ]

resolve_stripe_price_id-listed :
    (owner : PriceOwner) (usd_id cur i : String) (c : Catalog)
    → resolve_stripe_price_id owner usd_id cur c ≡ i
    → (any (is_localized_row owner i cur) c.localized_prices ≡ true) ⊎ (i ≡ usd_id)
unfolding resolve_stripe_price_id localized_for_currency
resolve_stripe_price_id-listed owner usd_id cur i c h = elim (Bool-cases (str_eq cur "usd")) [
  | inl usd ↦ inr (ground arith)
  | inr other ↦ elim (Option-cases (localized_for_currency owner cur c)) [
    | inl missing ↦ inr (ground arith)
    | inr (r, found) ↦ elim (Option-cases (present r.stripe_price_id)) [
      | inl unpriced ↦ inr (ground arith)
      | inr (j, priced) ↦
          let same : j ≡ i = ground arith in
          let own = present-same r.stripe_price_id i (priced ∙ ap some same) in
          inl (
            any-of-find-and (is_localized_key owner cur) (is_localized_row owner i cur)
              c.localized_prices r found
              (is_localized_row-of_key owner i cur r
                (find-eq-some (is_localized_key owner cur) c.localized_prices r found) own))
    ]
  ]
]

minted-listed :
    (owner : PriceOwner) (country : Option String) (c : Catalog) (i cur : String)
    → minted (get_country_stripe_price owner country c) ≡ some (i, cur)
    → any (is_country_row owner i cur) c.country_prices ≡ true
unfolding get_country_stripe_price
minted-listed owner country c i cur h =
    elim (Option-cases (get_country_stripe_price owner country c)) [
      | inl missing ↦ ground arith
      | inr (r, found) ↦ elim (Option-cases (present r.stripe_price_id)) [
        | inl unpriced ↦ ground arith
        | inr (j, priced) ↦
            let same : j ≡ i = ground arith in
            let own = present-same r.stripe_price_id i (priced ∙ ap some same) in
            elim (Option-cases (present country)) [
              | inl nowhere ↦ ground arith
              | inr (code, given) ↦
                  let there : find (is_country_key owner code) c.country_prices ≡ some r =
                    ground arith in
                  let charged : r.currency ≡ cur = ground arith in
                  any-of-find-and (is_country_key owner code) (is_country_row owner i cur)
                    c.country_prices r there
                    (subst (λ x. is_country_row owner i x r ≡ true) charged
                      (is_country_row-of_key owner i code r
                        (find-eq-some (is_country_key owner code) c.country_prices r there) own))
            ]
      ]
    ]

-- A checkout charges the Stripe price of a country row of the owner, in the currency of that row; or, in a
-- currency that is billed or US dollars, either the Stripe price of the owner's localized row for that
-- currency, or the price's own one.
pub resolve_checkout_price-listed :
    (t : PythonText) (billing : List String) (r : PricingRequest) (p : Preferences)
    (owner : PriceOwner) (usd_id : String) (c : Catalog) (i cur : String)
    → resolve_checkout_price t billing r p owner usd_id c ≡ ok (i, cur)
    → (any (is_country_row owner i cur) c.country_prices ≡ true)
      ⊎ (((is_in billing cur ≡ true) ⊎ (cur ≡ "usd"))
          × ((any (is_localized_row owner i cur) c.localized_prices ≡ true) ⊎ (i ≡ usd_id)))
unfolding resolve_checkout_price
resolve_checkout_price-listed t billing r p owner usd_id c i cur h =
    elim (Result-cases (resolve_pricing_country t r p)) [
      | inr (x, refused) ↦ ground arith
      | inl (country, there) ↦
          elim (Option-cases (minted (get_country_stripe_price owner country c))) [
            | inr (priced, found) ↦ inl (minted-listed owner country c i cur (ground arith))
            | inl none_there ↦
                elim (Result-cases
                  (resolve_billing_currency t billing r.currency p.preferred_currency)) [
                    | inr (x, refused) ↦ ground arith
                    | inl ((billed, display), resolved) ↦ inr (
                      resolve_billing_currency-billed t billing r.currency p.preferred_currency cur
                          display (ground arith),
                      resolve_stripe_price_id-listed owner usd_id cur i c (ground arith),
                    )
                  ]
          ]
    ]
