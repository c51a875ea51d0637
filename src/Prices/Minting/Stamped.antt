-- ===== src/Prices/Minting/Stamped.antt =====
-- From `_write_price_id` of the command to `_resolve_checkout_price`.
use text.Mathlib.Text.{◌==◌ as str_eq}
use saasmint.Base.{
  ◌≡◌, refl, true, false, ◌&&◌, Bool, Option, none, some, List, [], ◌∷◌, String, find, any,
  update_where, is_some, arith, Bool-cases, inl, inr,
}
use saasmint.Json.{str}
use saasmint.Json.Access.{truthy}
use saasmint.Prices.Catalog.{Catalog, PriceOwner, PriceKey, LocalizedPrice, same_owner, same_key}
use saasmint.Prices.Minting.Owners.{write_price_id}
use saasmint.Billing.Views.Checks.{localized_for_currency}
use saasmint.Billing.Views.Pricing.{
  PythonText, PricingRequest, Preferences, minted, resolve_pricing_country,
  resolve_billing_currency, get_country_stripe_price, resolve_stripe_price_id,
  resolve_checkout_price,
}
use saasmint.Database.Result.{ok}

module _ (owner : PriceOwner) (currency i : String) where
  abbrev pub key : PriceKey
  key = record { owner = owner; currency = currency }

  abbrev is_of_key : LocalizedPrice → Bool
  is_of_key r = same_key r.key key

  abbrev is_minted : LocalizedPrice → Bool
  is_minted r =
      same_owner r.key.owner owner && (str_eq r.key.currency currency && is_some r.stripe_price_id)

  abbrev with_id : LocalizedPrice → LocalizedPrice
  with_id r = record r { stripe_price_id = some i }

  is_minted-with_id : (x : LocalizedPrice) → is_of_key x ≡ true → is_minted (with_id x) ≡ true
  is_minted-with_id x h = ground (arith, h)

  is_minted-other : (x : LocalizedPrice) → is_of_key x ≡ false → is_minted x ≡ false
  is_minted-other x h = ground (arith, h)

  find-update_where :
      (rows : List LocalizedPrice)
      → any is_of_key rows ≡ true
      → (r : LocalizedPrice) × (find is_minted (update_where is_of_key with_id rows) ≡ some r)
        × (r.stripe_price_id ≡ some i)
  find-update_where [] h = ground arith
  find-update_where (x ∷ rows) h = elim (Bool-cases (is_of_key x)) [
    | inl here ↦ (with_id x, rw (here, is_minted-with_id x here) refl, refl)
    | inr other ↦
        let (r, found, same) = find-update_where rows (ground arith) in
        (r, rw (other, is_minted-other x other) found, same)
  ]

  resolve_stripe_price_id-write_price_id :
      (usd_id : String) (c : Catalog)
      → str_eq currency "usd" ≡ false
      → truthy (str i) ≡ true
      → any (λ (r : LocalizedPrice). same_key r.key key) c.localized_prices ≡ true
      → resolve_stripe_price_id owner usd_id currency (write_price_id owner i currency c) ≡ i
  unfolding resolve_stripe_price_id write_price_id localized_for_currency
  resolve_stripe_price_id-write_price_id usd_id c foreign given there =
      let (r, found, same) = find-update_where c.localized_prices there in
      rw (foreign, found, same, given) refl

  get_country_stripe_price-write_price_id :
      (country : Option String) (c : Catalog)
      → str_eq currency "usd" ≡ false
      → get_country_stripe_price owner country (write_price_id owner i currency c)
        ≡ get_country_stripe_price owner country c
  unfolding get_country_stripe_price write_price_id
  get_country_stripe_price-write_price_id country c foreign = rw foreign refl

  -- Where a request resolves to a country for which the price has no Stripe price of its own, and to a
  -- currency that is not US dollars and for which the price has a row: after the command has written an id
  -- for the price and this currency, which is not empty, the checkout charges the price of this id, in this
  -- currency.
  pub resolve_checkout_price-write_price_id :
      (t : PythonText) (billing : List String) (q : PricingRequest) (p : Preferences)
      (country display : Option String) (usd_id : String) (c : Catalog)
      → resolve_pricing_country t q p ≡ ok country
      → minted (get_country_stripe_price owner country c) ≡ none
      → resolve_billing_currency t billing q.currency p.preferred_currency ≡ ok (currency, display)
      → str_eq currency "usd" ≡ false
      → truthy (str i) ≡ true
      → any (λ (r : LocalizedPrice). same_key r.key key) c.localized_prices ≡ true
      → resolve_checkout_price t billing q p owner usd_id (write_price_id owner i currency c)
        ≡ ok (i, currency)
  unfolding resolve_checkout_price
  resolve_checkout_price-write_price_id t billing q p country display usd_id c located bare billed
        foreign given there =
      let same_country = get_country_stripe_price-write_price_id country c foreign in
      let charged = resolve_stripe_price_id-write_price_id usd_id c foreign given there in
      let unminted : minted
            (get_country_stripe_price owner country (write_price_id owner i currency c))
          ≡ none =
        rw same_country bare in
      ground (arith, located, unminted, billed, charged)
