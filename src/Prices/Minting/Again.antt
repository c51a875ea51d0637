-- ===== src/Prices/Minting/Again.antt =====
-- A second call of `_upsert_price`, at what Stripe has after the first.
use mathlib.Core.Path.{subst}
use saasmint.Base.{
  ◌≡◌, refl, sym, Option, none, some, List, [], ◌∷◌, ◌++◌, String, ℤ, true, inl, inr, arith,
  eq_ℤ_refl, str_eq_refl, if◌then◌else◌,
}
use saasmint.Domain.{Uuid}
use saasmint.Json.{str}
use saasmint.Json.Access.{truthy}
use saasmint.Database.Result.{ok}
use saasmint.Prices.Minting.{
  Answers, Metadata, Request, StripePrice, StripeProduct, Wanted, Site, expanded, product_create,
  price_create, exclusive, non_empty, same_text, same_metadata, merge, set_key, is_empty_update,
  product_update, price_matches, upsert_price, sync_stripe_product, ensure_tax_behavior,
}
use saasmint.Prices.Minting.Keys.{get_price}
use saasmint.Prices.Minting.Owners.{Owned, of_plan, of_product, wanted_of}
use saasmint.Prices.Minting.Sold.{upsert_price-sold}

-- The product and the price as they were created.
abbrev made_product : (id : String) → Wanted → StripeProduct
made_product id w = record {
  id = id;
  name = w.product_name;
  description = non_empty w.product_description;
  metadata = w.product_metadata;
}

abbrev minted_price : (id product : String) → Wanted → StripePrice
minted_price id product w = record {
  id = id;
  lookup_key = some w.lookup_key;
  unit_amount = some w.unit_amount;
  currency = w.currency;
  interval = w.interval;
  tax_behavior = some exclusive;
  product = expanded (made_product product w);
}

same_text_refl : (o : Option String) → same_text o o ≡ true
same_text_refl none = refl
same_text_refl (some t) = str_eq_refl t

price_matches-minted :
    (id product : String) (w : Wanted) → price_matches (minted_price id product w) w ≡ true
unfolding price_matches
price_matches-minted id product w =
    rw (eq_ℤ_refl w.unit_amount, str_eq_refl w.currency, same_text_refl w.interval) refl

undescribed :
    (o described : Option String)
    → described ≡ o
    → (elim o [ none ↦ none | some d ↦ if same_text described (some d) then none else some d ])
      ≡ none
undescribed none described h = refl
undescribed (some d) described h = rw (h, str_eq_refl d) refl

product_update-minted :
    (id product : String) (w : Wanted)
    → same_metadata (merge w.product_metadata w.product_metadata) w.product_metadata ≡ true
    → is_empty_update (product_update (minted_price id product w).product w) ≡ true
unfolding product_update
product_update-minted id product w same =
    rw
      (
        str_eq_refl w.product_name,
        undescribed (non_empty w.product_description) (non_empty w.product_description) refl,
        same,
      )
      refl

upsert_price-minted :
    (stripe : Answers) (id product : String) (w : Wanted) (s : Site)
    → same_metadata (merge w.product_metadata w.product_metadata) w.product_metadata ≡ true
    → upsert_price stripe (some (minted_price id product w)) w s ≡ (ok id, s)
unfolding upsert_price sync_stripe_product ensure_tax_behavior
upsert_price-minted stripe id product w s same =
    rw (upsert_price, price_matches-minted id product w)
      (rw (sync_stripe_product, product_update-minted id product w same) refl)

-- What the command relies on of Stripe: it has the products and the prices that were created, as they were
-- created, with the tax behavior "exclusive". `listing` is the prices that it lists after these requests, with
-- their products expanded, and `product_at` a product by its id.
pub record Remembers (stripe : Answers) (listing : List Request → List StripePrice)
    (product_at : List Request → String → Option StripeProduct) : Type 0 where
  pub product :
      (h : List Request) (name : String) (description : Option String) (metadata : Metadata)
      (i : String)
      → stripe h (product_create name description metadata) ≡ ok i
      → product_at (h ++ product_create name description metadata ∷ []) i
        ≡ some (record { id = i; name = name; description = description; metadata = metadata })
  pub price :
      (h : List Request) (product k : String) (n : ℤ) (currency : String) (interval : Option String)
      (metadata : Metadata) (i : String) (p : StripeProduct)
      → stripe h (price_create product k n currency interval metadata) ≡ ok i
      → product_at h product ≡ some p
      → truthy (str k) ≡ true
      → get_price k (listing (h ++ price_create product k n currency interval metadata ∷ []))
        ≡ some (record {
          id = i;
          lookup_key = some k;
          unit_amount = some n;
          currency = currency;
          interval = interval;
          tax_behavior = some exclusive;
          product = expanded p;
        })

module _ (stripe : Answers) (listing : List Request → List StripePrice)
    (product_at : List Request → String → Option StripeProduct)
    (remembers : Remembers stripe listing product_at) where
  get_price-after :
      (w : Wanted) (s s' : Site) (i : String)
      → truthy (str w.lookup_key) ≡ true
      → upsert_price stripe none w s ≡ (ok i, s')
      → (product : String) × (get_price w.lookup_key (listing s'.requests)
          ≡ some (minted_price i product w))
  get_price-after w s s' i named h = elim (upsert_price-sold stripe none w s s' i h) [
    | inl (p, there, _, _) ↦ absurd (ground arith)
    | inr (product, before, (made, opened), answered, sent) ↦
        let made_at =
          remembers.product s.requests w.product_name (non_empty w.product_description)
            w.product_metadata product made in
        let known =
          subst (λ r. product_at r product ≡ some (made_product product w)) (sym opened) made_at in
        (
          product,
          rw sent (
              remembers.price before product w.lookup_key w.unit_amount w.currency w.interval
                w.price_metadata i (made_product product w) answered known named),
        )
  ]

  upsert_price-twice :
      (w : Wanted) (s s' : Site) (i : String)
      → same_metadata (merge w.product_metadata w.product_metadata) w.product_metadata ≡ true
      → truthy (str w.lookup_key) ≡ true
      → upsert_price stripe none w s ≡ (ok i, s')
      → upsert_price stripe (get_price w.lookup_key (listing s'.requests)) w s' ≡ (ok i, s')
  upsert_price-twice w s s' i same named h =
      let (product, found) = get_price-after w s s' i named h in
      rw found (upsert_price-minted stripe i product w s' same)

  -- If a call for an owner, at a lookup key that has no price yet and is not empty, returns a price, then a
  -- second call, with the price that Stripe lists for the key after the first, returns the same price and sends nothing.
  -- Stripe has to list what it was asked to create.
  pub upsert_price-again :
      (show_uuid : Uuid → String) (owned : Owned) (k : String) (n : ℤ) (currency : String)
      (country : List (String × String)) (s s' : Site) (i : String)
      → truthy (str k) ≡ true
      → upsert_price stripe none (wanted_of show_uuid owned k n currency country) s ≡ (ok i, s')
      → upsert_price stripe
          (get_price k (listing s'.requests))
          (wanted_of show_uuid owned k n currency country)
          s'
        ≡ (ok i, s')
  unfolding wanted_of merge set_key same_metadata
  upsert_price-again show_uuid (of_plan p) k n currency country s s' i named h =
      upsert_price-twice (wanted_of show_uuid (of_plan p) k n currency country) s s' i
        (rw (str_eq_refl (show_uuid p.id)) refl) named h
  upsert_price-again show_uuid (of_product p) k n currency country s s' i named h =
      upsert_price-twice (wanted_of show_uuid (of_product p) k n currency country) s s' i
        (rw (str_eq_refl (show_uuid p.id)) refl) named h
