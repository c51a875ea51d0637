-- ===== src/Prices/Minting/Remembered.antt =====
-- A Stripe that has what it was asked to create, for the examples.
use saasmint.Base.{
  ◌≡◌, refl, sym, ap, Option, none, some, List, [], ◌∷◌, ◌++◌, String, ℤ, true, arith, str_eq_refl,
}
use saasmint.Json.{str}
use saasmint.Json.Access.{truthy}
use saasmint.Database.Result.{Result, ok, err}
use saasmint.Prices.Minting.{
  Answers, Metadata, Request, StripePrice, StripeProduct, expanded, product_create, product_modify,
  price_create, price_archive, price_set_tax_behavior, exclusive,
}
use saasmint.Prices.Minting.Keys.{get_price}
use saasmint.Prices.Minting.Again.{Remembers}

abbrev pub id_for : Request → String
id_for (product_create n d m) = "prod"
id_for (price_create p k n c v m) = "price"
id_for other = "done"

abbrev pub stripe : Answers
stripe requests r = ok (id_for r)

abbrev with_product_id : String → Option StripeProduct → Option StripeProduct
with_product_id i none = none
with_product_id i (some p) = some (record p { id = i })

-- The product that was created last.
unfoldable latest : Option StripeProduct → List Request → Option StripeProduct
latest l [] = l
latest l (product_create n d m ∷ r) =
    latest (some (record { id = "prod"; name = n; description = d; metadata = m })) r
latest l (other ∷ r) = latest l r

unfoldable pub product_at : List Request → String → Option StripeProduct
unfolding latest
product_at h i = with_product_id i (latest none h)

abbrev listed :
    (product k : String) (n : ℤ) (currency : String) (interval : Option String)
    → Option StripeProduct
    → List StripePrice
listed product k n currency interval none = []
listed product k n currency interval (some p) =
    (record {
      id = "price";
      lookup_key = some k;
      unit_amount = some n;
      currency = currency;
      interval = interval;
      tax_behavior = some exclusive;
      product = expanded p;
    })
    ∷ []

unfoldable prices : Option StripeProduct → List Request → List StripePrice
prices l [] = []
prices l (product_create n d m ∷ r) =
    prices (some (record { id = "prod"; name = n; description = d; metadata = m })) r
prices l (price_create product k n c v m ∷ r) =
    listed product k n c v (with_product_id product l) ++ prices l r
prices l (other ∷ r) = prices l r

unfoldable pub listing : List Request → List StripePrice
unfolding prices
listing h = prices none h

latest-created :
    (h : List Request) (l : Option StripeProduct) (n : String) (d : Option String) (m : Metadata)
    → latest l (h ++ product_create n d m ∷ [])
      ≡ some (record { id = "prod"; name = n; description = d; metadata = m })
unfolding latest
latest-created [] l n d m = refl
latest-created (product_create a b c ∷ h) l n d m = latest-created h _ n d m
latest-created (price_create a b c e f g ∷ h) l n d m = latest-created h l n d m
latest-created (product_modify a b ∷ h) l n d m = latest-created h l n d m
latest-created (price_archive a ∷ h) l n d m = latest-created h l n d m
latest-created (price_set_tax_behavior a b ∷ h) l n d m = latest-created h l n d m

module _ (product k : String) (n : ℤ) (currency : String) (interval : Option String) (m : Metadata)
    (p : StripeProduct) (named : truthy (str k) ≡ true) where
  abbrev creation : Request
  creation = price_create product k n currency interval m

  abbrev price : StripePrice
  price = record {
    id = "price";
    lookup_key = some k;
    unit_amount = some n;
    currency = currency;
    interval = interval;
    tax_behavior = some exclusive;
    product = expanded p;
  }

  get_price-price : get_price k (price ∷ []) ≡ some price
  unfolding get_price truthy
  get_price-price = ground (arith, named, str_eq_refl k)

  get_price-first :
      (x : List StripePrice) (ys : List StripePrice) (q : StripePrice)
      → get_price k ys ≡ some q
      → get_price k (x ++ ys) ≡ some q
  unfolding get_price
  get_price-first [] ys q h = h
  get_price-first (x ∷ xs) ys q h = rw (get_price-first xs ys q h) refl

  get_price-created :
      (h : List Request) (l : Option StripeProduct)
      → with_product_id product (latest l h) ≡ some p
      → get_price k (prices l (h ++ creation ∷ [])) ≡ some price
  unfolding latest prices get_price
  get_price-created [] l there = rw there get_price-price
  get_price-created (product_create a b c ∷ h) l there = get_price-created h _ there
  get_price-created (price_create a b c d f g ∷ h) l there =
      get_price-first (listed a b c d f (with_product_id a l)) (prices l (h ++ creation ∷ [])) price
        (get_price-created h l there)
  get_price-created (product_modify a b ∷ h) l there = get_price-created h l there
  get_price-created (price_archive a ∷ h) l there = get_price-created h l there
  get_price-created (price_set_tax_behavior a b ∷ h) l there = get_price-created h l there

pub stripe-Remembers : Remembers stripe listing product_at
unfolding listing product_at latest
stripe-Remembers = record {
  product = λ h name d m i answered. rw (latest-created h none name d m) refl;
  price = λ h product k n c v m i p answered there named.
      let same : id_for (price_create product k n c v m) ≡ i =
        ap (λ (r : Result String). elim r [ ok a ↦ a | err e ↦ "" ]) answered in
      rw (sym same) (get_price-created product k n c v m p named h none there);
}
