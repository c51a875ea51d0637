-- ===== src/Prices/Minting.antt =====
-- One price of core/apps/billing/management/commands/sync_stripe_catalog.py: `_upsert_price` and the helpers that
-- it calls. Stripe's objects are records, and Stripe answers a request after the requests before it with
-- the id of the object, or it raises.
pub mod Keys
pub mod Owners
pub mod Command
pub mod Batches
pub mod Sold
pub mod Again
pub mod Remembered
pub mod Stamped
pub mod Examples
use text.Mathlib.Text.{◌==◌ as str_eq}
use saasmint.Base.{
  ℤ, eq_ℤ, Bool, true, false, not, ◌&&◌, ◌||◌, Option, none, some, List, [], ◌∷◌, ◌++◌, String,
  if◌then◌else◌, find,
}
use saasmint.Json.{str}
use saasmint.Json.Access.{truthy}
use saasmint.Database.Result.{Result, ok, err}
use saasmint.Prices.Catalog.{Catalog}

-- A dict of texts, in the order of its keys.
abbrev pub Metadata : Type 0
Metadata = List (String × String)

pub record StripeProduct : Type 0 where
  pub id : String
  pub name : String
  pub description : Option String
  pub metadata : Metadata

-- `stripe_price.product` is the object where the request expanded it, and its id otherwise.
pub data ProductRef : Type 0 where
  expanded : StripeProduct → ProductRef
  bare : String → ProductRef

abbrev pub id_of : ProductRef → String
id_of (expanded p) = p.id
id_of (bare i) = i

-- `interval` is that of `recurring`, if any.
pub record StripePrice : Type 0 where
  pub id : String
  pub lookup_key : Option String
  pub unit_amount : Option ℤ
  pub currency : String
  pub interval : Option String
  pub tax_behavior : Option String
  pub product : ProductRef

-- The arguments of `_upsert_price`.
pub record Wanted : Type 0 where
  pub lookup_key : String
  pub unit_amount : ℤ
  pub currency : String
  pub interval : Option String
  pub product_name : String
  pub product_description : Option String
  pub product_metadata : Metadata
  pub price_metadata : Metadata

-- The changed fields of a product.
pub record ProductUpdate : Type 0 where
  pub name : Option String
  pub description : Option String
  pub metadata : Option Metadata

-- The requests that change something at Stripe. A price is created with `transfer_lookup_key` and the tax
-- behavior "exclusive".
pub data Request : Type 0 where
  product_create : (name : String) (description : Option String) (metadata : Metadata) → Request
  product_modify : (id : String) → ProductUpdate → Request
  price_create :
      (product lookup_key : String) (unit_amount : ℤ) (currency : String)
      → (interval : Option String) (metadata : Metadata) → Request
  price_archive : (id : String) → Request
  price_set_tax_behavior : (id tax_behavior : String) → Request

abbrev pub Answers : Type 0
Answers = List Request → Request → Result String

pub record Site : Type 0 where
  pub catalog : Catalog
  pub requests : List Request

abbrev pub Run : Type 0 → Type 0
Run A = Site → Result A × Site

abbrev pub pure : {A : Type 0} → A → Run A
pure a s = (ok a, s)

infixl 5 ◌>>=◌ ◌>>◌
abbrev pub ◌>>=◌ : {A B : Type 0} → Run A → (A → Run B) → Run B
◌>>=◌ m f s = let (r, s') = m s in elim r [ ok a ↦ f a s' | err e ↦ (err e, s') ]

abbrev pub ◌>>◌ : {A B : Type 0} → Run A → Run B → Run B
m >> k = m >>= λ _. k

abbrev pub lift : {A : Type 0} → Result A → Run A
lift r s = (r, s)

abbrev pub write : (Catalog → Catalog) → Run (Unit {0})
write f s = (ok tt, record s { catalog = f s.catalog })

unfoldable pub send : Answers → Request → Run String
send stripe r s = (stripe s.requests r, record s { requests = s.requests ++ r ∷ [] })

-- `if value:`
abbrev pub non_empty : Option String → Option String
non_empty none = none
non_empty (some s) = if truthy (str s) then some s else none

abbrev pub same_text : Option String → Option String → Bool
same_text none none = true
same_text (some a) (some b) = str_eq a b
same_text a b = false

-- `d[k] = v`
unfoldable pub set_key : String × String → Metadata → Metadata
set_key (k, v) [] = (k, v) ∷ []
set_key (k, v) ((j, w) ∷ r) =
    let rest = set_key (k, v) r in if str_eq j k then (j, v) ∷ r else (j, w) ∷ rest

-- `{**existing, **metadata}`
unfoldable pub merge : Metadata → Metadata → Metadata
unfolding set_key
merge existing [] = existing
merge existing (kv ∷ r) = merge (set_key kv existing) r

-- The equality of dicts whose keys stand in the same order, which `merge` keeps.
unfoldable pub same_metadata : Metadata → Metadata → Bool
same_metadata [] [] = true
same_metadata ((k, v) ∷ r) ((j, w) ∷ q) = str_eq k j && (str_eq v w && same_metadata r q)
same_metadata a b = false

-- `_price_matches`
unfoldable pub price_matches : StripePrice → Wanted → Bool
price_matches p w = elim p.unit_amount [
  | none ↦ false
  | some n ↦
      eq_ℤ n w.unit_amount && (str_eq p.currency w.currency && same_text p.interval w.interval)
]

-- What `_sync_stripe_product` changes of a product.
unfoldable pub product_update : ProductRef → Wanted → ProductUpdate
unfolding truthy merge same_metadata
product_update ref w =
    let existing : Metadata = elim ref [ expanded p ↦ p.metadata | bare i ↦ [] ] in
    let described : Option String = elim ref [ expanded p ↦ p.description | bare i ↦ none ] in
    let merged = merge existing w.product_metadata in
    record {
      name = elim ref [
        | bare i ↦ none
        | expanded p ↦ if str_eq p.name w.product_name then none else some w.product_name
      ];
      description = elim (non_empty w.product_description) [
        | none ↦ none
        | some d ↦ if same_text described (some d) then none else some d
      ];
      metadata = if same_metadata merged existing then none else some merged;
    }

abbrev pub is_empty_update : ProductUpdate → Bool
is_empty_update u = elim u.name [
  | some n ↦ false
  | none ↦ elim u.description [
    | some d ↦ false
    | none ↦ elim u.metadata [ none ↦ true | some m ↦ false ]
  ]
]

abbrev pub exclusive : String
exclusive = "exclusive"

module _ (stripe : Answers) where
  -- `_sync_stripe_product`
  unfoldable pub sync_stripe_product : ProductRef → Wanted → Run (Unit {0})
  unfolding product_update send
  sync_stripe_product ref w =
      if is_empty_update (product_update ref w)
      then pure tt
      else (send stripe (product_modify (id_of ref) (product_update ref w)) >> pure tt)

  -- `_ensure_tax_behavior`
  unfoldable pub ensure_tax_behavior : StripePrice → Run (Unit {0})
  unfolding send
  ensure_tax_behavior p = elim p.tax_behavior [
    | none ↦ send stripe (price_set_tax_behavior p.id exclusive) >> pure tt
    | some t ↦
        if str_eq t "unspecified"
        then (send stripe (price_set_tax_behavior p.id exclusive) >> pure tt)
        else pure tt
  ]

  -- The price that is created under a product.
  unfoldable pub create_price : (product : String) → Wanted → Run String
  unfolding send
  create_price product w =
      send stripe
        (price_create product w.lookup_key w.unit_amount w.currency w.interval w.price_metadata)

  -- The product of a price that has none yet.
  unfoldable pub create_product : Wanted → Run String
  unfolding truthy send
  create_product w =
      send stripe
        (product_create w.product_name (non_empty w.product_description) w.product_metadata)

  -- `_upsert_price`, at the entry of `existing_prices` for the lookup key.
  unfoldable pub upsert_price : Option StripePrice → Wanted → Run String
  unfolding price_matches sync_stripe_product ensure_tax_behavior create_price create_product send
  upsert_price none w = create_product w >>= λ product. create_price product w
  upsert_price (some p) w =
      if price_matches p w
      then (sync_stripe_product p.product w >> (ensure_tax_behavior p >> pure p.id))
      else (send stripe (price_archive p.id)
          >> (sync_stripe_product (bare (id_of p.product)) w >> create_price (id_of p.product) w))
