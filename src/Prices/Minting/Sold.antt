-- ===== src/Prices/Minting/Sold.antt =====
-- The outcomes of `_upsert_price`: the price whose id it returns, and the requests that it makes.
use text.Mathlib.Text.{◌==◌ as str_eq}
use saasmint.Base.{
  false, Bool, ◌&&◌, eq_ℤ, path_of_str_eq, eq_of_eq_ℤ, Option-cases, append_assoc, append_nil, ◌≡◌,
  refl, sym, ap, ◌∙◌, true, Option, none, some, List, [], ◌∷◌, ◌++◌, String, ◌⊎◌, inl, inr, arith,
  Bool-cases,
}
use saasmint.Database.Result.{Result, ok, err}
use saasmint.Prices.Minting.{
  ProductRef, bare, product_create, price_archive, product_modify, ProductUpdate, is_empty_update,
  product_update, Run, pure, ◌>>◌, same_text, Answers, Request, StripePrice, Wanted, Site,
  price_create, price_matches, upsert_price, create_price, create_product, send, non_empty,
  sync_stripe_product, ensure_tax_behavior, id_of,
}

abbrev pub creation : String → Wanted → Request
creation product w =
    price_create product w.lookup_key w.unit_amount w.currency w.interval w.price_metadata

create_price-sold :
    (stripe : Answers) (product : String) (w : Wanted) (s s' : Site) (i : String)
    → create_price stripe product w s ≡ (ok i, s')
    → (stripe s.requests (creation product w) ≡ ok i)
      × (s'.requests ≡ s.requests ++ creation product w ∷ [])
unfolding create_price send
create_price-sold stripe product w s s' i h = (ap (λ r. r.0) h, ap (λ r. r.1.requests) (sym h))

run_ok :
    {A B : Type 0}
    → (r : Result A × Site) (f : A → Run B) (b : B) (s' : Site)
    → (elim r.0 [ ok a ↦ f a r.1 | err e ↦ (err e, r.1) ]) ≡ (ok b, s')
    → (a : A) × (s1 : Site) × (r ≡ (ok a, s1)) × (f a s1 ≡ (ok b, s'))
run_ok (ok a, s1) f b s' h = (a, s1, refl, h)
run_ok (err e, s1) f b s' h = ground arith

-- No request, or one that modifies the product.
abbrev pub Updates : (product : String) → List Request → Type 0
Updates product rest = (rest ≡ []) ⊎ ((u : ProductUpdate) × (rest ≡ product_modify product u ∷ []))

-- The product of the price that is created, and what came before the creation: where there was no price, one
-- request creates the product, whose id is the answer; where there was one, it is archived, and the product is
-- the one that it has, which may be modified.
abbrev pub Opened :
    Answers
    → Option StripePrice
    → Wanted
    → (product : String) (start before : List Request) → Type 0
Opened stripe none w product start before =
    let made = product_create w.product_name (non_empty w.product_description) w.product_metadata in
    (stripe start made ≡ ok product) × (before ≡ start ++ made ∷ [])
Opened stripe (some p) w product start before =
    (product ≡ id_of p.product)
    × ((answer : String) × (rest : List Request) × (stripe start (price_archive p.id) ≡ ok answer)
        × Updates product rest
        × (before ≡ start ++ price_archive p.id ∷ rest))

-- The price has the wanted amount, currency and interval.
abbrev pub Sells : StripePrice → Wanted → Type 0
Sells p w =
    (p.unit_amount ≡ some w.unit_amount) × (p.currency ≡ w.currency) × (p.interval ≡ w.interval)

path_of_same_text : (a b : Option String) → same_text a b ≡ true → a ≡ b
path_of_same_text none none h = refl
path_of_same_text none (some b) h = ground arith
path_of_same_text (some a) none h = ground arith
path_of_same_text (some a) (some b) h = ap some (path_of_str_eq a b h)

both_of_and : (a b : Bool) → (a && b) ≡ true → (a ≡ true) × (b ≡ true)
both_of_and true true h = (refl, refl)
both_of_and true false h = ground arith
both_of_and false b h = ground arith

Sells-of_price_matches : (p : StripePrice) (w : Wanted) → price_matches p w ≡ true → Sells p w
unfolding price_matches
Sells-of_price_matches p w h = elim (Option-cases p.unit_amount) [
  | inl missing ↦ ground arith
  | inr (n, there) ↦
      let (same, rest) =
        both_of_and (eq_ℤ n w.unit_amount)
          (str_eq p.currency w.currency && same_text p.interval w.interval)
          (rw (sym h, price_matches, there) refl) in
      let (paid, each) =
        both_of_and (str_eq p.currency w.currency) (same_text p.interval w.interval) rest in
      (
        there ∙ ap some (eq_of_eq_ℤ n w.unit_amount same),
        path_of_str_eq p.currency w.currency paid,
        path_of_same_text p.interval w.interval each,
      )
]

answered-site :
    (r : Result String) (s : Site)
    → (elim r as (λ x. Result (Unit {0}) × Site) [ ok a ↦ (ok tt, s) | err e ↦ (err e, s) ]).1 ≡ s
answered-site (ok a) s = refl
answered-site (err e) s = refl

sync_stripe_product-appends :
    (stripe : Answers) (ref : ProductRef) (w : Wanted) (s : Site)
    → (rest : List Request) × Updates (id_of ref) rest
      × ((sync_stripe_product stripe ref w s).1.requests ≡ s.requests ++ rest)
unfolding sync_stripe_product send
sync_stripe_product-appends stripe ref w s =
    elim (Bool-cases (is_empty_update (product_update ref w))) [
      | inl same ↦ ([], inl refl, rw (sync_stripe_product, same) (sym (append_nil s.requests)))
      | inr other ↦ (
        product_modify (id_of ref) (product_update ref w) ∷ [],
        inr (product_update ref w, refl),
        rw (sync_stripe_product, other)
            (ap (λ (x : Site). x.requests)
              (answered-site (stripe s.requests (product_modify (id_of ref) (product_update ref w)))
                (record s {
                  requests = s.requests ++ product_modify (id_of ref) (product_update ref w) ∷ [];
                }))),
      )
    ]

matching-id :
    (stripe : Answers) (p : StripePrice) (w : Wanted) (s s' : Site) (i : String)
    → (sync_stripe_product stripe p.product w >> (ensure_tax_behavior stripe p >> pure p.id)) s
      ≡ (ok i, s')
    → p.id ≡ i
matching-id stripe p w s s' i h =
    let (_, s1, synced, more) =
      run_ok (sync_stripe_product stripe p.product w s)
        (λ _. ensure_tax_behavior stripe p >> pure p.id) i s' h in
    let (_, s2, taxed, finished) =
      run_ok (ensure_tax_behavior stripe p s1) (λ _. pure p.id) i s' more in
    ground (arith, finished)

replaced_price :
    (stripe : Answers) (p : StripePrice) (w : Wanted) (s s' : Site) (i : String)
    → (send stripe (price_archive p.id)
          >> (sync_stripe_product stripe (bare (id_of p.product)) w
              >> create_price stripe (id_of p.product) w))
        s
      ≡ (ok i, s')
    → (before : List Request) × Opened stripe (some p) w (id_of p.product) s.requests before
      × (stripe before (creation (id_of p.product) w) ≡ ok i)
      × (s'.requests ≡ before ++ creation (id_of p.product) w ∷ [])
unfolding send
replaced_price stripe p w s s' i h =
    let product = id_of p.product in
    let (answer, s1, archived, more) =
      run_ok (send stripe (price_archive p.id) s)
        (λ _. sync_stripe_product stripe (bare product) w >> create_price stripe product w) i s'
        h in
    let (_, s2, synced, finished) =
      run_ok (sync_stripe_product stripe (bare product) w s1) (λ _. create_price stripe product w) i
        s' more in
    let (answered, sent) = create_price-sold stripe product w s2 s' i finished in
    let (rest, updates, appended) = sync_stripe_product-appends stripe (bare product) w s1 in
    let first : s1.requests ≡ s.requests ++ price_archive p.id ∷ [] =
      ap (λ r. r.1.requests) (sym archived) in
    let last : s2.requests ≡ s1.requests ++ rest = ap (λ r. r.1.requests) (sym synced) ∙ appended in
    let before : s2.requests ≡ s.requests ++ price_archive p.id ∷ rest =
      last ∙ (ap (λ l. l ++ rest) first ∙ append_assoc s.requests (price_archive p.id ∷ []) rest) in
    (s2.requests, (refl, (answer, rest, ap (λ r. r.0) archived, updates, before)), answered, sent)

-- A price that `_upsert_price` returns either was there and has the wanted amount, currency and interval, or it
-- was created by the last request, with the wanted amount, currency, interval, lookup key and metadata. Where there was
-- no price, its product is the one that the only request before created; where there was one, the first request archived it,
-- at most one more modified its product, and the new price has the same product.
pub upsert_price-sold :
    (stripe : Answers) (existing : Option StripePrice) (w : Wanted) (s s' : Site) (i : String)
    → upsert_price stripe existing w s ≡ (ok i, s')
    → ((p : StripePrice) × (existing ≡ some p) × Sells p w × (p.id ≡ i))
      ⊎ ((product : String) × (before : List Request) × Opened stripe existing w product s.requests
            before
          × (stripe before (creation product w) ≡ ok i)
          × (s'.requests ≡ before ++ creation product w ∷ []))
unfolding upsert_price
upsert_price-sold stripe none w s s' i h =
    let (product, s1, created, finished) =
      run_ok (create_product stripe w s) (λ product. create_price stripe product w) i s' h in
    let (answered, sent) = create_price-sold stripe product w s1 s' i finished in
    inr (
      product,
      s1.requests,
      (ap (λ r. r.0) created, ap (λ r. r.1.requests) (sym created)),
      answered,
      sent,
    )
upsert_price-sold stripe (some p) w s s' i h = elim (Bool-cases (price_matches p w)) [
  | inl matches ↦ inl (
    p,
    refl,
    Sells-of_price_matches p w matches,
    matching-id stripe p w s s' i (rw (sym h, upsert_price, matches) refl),
  )
  | inr differs ↦
      let (before, opened, answered, sent) =
        replaced_price stripe p w s s' i (rw (sym h, upsert_price, differs) refl) in
      inr (id_of p.product, before, opened, answered, sent)
]
