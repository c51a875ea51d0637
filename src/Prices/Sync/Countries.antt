-- ===== src/Prices/Sync/Countries.antt =====
-- The loop of the sync over the rows of the countries.

use saasmint.Base.{
  ℕ, ◌≡◌, refl, Bool, false, not, ◌||◌, List, [], ◌∷◌, String, keep, map, pos, eq_ℤ, eq_ℤ_refl,
  arith, inl, inr, Bool-cases, Option-cases,
}
use saasmint.Domain.{Time}
use saasmint.Database.Result.{ok, Result-cases}
use saasmint.Prices.{derive_base_of, standard_vat_rate}
use saasmint.Prices.Catalog.{PriceOwner, CountryPrice, Catalog, owner_amount}
use saasmint.Prices.Sync.{Env, Rate, suggested_sticker, refresh_country, refresh_countries}

-- One round over the countries, for the amount of the owner, and again on what it left.
module _ (e : Env) (t : Time) (rates : List (String × Rate)) (c c' : Catalog) where
  refresh_country-again :
      (cp cp' : CountryPrice) (changed : Bool)
      → owner_amount cp.owner c' ≡ owner_amount cp.owner c
      → refresh_country e rates c cp ≡ ok (cp', changed)
      → (refresh_country (record e { now = t }) rates c' cp' ≡ ok (cp', false))
        × (cp'.is_curated ≡ cp.is_curated)
        × (cp'.stripe_price_id ≡ cp.stripe_price_id)
  unfolding refresh_country
  refresh_country-again cp cp' changed same h = elim (Option-cases (owner_amount cp.owner c)) [
    | inl unowned ↦ ground arith
    | inr (amount, owned) ↦
        elim (Option-cases (suggested_sticker e.lower rates amount cp.currency)) [
          | inl unrated ↦
              let kept : cp ≡ cp' = ground arith in rw (← kept) (ground arith, refl, refl)
          | inr (s, rated) ↦
              elim (Result-cases (derive_base_of s (standard_vat_rate e.upper cp.country))) [
                | inr (x, negative) ↦ ground arith
                | inl (b, derived) ↦
                    elim (Bool-cases
                      (not (eq_ℤ cp.sticker_minor s) || not (eq_ℤ cp.base_minor (pos b)))) [
                        | inr settled ↦
                            let kept : cp ≡ cp' = ground arith in
                            rw (← kept) (ground arith, refl, refl)
                        | inl moved ↦
                            let after : CountryPrice = record cp {
                              sticker_minor = s;
                              base_minor = pos b;
                              updated_at = e.now;
                            } in
                            let kept : after ≡ cp' = ground arith in
                            rw (← kept) (ground (arith, eq_ℤ_refl s, eq_ℤ_refl (pos b)), refl, refl)
                      ]
              ]
        ]
  ]

  -- The whole loop, run again on what it left, changes no row.
  pub refresh_countries-again :
      (rows rows' : List CountryPrice) (n : ℕ)
      → ((o : PriceOwner) → owner_amount o c' ≡ owner_amount o c)
      → refresh_countries e rates c rows ≡ ok (rows', n)
      → refresh_countries (record e { now = t }) rates c' rows' ≡ ok (rows', 0)
  unfolding refresh_countries
  refresh_countries-again [] rows' n same h =
      let none_ : [] ≡ rows' = ground arith in rw (← none_) refl
  refresh_countries-again (cp ∷ r) rows' n same h =
      elim (Result-cases (refresh_countries e rates c r)) [
        | inr (x, failed) ↦ ground arith
        | inl ((rest, m), went) ↦
            let ih = refresh_countries-again r rest m same went in
            elim (Bool-cases cp.is_curated) [
              | inl curated ↦
                  let kept : (cp ∷ rest) ≡ rows' = ground arith in rw (← kept) (ground arith)
              | inr free ↦ elim (Result-cases (refresh_country e rates c cp)) [
                | inr (x, failed) ↦ ground arith
                | inl ((cp', changed), done) ↦
                    let (again, still, _) =
                      refresh_country-again cp cp' changed (same cp.owner) done in
                    let kept : (cp' ∷ rest) ≡ rows' = ground arith in rw (← kept) (ground arith)
              ]
            ]
      ]

  -- It leaves the curated rows and the Stripe ids.
  pub refresh_countries-keeps :
      (rows rows' : List CountryPrice) (n : ℕ)
      → ((o : PriceOwner) → owner_amount o c' ≡ owner_amount o c)
      → refresh_countries e rates c rows ≡ ok (rows', n)
      → (keep (λ (r : CountryPrice). r.is_curated) rows'
          ≡ keep (λ (r : CountryPrice). r.is_curated) rows)
        × (map (λ (r : CountryPrice). r.stripe_price_id) rows'
            ≡ map (λ (r : CountryPrice). r.stripe_price_id) rows)
  unfolding refresh_countries
  refresh_countries-keeps [] rows' n same h =
      let none_ : [] ≡ rows' = ground arith in rw (← none_) (refl, refl)
  refresh_countries-keeps (cp ∷ r) rows' n same h =
      elim (Result-cases (refresh_countries e rates c r)) [
        | inr (x, failed) ↦ ground arith
        | inl ((rest, m), went) ↦
            let (curated_same, ids_same) = refresh_countries-keeps r rest m same went in
            elim (Bool-cases cp.is_curated) [
              | inl curated ↦
                  let kept : (cp ∷ rest) ≡ rows' = ground arith in rw (← kept) (ground arith)
              | inr free ↦ elim (Result-cases (refresh_country e rates c cp)) [
                | inr (x, failed) ↦ ground arith
                | inl ((cp', changed), done) ↦
                    let (_, still, id) =
                      refresh_country-again cp cp' changed (same cp.owner) done in
                    let kept : (cp' ∷ rest) ≡ rows' = ground arith in rw (← kept) (ground arith)
              ]
            ]
      ]
