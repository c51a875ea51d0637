-- ===== src/Prices/Sync/Again.antt =====
-- A sync run again with the same rates, and what no sync changes.
use mathlib.Core.Path.{subst}
use mathlib.Core.Option
use saasmint.Base.{
  ℕ, ◌≡◌, refl, sym, ap, ◌∙◌, true, Option, none, some, List, [], ◌∷◌, String, All, count, keep,
  map, ℤ, eq_ℤ, eq_ℤ_refl, arith, inl, inr, Bool-cases, Option-cases,
}
use saasmint.Domain.{Time}
use saasmint.Database.Result.{ok, Result-cases}
use saasmint.Prices.Currency.{supported_currencies}
use saasmint.Prices.Catalog.{
  plan_price, product_price, PriceOwner, PriceKey, LocalizedPrice, CountryPrice, Catalog, localized,
  owner_amount,
}
use saasmint.Prices.Sync.{
  Env, Rate, Payload, api_rates, all_amounts, all_upserts, sources, is_changed, refresh_countries,
  sync_rates, sync_localized_prices,
}
use saasmint.Prices.Catalog.Keys.{same_key_refl}
use saasmint.Prices.Sync.Rows.{new_row, is_job, refreshed, upsert-some}
use saasmint.Prices.Sync.Amounts.{IsDistinct, wanted, all_amounts-All}
use saasmint.Prices.Sync.Countries.{refresh_countries-again, refresh_countries-keeps}
use saasmint.Prices.Sync.Refinement.{Synced, sync_rates-Synced, sync_rates-localized}

-- A job that asks for the amount of the row at its key counts as unchanged.
unchanged :
    (rows : List LocalizedPrice) (js : List (PriceKey × ℤ))
    → All
        (λ j.
          (r : LocalizedPrice) × (localized j.0 rows ≡ some r) × (eq_ℤ r.amount_minor j.1 ≡ true))
        js
    → count is_changed (all_upserts rows js) ≡ 0
unfolding all_upserts
unchanged rows [] h = refl
unchanged rows ((k, n) ∷ js) ((r, there, same), hs) =
    rw (upsert-some rows k n r there, same) (omega (arith, unchanged rows js hs))

diagonal :
    (P : PriceKey → PriceKey × ℤ → Type 0) (js : List (PriceKey × ℤ))
    → ((k : PriceKey) → All (P k) js)
    → All (λ j. P j.0 j) js
diagonal P [] h = tt
diagonal P (j ∷ js) h = ((h j.0).0, diagonal P js (λ k. (h k).1))

All-map :
    (P Q : PriceKey × ℤ → Type 0) (js : List (PriceKey × ℤ))
    → ((j : PriceKey × ℤ) → P j → Q j)
    → All P js
    → All Q js
All-map P Q [] f h = tt
All-map P Q (j ∷ js) f (h, hs) = (f j h, All-map P Q js f hs)

-- What was refreshed has the wanted amount.
refreshed-amount :
    (now : Time) (k : PriceKey) (n : ℤ) (row : Option LocalizedPrice)
    → (r : LocalizedPrice) × (refreshed now k (some n) row ≡ some r)
      × (eq_ℤ r.amount_minor n ≡ true)
refreshed-amount now k n none = (new_row now k n, refl, eq_ℤ_refl n)
refreshed-amount now k n (some r) = elim (Bool-cases (eq_ℤ r.amount_minor n)) [
  | inl same ↦ (record r { synced_at = now }, rw same refl, same)
  | inr moved ↦ (record r { amount_minor = n; synced_at = now }, rw moved refl, eq_ℤ_refl n)
]

-- The row but for its time.
abbrev pub timeless : LocalizedPrice → LocalizedPrice
timeless r = record r { synced_at = 0 }

refreshed-again :
    (now t : Time) (k : PriceKey) (n : Option ℤ) (row : Option LocalizedPrice)
    → Option.map timeless (refreshed t k n (refreshed now k n row))
      ≡ Option.map timeless (refreshed now k n row)
refreshed-again now t k none row = refl
refreshed-again now t k (some n) row =
    let (r, is_row, same) = refreshed-amount now k n row in rw (is_row, same) refl

module _ (e : Env) (rates : List (String × Rate)) (cs : List String) (c c' : Catalog) (n : ℕ)
    (t : Time) where
  none_changed :
      IsDistinct (sources c)
      → sync_rates e cs rates c ≡ (ok n, c')
      → count is_changed
          (all_upserts c'.localized_prices (all_amounts e.lower rates cs (sources c)))
        ≡ 0
  none_changed d h = unchanged c'.localized_prices (all_amounts e.lower rates cs (sources c)) (
      All-map (λ j. is_job j.0 j ≡ true → wanted e.lower rates cs j.0 (sources c) ≡ some j.1)
        (λ j.
          (r : LocalizedPrice) × (localized j.0 c'.localized_prices ≡ some r)
          × (eq_ℤ r.amount_minor j.1 ≡ true))
        (all_amounts e.lower rates cs (sources c))
        (λ j asks.
          let (r, is_row, same) =
            refreshed-amount e.now j.0 j.1 (localized j.0 c.localized_prices) in
          (
            r,
            sync_rates-localized e rates cs c c' n j.0 d h
                ∙ ap (λ x. refreshed e.now j.0 x (localized j.0 c.localized_prices))
                    (asks (same_key_refl j.0))
                ∙ is_row,
            same,
          ))
        (diagonal (λ k j. is_job k j ≡ true → wanted e.lower rates cs k (sources c) ≡ some j.1)
          (all_amounts e.lower rates cs (sources c))
          (λ k. all_amounts-All e.lower rates cs k (sources c) d)))

  same_owner_amount :
      (o : PriceOwner) → Synced e rates cs c c' n → owner_amount o c' ≡ owner_amount o c
  unfolding owner_amount
  same_owner_amount (plan_price i) s = ap (owner_amount (plan_price i)) s.after
  same_owner_amount (product_price i) s = ap (owner_amount (product_price i)) s.after

  same_sources : Synced e rates cs c c' n → sources c' ≡ sources c
  unfolding sources
  same_sources s = ap sources s.after

  sync_rates-again :
      IsDistinct (sources c)
      → sync_rates e cs rates c ≡ (ok n, c')
      → (c'' : Catalog) × (sync_rates (record e { now = t }) cs rates c' ≡ (ok 0, c''))
        × (c''.country_prices ≡ c'.country_prices)
  unfolding sync_rates
  sync_rates-again d h =
      let s = sync_rates-Synced e rates cs c c' n h in
      let left : c'.country_prices ≡ s.countries = ap (λ (x : Catalog). x.country_prices) s.after in
      let again =
        refresh_countries-again e t rates c c' c.country_prices s.countries s.moved
          (λ o. same_owner_amount o s) s.went in
      let settled : refresh_countries (record e { now = t }) rates c' c'.country_prices
          ≡ ok (s.countries, 0) =
        ap (refresh_countries (record e { now = t }) rates c') left ∙ again in
      let none_ =
        ap
          (λ ps.
            count is_changed (all_upserts c'.localized_prices (all_amounts e.lower rates cs ps)))
          (same_sources s)
        ∙ none_changed d h in
      (
        (sync_rates (record e { now = t }) cs rates c').1,
        rw (sync_rates, settled, none_) refl,
        rw (sync_rates, settled) (sym left),
      )

  sync_rates-timeless :
      (c'' : Catalog) (k : PriceKey)
      → IsDistinct (sources c)
      → sync_rates e cs rates c ≡ (ok n, c')
      → sync_rates (record e { now = t }) cs rates c' ≡ (ok 0, c'')
      → Option.map timeless (localized k c''.localized_prices)
        ≡ Option.map timeless (localized k c'.localized_prices)
  sync_rates-timeless c'' k d h h' =
      let s = sync_rates-Synced e rates cs c c' n h in
      let same = same_sources s in
      let first = sync_rates-localized e rates cs c c' n k d h in
      let second =
        sync_rates-localized (record e { now = t }) rates cs c' c'' 0 k
          (subst IsDistinct (sym same) d) h' in
      ap (Option.map timeless) (
        second
        ∙ ap (λ ps. refreshed t k (wanted e.lower rates cs k ps) (localized k c'.localized_prices))
            same
        ∙ ap (refreshed t k (wanted e.lower rates cs k (sources c))) first)
      ∙ refreshed-again e.now t k (wanted e.lower rates cs k (sources c))
          (localized k c.localized_prices)
      ∙ ap (Option.map timeless) (sym first)

-- Where the primary keys of the prices are distinct, a second sync with the rates of the first, at any later or
-- earlier time, succeeds and counts no change: the rows of the countries stay as they are, and at each key the
-- row of the localized price stays but for its time.
pub sync_localized_prices-again :
    (e : Env) (payload : Option Payload) (rates : List (String × Rate)) (c c' : Catalog) (n : ℕ)
    (t : Time) (k : PriceKey)
    → IsDistinct (sources c)
    → api_rates e.lower payload ≡ some rates
    → sync_localized_prices e payload c ≡ (ok n, c')
    → (c'' : Catalog) × (sync_localized_prices (record e { now = t }) payload c' ≡ (ok 0, c''))
      × (c''.country_prices ≡ c'.country_prices)
      × (Option.map timeless (localized k c''.localized_prices)
          ≡ Option.map timeless (localized k c'.localized_prices))
unfolding sync_localized_prices
sync_localized_prices-again e payload rates c c' n t k d feed h =
    let h_ = rw (sync_localized_prices, feed) at h in
    let (c'', again, same) = sync_rates-again e rates supported_currencies c c' n t d h_ in
    (
      c'',
      rw (sync_localized_prices, feed) again,
      same,
      sync_rates-timeless e rates supported_currencies c c' n t c'' k d h_ again,
    )

sync_rates-keeps :
    (e : Env) (rates : List (String × Rate)) (cs : List String) (c : Catalog)
    → let c' = (sync_rates e cs rates c).1 in
      (keep (λ (r : CountryPrice). r.is_curated) c'.country_prices
        ≡ keep (λ (r : CountryPrice). r.is_curated) c.country_prices)
      × (map (λ (r : CountryPrice). r.stripe_price_id) c'.country_prices
          ≡ map (λ (r : CountryPrice). r.stripe_price_id) c.country_prices)
unfolding sync_rates
sync_rates-keeps e rates cs c = elim (Result-cases (refresh_countries e rates c c.country_prices)) [
  | inr (x, failed) ↦ rw (sync_rates, failed) (refl, refl)
  | inl ((countries, m), went) ↦
      rw (sync_rates, went)
        (refresh_countries-keeps e e.now rates c c c.country_prices countries m (λ o. refl) went)
]

-- Whatever the feed answers, and also where the sync raises, the curated rows of the countries stay as they are
-- and where they are among each other, and no country's row changes its Stripe price.
pub sync_localized_prices-keeps :
    (e : Env) (payload : Option Payload) (c : Catalog)
    → let c' = (sync_localized_prices e payload c).1 in
      (keep (λ (r : CountryPrice). r.is_curated) c'.country_prices
        ≡ keep (λ (r : CountryPrice). r.is_curated) c.country_prices)
      × (map (λ (r : CountryPrice). r.stripe_price_id) c'.country_prices
          ≡ map (λ (r : CountryPrice). r.stripe_price_id) c.country_prices)
unfolding sync_localized_prices
sync_localized_prices-keeps e payload c = elim (Option-cases (api_rates e.lower payload)) [
  | inl unusable ↦ rw (sync_localized_prices, unusable) (refl, refl)
  | inr (rates, usable) ↦
      rw (sync_localized_prices, usable) (sync_rates-keeps e rates supported_currencies c)
]
