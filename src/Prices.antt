-- ===== src/Prices.antt =====
-- The tax-exclusive base of a price: core/apps/billing/vat.py. A rate is in thousandths, as every rate of
-- the table is, and an amount is small enough for the division at 28 digits to round as the exact one.
pub mod Minting
pub mod Currency
pub mod Catalog
pub mod Sync
pub mod Rounding
pub mod Examples
use text.Mathlib.Text.{◌==◌ as str_eq}
use saasmint.Base.{
  ℕ, ◌+◌, ◌*◌, ◌/◌, ◌==◌, if◌then◌else◌, String, List, [], ◌∷◌, find, none, some, ℤ, pos, negsuc,
}
use saasmint.Database.Result.{Result, ok, err, Error}

-- `derive_base` of an amount and a rate that are not negative.
unfoldable pub derive_base : (sticker_minor vat_rate : ℕ) → ℕ
derive_base sticker_minor vat_rate =
    if vat_rate == 0
    then sticker_minor
    else (2000 * sticker_minor + (1000 + vat_rate)) / (2 * (1000 + vat_rate))

-- `derive_base` as it stands, whose rate is not negative: a negative sticker raises.
unfoldable pub derive_base_of : ℤ → (vat_rate : ℕ) → Result ℕ
unfolding derive_base
derive_base_of (pos sticker_minor) vat_rate = ok (derive_base sticker_minor vat_rate)
derive_base_of (negsuc n) vat_rate = err Error.value_error

abbrev pub standard_vat_rates : List (String × ℕ)
standard_vat_rates =
    ("AT", 200)
    ∷ ("BE", 210)
    ∷ ("BG", 200)
    ∷ ("HR", 250)
    ∷ ("CY", 190)
    ∷ ("CZ", 210)
    ∷ ("DK", 250)
    ∷ ("EE", 220)
    ∷ ("FI", 255)
    ∷ ("FR", 200)
    ∷ ("DE", 190)
    ∷ ("GR", 240)
    ∷ ("HU", 270)
    ∷ ("IE", 230)
    ∷ ("IT", 220)
    ∷ ("LV", 210)
    ∷ ("LT", 210)
    ∷ ("LU", 170)
    ∷ ("MT", 180)
    ∷ ("NL", 210)
    ∷ ("PL", 230)
    ∷ ("PT", 230)
    ∷ ("RO", 190)
    ∷ ("SK", 230)
    ∷ ("SI", 220)
    ∷ ("ES", 210)
    ∷ ("SE", 250)
    ∷ ("GB", 200)
    ∷ ("US", 0)
    ∷ ("CN", 0)
    ∷ []

-- `upper` is Python's `str.upper`.
unfoldable pub standard_vat_rate : (upper : String → String) → (country : String) → ℕ
standard_vat_rate upper country =
    elim (find (λ (row : String × ℕ). str_eq row.0 (upper country)) standard_vat_rates) [
      | none ↦ 0
      | some row ↦ row.1
    ]
