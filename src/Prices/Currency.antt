-- ===== src/Prices/Currency.antt =====
-- core/core/saasmint_core/services/currency.py and `_to_minor_units` of core/apps/billing/tasks.py. An amount
-- on display is a fraction `n / d`, exact where Python has a double; one that was rounded is in hundredths.
pub mod Nearest
use text.Mathlib.Text.{◌==◌ as str_eq}
use saasmint.Base.{
  ℕ, ◌+◌, ◌-◌, ◌*◌, ◌/◌, ◌%◌, Bool, List, [], ◌∷◌, String, ◌==◌, ltb, leb, if◌then◌else◌, any, ℤ,
  pos, negsuc, sub_ℕ, dist,
}

-- The elements of `SUPPORTED_CURRENCIES`, a set: their order here is that of the source text.
abbrev pub supported_currencies : List String
supported_currencies =
    "usd" ∷ "eur" ∷ "gbp" ∷ "jpy" ∷ "brl" ∷ "krw" ∷ "sek" ∷ "nok" ∷ "dkk" ∷ "pln" ∷ "try" ∷ "idr"
    ∷ "rub" ∷ "cny" ∷ "twd" ∷ "sar" ∷ "aed" ∷ "chf" ∷ "cad" ∷ "aud" ∷ []

abbrev pub zero_decimal_currencies : List String
zero_decimal_currencies = "jpy" ∷ "krw" ∷ "idr" ∷ "twd" ∷ []

-- `currency.lower() in ZERO_DECIMAL_CURRENCIES`; `lower` is Python's.
unfoldable pub is_zero_decimal : (lower : String → String) → String → Bool
is_zero_decimal lower currency = any (λ s. str_eq s (lower currency)) zero_decimal_currencies

-- A fraction of display units.
pub record Amount : Type 0 where
  pub n : ℕ
  pub d : ℕ

unfoldable pub format_amount : (lower : String → String) (amount : ℕ) (currency : String) → Amount
unfolding is_zero_decimal
format_amount lower amount currency =
    if is_zero_decimal lower currency
    then record { n = amount; d = 1 }
    else record { n = amount; d = 100 }

-- Python's `round` of `n / d`: to the nearest, and of two to the even one.
unfoldable pub round_half_even : (n d : ℕ) → ℕ
round_half_even n d =
    let q = n / d in
    let twice = 2 * (n % d) in if ltb twice d then q else if ltb d twice then q + 1 else q + q % 2

-- The distance of an anchor, in hundredths, from the amount, counted in units of 1 / (100 * d).
abbrev pub distance : Amount → ℤ → ℕ
distance a (pos h) = dist (h * a.d) (100 * a.n)
distance a (negsuc h) = (h + 1) * a.d + 100 * a.n

-- `min(options, key=...)`: the first of the nearest.
abbrev pub nearest : Amount → ℤ → List ℤ → ℤ
nearest a best [] = best
nearest a best (o ∷ r) = nearest a (if ltb (distance a o) (distance a best) then o else best) r

-- `round_friendly`, in hundredths of a display unit.
unfoldable pub round_friendly : (lower : String → String) → Amount → (currency : String) → ℤ
unfolding is_zero_decimal round_half_even
round_friendly lower a currency =
    let whole = a.n / a.d in
    let step = if leb (1000 * a.d) a.n then 100 else 10 in
    if a.n == 0
    then pos 0
    else if is_zero_decimal lower currency
    then pos (100 * (round_half_even a.n (a.d * step) * step))
    else nearest a (sub_ℕ (100 * whole) 1)
        (pos (100 * whole + 49) ∷ pos (100 * whole + 99) ∷ pos (100 * whole + 149) ∷ [])

-- `_to_minor_units` of an amount in hundredths: half a unit is rounded away from zero.
unfoldable pub to_minor_units : (lower : String → String) → ℤ → (currency : String) → ℤ
unfolding is_zero_decimal
to_minor_units lower (pos h) currency =
    if is_zero_decimal lower currency then pos ((h + 50) / 100) else pos h
to_minor_units lower (negsuc h) currency =
    if is_zero_decimal lower currency then sub_ℕ 0 ((h + 51) / 100) else negsuc h
