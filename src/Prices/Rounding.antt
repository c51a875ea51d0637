-- ===== src/Prices/Rounding.antt =====
-- The rounding of core/apps/billing/vat.py.
use saasmint.Base.{ℕ, ◌+◌, ◌*◌, ◌≤◌, ◌<◌, ◌≡◌, inl, inr, Bool-cases, ◌==◌, arith, eq_of_==}
use native.Mathlib.Nat.{div-add-mod', mod-lt}
use saasmint.Prices.{derive_base}

-- The tax put back on the base misses the sticker by at most half a minor unit of base: in thousandths,
-- the base with tax is within half of `1000 + vat_rate` of the sticker.
pub derive_base-sticker :
    (sticker_minor vat_rate : ℕ)
    → (derive_base sticker_minor vat_rate * (2 * (1000 + vat_rate))
        ≤ 2000 * sticker_minor + (1000 + vat_rate))
      × (2000 * sticker_minor
          < derive_base sticker_minor vat_rate * (2 * (1000 + vat_rate)) + (1000 + vat_rate))
unfolding derive_base
derive_base-sticker s r = elim (Bool-cases (r == 0)) [
  | inl free ↦ let none_ : r ≡ 0 = eq_of_== r 0 free in rw (free, none_) (omega arith, omega arith)
  | inr taxed ↦
      let split = div-add-mod' (2000 * s + (1000 + r)) (2 * (1000 + r)) in
      let small = mod-lt (2000 * s + (1000 + r)) {m = 2 * (1000 + r)} (omega arith) in
      rw taxed (omega arith, omega arith)
]
