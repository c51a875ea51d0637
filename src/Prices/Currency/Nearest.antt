-- ===== src/Prices/Currency/Nearest.antt =====
-- `round_friendly` picks the nearest of all charm prices.
use mathlib.Core.Path.{subst}
use saasmint.Base.{
  ℕ, suc, ◌+◌, ◌-◌, ◌*◌, ◌/◌, ◌≤◌, ◌<◌, zero, ◌≡◌, All, refl, ap, ◌∙◌, true, false, List, [], ◌∷◌,
  String, ◌==◌, ltb, negsuc, if◌then◌else◌, ℤ, pos, sub_ℕ, dist, arith, inl, inr, ◌⊎◌, Bool-cases,
}
use native.Mathlib.Nat.{div-add-mod', mod-lt, mul-le-mul_right}
use saasmint.Prices.Currency.{Amount, is_zero_decimal, distance, nearest, round_friendly}

-- The charm prices in hundredths: 49, 99, 149, and so on.
abbrev pub charm : ℕ → ℤ
charm k = pos (50 * k + 49)

-- The points that are tried: the charm prices, and -1 in front of them.
abbrev anchor : ℕ → ℤ
anchor k = sub_ℕ (50 * k) 1

pred_mul : (m d : ℕ) → 0 < m → (m - 1) * d + d ≡ m * d
pred_mul zero d h = absurd (omega arith)
pred_mul (suc m) d h = ground arith

-- The distance of a anchor is that of its successor from the amount and a hundredth.
distance-anchor :
    (a : Amount) (k : ℕ) → distance a (anchor k) ≡ dist (50 * k * a.d) (100 * a.n + a.d)
distance-anchor a zero = ground arith
distance-anchor a (suc j) = let one_less = pred_mul (50 * suc j) a.d (omega arith) in ground arith

nearest-le-best :
    (a : Amount) (best : ℤ) (os : List ℤ) → distance a (nearest a best os) ≤ distance a best
nearest-le-best a best [] = omega arith
nearest-le-best a best (o ∷ r) = elim (Bool-cases (ltb (distance a o) (distance a best))) [
  | inl closer ↦ rw closer (let rest = nearest-le-best a o r in ground arith)
  | inr farther ↦ rw farther (nearest-le-best a best r)
]

nearest-le-option :
    (a : Amount) (best o : ℤ) (r : List ℤ) → distance a (nearest a best (o ∷ r)) ≤ distance a o
nearest-le-option a best o r = elim (Bool-cases (ltb (distance a o) (distance a best))) [
  | inl closer ↦ rw closer (nearest-le-best a o r)
  | inr farther ↦ rw farther (let rest = nearest-le-best a best r in ground arith)
]

-- It is at least as near as each of the options.
nearest-le :
    (a : Amount) (best : ℤ) (os : List ℤ)
    → All (λ o. distance a (nearest a best os) ≤ distance a o) os
nearest-le a best [] = tt
nearest-le a best (o ∷ r) = (
  nearest-le-option a best o r,
  nearest-le a (if ltb (distance a o) (distance a best) then o else best) r,
)

position : (k m : ℕ) → (k ≤ m) ⊎ ((k ≡ m + 1) ⊎ ((k ≡ m + 2) ⊎ (m + 3 ≤ k)))
position k m = omega arith

-- The successor of one of the four anchors, `50 * (2 * w)` to `50 * (2 * w + 3)`, is as near as any other.
four-nearest :
    (n d w k y : ℕ)
    → w * d ≤ n
    → n < w * d + d
    → y ≤ dist (50 * (2 * w) * d) (100 * n + d)
    → y ≤ dist (50 * (2 * w + 1) * d) (100 * n + d)
    → y ≤ dist (50 * (2 * w + 2) * d) (100 * n + d)
    → y ≤ dist (50 * (2 * w + 3) * d) (100 * n + d)
    → y ≤ dist (50 * k * d) (100 * n + d)
four-nearest n d w k y low high p q r s = elim (position k (2 * w)) [
  | inl below ↦ let less = mul-le-mul_right d below in ground arith
  | inr (inl second) ↦ rw second q
  | inr (inr (inl third)) ↦ rw third r
  | inr (inr (inr above)) ↦ let more = mul-le-mul_right d above in ground arith
]

nearest-holds :
    (P : ℤ → Type 0) (a : Amount) (best : ℤ) (os : List ℤ)
    → P best
    → All P os
    → P (nearest a best os)
nearest-holds P a best [] p ps = p
nearest-holds P a best (o ∷ r) p (q, ps) =
    nearest-holds P a (if ltb (distance a o) (distance a best) then o else best) r
      (elim (ltb (distance a o) (distance a best)) as (λ b. P (if b then o else best)) [
        | true ↦ q
        | false ↦ p
      ])
      ps

IsAnchor : ℤ → Type 0
IsAnchor z = (j : ℕ) × (z ≡ anchor j)

-- The options of `round_friendly` for the whole part `w`.
abbrev options : Amount → ℕ → ℤ
options a w =
    nearest a (sub_ℕ (100 * w) 1)
      (pos (100 * w + 49) ∷ pos (100 * w + 99) ∷ pos (100 * w + 149) ∷ [])

anchor-whole : (w : ℕ) → sub_ℕ (100 * w) 1 ≡ anchor (2 * w)
anchor-whole w = ground arith

anchor-49 : (w : ℕ) → pos (100 * w + 49) ≡ anchor (2 * w + 1)
anchor-49 w = ground arith

anchor-99 : (w : ℕ) → pos (100 * w + 99) ≡ anchor (2 * w + 2)
anchor-99 w = ground arith

anchor-149 : (w : ℕ) → pos (100 * w + 149) ≡ anchor (2 * w + 3)
anchor-149 w = ground arith

options-IsAnchor : (a : Amount) (w : ℕ) → IsAnchor (options a w)
unfolding IsAnchor
options-IsAnchor a w =
    nearest-holds IsAnchor a (sub_ℕ (100 * w) 1)
      (pos (100 * w + 49) ∷ pos (100 * w + 99) ∷ pos (100 * w + 149) ∷ []) (2 * w, anchor-whole w)
      ((2 * w + 1, anchor-49 w), ((2 * w + 2, anchor-99 w), ((2 * w + 3, anchor-149 w), tt)))

le-anchor :
    (a : Amount) {y : ℕ} {z : ℤ} (m : ℕ)
    → z ≡ anchor m
    → y ≤ distance a z
    → y ≤ dist (50 * m * a.d) (100 * a.n + a.d)
le-anchor a {y} m same h = subst (λ x. y ≤ x) (ap (distance a) same ∙ distance-anchor a m) h

options-le :
    (a : Amount) (w k : ℕ)
    → w * a.d ≤ a.n
    → a.n < w * a.d + a.d
    → distance a (options a w) ≤ distance a (anchor k)
options-le a w k low high =
    let first =
      nearest-le-best a (sub_ℕ (100 * w) 1)
        (pos (100 * w + 49) ∷ pos (100 * w + 99) ∷ pos (100 * w + 149) ∷ []) in
    let (second, (third, (fourth, _))) =
      nearest-le a (sub_ℕ (100 * w) 1)
        (pos (100 * w + 49) ∷ pos (100 * w + 99) ∷ pos (100 * w + 149) ∷ []) in
    rw (distance-anchor a k) (
      four-nearest a.n a.d w k (distance a (options a w)) low high
        (le-anchor a (2 * w) (anchor-whole w) first) (le-anchor a (2 * w + 1) (anchor-49 w) second)
        (le-anchor a (2 * w + 2) (anchor-99 w) third)
        (le-anchor a (2 * w + 3) (anchor-149 w) fourth))

round_friendly-options :
    (lower : String → String) (a : Amount) (currency : String)
    → 0 < a.n
    → is_zero_decimal lower currency ≡ false
    → round_friendly lower a currency ≡ options a (a.n / a.d)
unfolding round_friendly
round_friendly-options lower a currency positive decimals =
    let some_ : (a.n == 0) ≡ false = ground arith in rw (round_friendly, some_, decimals) refl

round_friendly-IsAnchor :
    (lower : String → String) (a : Amount) (currency : String)
    → 0 < a.n
    → is_zero_decimal lower currency ≡ false
    → IsAnchor (round_friendly lower a currency)
unfolding IsAnchor
round_friendly-IsAnchor lower a currency positive decimals =
    rw (round_friendly-options lower a currency positive decimals) (options-IsAnchor a (a.n / a.d))

round_friendly-le_anchor :
    (lower : String → String) (a : Amount) (currency : String) (k : ℕ)
    → 0 < a.d
    → 0 < a.n
    → is_zero_decimal lower currency ≡ false
    → distance a (round_friendly lower a currency) ≤ distance a (anchor k)
round_friendly-le_anchor lower a currency k proper positive decimals =
    let split = div-add-mod' a.n a.d in
    let small = mod-lt a.n {m = a.d} proper in
    rw (round_friendly-options lower a currency positive decimals)
      (options-le a (a.n / a.d) k (omega arith) (omega arith))

anchor-suc : (k : ℕ) → anchor (suc k) ≡ charm k
anchor-suc k = ground arith

-- An anchor that is as near as 0.49 to an amount above 0.24 is a charm price.
IsCharm-of_near :
    (a : Amount) (z : ℤ)
    → 0 < a.d
    → 24 * a.d < 100 * a.n
    → IsAnchor z
    → distance a z ≤ distance a (charm 0)
    → (j : ℕ) × (z ≡ charm j)
unfolding IsAnchor
IsCharm-of_near a z proper above (zero, same) near =
    let first : distance a (negsuc 0) ≤ distance a (charm 0) =
      subst (λ x. distance a x ≤ distance a (charm 0)) same near in
    absurd (ground arith)
IsCharm-of_near a z proper above (suc j, same) near = (j, same ∙ anchor-suc j)

farther :
    (a : Amount) (m : ℕ)
    → 100 * a.n ≤ 24 * a.d
    → 49 * a.d ≤ m
    → ltb (dist m (100 * a.n)) (1 * a.d + 100 * a.n) ≡ false
farther a m below h = ground arith

whole-below : (a : Amount) → 0 < a.d → 100 * a.n ≤ 24 * a.d → a.n / a.d ≡ 0
whole-below a proper below = elim (Bool-cases (a.n / a.d == 0)) [
  | inl none_whole ↦ ground arith
  | inr more ↦
      let split = div-add-mod' a.n a.d in
      let some_whole : 1 ≤ a.n / a.d = ground arith in
      let one = mul-le-mul_right a.d some_whole in absurd (ground arith)
]

-- Up to 0.24, the first of the options stays.
options-below : (a : Amount) → 100 * a.n ≤ 24 * a.d → options a 0 ≡ negsuc 0
options-below a below =
    rw
      (
        farther a (49 * a.d) below (omega arith),
        farther a (99 * a.d) below (omega arith),
        farther a (149 * a.d) below (omega arith),
      )
      refl

-- An amount in a currency with decimals, if it is above 0.24, is rounded to a charm price, that is, to one that
-- ends in .49 or .99, and no charm price is nearer. One that is above zero and not above 0.24 is rounded to -0.01,
-- which is no charm price.
pub round_friendly-nearest :
    (lower : String → String) (a : Amount) (currency : String) (k : ℕ)
    → 0 < a.d
    → 0 < a.n
    → is_zero_decimal lower currency ≡ false
    → ((24 * a.d < 100 * a.n)
        × ((j : ℕ) × (round_friendly lower a currency ≡ charm j))
        × (distance a (round_friendly lower a currency) ≤ distance a (charm k)))
      ⊎ ((100 * a.n ≤ 24 * a.d) × (round_friendly lower a currency ≡ negsuc 0))
round_friendly-nearest lower a currency k proper positive decimals =
    elim (Bool-cases (ltb (24 * a.d) (100 * a.n))) [
      | inl above ↦
          let near = λ (i : ℕ).
            subst (λ z. distance a (round_friendly lower a currency) ≤ distance a z) (anchor-suc i)
              (round_friendly-le_anchor lower a currency (suc i) proper positive decimals) in
          inl (
            ground arith,
            IsCharm-of_near a (round_friendly lower a currency) proper (ground arith)
                (round_friendly-IsAnchor lower a currency positive decimals) (near 0),
            near k,
          )
      | inr below ↦ inr (
        ground arith,
        round_friendly-options lower a currency positive decimals
            ∙ (ap (options a) (whole-below a proper (ground arith))
                ∙ options-below a (ground arith)),
      )
    ]
