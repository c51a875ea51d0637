-- ===== src/Prices/Sync/Amounts.antt =====
-- The amounts that the sync computes are those of one function of the key.
use mathlib.Core.Path.{subst}
use text.Mathlib.Text.{◌==◌ as str_eq}
use saasmint.Base.{
  ℕ, ◌≡◌, refl, sym, ap, ◌∙◌, Bool, true, false, not, ◌&&◌, Option, none, some, List, [], ◌∷◌, ◌++◌,
  map, String, if◌then◌else◌, is_some, any, All, ℤ, arith, inl, inr, Bool-cases, Option-cases,
  any-append, path_of_str_eq,
}
use saasmint.Prices.Catalog.{PriceOwner, same_owner, PriceKey}
use saasmint.Prices.Sync.{Rate, get_rate, convert, compute_new_amounts, all_amounts}
use saasmint.Prices.Catalog.Keys.{path_of_same_owner}
use saasmint.Prices.Sync.Rows.{is_job}

-- The amount of a price in a currency of the feed.
abbrev pub amount_in : (lower : String → String) → List (String × Rate) → ℕ → String → Option ℤ
amount_in lower rates amount c = elim (get_rate c rates) [
  | none ↦ none
  | some rate ↦ some (convert lower amount rate c)
]

-- Whether the sync prices in a currency of a list.
abbrev pub is_priced_in : List String → String → Bool
is_priced_in cs c = any (str_eq c) cs && not (str_eq c "usd")

-- What the sync wants at a currency of a price with this amount.
abbrev pub wanted_in :
    (lower : String → String) → List (String × Rate) → List String → String → Option ℕ → Option ℤ
wanted_in lower rates cs c none = none
wanted_in lower rates cs c (some amount) =
    if is_priced_in cs c then amount_in lower rates amount c else none

-- The entries of a list of new amounts at a currency.
abbrev is_at : String → String × ℤ → Bool
is_at x a = str_eq x a.0

module _ (lower : String → String) (rates : List (String × Rate)) (x : String) where
  new_amounts-any :
      (amount : ℕ) (cs : List String)
      → any (is_at x) (compute_new_amounts lower rates amount cs)
        ≡ (is_priced_in cs x && is_some (amount_in lower rates amount x))
  unfolding compute_new_amounts
  new_amounts-any amount [] = refl
  new_amounts-any amount (c ∷ cs) =
      let ih = new_amounts-any amount cs in
      let rate = λ (h : str_eq x c ≡ true). ap (λ z. get_rate z rates) (path_of_str_eq x c h) in
      let usd = λ (h : str_eq x c ≡ true). ap (λ z. str_eq z "usd") (path_of_str_eq x c h) in
      elim (Bool-cases (str_eq x c)) [
        | inl here ↦ ground (arith, rate here, usd here)
        | inr other ↦ ground arith
      ]

  -- Their amount is that of the currency.
  new_amounts-All :
      (amount : ℕ) (cs : List String)
      → All
          (λ a. is_at x a ≡ true → amount_in lower rates amount x ≡ some a.1)
          (compute_new_amounts lower rates amount cs)
  unfolding compute_new_amounts
  new_amounts-All amount [] = tt
  new_amounts-All amount (c ∷ cs) =
      let ih = new_amounts-All amount cs in
      elim (Bool-cases (str_eq c "usd")) [
        | inl usd ↦ rw usd ih
        | inr other ↦ elim (Option-cases (get_rate c rates)) [
          | inl missing ↦ rw (other, missing) ih
          | inr (rate, there) ↦
              rw (other, there)
                (
                  λ here.
                      ap (amount_in lower rates amount) (path_of_str_eq x c here)
                      ∙ rw (amount_in, there) refl,
                  ih,
                )
        ]
      ]

-- The jobs of one price.
abbrev jobs_of : PriceOwner → List (String × ℤ) → List (PriceKey × ℤ)
jobs_of owner = map (λ (a : String × ℤ). (record { owner = owner; currency = a.0 }, a.1))

module _ (k : PriceKey) where
  any-jobs_of :
      (owner : PriceOwner) (xs : List (String × ℤ))
      → any (is_job k) (jobs_of owner xs) ≡ (same_owner k.owner owner && any (is_at k.currency) xs)
  any-jobs_of owner [] = ground arith
  any-jobs_of owner (a ∷ xs) = ground (arith, any-jobs_of owner xs)

  All-jobs_of :
      (t : Option ℤ) (owner : PriceOwner) (xs : List (String × ℤ))
      → All (λ a. is_at k.currency a ≡ true → t ≡ some a.1) xs
      → All (λ j. is_job k j ≡ true → t ≡ some j.1) (jobs_of owner xs)
  All-jobs_of t owner [] h = tt
  All-jobs_of t owner (a ∷ xs) (h, hs) = (λ here. h (ground arith), All-jobs_of t owner xs hs)

All-append {ℓ κ} :
    {A : Type ℓ} (P : A → Type κ) (xs ys : List A) → All P xs → All P ys → All P (xs ++ ys)
All-append P [] ys h hs = hs
All-append P (x ∷ xs) ys (h, r) hs = (h, All-append P xs ys r hs)

-- Where no job is at the key, the jobs have there whatever one asks.
All-of-not-any :
    (k : PriceKey) (t : Option ℤ) (js : List (PriceKey × ℤ))
    → any (is_job k) js ≡ false
    → All (λ j. is_job k j ≡ true → t ≡ some j.1) js
All-of-not-any k t [] h = tt
All-of-not-any k t (j ∷ js) h = (λ here. ground arith, All-of-not-any k t js (ground arith))

-- The primary keys of a list of prices are distinct.
abbrev pub IsDistinct : List (PriceOwner × ℕ) → Type 0
IsDistinct [] = Unit
IsDistinct (p ∷ ps) = (any (λ (q : PriceOwner × ℕ). same_owner p.0 q.0) ps ≡ false) × IsDistinct ps

-- The amount of the price with this owner.
abbrev pub amount_of : PriceOwner → List (PriceOwner × ℕ) → Option ℕ
amount_of o [] = none
amount_of o (p ∷ ps) = if same_owner o p.0 then some p.1 else amount_of o ps

module _ (lower : String → String) (rates : List (String × Rate)) (cs : List String)
    (k : PriceKey) where
  -- What the sync wants at the key, by the prices of a list.
  abbrev pub wanted : List (PriceOwner × ℕ) → Option ℤ
  wanted ps = wanted_in lower rates cs k.currency (amount_of k.owner ps)

  unowned :
      (ps : List (PriceOwner × ℕ))
      → any (λ (q : PriceOwner × ℕ). same_owner k.owner q.0) ps ≡ false
      → any (is_job k) (all_amounts lower rates cs ps) ≡ false
  unfolding all_amounts
  unowned [] h = refl
  unowned ((o, a) ∷ ps) h =
      any-append (is_job k) (jobs_of o (compute_new_amounts lower rates a cs))
        (all_amounts lower rates cs ps)
      ∙ ground (arith, any-jobs_of k o (compute_new_amounts lower rates a cs), unowned ps)

  others_of :
      (o : PriceOwner) (ps : List (PriceOwner × ℕ))
      → same_owner k.owner o ≡ true
      → any (λ (q : PriceOwner × ℕ). same_owner o q.0) ps ≡ false
      → any (λ (q : PriceOwner × ℕ). same_owner k.owner q.0) ps ≡ false
  others_of o ps own d =
      subst (λ x. any (λ (q : PriceOwner × ℕ). same_owner x q.0) ps ≡ false)
        (sym (path_of_same_owner k.owner o own)) d

  -- A job is at the key just where an amount is wanted there.
  pub all_amounts-any :
      (ps : List (PriceOwner × ℕ))
      → IsDistinct ps
      → any (is_job k) (all_amounts lower rates cs ps) ≡ is_some (wanted ps)
  unfolding all_amounts
  all_amounts-any [] d = refl
  all_amounts-any ((o, a) ∷ ps) (d, ds) =
      let ih = all_amounts-any ps ds in
      let mine = any-jobs_of k o (compute_new_amounts lower rates a cs) in
      let here = new_amounts-any lower rates k.currency a cs in
      any-append (is_job k) (jobs_of o (compute_new_amounts lower rates a cs))
        (all_amounts lower rates cs ps)
      ∙ (elim (Bool-cases (same_owner k.owner o)) [
        | inl own ↦ let others = unowned ps (others_of o ps own d) in ground arith
        | inr other ↦ ground arith
      ])

  first_jobs :
      (o : PriceOwner) (a : ℕ) (ps : List (PriceOwner × ℕ))
      → All
          (λ j. is_job k j ≡ true → wanted ((o, a) ∷ ps) ≡ some j.1)
          (jobs_of o (compute_new_amounts lower rates a cs))
  first_jobs o a ps =
      let mine = any-jobs_of k o (compute_new_amounts lower rates a cs) in
      let here = new_amounts-any lower rates k.currency a cs in
      elim (Bool-cases (same_owner k.owner o)) [
        | inr other ↦
            All-of-not-any k (wanted ((o, a) ∷ ps))
              (jobs_of o (compute_new_amounts lower rates a cs)) (mine ∙ rw other refl)
        | inl own ↦ elim (Bool-cases (is_priced_in cs k.currency)) [
          | inr unpriced ↦
              All-of-not-any k (wanted ((o, a) ∷ ps))
                (jobs_of o (compute_new_amounts lower rates a cs)) (ground arith)
          | inl priced ↦
              rw (own, priced)
                (All-jobs_of k (amount_in lower rates a k.currency) o
                  (compute_new_amounts lower rates a cs)
                  (new_amounts-All lower rates k.currency a cs))
        ]
      ]

  -- The jobs at the key have the amount that is wanted there.
  pub all_amounts-All :
      (ps : List (PriceOwner × ℕ))
      → IsDistinct ps
      → All (λ j. is_job k j ≡ true → wanted ps ≡ some j.1) (all_amounts lower rates cs ps)
  unfolding all_amounts
  all_amounts-All [] d = tt
  all_amounts-All ((o, a) ∷ ps) (d, ds) =
      All-append (λ j. is_job k j ≡ true → wanted ((o, a) ∷ ps) ≡ some j.1)
        (jobs_of o (compute_new_amounts lower rates a cs)) (all_amounts lower rates cs ps)
        (first_jobs o a ps)
        (elim (Bool-cases (same_owner k.owner o)) [
          | inl own ↦
              All-of-not-any k (wanted ((o, a) ∷ ps)) (all_amounts lower rates cs ps)
                (unowned ps (others_of o ps own d))
          | inr other ↦ rw other (all_amounts-All ps ds)
        ])
