-- ===== src/Base/Lists.antt =====
-- Tables as lists of rows: the queries and the updates that the ORM calls make of them, each by a
-- Boolean condition on a row.
use Prim.Native.Nat.{ℕ, suc, ◌+◌}
use mathlib.Core.Path.{◌≡◌, refl}
use mathlib.Core.Bool.{Bool, true, false, not, ◌||◌, ◌&&◌}
use mathlib.Core.Option.{Option, none, some}
use mathlib.Core.List.{List, [], ◌∷◌, ◌++◌, map}
use native.Mathlib.Omega.{arith}
use mathlib.Core.Logic.{inl, inr}
use saasmint.Base.Tests.{if◌then◌else◌, is_some, Bool-cases}

module _ {ℓ} {A : Type ℓ} where
  abbrev pub length : List A → ℕ
  length [] = 0
  length (x ∷ xs) = suc (length xs)

  -- `.filter(p).first()` of a table in the order of its rows.
  abbrev pub find : (A → Bool) → List A → Option A
  find p [] = none
  find p (x ∷ xs) = if p x then some x else find p xs

  -- `.filter(p).exists()`
  abbrev pub any : (A → Bool) → List A → Bool
  any p [] = false
  any p (x ∷ xs) = p x || any p xs

  -- `.filter(p)`
  abbrev pub keep : (A → Bool) → List A → List A
  keep p [] = []
  keep p (x ∷ xs) = if p x then x ∷ keep p xs else keep p xs

  -- `.filter(p).delete()`: the rows that stay.
  abbrev pub reject : (A → Bool) → List A → List A
  reject p [] = []
  reject p (x ∷ xs) = if p x then reject p xs else x ∷ reject p xs

  -- `.filter(p).update(f)`
  abbrev pub update_where : (A → Bool) → (A → A) → List A → List A
  update_where p f [] = []
  update_where p f (x ∷ xs) = (if p x then f x else x) ∷ update_where p f xs

  -- `.filter(p).count()`
  abbrev pub count : (A → Bool) → List A → ℕ
  count p [] = 0
  count p (x ∷ xs) = (if p x then 1 else 0) + count p xs

  abbrev pub All {κ} : (A → Type κ) → List A → Type κ
  All P [] = Unit
  All P (x ∷ xs) = P x × All P xs

module _ {ℓ} {A : Type ℓ} where
  pub any-append : (p : A → Bool) (xs ys : List A) → any p (xs ++ ys) ≡ (any p xs || any p ys)
  any-append p [] ys = refl
  any-append p (x ∷ xs) ys = ground (arith, any-append p xs ys)

  pub append_assoc : (xs ys zs : List A) → (xs ++ ys) ++ zs ≡ xs ++ (ys ++ zs)
  append_assoc [] ys zs = refl
  append_assoc (x ∷ xs) ys zs = rw (append_assoc xs ys zs) refl

  pub append_nil : (xs : List A) → xs ++ [] ≡ xs
  append_nil [] = refl
  append_nil (x ∷ xs) = rw (append_nil xs) refl

  pub count-append : (p : A → Bool) (xs ys : List A) → count p (xs ++ ys) ≡ count p xs + count p ys
  count-append p [] ys = omega arith
  count-append p (x ∷ xs) ys = ground (arith, count-append p xs ys)

  pub find-append :
      (p : A → Bool) (xs ys : List A)
      → find p (xs ++ ys) ≡ (if is_some (find p xs) then find p xs else find p ys)
  find-append p [] ys = refl
  find-append p (x ∷ xs) ys = ground (arith, find-append p xs ys)

  pub find-eq-some : (p : A → Bool) (xs : List A) (a : A) → find p xs ≡ some a → p a ≡ true
  find-eq-some p [] a e = ground arith
  find-eq-some p (x ∷ xs) a e = ground (arith, find-eq-some p xs a)

  pub any-of-find : (p : A → Bool) (xs : List A) (a : A) → find p xs ≡ some a → any p xs ≡ true
  any-of-find p [] a e = ground arith
  any-of-find p (x ∷ xs) a e = ground (arith, any-of-find p xs a)

  pub not-any-of-find : (p : A → Bool) (xs : List A) → find p xs ≡ none → any p xs ≡ false
  not-any-of-find p [] e = refl
  not-any-of-find p (x ∷ xs) e = ground (arith, not-any-of-find p xs)

  pub find-of-not-any : (p : A → Bool) (xs : List A) → any p xs ≡ false → find p xs ≡ none
  find-of-not-any p [] e = refl
  find-of-not-any p (x ∷ xs) e = ground (arith, find-of-not-any p xs)

  pub update_where-not-any :
      (p : A → Bool) (f : A → A) (xs : List A) → any p xs ≡ false → update_where p f xs ≡ xs
  update_where-not-any p f [] h = refl
  update_where-not-any p f (x ∷ xs) h = ground (arith, update_where-not-any p f xs)

  -- A row that an update cannot make match, and that matched not before, is not found.
  pub any-update_where-false :
      (q p : A → Bool) (f : A → A) (xs : List A)
      → ((x : A) → p x ≡ true → q (f x) ≡ false)
      → ((x : A) → q x ≡ true → p x ≡ true)
      → any q (update_where p f xs) ≡ false
  any-update_where-false q p f [] hf hp = refl
  any-update_where-false q p f (x ∷ xs) hf hp =
      ground (arith, any-update_where-false q p f xs, hf x, hp x)

  pub any-reject : (q p : A → Bool) (xs : List A) → any q xs ≡ false → any q (reject p xs) ≡ false
  any-reject q p [] e = refl
  any-reject q p (x ∷ xs) e = ground (arith, any-reject q p xs)

  -- What no row satisfies, the row found does not satisfy.
  pub find-not-any :
      (p q : A → Bool) (xs : List A) (a : A) → find p xs ≡ some a → any q xs ≡ false → q a ≡ false
  find-not-any p q [] a e h = ground arith
  find-not-any p q (x ∷ xs) a e h = elim (Bool-cases (p x)) [
    | inl found ↦ let same : x ≡ a = ground arith in rw (← same) (ground arith)
    | inr other ↦ find-not-any p q xs a (ground arith) (ground arith)
  ]

  -- An update that keeps what a query asks for changes the row found, and no other is found instead.
  pub find-update_where :
      (q p : A → Bool) (f : A → A) (xs : List A)
      → ((x : A) → q (f x) ≡ q x)
      → find q (update_where p f xs) ≡ (elim (find q xs) as (λ _. Option A) [
        | none ↦ none
        | some x ↦ some (if p x then f x else x)
      ])
  find-update_where q p f [] h = refl
  find-update_where q p f (x ∷ xs) h = ground (arith, find-update_where q p f xs h, h x)

  pub not-any-and :
      (p q : A → Bool) (xs : List A) → any p xs ≡ false → any (λ x. p x && q x) xs ≡ false
  not-any-and p q [] h = refl
  not-any-and p q (x ∷ xs) h = ground (arith, not-any-and p q xs)

  pub any-of-find-and :
      (p q : A → Bool) (xs : List A) (a : A) → find p xs ≡ some a → q a ≡ true → any q xs ≡ true
  any-of-find-and p q [] a e h = ground arith
  any-of-find-and p q (x ∷ xs) a e h = elim (Bool-cases (p x)) [
    | inl found ↦
        let same : a ≡ x = ground arith in let now : q x ≡ true = rw same at h in ground arith
    | inr other ↦ ground (arith, any-of-find-and p q xs a)
  ]

  pub find-reject :
      (q p : A → Bool) (xs : List A)
      → ((x : A) → q x ≡ true → p x ≡ false)
      → find q (reject p xs) ≡ find q xs
  find-reject q p [] h = refl
  find-reject q p (x ∷ xs) h = ground (arith, find-reject q p xs h, h x)

  pub find-reject-none :
      (q p : A → Bool) (xs : List A)
      → ((x : A) → q x ≡ true → p x ≡ true)
      → find q (reject p xs) ≡ none
  find-reject-none q p [] h = refl
  find-reject-none q p (x ∷ xs) h = ground (arith, find-reject-none q p xs h, h x)

  -- What a second deletion takes in any case, the first may take before it.
  pub reject-reject :
      (p q : A → Bool) (xs : List A)
      → any (λ x. q x && not (p x)) xs ≡ false
      → reject p (reject q xs) ≡ reject p xs
  reject-reject p q [] h = refl
  reject-reject p q (x ∷ xs) h = ground (arith, reject-reject p q xs)

  pub count-reject :
      (q p : A → Bool) (xs : List A)
      → any (λ x. p x && q x) xs ≡ false
      → count q (reject p xs) ≡ count q xs
  count-reject q p [] h = refl
  count-reject q p (x ∷ xs) h = ground (arith, count-reject q p xs)

  pub reject-same : (p : A → Bool) (xs : List A) → reject p (reject p xs) ≡ reject p xs
  reject-same p [] = refl
  reject-same p (x ∷ xs) = ground (arith, reject-same p xs)

  -- A row that satisfies two conditions is found by each.
  pub any-of-both :
      (p q : A → Bool) (xs : List A)
      → any (λ x. p x && q x) xs ≡ true
      → (any p xs ≡ true) × (any q xs ≡ true)
  any-of-both p q [] h = ground arith
  any-of-both p q (x ∷ xs) h =
      (ground (arith, any-of-both p q xs), ground (arith, any-of-both p q xs))

  pub any-reject-same : (p : A → Bool) (xs : List A) → any p (reject p xs) ≡ false
  any-reject-same p [] = refl
  any-reject-same p (x ∷ xs) = ground (arith, any-reject-same p xs)

  pub any-map :
      (q : A → Bool) (f : A → A) (xs : List A)
      → ((x : A) → q (f x) ≡ q x)
      → any q (map f xs) ≡ any q xs
  any-map q f [] h = refl
  any-map q f (x ∷ xs) h = ground (arith, any-map q f xs h, h x)

  pub any-or :
      (p q : A → Bool) (xs : List A)
      → any (λ x. p x || q x) xs ≡ false
      → (any p xs ≡ false) × (any q xs ≡ false)
  any-or p q [] h = (refl, refl)
  any-or p q (x ∷ xs) h = (ground (arith, any-or p q xs), ground (arith, any-or p q xs))
