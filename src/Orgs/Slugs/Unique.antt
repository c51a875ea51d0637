-- ===== src/Orgs/Slugs/Unique.antt =====
-- `generate_unique_slug` ends, with a slug that no org has.
use text.Mathlib.Text.{◌==◌ as str_eq}
use saasmint.Base.{
  ℕ, zero, suc, ◌<◌, ◌≤◌, ◌≡◌, refl, ap, sym, ◌∙◌, Bool, true, false, none, some, List, [], ◌∷◌,
  String, any, keep, reject, length, map, arith, inl, inr, Bool-cases, Option-cases, path_of_str_eq,
}
use saasmint.Domain.{Org}
use saasmint.Database.{Db}
use saasmint.Orgs.Slugs.{
  candidate, matches, is_in, next_free, base_of, existing_slugs, generate_unique_slug,
}
use saasmint.Orgs.Slugs.Decimal.{candidate_injective, matches-candidate, matches_base}

length-reject_le : (p : String → Bool) (xs : List String) → length (reject p xs) ≤ length xs
length-reject_le p [] = omega arith
length-reject_le p (x ∷ xs) = ground (arith, length-reject_le p xs)

length-reject_lt :
    (p : String → Bool) (xs : List String) → any p xs ≡ true → length (reject p xs) < length xs
length-reject_lt p [] h = ground arith
length-reject_lt p (x ∷ xs) h = ground (arith, length-reject_lt p xs, length-reject_le p xs)

-- A slug that another one is not stays among those to avoid when that one is left out.
is_in-reject :
    (k t : String) (xs : List String)
    → str_eq k t ≡ false
    → is_in xs t ≡ true
    → is_in (reject (str_eq k) xs) t ≡ true
is_in-reject k t [] n h = h
is_in-reject k t (x ∷ xs) n h = elim (Bool-cases (str_eq t x)) [
  | inl here ↦
      let same : t ≡ x = path_of_str_eq t x here in
      let kept : str_eq k x ≡ false = ap (str_eq k) (sym same) ∙ n in rw (kept, here) refl
  | inr there ↦ ground (arith, is_in-reject k t xs n)
]

candidates_differ :
    (base : String) (m n : ℕ) → m < n → str_eq (candidate base m) (candidate base n) ≡ false
candidates_differ base m n h = elim (Bool-cases (str_eq (candidate base m) (candidate base n))) [
  | inr other ↦ other
  | inl same ↦
      let equal = candidate_injective base m n (path_of_str_eq _ _ same) in absurd (omega arith)
]

module _ (base : String) where
  -- A loop that runs out of fuel still does so without a slug that it does not reach.
  stuck-reject :
      (fuel m n : ℕ) (taken : List String)
      → m < n
      → next_free fuel taken base n ≡ none
      → next_free fuel (reject (str_eq (candidate base m)) taken) base n ≡ none
  unfolding next_free
  stuck-reject zero m n taken lt h = refl
  stuck-reject (suc fuel) m n taken lt h = elim (Bool-cases (is_in taken (candidate base n))) [
    | inr free ↦ ground arith
    | inl used ↦
        rw
          (is_in-reject (candidate base m) (candidate base n) taken (candidates_differ base m n lt)
            used)
          (stuck-reject fuel m (suc n) taken (omega arith) (ground arith))
  ]

  -- It has tried as many slugs to avoid as it had fuel.
  stuck-length :
      (fuel n : ℕ) (taken : List String) → next_free fuel taken base n ≡ none → fuel ≤ length taken
  unfolding next_free
  stuck-length zero n taken h = omega arith
  stuck-length (suc fuel) n taken h = elim (Bool-cases (is_in taken (candidate base n))) [
    | inr free ↦ ground arith
    | inl used ↦
        let rest =
          stuck-length fuel (suc n) (reject (str_eq (candidate base n)) taken)
            (stuck-reject fuel n (suc n) taken (omega arith) (ground arith)) in
        let fewer = length-reject_lt (str_eq (candidate base n)) taken used in omega arith
  ]

  next_free-is_free :
      (fuel n : ℕ) (taken : List String) (s : String)
      → next_free fuel taken base n ≡ some s
      → (is_in taken s ≡ false) × (matches base s ≡ true)
  unfolding next_free
  next_free-is_free zero n taken s h = ground arith
  next_free-is_free (suc fuel) n taken s h = elim (Bool-cases (is_in taken (candidate base n))) [
    | inl used ↦ next_free-is_free fuel (suc n) taken s (ground arith)
    | inr free ↦
        let same : candidate base n ≡ s = ground arith in
        (rw (← same) free, rw (← same) (matches-candidate base n))
  ]

  -- A slug of the pattern that is not among those to avoid is in no row.
  not_kept :
      (s : String) (slugs : List String)
      → matches base s ≡ true
      → is_in (keep (matches base) slugs) s ≡ false
      → is_in slugs s ≡ false
  not_kept s [] m h = refl
  not_kept s (x ∷ slugs) m h = elim (Bool-cases (str_eq s x)) [
    | inl here ↦
        let same : s ≡ x = path_of_str_eq s x here in
        let kept : matches base x ≡ true = ap (matches base) (sym same) ∙ m in ground arith
    | inr there ↦ ground (arith, not_kept s slugs m)
  ]

-- The loop ends before its fuel does: for every name and every table of orgs there is a slug.
pub generate_unique_slug-returns :
    (slugify : String → String) (name : String) (db : Db)
    → (s : String) × (generate_unique_slug slugify name db ≡ some s)
unfolding generate_unique_slug
generate_unique_slug-returns slugify name db =
    let base = base_of slugify name in
    let taken = existing_slugs base db in
    elim (Bool-cases (is_in taken base)) [
      | inr free ↦ (base, rw free refl)
      | inl used ↦ elim (Option-cases (next_free (suc (length taken)) taken base 2)) [
        | inl stuck ↦
            let long = stuck-length base (suc (length taken)) 2 taken stuck in absurd (omega arith)
        | inr (s, found) ↦ (s, rw (used, found) refl)
      ]
    ]

-- The slug that is generated for a name is that of no org in the table.
pub generate_unique_slug-is_free :
    (slugify : String → String) (name s : String) (db : Db)
    → generate_unique_slug slugify name db ≡ some s
    → is_in (map (λ (o : Org). o.slug) db.orgs) s ≡ false
unfolding generate_unique_slug existing_slugs
generate_unique_slug-is_free slugify name s db h =
    let base = base_of slugify name in
    let slugs = map (λ (o : Org). o.slug) db.orgs in
    elim (Bool-cases (is_in (existing_slugs base db) base)) [
      | inr free ↦
          let same : base ≡ s = ground arith in
          rw (← same) (not_kept base base slugs (matches_base base) free)
      | inl used ↦
          let (free, fits) =
            next_free-is_free base (suc (length (existing_slugs base db))) 2
              (existing_slugs base db) s (ground arith) in
          not_kept base s slugs fits free
    ]
