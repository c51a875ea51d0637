-- ===== src/Prices/Sync/Rows.antt =====
-- What the three bulk writes leave at one key.

use saasmint.Base.{
  ◌≡◌, refl, sym, ap, ◌∙◌, Bool, true, not, ◌&&◌, Option, none, some, List, [], ◌∷◌, ◌++◌,
  if◌then◌else◌, any, All, ℤ, eq_ℤ, arith, inl, inr, Bool-cases, Option-cases, find-append,
}
use saasmint.Domain.{Time}
use saasmint.Prices.Catalog.{PriceKey, same_key, LocalizedPrice, localized}
use saasmint.Prices.Sync.{
  create, change, heartbeat, upsert, all_upserts, bulk_create, bulk_change, write_upserts, created,
}
use saasmint.Prices.Catalog.Keys.{path_of_same_key, same_key_comm}
use saasmint.Prices.Sync.Writes.{
  changed_by, beaten_by, change_once, beat_once, localized-bulk_change, localized-bulk_heartbeat,
}

-- The row of a new amount.
abbrev pub new_row : Time → PriceKey → ℤ → LocalizedPrice
new_row now k n = record { key = k; amount_minor = n; stripe_price_id = none; synced_at = now }

abbrev pub is_job : PriceKey → PriceKey × ℤ → Bool
is_job k j = same_key k j.0

-- The jobs at the key have this amount.
abbrev pub Agree : PriceKey → ℤ → List (PriceKey × ℤ) → Type 0
Agree k n = All (λ j. is_job k j ≡ true → j.1 ≡ n)

module _ (rows : List LocalizedPrice) (j : PriceKey) (m : ℤ) where
  upsert-none : localized j rows ≡ none → upsert rows j m ≡ create j m
  unfolding upsert
  upsert-none absent = rw (upsert, absent) refl

  pub upsert-some :
      (old : LocalizedPrice)
      → localized j rows ≡ some old
      → upsert rows j m ≡ (if eq_ℤ old.amount_minor m then heartbeat j else change j m)
  unfolding upsert
  upsert-some old there = rw (upsert, there) refl

module _ (now : Time) (k : PriceKey) where
  localized-at :
      (j : PriceKey) (rows : List LocalizedPrice)
      → same_key k j ≡ true
      → localized j rows ≡ localized k rows
  localized-at j rows h = ap (λ i. localized i rows) (sym (path_of_same_key k j h))

  module _ (n : ℤ) (rows : List LocalizedPrice) where
    -- Where no row stands at the key, the first of the jobs at it makes one.
    localized-created :
        (js : List (PriceKey × ℤ))
        → localized k rows ≡ none
        → Agree k n js
        → localized k (created now (all_upserts rows js))
          ≡ (if any (is_job k) js then some (new_row now k n) else none)
    unfolding created all_upserts
    localized-created [] missing agree = refl
    localized-created ((j, m) ∷ js) missing (agree, rest) =
        let ih = localized-created js missing rest in
        let turned = same_key_comm k j in
        elim (Bool-cases (same_key k j)) [
          | inl here ↦
              let same = path_of_same_key k j here in
              rw (upsert-none rows j m (localized-at j rows here ∙ missing))
                (ground (arith, agree here))
          | inr other ↦ elim (Option-cases (localized j rows)) [
            | inl absent ↦ rw (upsert-none rows j m absent) (ground arith)
            | inr (old, there) ↦ rw (upsert-some rows j m old there) (ground arith)
          ]
        ]

    once-none :
        (j : PriceKey) (m : ℤ) (r : LocalizedPrice)
        → localized k rows ≡ none
        → (change_once now k (upsert rows j m) r ≡ r) × (beat_once now k (upsert rows j m) r ≡ r)
    once-none j m r missing = elim (Bool-cases (same_key k j)) [
      | inl here ↦ rw (upsert-none rows j m (localized-at j rows here ∙ missing)) (refl, refl)
      | inr other ↦ elim (Option-cases (localized j rows)) [
        | inl absent ↦ rw (upsert-none rows j m absent) (refl, refl)
        | inr (old, there) ↦ rw (upsert-some rows j m old there) (ground arith)
      ]
    ]

    once-some :
        (j : PriceKey) (m : ℤ) (old r : LocalizedPrice)
        → localized k rows ≡ some old
        → (is_job k (j, m) ≡ true → m ≡ n)
        → (change_once now k (upsert rows j m) r ≡ (
            if same_key k j && not (eq_ℤ old.amount_minor n)
            then record r { amount_minor = n; synced_at = now }
            else r))
          × (beat_once now k (upsert rows j m) r ≡ (
              if same_key k j && eq_ℤ old.amount_minor n then record r { synced_at = now } else r))
    once-some j m old r there agree = elim (Bool-cases (same_key k j)) [
      | inl here ↦
          rw (upsert-some rows j m old (localized-at j rows here ∙ there), agree here)
            (ground arith)
      | inr other ↦ elim (Option-cases (localized j rows)) [
        | inl absent ↦ rw (upsert-none rows j m absent) (ground arith)
        | inr (o, at_other) ↦ rw (upsert-some rows j m o at_other) (ground arith)
      ]
    ]

    by-none :
        (js : List (PriceKey × ℤ)) (r : LocalizedPrice)
        → localized k rows ≡ none
        → (changed_by now k (all_upserts rows js) r ≡ r)
          × (beaten_by now k (all_upserts rows js) r ≡ r)
    unfolding all_upserts
    by-none [] r missing = (refl, refl)
    by-none ((j, m) ∷ js) r missing =
        let (unchanged, unbeaten) = once-none j m r missing in
        let (same, same') = by-none js r missing in
        (
          ap (changed_by now k (all_upserts rows js)) unchanged ∙ same,
          ap (beaten_by now k (all_upserts rows js)) unbeaten ∙ same',
        )

    by-some :
        (js : List (PriceKey × ℤ)) (old r : LocalizedPrice)
        → localized k rows ≡ some old
        → Agree k n js
        → (changed_by now k (all_upserts rows js) r ≡ (
            if any (is_job k) js && not (eq_ℤ old.amount_minor n)
            then record r { amount_minor = n; synced_at = now }
            else r))
          × (beaten_by now k (all_upserts rows js) r ≡ (
              if any (is_job k) js && eq_ℤ old.amount_minor n
              then record r { synced_at = now }
              else r))
    unfolding all_upserts
    by-some [] old r there agree = (refl, refl)
    by-some ((j, m) ∷ js) old r there (agree, rest) =
        let (changed, beaten) = once-some j m old r there agree in
        (
          ap (changed_by now k (all_upserts rows js)) changed
              ∙ (by-some js old
                  (if same_key k j && not (eq_ℤ old.amount_minor n)
                    then record r { amount_minor = n; synced_at = now }
                    else r)
                  there rest).0
              ∙ ground arith,
          ap (beaten_by now k (all_upserts rows js)) beaten
              ∙ (by-some js old
                  (if same_key k j && eq_ℤ old.amount_minor n
                    then record r { synced_at = now }
                    else r)
                  there rest).1
              ∙ ground arith,
        )

  -- What the sync is to make of the row at a key: with no new amount it stays; with the amount that it has, only
  -- its time moves.
  abbrev pub refreshed : Option ℤ → Option LocalizedPrice → Option LocalizedPrice
  refreshed none row = row
  refreshed (some n) none = some (new_row now k n)
  refreshed (some n) (some r) =
      if eq_ℤ r.amount_minor n
      then some (record r { synced_at = now })
      else some (record r { amount_minor = n; synced_at = now })

  -- The bulk writes make of the row at the key what the jobs at it ask for.
  pub localized-write_upserts :
      (n : ℤ) (rows : List LocalizedPrice) (js : List (PriceKey × ℤ))
      → Agree k n js
      → localized k (write_upserts now (all_upserts rows js) rows)
        ≡ refreshed (if any (is_job k) js then some n else none) (localized k rows)
  unfolding write_upserts bulk_create
  localized-write_upserts n rows js agree =
      let us = all_upserts rows js in
      let made = find-append (λ x. same_key x.key k) rows (created now us) in
      let changed = localized-bulk_change now k us (rows ++ created now us) in
      let beaten =
        localized-bulk_heartbeat now k us (bulk_change now us (rows ++ created now us)) in
      elim (Option-cases (localized k rows)) [
        | inl missing ↦
            let new = localized-created n rows js missing agree in
            let (same, same') = by-none n rows js (new_row now k n) missing in ground arith
        | inr (old, there) ↦
            let (moved, kept) = by-some n rows js old old there agree in
            let (_, kept') =
              by-some n rows js old (record old { amount_minor = n; synced_at = now }) there
                agree in
            ground arith
      ]
