-- ===== src/Prices/Sync/Writes.antt =====
-- What the changes and the heartbeats of the bulk updates leave at one key.
use mathlib.Core.Option
use saasmint.Base.{
  ◌≡◌, refl, ap, ◌∙◌, some, List, [], ◌∷◌, if◌then◌else◌, update_where, arith, inl, inr,
  Option-cases, find-eq-some, find-update_where,
}
use saasmint.Domain.{Time}
use saasmint.Prices.Catalog.{PriceKey, same_key, LocalizedPrice, localized}
use saasmint.Prices.Sync.{Upsert, create, change, heartbeat, is_row, bulk_change, bulk_heartbeat}
use saasmint.Prices.Catalog.Keys.{path_of_same_key}

module _ (now : Time) (k : PriceKey) where
  -- What one change and one heartbeat make of the row at the key.
  abbrev pub change_once : Upsert → LocalizedPrice → LocalizedPrice
  change_once (change j n) r =
      if same_key k j then record r { amount_minor = n; synced_at = now } else r
  change_once u r = r

  abbrev pub beat_once : Upsert → LocalizedPrice → LocalizedPrice
  beat_once (heartbeat j) r = if same_key k j then record r { synced_at = now } else r
  beat_once u r = r

  abbrev pub changed_by : List Upsert → LocalizedPrice → LocalizedPrice
  changed_by [] r = r
  changed_by (u ∷ us) r = changed_by us (change_once u r)

  abbrev pub beaten_by : List Upsert → LocalizedPrice → LocalizedPrice
  beaten_by [] r = r
  beaten_by (u ∷ us) r = beaten_by us (beat_once u r)

  -- An update of the row at another key or at this one.
  localized-update_where :
      (j : PriceKey) (f : LocalizedPrice → LocalizedPrice) (rows : List LocalizedPrice)
      → ((x : LocalizedPrice) → (f x).key ≡ x.key)
      → localized k (update_where (is_row j) f rows)
        ≡ Option.map (λ r. if same_key k j then f r else r) (localized k rows)
  localized-update_where j f rows keeps =
      let found =
        find-update_where (λ x. same_key x.key k) (is_row j) f rows
          (λ x. ap (λ y. same_key y k) (keeps x)) in
      elim (Option-cases (localized k rows)) [
        | inl missing ↦ found ∙ ground arith
        | inr (r, there) ↦
            let same =
              path_of_same_key r.key k (find-eq-some (λ x. same_key x.key k) rows r there) in
            let test : same_key r.key j ≡ same_key k j = ap (λ x. same_key x j) same in
            found ∙ rw there (ap (λ b. some (if b then f r else r)) test)
      ]

  pub localized-bulk_change :
      (us : List Upsert) (rows : List LocalizedPrice)
      → localized k (bulk_change now us rows) ≡ Option.map (changed_by us) (localized k rows)
  unfolding bulk_change
  localized-bulk_change [] rows = ground arith
  localized-bulk_change (change j n ∷ us) rows =
      localized-bulk_change us
        (update_where (is_row j) (λ r. record r { amount_minor = n; synced_at = now }) rows)
      ∙ ap (Option.map (changed_by us)) (
          localized-update_where j (λ r. record r { amount_minor = n; synced_at = now }) rows
            (λ x. refl))
      ∙ ground arith
  localized-bulk_change (create j n ∷ us) rows = localized-bulk_change us rows
  localized-bulk_change (heartbeat j ∷ us) rows = localized-bulk_change us rows

  pub localized-bulk_heartbeat :
      (us : List Upsert) (rows : List LocalizedPrice)
      → localized k (bulk_heartbeat now us rows) ≡ Option.map (beaten_by us) (localized k rows)
  unfolding bulk_heartbeat
  localized-bulk_heartbeat [] rows = ground arith
  localized-bulk_heartbeat (heartbeat j ∷ us) rows =
      localized-bulk_heartbeat us (update_where (is_row j) (λ r. record r { synced_at = now }) rows)
      ∙ ap (Option.map (beaten_by us))
          (localized-update_where j (λ r. record r { synced_at = now }) rows (λ x. refl))
      ∙ ground arith
  localized-bulk_heartbeat (create j n ∷ us) rows = localized-bulk_heartbeat us rows
  localized-bulk_heartbeat (change j n ∷ us) rows = localized-bulk_heartbeat us rows
