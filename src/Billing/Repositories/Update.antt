-- ===== src/Billing/Repositories/Update.antt =====
-- A save of a row that is in the table: it succeeds, its `stripe_id` finds the new row, and every other
-- one finds what it found before.
use text.Mathlib.Text.{◌==◌ as str_eq}
use text.Mathlib.TextEquality.{eq_iff}
use mathlib.Core.Path.{subst}
use saasmint.Base.{
  ◌≡◌, refl, ap, ◌∙◌, Bool, true, false, ◌||◌, Option, none, some, List, [], ◌∷◌, String, is_some,
  any, find, update_where, find-not-any, find-eq-some, not-any-and, any-of-find-and, ◌&&◌, arith,
  ==_refl, inl, inr, Bool-cases,
}
use saasmint.Domain.{Time, Subscription}
use saasmint.Database.{Db}
use saasmint.Database.Result.{Result, ok}
use saasmint.Billing.Env.{Env}
use saasmint.Billing.Repositories.{has_text, put_row, save, get_by_stripe_id}
use saasmint.Billing.Repositories.Distinct.{
  IsDistinct, has_id, clashes_with, clashes_elsewhere, created_time, find-put_row,
}

abbrev pub has_owner : Subscription → Bool
has_owner s = is_some s.user_id || is_some s.stripe_customer_id

-- A step went well, and made one subscription, found by `t`, the given row, leaving what every other
-- `stripe_id` finds.
pub record Rewrites (t : String) (row : Subscription) (db : Db) (out : Result (Unit {0}) × Db)
    : Type 0 where
  pub succeeds : out.0 ≡ ok tt
  pub rewritten : get_by_stripe_id t out.1 ≡ some row
  pub others :
      (t' : String) → str_eq t t' ≡ false → get_by_stripe_id t' out.1 ≡ get_by_stripe_id t' db

pub has_text→eq : (t : String) (o : Option String) → has_text t o ≡ true → o ≡ some t
has_text→eq t none h = cc
has_text→eq t (some s) h = ground (arith, eq_iff s t)

module _ (t : String) where
  found : List Subscription → Option Subscription
  found rows = find (λ r. has_text t r.stripe_id) rows

  only_clashes :
      (s : Subscription) (rows : List Subscription)
      → any (clashes_with s) rows ≡ false
      → any (clashes_elsewhere s) rows ≡ false
  only_clashes s [] h = refl
  only_clashes s (r ∷ rows) h = ground (arith, only_clashes s rows)

  -- The row found clashes with no other.
  found-no_clash :
      (rows : List Subscription) (s : Subscription)
      → IsDistinct rows
      → found rows ≡ some s
      → any (clashes_elsewhere s) rows ≡ false
  unfolding found
  found-no_clash [] s d e = refl
  found-no_clash (r ∷ rows) s d e = elim (Bool-cases (has_text t r.stripe_id)) [
    | inl here ↦
        let same : r ≡ s = ground arith in
        subst (λ x. any (clashes_elsewhere x) (r ∷ rows) ≡ false) same
          (ground (arith, only_clashes r rows d.1))
    | inr there ↦
        let rest : found rows ≡ some s = ground arith in
        ground (
          arith,
          found-no_clash rows s d.2 rest,
          has_text→eq t s.stripe_id (find-eq-some (λ x. has_text t x.stripe_id) rows s rest),
        )
  ]

  found-created_time :
      (now : Time) (rows : List Subscription) (s : Subscription)
      → IsDistinct rows
      → found rows ≡ some s
      → created_time now s.id rows ≡ s.created_at
  unfolding found created_time
  found-created_time now [] s d e = ground arith
  found-created_time now (r ∷ rows) s d e = elim (Bool-cases (has_text t r.stripe_id)) [
    | inl here ↦
        let same : r ≡ s = ground arith in ground (arith, ap (λ (x : Subscription). x.id) same)
    | inr there ↦
        let rest : found rows ≡ some s = ground arith in
        let other = find-not-any (λ x. has_text t x.stripe_id) (has_id r.id) rows s rest d.0 in
        ground (arith, found-created_time now rows s d.2 rest)
  ]

  -- No other row has the id of the row found.
  found-only_id :
      (t' : String) (rows : List Subscription) (s : Subscription)
      → str_eq t t' ≡ false
      → IsDistinct rows
      → found rows ≡ some s
      → any (λ r. has_id s.id r && has_text t' r.stripe_id) rows ≡ false
  unfolding found
  found-only_id t' [] s n d e = refl
  found-only_id t' (r ∷ rows) s n d e = elim (Bool-cases (has_text t r.stripe_id)) [
    | inl here ↦
        let same : r ≡ s = ground arith in
        subst (λ x. any (λ y. has_id x.id y && has_text t' y.stripe_id) (r ∷ rows) ≡ false) same
          (ground (
            arith,
            not-any-and (has_id r.id) (λ y. has_text t' y.stripe_id) rows d.0,
            has_text→eq t r.stripe_id,
          ))
    | inr there ↦
        let rest : found rows ≡ some s = ground arith in
        let other = find-not-any (λ x. has_text t x.stripe_id) (has_id r.id) rows s rest d.0 in
        ground (arith, found-only_id t' rows s n d.2 rest)
  ]

replaced-found :
    (t' : String) (now : Time) (s' : Subscription) (rows : List Subscription)
    → has_text t' s'.stripe_id ≡ false
    → any (λ r. has_id s'.id r && has_text t' r.stripe_id) rows ≡ false
    → found t' (update_where (has_id s'.id) (λ r. record s' { created_at = r.created_at }) rows)
      ≡ found t' rows
unfolding found
replaced-found t' now s' [] n h = refl
replaced-found t' now s' (r ∷ rows) n h = ground (arith, replaced-found t' now s' rows)

module _ (e : Env) (t : String) (db : Db) (s s' : Subscription) (d : IsDistinct db.subscriptions)
    (known : get_by_stripe_id t db ≡ some s) (same_id : s'.id ≡ s.id)
    (same_stripe_id : s'.stripe_id ≡ s.stripe_id) (owned : has_owner s' ≡ true) where
  no_clash : any (clashes_elsewhere s') db.subscriptions ≡ false
  unfolding get_by_stripe_id found
  no_clash =
      rw (clashes_elsewhere, same_id, same_stripe_id) (found-no_clash t db.subscriptions s d known)

  -- The save of a changed row of the table succeeds.
  pub save-known :
      save e s' db ≡ (ok tt, record db { subscriptions = put_row e.now s' db.subscriptions })
  unfolding save
  save-known = ground (arith, no_clash, owned)

  -- Its `stripe_id` finds the changed row, with the creation time that it had.
  pub get_by_stripe_id-save :
      get_by_stripe_id t (save e s' db).1 ≡ some (record s' { created_at = s.created_at })
  unfolding get_by_stripe_id found
  get_by_stripe_id-save =
      let has =
        has_text→eq t s.stripe_id
          (find-eq-some (λ r. has_text t r.stripe_id) db.subscriptions s known) in
      let stamp : created_time e.now s'.id db.subscriptions ≡ s.created_at =
        rw same_id (found-created_time t e.now db.subscriptions s d known) in
      rw (save-known) (
        rw (find-put_row e.now s' t db.subscriptions (same_stripe_id ∙ has) d no_clash)
          (ap (λ c. some (record s' { created_at = c })) stamp))

  -- Every other `stripe_id` finds what it found.
  pub get_by_stripe_id-save_other :
      (t' : String)
      → str_eq t t' ≡ false
      → get_by_stripe_id t' (save e s' db).1 ≡ get_by_stripe_id t' db
  unfolding get_by_stripe_id found put_row
  get_by_stripe_id-save_other t' n =
      let has =
        has_text→eq t s.stripe_id
          (find-eq-some (λ r. has_text t r.stripe_id) db.subscriptions s known) in
      let there : any (has_id s'.id) db.subscriptions ≡ true = rw same_id (
        any-of-find-and (λ r. has_text t r.stripe_id) (has_id s.id) db.subscriptions s known
          (==_refl s.id)) in
      rw (save-known, there)
        (replaced-found t' e.now s' db.subscriptions (rw (same_stripe_id, has) n)
          (rw same_id (found-only_id t t' db.subscriptions s n d known)))

  pub save-Rewrites : Rewrites t (record s' { created_at = s.created_at }) db (save e s' db)
  save-Rewrites = record {
    succeeds = rw save-known;
    rewritten = get_by_stripe_id-save;
    others = get_by_stripe_id-save_other;
  }
