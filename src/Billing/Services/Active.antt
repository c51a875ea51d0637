-- ===== src/Billing/Services/Active.antt =====
-- The active subscription of a customer is a row of the table, and the one that its `stripe_id` finds.
use mathlib.Core.Path.{subst}
use saasmint.Base.{
  sym, ap, ◌∙◌, str_eq_refl, ◌≡◌, Bool, true, some, List, [], ◌∷◌, String, find, keep, find-not-any,
  arith, inl, inr, Option-cases, ◌⊎◌,
}
use saasmint.Domain.{Uuid, Subscription, is_active_status}
use saasmint.Database.{Db}
use saasmint.Database.Result.{ok}
use saasmint.Billing.Env.{Env}
use saasmint.Billing.Repositories.{
  has_text, latest, save, is_active_of, get_active_for_customer, get_by_stripe_id,
}
use saasmint.Billing.Repositories.Distinct.{IsDistinct, clashes_with, clashes_comm}
use saasmint.Billing.Repositories.Update.{Rewrites, has_owner, save-Rewrites}
use saasmint.Billing.Services.Cancel.{active_at_stripe}

-- The latest of the rows with a property has it.
pub latest-holds :
    (p : Subscription → Bool) (rows : List Subscription) (s : Subscription)
    → latest (keep p rows) ≡ some s
    → p s ≡ true
unfolding latest
latest-holds p [] s h = ground arith
latest-holds p (r ∷ rows) s h = elim (Option-cases (latest (keep p rows))) [
  | inl empty ↦ ground arith
  | inr (x, there) ↦ ground (arith, latest-holds p rows x there)
]

-- It is the first of the rows, or the latest of the others.
latest-first :
    (p : Subscription → Bool) (r : Subscription) (rows : List Subscription) (s : Subscription)
    → latest (keep p (r ∷ rows)) ≡ some s
    → (r ≡ s) ⊎ (latest (keep p rows) ≡ some s)
unfolding latest
latest-first p r rows s h = elim (Option-cases (latest (keep p rows))) [
  | inl empty ↦ ground arith
  | inr (x, there) ↦ ground arith
]

latest-found :
    (t : String) (p : Subscription → Bool) (rows : List Subscription) (s : Subscription)
    → IsDistinct rows
    → latest (keep p rows) ≡ some s
    → s.stripe_id ≡ some t
    → find (λ r. has_text t r.stripe_id) rows ≡ some s
unfolding latest
latest-found t p [] s d h e = ground arith
latest-found t p (r ∷ rows) s d h e = elim (latest-first p r rows s h) [
  | inl same ↦
      let has : has_text t r.stripe_id ≡ true =
        subst (λ (x : Subscription). has_text t x.stripe_id ≡ true) (sym same)
          (rw e (str_eq_refl t)) in
      rw has (ap some same)
  | inr there ↦
      let rest = latest-found t p rows s d.2 there e in
      let other = find-not-any (λ x. has_text t x.stripe_id) (clashes_with r) rows s rest d.1 in
      ground (arith, clashes_comm r.stripe_id s.stripe_id)
]

-- What `active_at_stripe` returns: a row with an owner, which its `stripe_id` finds.
pub record IsActiveRow (t : String) (s : Subscription) (db : Db) : Type 0 where
  pub has_id : s.stripe_id ≡ some t
  pub owned : has_owner s ≡ true
  pub found : get_by_stripe_id t db ≡ some s

active-IsActiveRow :
    (t : String) (c : Uuid) (s : Subscription) (db : Db)
    → IsDistinct db.subscriptions
    → get_active_for_customer c db ≡ some s
    → s.stripe_id ≡ some t
    → IsActiveRow t s db
unfolding get_active_for_customer get_by_stripe_id is_active_status
active-IsActiveRow t c s db d h e = record {
  has_id = e;
  owned =
      let holds = latest-holds (is_active_of c) db.subscriptions s h in
      elim (Option-cases s.stripe_customer_id) [
        | inl gone ↦ ground arith
        | inr (i, there) ↦ ground arith
      ];
  found = latest-found t (is_active_of c) db.subscriptions s d h e;
}

pub active_at_stripe-IsActiveRow :
    (c : Uuid) (db : Db) (s : Subscription) (t : String)
    → IsDistinct db.subscriptions
    → active_at_stripe c db ≡ some (s, t)
    → IsActiveRow t s db
unfolding active_at_stripe
active_at_stripe-IsActiveRow c db s t d h = elim (Option-cases (get_active_for_customer c db)) [
  | inl none_active ↦ ground arith
  | inr (r, there) ↦ elim (Option-cases r.stripe_id) [
    | inl no_id ↦ ground arith
    | inr (u, its) ↦
        let same : (r, u) ≡ (s, t) = ground arith in
        subst (λ (x : Subscription × String). IsActiveRow x.1 x.0 db) same
          (active-IsActiveRow u c r db d there its)
  ]
]

-- A saved copy of such a row, with the same identity, is what its `stripe_id` finds then.
pub save-active-Rewrites :
    (e : Env) (t : String) (active row : Subscription) (db db' : Db)
    → IsDistinct db.subscriptions
    → IsActiveRow t active db
    → row.id ≡ active.id
    → row.stripe_id ≡ active.stripe_id
    → has_owner row ≡ has_owner active
    → row.created_at ≡ active.created_at
    → save e row db ≡ (ok tt, db')
    → Rewrites t row db (ok tt, db')
save-active-Rewrites e t active row db db' d a same_id same_stripe_id same_owner same_time kept =
    let saved =
      save-Rewrites e t db active row d a.found same_id same_stripe_id (same_owner ∙ a.owned) in
    subst (λ out. Rewrites t row db out) kept
      (subst (λ r. Rewrites t r db (save e row db))
        (ap (λ c. record row { created_at = c }) (sym same_time)) saved)
