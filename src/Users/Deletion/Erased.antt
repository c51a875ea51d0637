-- ===== src/Users/Deletion/Erased.antt =====
-- What an account deletion leaves, and what its failure leaves.
use mathlib.Core.Path.{subst}
use saasmint.Base.{
  Bool, append_nil, append_assoc, ap, sym, ◌≡◌, refl, ◌∙◌, true, Option, none, some, String, ◌==◌,
  is_some_of, find, find-reject-none, arith, inl, inr, ◌⊎◌, List, [], ◌∷◌, ◌++◌, false,
  Option-cases,
}
use saasmint.Domain.{Uuid, User, StripeCustomer, Subscription, OrgMember, RefreshToken}
use saasmint.Database.{Db, ◌>>◌}
use saasmint.Database.Result.{Result, Error, ok, err}
use saasmint.Json.{Value}
use saasmint.Stripe.{Stripe, Call, World, subscription_cancel_unprorated, customer_delete, request}
use saasmint.Billing.Customers
use saasmint.Billing.Repositories.{get_active_for_user}
use saasmint.Orgs.Cascade.{delete_rows, points_to, stripe_id_of}
use saasmint.Users.Tokens.{find_user}
use saasmint.Users.Deletion.{
  unless_missing, stripe_request, Faults, customer_row, orgs, broker, memberships, user_row, commit,
  dispatched, calls_broker, without_orgs, without_memberships, pre_delete, hard_delete, erase,
  cancel_at_stripe, delete_at_stripe, erase_after, delete_after, delete_account,
}

-- No row of a user is left.
pub record IsErased (u : Uuid) (db : Db) : Type 0 where
  pub no_user : find (λ (r : User). r.id == u) db.users ≡ none
  pub no_customer : find (λ (c : StripeCustomer). is_some_of c.user_id u) db.customers ≡ none
  pub no_subscription : find (λ (s : Subscription). is_some_of s.user_id u) db.subscriptions ≡ none
  pub no_membership : find (λ (m : OrgMember). m.user_id == u) db.members ≡ none
  pub no_refresh_token : find (λ (t : RefreshToken). t.user_id == u) db.refresh_tokens ≡ none

points_to_own :
    (u : Uuid) (o : Option Uuid) → is_some_of o u ≡ true → points_to (λ i. i == u) o ≡ true
points_to_own u none h = h
points_to_own u (some i) h = h

hard_delete-IsErased : (u : Uuid) (db : Db) → IsErased u (hard_delete u db)
unfolding hard_delete delete_rows
hard_delete-IsErased u db = record {
  no_user = find-reject-none _ _ db.users λ x h. h;
  no_customer =
      find-reject-none _ _ db.customers λ x h. ground (arith, points_to_own u x.user_id h);
  no_subscription =
      find-reject-none _ _ db.subscriptions λ x h. ground (arith, points_to_own u x.user_id h);
  no_membership = find-reject-none _ _ db.members λ x h. ground arith;
  no_refresh_token = find-reject-none _ _ db.refresh_tokens λ x h. h;
}

abbrev without_customer : Option StripeCustomer → Db → Db
without_customer none db = db
without_customer (some c) db = Customers.delete c.id db

-- The tables after some of the steps: the customer's row is gone; the orgs too, with the task for their
-- subscriptions or without it; the memberships too.
abbrev pub Partly : Uuid → Option StripeCustomer → (db db' : Db) → Type 0
Partly u c db db' =
    let s1 = without_customer c db in
    let s2 = without_orgs u s1 in
    (db' ≡ s1)
    ⊎ ((db' ≡ s2) ⊎ ((db' ≡ record s2 { queue = s1.queue }) ⊎ (db' ≡ without_memberships u s2)))

-- The outcome of the steps on the tables.
abbrev pub After : Uuid → Option StripeCustomer → Db → Result (Unit {0}) × Db → Type 0
After u c db (ok a, db') = IsErased u db'
After u c db (err x, db') = (db' ≡ db) ⊎ Partly u c db db'

steps-After :
    (o b m r : Option Error) (called : Bool) (u : Uuid) (c : Option StripeCustomer) (db : Db)
    → After u c db (
        (((commit o (without_orgs u) >> dispatched b called (without_customer c db))
              >> commit m (without_memberships u))
            >> commit r (hard_delete u))
          (without_customer c db))
steps-After (some x) b m r called u c db = inr (inl refl)
steps-After none (some x) m r true u c db = inr (inr (inr (inl refl)))
steps-After none (some x) (some y) r false u c db = inr (inr (inl refl))
steps-After none (some x) none (some y) false u c db = inr (inr (inr (inr refl)))
steps-After none (some x) none none false u c db =
    hard_delete-IsErased u (without_memberships u (without_orgs u (without_customer c db)))
steps-After none none (some y) r called u c db = inr (inr (inl refl))
steps-After none none none (some y) called u c db = inr (inr (inr (inr refl)))
steps-After none none none none called u c db =
    hard_delete-IsErased u (without_memberships u (without_orgs u (without_customer c db)))

hooked-After :
    (faults : Faults) (u : Uuid) (c : Option StripeCustomer) (db : Db)
    → After u c db
        ((pre_delete faults u >> commit (faults user_row) (hard_delete u)) (without_customer c db))
unfolding pre_delete
hooked-After faults u c db =
    steps-After (faults orgs) (faults broker) (faults memberships) (faults user_row)
      (calls_broker u (without_customer c db)) u c db

customer-After :
    (k : Option Error) (faults : Faults) (u : Uuid) (c : StripeCustomer) (db : Db)
    → After u (some c) db (
        (commit k (Customers.delete c.id)
            >> (pre_delete faults u >> commit (faults user_row) (hard_delete u)))
          db)
customer-After (some x) faults u c db = inl refl
customer-After none faults u c db = hooked-After faults u (some c) db

erase-After :
    (faults : Faults) (u : Uuid) (c : Option StripeCustomer) (db : Db)
    → After u c db (erase faults u c db)
unfolding erase
erase-After faults u none db = hooked-After faults u none db
erase-After faults u (some c) db = customer-After (faults customer_row) faults u c db

-- The requests to Stripe.
abbrev cancels : Option String → List Call
cancels none = []
cancels (some t) = subscription_cancel_unprorated t ∷ []

abbrev deletes : Option StripeCustomer → List Call
deletes none = []
deletes (some c) = customer_delete c.stripe_id ∷ []

-- An outcome is a success that has asked Stripe and erased the user; or a failure that has kept the tables, or
-- that came after Stripe was asked and stopped between two steps.
abbrev pub Outcome :
    Uuid → Option String → Option StripeCustomer → World → Result (Unit {0}) × World → Type 0
Outcome u t c w (ok a, w') = (w'.calls ≡ w.calls ++ (cancels t ++ deletes c)) × IsErased u w'.db
Outcome u t c w (err x, w') =
    (w'.db ≡ w.db) ⊎ ((w'.calls ≡ w.calls ++ (cancels t ++ deletes c)) × Partly u c w.db w'.db)

abbrev with_calls : World → List Call → World
with_calls w cs = record w { calls = w.calls ++ cs }

Outcome-of_After :
    (u : Uuid) (t : Option String) (c : Option StripeCustomer) (w : World)
    (out : Result (Unit {0}) × Db)
    → After u c w.db out
    → Outcome u t c w (out.0, record (with_calls w (cancels t ++ deletes c)) { db = out.1 })
Outcome-of_After u t c w (ok a, db') h = (refl, h)
Outcome-of_After u t c w (err x, db') (inl kept) = inl kept
Outcome-of_After u t c w (err x, db') (inr stopped) = inr (refl, stopped)

unless_missing-world : (r : Result Value) (w : World) → (unless_missing (r, w)).1 ≡ w
unless_missing-world (ok v) w = refl
unless_missing-world (err Error.resource_missing) w = refl
unless_missing-world (err x) w = refl

module _ (stripe : Stripe) where
  cancel_at_stripe-world :
      (t : Option String) (w : World) → (cancel_at_stripe stripe t w).1 ≡ with_calls w (cancels t)
  unfolding stripe_request request
  cancel_at_stripe-world none w = rw (append_nil w.calls) refl
  cancel_at_stripe-world (some t) w = unless_missing-world _ _

  delete_at_stripe-world :
      (c : Option StripeCustomer) (w : World)
      → (delete_at_stripe stripe c w).1 ≡ with_calls w (deletes c)
  unfolding stripe_request request
  delete_at_stripe-world none w = rw (append_nil w.calls) refl
  delete_at_stripe-world (some c) w = unless_missing-world _ _

module _ (stripe : Stripe) (faults : Faults) where
  erase_after-Outcome :
      (u : Uuid) (t : Option String) (c : Option StripeCustomer) (w w2 : World)
      (r : Result (Unit {0}))
      → w2 ≡ with_calls w (cancels t ++ deletes c)
      → Outcome u t c w (erase_after stripe faults u c (r, w2))
  erase_after-Outcome u t c w w2 (err x) same = inl (ap (λ (v : World). v.db) same)
  erase_after-Outcome u t c w w2 (ok a) same =
      subst (λ v. Outcome u t c w (erase_after stripe faults u c (ok a, v))) (sym same)
        (Outcome-of_After u t c w (erase faults u c w.db) (erase-After faults u c w.db))

  delete_after-Outcome :
      (u : Uuid) (t : Option String) (c : Option StripeCustomer) (w w1 : World)
      (r : Result (Unit {0}))
      → w1 ≡ with_calls w (cancels t)
      → Outcome u t c w (delete_after stripe faults u c (r, w1))
  delete_after-Outcome u t c w w1 (err x) same = inl (ap (λ (v : World). v.db) same)
  delete_after-Outcome u t c w w1 (ok a) same =
      let both : with_calls (with_calls w (cancels t)) (deletes c)
          ≡ with_calls w (cancels t ++ deletes c) =
        ap (λ cs. record w { calls = cs }) (append_assoc w.calls (cancels t) (deletes c)) in
      erase_after-Outcome u t c w (delete_at_stripe stripe c w1).1 (delete_at_stripe stripe c w1).0
        (delete_at_stripe-world stripe c w1 ∙ (ap (λ v. with_calls v (deletes c)) same ∙ both))

  -- An account deletion that succeeds has asked Stripe to cancel the active subscription and to delete the customer, where
  -- there are such, and leaves no row of the user: not the user, nor a Stripe customer, a subscription, a membership or a
  -- refresh token of the user. One that fails, because Stripe, the database or the broker raised, leaves the
  -- tables as they were; or Stripe had been asked for both before, and the tables are those after a step that is committed by
  -- itself: the customer's row gone, then the orgs (with the task for the broker or without it), then the memberships.
  pub delete_account-Outcome :
      (u : Uuid) (w : World)
      → Outcome u
          (stripe_id_of (get_active_for_user u w.db))
          (Customers.get_by_user_id u w.db)
          w
          (delete_account stripe faults u w)
  unfolding delete_account
  delete_account-Outcome u w =
      let t = stripe_id_of (get_active_for_user u w.db) in
      let c = Customers.get_by_user_id u w.db in
      elim (Option-cases (find_user u w.db)) [
        | inl nobody ↦
            let refused : delete_account stripe faults u w ≡ (err Error.user_not_found, w) =
              rw (delete_account, nobody) refl in
            subst (Outcome u t c w) (sym refused) (inl refl)
        | inr (user, there) ↦
            let run : delete_account stripe faults u w
                ≡ delete_after stripe faults u c (cancel_at_stripe stripe t w) =
              rw (delete_account, there) refl in
            subst (Outcome u t c w) (sym run) (
              delete_after-Outcome u t c w (cancel_at_stripe stripe t w).1
                (cancel_at_stripe stripe t w).0 (cancel_at_stripe-world stripe t w))
      ]
