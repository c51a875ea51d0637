-- ===== src/Users/Deletion.antt =====
-- `delete_account` of core/core/saasmint_core/services/gdpr.py with the hook that core/apps/users/views.py gives it.
pub mod Erased
use saasmint.Base.{
  Bool, false, Option, none, some, String, ◌==◌, reject, keep, true, [], ◌∷◌, if◌then◌else◌,
}
use saasmint.Domain.{Uuid, Subscription, StripeCustomer, OrgMember}
use saasmint.Json.{Value}
use saasmint.Database.{Db, Action, ◌>>◌}
use saasmint.Database.Result.{Result, ok, err, Error}
use saasmint.Stripe.{
  Stripe, World, Service, Call, subscription_cancel_unprorated, customer_delete, request,
}
use saasmint.Billing.Customers
use saasmint.Billing.Repositories.{get_active_for_user}
use saasmint.Orgs.Cascade.{
  delete_rows, delete_orgs_created_by_user, stripe_id_of, stripe_ids_of, created_by,
}
use saasmint.Users.Tokens.{find_user}

-- `_stripe_request`: what is missing at Stripe already is no error.
abbrev pub unless_missing : Result Value × World → Result (Unit {0}) × World
unless_missing (ok v, w) = (ok tt, w)
unless_missing (err Error.resource_missing, w) = (ok tt, w)
unless_missing (err x, w) = (err x, w)

unfoldable pub stripe_request : Stripe → Call → Service (Unit {0})
unfolding request
stripe_request stripe c w = unless_missing (request stripe c w)

-- The steps on the tables after Stripe is done, each committed by itself, and the call of the broker that follows
-- the deletion of the orgs.
pub data Stage : Type 0 where
  customer_row orgs broker memberships user_row : Stage

-- The error, if any, that the database or the broker raises at a step.
abbrev pub Faults : Type 0
Faults = Stage → Option Error

-- A step that raises leaves the tables as they were.
abbrev pub commit : Option Error → (Db → Db) → Action (Unit {0})
commit none f db = (ok tt, f db)
commit (some x) f db = (err x, db)

-- Whether `delete_orgs_created_by_user` hands a task to the broker.
unfoldable pub calls_broker : Uuid → Db → Bool
unfolding stripe_ids_of
calls_broker user_id db = elim (stripe_ids_of (keep (created_by user_id) db.orgs) db) [
  | [] ↦ false
  | t ∷ ts ↦ true
]

-- A task that the broker did not take is lost; the deletion before it is committed.
abbrev pub dispatched : Option Error → Bool → Db → Action (Unit {0})
dispatched none called old db = (ok tt, db)
dispatched (some x) called old db =
    if called then (err x, record db { queue = old.queue }) else (ok tt, db)

unfoldable pub without_orgs : Uuid → Db → Db
unfolding delete_orgs_created_by_user
without_orgs user_id db = (delete_orgs_created_by_user user_id db).1

unfoldable pub without_memberships : Uuid → Db → Db
without_memberships user_id db = record db {
  members = reject (λ (m : OrgMember). m.user_id == user_id) db.members;
}

-- `hard_delete`, with what the cascade takes along.
unfoldable pub hard_delete : Uuid → Db → Db
unfolding delete_rows
hard_delete user_id db = delete_rows (λ u. u == user_id) (λ o. false) db

abbrev pub delete_orgs : Faults → Uuid → Action (Unit {0})
delete_orgs faults user_id db =
    (commit (faults orgs) (without_orgs user_id)
        >> dispatched (faults broker) (calls_broker user_id db) db)
      db

-- `_pre_delete`: the orgs that the user created, then the memberships.
unfoldable pub pre_delete : Faults → Uuid → Action (Unit {0})
unfolding without_orgs without_memberships calls_broker
pre_delete faults user_id =
    delete_orgs faults user_id >> commit (faults memberships) (without_memberships user_id)

-- The rest when Stripe is done: the customer's row, the hook, the user.
unfoldable pub erase : Faults → Uuid → Option StripeCustomer → Action (Unit {0})
unfolding pre_delete hard_delete Customers.delete
erase faults user_id none =
    pre_delete faults user_id >> commit (faults user_row) (hard_delete user_id)
erase faults user_id (some c) =
    commit (faults customer_row) (Customers.delete c.id)
    >> (pre_delete faults user_id >> commit (faults user_row) (hard_delete user_id))

module _ (stripe : Stripe) where
  abbrev pub cancel_at_stripe : Option String → Service (Unit {0})
  cancel_at_stripe none w = (ok tt, w)
  cancel_at_stripe (some t) w = stripe_request stripe (subscription_cancel_unprorated t) w

  abbrev pub delete_at_stripe : Option StripeCustomer → Service (Unit {0})
  delete_at_stripe none w = (ok tt, w)
  delete_at_stripe (some c) w = stripe_request stripe (customer_delete c.stripe_id) w

module _ (stripe : Stripe) (faults : Faults) where
  abbrev pub erase_after :
      Uuid → Option StripeCustomer → Result (Unit {0}) × World → Result (Unit {0}) × World
  erase_after user_id customer (err x, w) = (err x, w)
  erase_after user_id customer (ok _, w) =
      let (result, db') = erase faults user_id customer w.db in (result, record w { db = db' })

  abbrev pub delete_after :
      Uuid → Option StripeCustomer → Result (Unit {0}) × World → Result (Unit {0}) × World
  delete_after user_id customer (err x, w) = (err x, w)
  delete_after user_id customer (ok _, w) =
      erase_after user_id customer (delete_at_stripe stripe customer w)

  -- `delete_account`
  unfoldable pub delete_account : Uuid → Service (Unit {0})
  unfolding find_user Customers.get_by_user_id get_active_for_user stripe_request erase
  delete_account user_id w = elim (find_user user_id w.db) [
    | none ↦ (err Error.user_not_found, w)
    | some user ↦
        delete_after user_id (Customers.get_by_user_id user_id w.db)
          (cancel_at_stripe stripe (stripe_id_of (get_active_for_user user_id w.db)) w)
  ]
