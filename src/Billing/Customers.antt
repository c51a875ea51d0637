-- ===== src/Billing/Customers.antt =====
-- `DjangoStripeCustomerRepository` of core/apps/billing/repositories.py.
use text.Mathlib.Text.{◌==◌ as str_eq}
use saasmint.Base.{
  Bool, not, ◌&&◌, ◌||◌, Option, none, some, List, [], ◌∷◌, ◌++◌, String, ◌==◌, if◌then◌else◌,
  is_some_of, find, any, reject, update_where,
}
use saasmint.Domain.{Uuid, Time, StripeCustomer, exactly_one_owner, Subscription}
use saasmint.Database.{Db, Action}
use saasmint.Database.Result.{ok, err, Error}

unfoldable pub get_by_id : Uuid → Db → Option StripeCustomer
get_by_id i db = find (λ c. c.id == i) db.customers

unfoldable pub get_by_stripe_id : String → Db → Option StripeCustomer
get_by_stripe_id t db = find (λ c. str_eq c.stripe_id t) db.customers

unfoldable pub get_by_user_id : Uuid → Db → Option StripeCustomer
get_by_user_id u db = find (λ c. is_some_of c.user_id u) db.customers

unfoldable pub get_by_org_id : Uuid → Db → Option StripeCustomer
get_by_org_id o db = find (λ c. is_some_of c.org_id o) db.customers

-- Whether two nullable unique keys clash.
abbrev pub same_key : Option Uuid → Option Uuid → Bool
same_key none b = Bool.false
same_key (some a) b = is_some_of b a

-- The row that `save` writes to: that of the user, else that of the org, else that of the id.
abbrev pub is_row_of : StripeCustomer → StripeCustomer → Bool
is_row_of c r = elim c.user_id [
  | some u ↦ is_some_of r.user_id u
  | none ↦ elim c.org_id [ some o ↦ is_some_of r.org_id o | none ↦ r.id == c.id ]
]

-- The unique columns `stripe_id`, `user` and `org`.
abbrev pub clashes_with : StripeCustomer → StripeCustomer → Bool
clashes_with c r =
    str_eq r.stripe_id c.stripe_id || (same_key c.user_id r.user_id || same_key c.org_id r.org_id)

-- The unique constraints and the check constraint of the table refuse a row.
abbrev pub is_refused_customer : StripeCustomer → List StripeCustomer → Bool
is_refused_customer c rows =
    any (λ r. not (is_row_of c r) && clashes_with c r) rows || not (exactly_one_owner c)

-- The insert of a new row, with the default for its id.
unfoldable pub insert_customer : (id : Uuid) (now : Time) → StripeCustomer → Action (Unit {0})
unfolding exactly_one_owner
insert_customer id now c db =
    if any (clashes_with c) db.customers || not (exactly_one_owner c)
    then (err Error.integrity_error, db)
    else (
      ok tt,
      record db { customers = db.customers ++ (record c { id = id; created_at = now }) ∷ [] },
    )

-- `save`: an update or an insert by the owner. The id of an inserted row is a new one, since `id` is
-- neither in the lookup nor among the defaults, but the customer returned is the one given.
unfoldable pub save : (row_id : Uuid) (now : Time) → StripeCustomer → Action StripeCustomer
unfolding exactly_one_owner
save row_id now c db =
    if is_refused_customer c db.customers
    then (err Error.integrity_error, db)
    else if any (is_row_of c) db.customers
    then (
      ok c,
      record db {
        customers =
            update_where (is_row_of c) (λ r. record c { id = r.id; created_at = r.created_at })
              db.customers;
      },
    )
    else (
      ok c,
      record db { customers = db.customers ++ (record c { id = row_id; created_at = now }) ∷ [] },
    )

-- `delete`, with the cascade to the customer's subscriptions.
unfoldable pub delete : Uuid → Db → Db
delete i db = record db {
  customers = reject (λ (c : StripeCustomer). c.id == i) db.customers;
  subscriptions = reject (λ (s : Subscription). is_some_of s.stripe_customer_id i) db.subscriptions;
}
