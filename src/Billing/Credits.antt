-- ===== src/Billing/Credits.antt =====
-- core/apps/billing/services.py: the credit grants for product checkouts. A number of credits is not
-- negative here; the source's guards `<= 0` treat a negative one as they treat zero. Every row has a
-- session here, as each that this code writes has; the limits of the columns are left out.
pub mod Ledger
use text.Mathlib.Text.{◌==◌ as str_eq}
use saasmint.Base.{
  ℕ, ◌+◌, Bool, true, false, Option, none, some, List, [], ◌∷◌, ◌++◌, String, ◌==◌, if◌then◌else◌,
  is_some, is_some_of, any, find, update_where,
}
use saasmint.Domain.{Uuid, Product, CreditTransaction, CreditBalance, Org, User}
use saasmint.Database.{Db, Action}
use saasmint.Database.Result.{Result, ok, err, Error}
use saasmint.Billing.Webhooks.Checkout.{ProductCheckout}

-- Whose credits: the `user=` or the `org=` of the call.
pub data Owner : Type 0 where
  user org : Uuid → Owner

abbrev pub owns : Owner → Option Uuid → Option Uuid → Bool
owns (user u) user_id org_id = is_some_of user_id u
owns (org o) user_id org_id = is_some_of org_id o

abbrev pub user_of : Owner → Option Uuid
user_of (user u) = some u
user_of (org o) = none

abbrev pub org_of : Owner → Option Uuid
org_of (user u) = none
org_of (org o) = some o

-- The owner that the two optional arguments name: exactly one of them has to be given.
unfoldable pub owner_of : (user_id org_id : Option Uuid) → Result Owner
owner_of none none = err Error.value_error
owner_of (some u) none = ok (user u)
owner_of none (some o) = ok (org o)
owner_of (some u) (some o) = err Error.value_error

abbrev pub has_session : String → List CreditTransaction → Bool
has_session session rows = any (λ (t : CreditTransaction). str_eq t.stripe_session_id session) rows

abbrev pub balance_of_owner : Owner → CreditBalance → Bool
balance_of_owner w b = owns w b.user_id b.org_id

abbrev pub new_balance : Owner → CreditBalance
new_balance w = record { user_id = user_of w; org_id = org_of w; balance = 0 }

-- `get_or_create(owner, defaults={"balance": 0})`
unfoldable pub with_balance : Owner → List CreditBalance → List CreditBalance
with_balance w rows =
    if is_some (find (balance_of_owner w) rows) then rows else rows ++ new_balance w ∷ []

-- `balance.balance += amount; balance.save()`
unfoldable pub add_to_balance : Owner → ℕ → List CreditBalance → List CreditBalance
add_to_balance w amount rows =
    update_where (balance_of_owner w) (λ b. record b { balance = b.balance + amount }) rows

-- The transaction of `grant_credits_for_session`: the insert of the ledger row conflicts with one of the
-- same session, and then nothing is written.
unfoldable pub grant_in_transaction : String → ℕ → String → Owner → Action Bool
unfolding with_balance add_to_balance
grant_in_transaction session amount reason w db =
    if has_session session db.credit_transactions then (ok false, db) else (
      ok true,
      record db {
        credit_transactions =
            db.credit_transactions
            ++ (record {
              user_id = user_of w;
              org_id = org_of w;
              amount = amount;
              reason = reason;
              stripe_session_id = session;
            })
              ∷ [];
        credit_balances = add_to_balance w amount (with_balance w db.credit_balances);
      },
    )

-- `grant_credits_for_session`
unfoldable pub grant_credits_for_session :
    (session : String) (amount : ℕ) (reason : String) (user_id org_id : Option Uuid) → Action Bool
unfolding owner_of grant_in_transaction
grant_credits_for_session session amount reason user_id org_id db = elim (owner_of user_id org_id) [
  | err x ↦ (err x, db)
  | ok w ↦
      if amount == 0
      then (err Error.value_error, db)
      else grant_in_transaction session amount reason w db
]

abbrev known_org : Uuid → Db → Bool
known_org o db = any (λ (r : Org). r.id == o) db.orgs

abbrev known_user : Uuid → Db → Bool
known_user u db = any (λ (r : User). r.id == u) db.users

-- The owner of a purchase: the org that is named, or else the user; `none` where the row is gone.
unfoldable pub purchase_owner : ProductCheckout → Db → Option (Option Uuid × Option Uuid)
purchase_owner c db = elim c.org_id [
  | some o ↦ if known_org o db then some (none, some o) else none
  | none ↦ if known_user c.user_id db then some (some c.user_id, none) else none
]

abbrev ignore_flag : Result Bool × Db → Result (Unit {0}) × Db
ignore_flag (ok granted, db) = (ok tt, db)
ignore_flag (err x, db) = (err x, db)

-- `on_product_checkout_completed`; `reason_of` is the formatting of `f"purchase:{product.name}"`.
unfoldable pub on_product_checkout_completed :
    (reason_of : String → String) → ProductCheckout → Action (Unit {0})
unfolding grant_credits_for_session purchase_owner
on_product_checkout_completed reason_of c db =
    elim (find (λ (p : Product). p.id == c.product_id) db.products) [
      | none ↦ (ok tt, db)
      | some product ↦ if product.credits == 0 then (ok tt, db) else elim (purchase_owner c db) [
        | none ↦ (ok tt, db)
        | some owner ↦ ignore_flag (
            grant_credits_for_session c.stripe_session_id product.credits (reason_of product.name)
              owner.0 owner.1 db)
      ]
    ]
