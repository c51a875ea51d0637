-- ===== src/Database/State.antt =====
-- The tables, the queue of dispatched Celery tasks, and the monad of the code that works on them.
-- A raise keeps what was written, as in autocommit mode; `atomic` takes it back.
use saasmint.Base.{Bool, List, [], ◌∷◌, ◌++◌, String}
use saasmint.Domain.{
  Uuid, PlanPrice, Subscription, StripeCustomer, StripeEvent, Product, CreditTransaction,
  CreditBalance, Org, OrgMember, Invitation, User, RefreshToken, OneTimeToken, SocialAccount,
}
use saasmint.Database.Result
use saasmint.Database.Result.{Result, ok, err, Error}

-- The tasks that the modelled code hands to Celery with `.delay`.
pub data Task : Type 0 where
  process_stripe_webhook : Uuid → Task
  delete_org_on_subscription_cancel : Uuid → Task
  cancel_stripe_subs : List String → Task
  send_subscription_cancel_notice : (emails : List String) (label action : String) → Task
  send_invitation_email send_verification_email send_password_reset_email :
      (email token : String) → Task

pub record Db : Type 0 where
  pub plan_prices : List PlanPrice
  pub subscriptions : List Subscription
  pub customers : List StripeCustomer
  pub events : List StripeEvent
  pub products : List Product
  pub credit_transactions : List CreditTransaction
  pub credit_balances : List CreditBalance
  pub orgs : List Org
  pub members : List OrgMember
  pub invitations : List Invitation
  pub users : List User
  pub refresh_tokens : List RefreshToken
  pub one_time_tokens : List OneTimeToken
  pub reset_tokens : List OneTimeToken
  pub social_accounts : List SocialAccount
  pub queue : List Task

abbrev pub Action {ℓ} : Type ℓ → Type ℓ
Action A = Db → Result A × Db

module _ {ℓ} {A : Type ℓ} where
  abbrev pub pure : A → Action A
  pure a db = (ok a, db)

  abbrev pub raise : Error → Action A
  raise e db = (err e, db)

  abbrev pub lift : Result A → Action A
  lift r db = (r, db)

  abbrev pub gets : (Db → A) → Action A
  gets f db = (ok (f db), db)

  -- `with transaction.atomic():`
  abbrev pub atomic : Action A → Action A
  atomic m db = let (r, db') = m db in elim r [ ok a ↦ (ok a, db') | err e ↦ (err e, db) ]

infixl 5 ◌>>=◌ ◌>>◌
abbrev pub ◌>>=◌ {ℓ κ} : {A : Type ℓ} {B : Type κ} → Action A → (A → Action B) → Action B
◌>>=◌ m f db = let (r, db') = m db in elim r [ ok a ↦ f a db' | err e ↦ (err e, db') ]

abbrev pub ◌>>◌ {ℓ κ} : {A : Type ℓ} {B : Type κ} → Action A → Action B → Action B
m >> k = m >>= λ _. k

abbrev pub modify : (Db → Db) → Action (Unit {0})
modify f db = (ok tt, f db)

abbrev pub raise_if : Bool → Error → Action (Unit {0})
raise_if b e db = (Result.raise_if b e, db)

-- `task.delay(...)`, and `transaction.on_commit(lambda: task.delay(...))`: `atomic` takes the entry
-- back with the rest when the transaction does not commit.
unfoldable pub enqueue : Task → Action (Unit {0})
enqueue t db = (ok tt, record db { queue = db.queue ++ t ∷ [] })
