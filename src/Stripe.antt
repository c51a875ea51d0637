-- ===== src/Stripe.antt =====
-- The Stripe SDK as the code calls it: the requests, with their arguments, and the steps that make them. Stripe
-- itself is a parameter: an answer for each request after each history of requests.
pub mod Log
pub mod Run
use saasmint.Base.{ℕ, Bool, Option, none, some, List, [], ◌∷◌, ◌++◌, String}
use saasmint.Json.{Value, null, obj, Entries}
use saasmint.Json.Access.{lookup, index}
use saasmint.Database.{Db, Action}
use saasmint.Database.Result
use saasmint.Database.Result.{Result, ok, err, Error}

pub data Proration : Type 0 where
  create_prorations no_proration : Proration

-- `items=[{"id": …, "price": …, "quantity": …}]` of `Subscription.modify`; the update of a seat count
-- leaves the price out.
pub record ItemParams : Type 0 where
  pub item_id : String
  pub price : Option String
  pub quantity : ℕ

-- A phase of a schedule: one item, from `start_date` to `end_date`, with no proration.
pub record Phase : Type 0 where
  pub price : String
  pub quantity : ℕ
  pub start_date : ℕ
  pub end_date : Option ℕ

pub data SessionMode : Type 0 where
  subscription_mode payment_mode : SessionMode

-- The parameters of `stripe.checkout.Session.create` that are not the same in every call.
pub record SessionParams : Type 0 where
  pub customer : Value
  pub client_reference_id : String
  pub mode : SessionMode
  pub price : String
  pub quantity : ℕ
  pub locale : String
  pub success_url : String
  pub cancel_url : String
  pub adaptive_pricing : Bool
  pub trial_period_days : Option ℕ
  pub metadata : Option Entries

-- The requests of `stripe.Customer`, `stripe.Subscription`, `stripe.SubscriptionSchedule`,
-- `stripe.Price`, `stripe.checkout` and `stripe.billing_portal` in the modelled code.
pub data Call : Type 0 where
  customer_create :
      (email : String) (name : Option String) (locale : String) (metadata : Entries) → Call
  customer_delete : String → Call
  subscription_retrieve subscription_cancel subscription_cancel_unprorated : String → Call
  subscription_set_cancel_at : (subscription cancel_at : String) → Call
  subscription_modify_items : String → ItemParams → Proration → Call
  schedule_retrieve schedule_release schedule_create_from : String → Call
  schedule_modify : (schedule : Value) → List Phase → Call
  price_retrieve : String → Call
  checkout_session_create : SessionParams → Call
  portal_session_create : (customer locale return_url : String) → Call

abbrev pub Stripe : Type 0
Stripe = List Call → Call → Result Value

-- The tables and the requests that were made, in their order.
pub record World : Type 0 where
  pub db : Db
  pub calls : List Call

abbrev pub Service {ℓ} : Type ℓ → Type ℓ
Service A = World → Result A × World

module _ {ℓ} {A : Type ℓ} where
  unfoldable pub pure : A → Service A
  pure a w = (ok a, w)

  unfoldable pub raise : Error → Service A
  raise x w = (err x, w)

  unfoldable pub lift : Result A → Service A
  lift r w = (r, w)

  unfoldable pub gets : (Db → A) → Service A
  gets f w = (ok (f w.db), w)

  -- A step on the tables alone.
  unfoldable pub on_db : Action A → Service A
  on_db m w = let (r, db') = m w.db in (r, record w { db = db' })

abbrev pub after {ℓ κ} :
    {A : Type ℓ} {B : Type κ} → Result A × World → (A → Service B) → Result B × World
after (ok a, w) f = f a w
after (err x, w) f = (err x, w)

infixl 5 ◌>>=◌ ◌>>◌
unfoldable pub ◌>>=◌ {ℓ κ} : {A : Type ℓ} {B : Type κ} → Service A → (A → Service B) → Service B
◌>>=◌ m f w = after (m w) f

abbrev pub ◌>>◌ {ℓ κ} : {A : Type ℓ} {B : Type κ} → Service A → Service B → Service B
m >> k = m >>= λ _. k

-- `await asyncio.to_thread(stripe.…, …)`
unfoldable pub request : Stripe → Call → Service Value
request stripe c w = (stripe w.calls c, record w { calls = w.calls ++ c ∷ [] })

-- `obj.name` of a Stripe object, which raises where the object has no such field.
unfoldable pub attribute : String → Value → Result Value
unfolding lookup
attribute k (obj r) = elim (lookup k r) [ none ↦ err Error.attribute_error | some v ↦ ok v ]
attribute k v = err Error.attribute_error

-- `_safe_get`
unfoldable pub safe_get : String → Value → Result Value
unfolding lookup
safe_get k null = ok null
safe_get k (obj r) = elim (lookup k r) [ none ↦ ok null | some v ↦ ok v ]
safe_get k v = err Error.type_error
