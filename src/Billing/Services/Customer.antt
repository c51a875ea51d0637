-- ===== src/Billing/Services/Customer.antt =====
-- The Stripe customers of users, orgs and team checkouts.
pub mod Again
use saasmint.Base.{Bool, Option, none, some, String, is_some}
use saasmint.Domain.{Uuid, StripeCustomer}
use saasmint.Json.{Value, bool, str, Entries, end, entry}
use saasmint.Database.Result
use saasmint.Database.Result.{Result, ok, err, Error}
use saasmint.Stripe.{
  Stripe, Service, request, customer_create, attribute, pure, raise, lift, gets, on_db, ◌>>=◌,
}
use saasmint.Billing.Customers
use saasmint.Billing.Env.{Env, Texts}

-- The validation of the domain model: a text and a flag. The coercions of other values to a flag are left
-- out, and the model raises there.
unfoldable pub as_text : Value → Result String
as_text (str s) = ok s
as_text v = err Error.value_error

unfoldable pub as_flag : Value → Result Bool
as_flag (bool b) = ok b
as_flag v = err Error.value_error

abbrev pub owner_entry : Texts → String → Option Uuid → Entries → Entries
owner_entry t key none rest = rest
owner_entry t key (some i) rest = entry key (str (t.show_uuid i)) rest

-- The lookup of `get_or_create_customer`: the user's customer where there is a user, else the org's.
unfoldable pub existing_customer : (user_id org_id : Option Uuid) → Service (Option StripeCustomer)
unfolding Customers.get_by_user_id Customers.get_by_org_id
existing_customer (some u) org_id = gets (Customers.get_by_user_id u)
existing_customer none (some o) = gets (Customers.get_by_org_id o)
existing_customer none none = raise Error.value_error

-- The customer that is saved and returned.
abbrev pub saved_customer :
    Env → (stripe_id : String) (user_id org_id : Option Uuid) (livemode : Bool) → StripeCustomer
saved_customer e stripe_id user_id org_id livemode = record {
  id = e.fresh_id;
  stripe_id = stripe_id;
  user_id = user_id;
  org_id = org_id;
  livemode = livemode;
  created_at = e.now;
}

module _ (e : Env) (stripe : Stripe) (row_id : Uuid) where
  -- The creation of a customer at Stripe and of its row.
  unfoldable pub create_customer :
      (user_id org_id : Option Uuid) (email : String) (name : Option String) (locale : String)
      → Service StripeCustomer
  unfolding request attribute as_text as_flag Customers.save
  create_customer user_id org_id email name locale = do
    answer ← request stripe (
        customer_create email name locale
          (owner_entry e.texts "user_id" user_id (owner_entry e.texts "org_id" org_id end)))
    id_value ← lift (attribute "id" answer)
    livemode_value ← lift (attribute "livemode" answer)
    stripe_id ← lift (as_text id_value)
    livemode ← lift (as_flag livemode_value)
    on_db (Customers.save row_id e.now (saved_customer e stripe_id user_id org_id livemode))

  -- `get_or_create_customer`; `row_id` is the default of the column `id`.
  unfoldable pub get_or_create_customer :
      (user_id org_id : Option Uuid) (email : String) (name : Option String) (locale : String)
      → Service StripeCustomer
  unfolding existing_customer create_customer
  get_or_create_customer user_id org_id email name locale = do
    existing ← existing_customer user_id org_id
    elim existing [ some c ↦ pure c | none ↦ create_customer user_id org_id email name locale ]

-- `create_team_stripe_customer`: a customer at Stripe, and no row.
unfoldable pub create_team_stripe_customer :
    Texts
    → Stripe
    → (user_id : Uuid) (email : String) (name : Option String) (locale : String) → Service Value
unfolding request attribute
create_team_stripe_customer t stripe user_id email name locale = do
  answer ← request stripe (
      customer_create email name locale
        (entry "user_id" (str (t.show_uuid user_id)) (entry "scope" (str "team_checkout") end)))
  lift (attribute "id" answer)
