-- ===== src/Billing/Services/Performed.antt =====
-- The requests of a whole plan change.
use saasmint.Base.{ℕ, Bool, Option, List, String, ◌⊎◌}
use saasmint.Json.{Value}
use saasmint.Database.Result.{Result}
use saasmint.Stripe.{Stripe, Call}
use saasmint.Billing.Env.{Env}
use saasmint.Billing.Services.Steps.{IsDowngrade, SchedulesLater, ModifiesNow}

module _ (e : Env) (stripe : Stripe) (object_get : String → Value → Result Value) where
  -- The requests of a change that succeeds, for a plan item that was read.
  abbrev pub Performs :
      (stripe_id new_price : String) (amount : Option ℕ) (prorate : Bool) (q : ℕ)
      → (sub : Value) → List Call
      → Type 0
  Performs stripe_id new_price amount prorate q sub cs =
      (IsDowngrade amount sub × SchedulesLater sub new_price q cs)
      ⊎ ((¬ IsDowngrade amount sub) × ModifiesNow e sub stripe_id new_price prorate q cs)
