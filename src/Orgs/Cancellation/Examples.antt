-- ===== src/Orgs/Cancellation/Examples.antt =====
-- The theorems about the calls of Stripe that take an account or an org down, at the small tables.
use saasmint.Base.{some, none, ◌≡◌, [], ◌∷◌, ◌++◌, map, arith}
use saasmint.Database.Result.{ok, err, stripe_error}
use saasmint.Json.{null}
use saasmint.Samples.{db, user}
use saasmint.Stripe.{Stripe, World, subscription_cancel_unprorated}
use saasmint.Orgs.Cancellation.{surface, cancel_stripe_subs_task}
use saasmint.Orgs.Cancellation.Attempts.{
  RaisesOwnErrors, failures_of, cancel_stripe_subs_task-attempts,
}
use saasmint.Users.Deletion.{
  Faults, customer_row, orgs, broker, memberships, user_row, delete_account,
}
use saasmint.Database.Result.{Error}
use saasmint.Orgs.Cascade.{stripe_id_of}
use saasmint.Billing.Customers
use saasmint.Billing.Repositories.{get_active_for_user}
use saasmint.Users.Deletion.Erased.{Outcome, delete_account-Outcome}

-- The first request fails, and the later ones are answered.
abbrev stripe : Stripe
stripe = λ calls c. elim calls [ [] ↦ err stripe_error | _ ∷ _ ↦ ok null ]

stripe-RaisesOwnErrors : RaisesOwnErrors stripe
stripe-RaisesOwnErrors [] c x h = ground arith
stripe-RaisesOwnErrors (d ∷ calls) c x h = ground arith

abbrev world : World
world = record { db = record db { users = user 11 ∷ [] }; calls = [] }

cancel_stripe_subs_task-attempts_example :
    cancel_stripe_subs_task stripe ("sub_1" ∷ "sub_2" ∷ []) world ≡ (
      surface (failures_of stripe [] (map subscription_cancel_unprorated ("sub_1" ∷ "sub_2" ∷ []))),
      record world { calls = [] ++ map subscription_cancel_unprorated ("sub_1" ∷ "sub_2" ∷ []) },
    )
cancel_stripe_subs_task-attempts_example =
    cancel_stripe_subs_task-attempts stripe ("sub_1" ∷ "sub_2" ∷ []) world stripe-RaisesOwnErrors

abbrev answering : Stripe
answering = λ calls c. ok null

-- The database fails at the memberships.
abbrev failing : Faults
failing stage = elim stage [
  | memberships ↦ some Error.operational_error
  | customer_row ↦ none
  | orgs ↦ none
  | broker ↦ none
  | user_row ↦ none
]

delete_account-Outcome_example :
    Outcome 11
      (stripe_id_of (get_active_for_user 11 world.db))
      (Customers.get_by_user_id 11 world.db)
      world
      (delete_account answering failing 11 world)
delete_account-Outcome_example = delete_account-Outcome answering failing 11 world
