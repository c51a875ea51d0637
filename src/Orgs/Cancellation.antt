-- ===== src/Orgs/Cancellation.antt =====
-- `cancel_stripe_subs_task` of core/apps/orgs/tasks.py.
pub mod Attempts
pub mod Examples
use saasmint.Base.{
  Bool, true, false, Option, none, some, List, [], ◌∷◌, ◌++◌, String, if◌then◌else◌,
}
use saasmint.Json.{Value}
use saasmint.Database.Result.{Result, ok, err, Error}
use saasmint.Stripe.{Stripe, World, Service, Call, subscription_cancel_unprorated, request}

-- The errors of the Stripe SDK.
abbrev pub is_stripe_error : Error → Bool
is_stripe_error Error.stripe_error = true
is_stripe_error Error.resource_missing = true
is_stripe_error x = false

-- What is left of the loop: the failures so far, or the error that broke it off.
abbrev pub surface : List Error → Result (Unit {0})
surface [] = ok tt
surface (x ∷ failures) = err x

abbrev pub collect : List Error → Result Value → List Error
collect failures (ok v) = failures
collect failures (err Error.resource_missing) = failures
collect failures (err x) = failures ++ x ∷ []

abbrev pub breaks_off : Result Value → Option Error
breaks_off (ok v) = none
breaks_off (err x) = if is_stripe_error x then none else some x

-- The loop over the subscriptions: a failure of one does not keep the others from being tried.
unfoldable pub cancel_each : Stripe → List String → List Error → Service (Unit {0})
cancel_each stripe [] failures w = (surface failures, w)
cancel_each stripe (t ∷ ts) failures w =
    let call = subscription_cancel_unprorated t in
    let answer = stripe w.calls call in
    let rest =
      cancel_each stripe ts (collect failures answer) (record w { calls = w.calls ++ call ∷ [] }) in
    elim (breaks_off answer) [
      | some x ↦ (err x, record w { calls = w.calls ++ call ∷ [] })
      | none ↦ rest
    ]

-- `cancel_stripe_subs_task`; the org's id is for the log.
unfoldable pub cancel_stripe_subs_task : Stripe → List String → Service (Unit {0})
unfolding cancel_each
cancel_stripe_subs_task stripe ids = cancel_each stripe ids []
