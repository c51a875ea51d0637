-- ===== src/Orgs/Cancellation/Attempts.antt =====
-- Every subscription of the batch is tried.
use saasmint.Base.{
  append_assoc, append_nil, ◌≡◌, refl, ap, sym, true, none, List, [], ◌∷◌, ◌++◌, String, map, arith,
  inl, inr,
}
use saasmint.Json.{Value}
use saasmint.Database.Result.{Result, ok, err, Error, Result-cases}
use saasmint.Stripe.{Stripe, World, Call, subscription_cancel_unprorated}
use saasmint.Orgs.Cancellation.{
  is_stripe_error, surface, collect, breaks_off, cancel_each, cancel_stripe_subs_task,
}

-- Stripe answers, or the SDK raises one of its own errors.
abbrev pub RaisesOwnErrors : Stripe → Type 0
RaisesOwnErrors stripe =
    (calls : List Call) (c : Call) (x : Error) → stripe calls c ≡ err x → is_stripe_error x ≡ true

-- The errors in the answers to a list of requests, each after those before it, without the subscriptions that were gone.
abbrev pub failures_of : Stripe → List Call → List Call → List Error
failures_of stripe calls [] = []
failures_of stripe calls (c ∷ cs) =
    collect [] (stripe calls c) ++ failures_of stripe (calls ++ c ∷ []) cs

cancels : List String → List Call
cancels ts = map subscription_cancel_unprorated ts

never_breaks_off :
    (stripe : Stripe) (calls : List Call) (c : Call)
    → RaisesOwnErrors stripe
    → breaks_off (stripe calls c) ≡ none
never_breaks_off stripe calls c own = elim (Result-cases (stripe calls c)) [
  | inl (v, answered) ↦ rw answered refl
  | inr (x, failed) ↦ rw (failed, own calls c x failed) refl
]

errors_assoc : (xs ys zs : List Error) → (xs ++ ys) ++ zs ≡ xs ++ (ys ++ zs)
errors_assoc [] ys zs = refl
errors_assoc (x ∷ xs) ys zs = rw (errors_assoc xs ys zs) refl

errors_nil : (xs : List Error) → xs ++ [] ≡ xs
errors_nil [] = refl
errors_nil (x ∷ xs) = rw (errors_nil xs) refl

collect-split : (fs : List Error) (a : Result Value) → collect fs a ≡ fs ++ collect [] a
collect-split fs (ok v) = sym (errors_nil fs)
collect-split fs (err x) = ground (arith, errors_nil fs)

cancel_each-attempts :
    (stripe : Stripe) (ts : List String) (fs : List Error) (w : World)
    → RaisesOwnErrors stripe
    → cancel_each stripe ts fs w ≡ (
      surface (fs ++ failures_of stripe w.calls (cancels ts)),
      record w { calls = w.calls ++ cancels ts },
    )
unfolding cancel_each cancels
cancel_each-attempts stripe [] fs w own = rw (errors_nil fs, append_nil w.calls) refl
cancel_each-attempts stripe (t ∷ ts) fs w own =
    let call = subscription_cancel_unprorated t in
    let answer = stripe w.calls call in
    let v : World = record w { calls = w.calls ++ call ∷ [] } in
    let rest = cancel_each-attempts stripe ts (collect fs answer) v own in
    let later = failures_of stripe v.calls (cancels ts) in
    let failures : collect fs answer ++ later ≡ fs ++ (collect [] answer ++ later) =
      rw (collect-split fs answer) (errors_assoc fs (collect [] answer) later) in
    rw
      (
        cancel_each,
        never_breaks_off stripe w.calls call own,
        rest,
        append_assoc w.calls (call ∷ []) (cancels ts),
      )
      (ap (λ f. (surface f, record w { calls = w.calls ++ cancels (t ∷ ts) })) failures)

-- Where Stripe answers or the SDK raises its own errors: whatever fails, a cancellation of each subscription of the
-- batch is requested, in their order; the task fails just when one of the requests fails for another reason than that the
-- subscription is gone, and then with the first such error.
pub cancel_stripe_subs_task-attempts :
    (stripe : Stripe) (ids : List String) (w : World)
    → RaisesOwnErrors stripe
    → cancel_stripe_subs_task stripe ids w ≡ (
      surface (failures_of stripe w.calls (map subscription_cancel_unprorated ids)),
      record w { calls = w.calls ++ map subscription_cancel_unprorated ids },
    )
unfolding cancel_stripe_subs_task cancels
cancel_stripe_subs_task-attempts stripe ids w own = cancel_each-attempts stripe ids [] w own
