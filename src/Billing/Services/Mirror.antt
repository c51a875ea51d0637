-- ===== src/Billing/Services/Mirror.antt =====
-- The mirror of the cancel state: what a cancellation and a resumption leave in the tables and ask of Stripe.
pub mod State
use mathlib.Core.Path.{subst}
use saasmint.Base.{
  ◌≡◌, ap, sym, ◌∙◌, Bool, some, List, [], ◌∷◌, ◌++◌, String, is_some, arith, inl, inr, Bool-cases,
  Option-cases,
}
use saasmint.Domain.{Uuid, Subscription}
use saasmint.Json.{Value}
use saasmint.Database.Result.{ok, err, Error, Result-cases}
use saasmint.Stripe.{
  Stripe, World, Call, subscription_retrieve, subscription_set_cancel_at, request, attribute, pure,
  raise, lift, gets, on_db, ◌>>=◌,
}
use saasmint.Billing.Env.{Env}
use saasmint.Billing.Repositories.{save}
use saasmint.Billing.Repositories.Distinct.{IsDistinct}
use saasmint.Billing.Repositories.Update.{Rewrites, has_owner}
use saasmint.Billing.Services.{cancel_state_from}
use saasmint.Billing.Services.Mirror.State.{IsCancelState, cancel_state_from-IsCancelState}
use saasmint.Billing.Services.Cancel.{
  active_at_stripe, release_schedule, release_pending_schedule, mirror_cancel_state,
  request_and_mirror, cancel_call, cancel_active, cancel_subscription, resume_subscription,
}
use saasmint.Billing.Services.Active.{
  IsActiveRow, active_at_stripe-IsActiveRow, save-active-Rewrites,
}

module _ (e : Env) (stripe : Stripe) where
  -- To release a schedule is a matter of Stripe: the tables stay, whatever it answers.
  pub release_schedule-db : (i : Value) (w : World) → (release_schedule e stripe i w).1.db ≡ w.db
  unfolding release_schedule request ◌>>=◌ pure raise lift gets on_db
  release_schedule-db i w = ground arith

  pub release_pending_schedule-db :
      (t : String) (w : World) → (release_pending_schedule e stripe t w).1.db ≡ w.db
  unfolding release_pending_schedule request ◌>>=◌ pure raise lift gets on_db
  release_pending_schedule-db t w = elim (Result-cases (stripe w.calls (subscription_retrieve t))) [
    | inr (x, failed) ↦ ground arith
    | inl (sub, answered) ↦ elim (Result-cases (attribute "schedule" sub)) [
      | inr (x, missing) ↦ ground arith
      | inl (i, there) ↦ ground (
        arith,
        release_schedule-db i (record w { calls = w.calls ++ subscription_retrieve t ∷ [] }),
      )
    ]
  ]

  request_and_mirror-ok :
      (active : Subscription) (call : Call) (w w' : World)
      → request_and_mirror e stripe active call w ≡ (ok tt, w')
      → (answer : Value) × (row : Subscription) × (stripe w.calls call ≡ ok answer)
        × (cancel_state_from active answer ≡ ok row)
        × (save e row w.db ≡ (ok tt, w'.db))
        × (w'.calls ≡ w.calls ++ call ∷ [])
  unfolding mirror_cancel_state request ◌>>=◌ pure raise lift gets on_db
  request_and_mirror-ok active call w w' h = elim (Result-cases (stripe w.calls call)) [
    | inr (x, failed) ↦ ground arith
    | inl (answer, answered) ↦ elim (Result-cases (cancel_state_from active answer)) [
      | inr (x, unread) ↦ ground arith
      | inl (row, read) ↦ elim (Result-cases (save e row w.db).0) [
        | inr (x, refused) ↦ ground arith
        | inl (done, kept) ↦ (answer, row, answered, read, ground arith, ground arith)
      ]
    ]
  ]

  request_and_mirror-err :
      (active : Subscription) (call : Call) (x : Error) (w w' : World)
      → request_and_mirror e stripe active call w ≡ (err x, w')
      → w'.db ≡ w.db
  unfolding mirror_cancel_state request save ◌>>=◌ pure raise lift gets on_db
  request_and_mirror-err active call x w w' h = elim (Result-cases (stripe w.calls call)) [
    | inr (y, failed) ↦ ground arith
    | inl (answer, answered) ↦ elim (Result-cases (cancel_state_from active answer)) [
      | inr (y, unread) ↦ ground arith
      | inl (row, read) ↦ ground arith
    ]
  ]

  cancel_active-err :
      (at_end : Bool) (active : Subscription) (t : String) (x : Error) (w w' : World)
      → cancel_active e stripe at_end (some (active, t)) w ≡ (err x, w')
      → w'.db ≡ w.db
  unfolding ◌>>=◌ pure raise lift gets on_db
  cancel_active-err at_end active t x w w' h =
      elim (Bool-cases (is_some active.scheduled_plan_id)) [
        | inr unpinned ↦
            request_and_mirror-err active (cancel_call e stripe at_end t) x w w' (ground arith)
        | inl pinned ↦
            let same = release_pending_schedule-db t w in
            elim (Result-cases (release_pending_schedule e stripe t w).0) [
              | inr (y, failed) ↦ ground arith
              | inl (done, released) ↦
                  request_and_mirror-err active (cancel_call e stripe at_end t) x
                    (release_pending_schedule e stripe t w).1 w' (ground arith)
                  ∙ same
            ]
      ]

  -- The failure of a cancellation, whatever failed, leaves the tables as they were.
  pub cancel_subscription-err :
      (customer : Uuid) (at_period_end : Bool) (x : Error) (w w' : World)
      → cancel_subscription e stripe customer at_period_end w ≡ (err x, w')
      → w'.db ≡ w.db
  unfolding cancel_subscription ◌>>=◌ pure raise lift gets on_db
  cancel_subscription-err customer at_end x w w' h =
      elim (Option-cases (active_at_stripe customer w.db)) [
        | inl missing ↦ ground arith
        | inr ((active, t), there) ↦ cancel_active-err at_end active t x w w' (rw there at h)
      ]

  -- The answer of Stripe that a step mirrored last, the request that it answered, and what the row became.
  pub record IsMirrored (active : Subscription) (t : String) (call : Call) (w w' : World)
      : Type 0 where
    pub earlier : List Call
    pub answer : Value
    pub row : Subscription
    pub asked : w'.calls ≡ earlier ++ call ∷ []
    pub answered : stripe earlier call ≡ ok answer
    pub read : IsCancelState active row answer
    pub mirrored : Rewrites t row w.db (ok tt, w'.db)

  request_and_mirror-IsMirrored :
      (active : Subscription) (t : String) (call : Call) (w w' : World)
      → IsDistinct w.db.subscriptions
      → IsActiveRow t active w.db
      → request_and_mirror e stripe active call w ≡ (ok tt, w')
      → IsMirrored active t call w w'
  unfolding ◌>>=◌ pure raise lift gets on_db
  request_and_mirror-IsMirrored active t call w w' d a h =
      let (answer, row, answered, read, kept, logged) = request_and_mirror-ok active call w w' h in
      let state = cancel_state_from-IsCancelState active row answer read in
      let same = state.kept in
      record {
        earlier = w.calls;
        answer = answer;
        row = row;
        asked = logged;
        answered = answered;
        read = state;
        mirrored =
            save-active-Rewrites e t active row w.db w'.db d a
              (ap (λ (x : Subscription). x.id) same) (ap (λ (x : Subscription). x.stripe_id) same)
              (ap has_owner same) (ap (λ (x : Subscription). x.created_at) same) kept;
      }

  -- Tables with the same rows of subscriptions mirror the same.
  from_released :
      (active : Subscription) (t : String) (call : Call) (w v w' : World)
      → v.db ≡ w.db
      → IsMirrored active t call v w'
      → IsMirrored active t call w w'
  from_released active t call w v w' same m = record {
    earlier = m.earlier;
    answer = m.answer;
    row = m.row;
    asked = m.asked;
    answered = m.answered;
    read = m.read;
    mirrored = subst (λ db. Rewrites t m.row db (ok tt, w'.db)) same m.mirrored;
  }

  cancel_active-IsMirrored :
      (at_end : Bool) (active : Subscription) (t : String) (w w' : World)
      → IsDistinct w.db.subscriptions
      → IsActiveRow t active w.db
      → cancel_active e stripe at_end (some (active, t)) w ≡ (ok tt, w')
      → IsMirrored active t (cancel_call e stripe at_end t) w w'
  unfolding ◌>>=◌ pure raise lift gets on_db
  cancel_active-IsMirrored at_end active t w w' d a h =
      elim (Bool-cases (is_some active.scheduled_plan_id)) [
        | inr unpinned ↦
            request_and_mirror-IsMirrored active t (cancel_call e stripe at_end t) w w' d a
              (ground arith)
        | inl pinned ↦
            let v = (release_pending_schedule e stripe t w).1 in
            let same : v.db ≡ w.db = release_pending_schedule-db t w in
            elim (Result-cases (release_pending_schedule e stripe t w).0) [
              | inr (y, failed) ↦ ground arith
              | inl (done, released) ↦
                  from_released active t (cancel_call e stripe at_end t) w v w' same (
                    request_and_mirror-IsMirrored active t (cancel_call e stripe at_end t) v w'
                      (subst (λ db. IsDistinct db.subscriptions) (sym same) d)
                      (subst (λ db. IsActiveRow t active db) (sym same) a) (ground arith))
            ]
      ]

  -- After a cancellation that succeeds, where the `stripe_id`s are distinct, the last request was the
  -- cancellation of the customer's active subscription, Stripe answered it, and the answer's cancel state is
  -- that of the row: the `stripe_id` finds the active row with the answer's two times, and with its status
  -- unless that is unknown, and every other one finds what it found.
  pub cancel_subscription-IsMirrored :
      (customer : Uuid) (at_period_end : Bool) (active : Subscription) (t : String) (w w' : World)
      → IsDistinct w.db.subscriptions
      → active_at_stripe customer w.db ≡ some (active, t)
      → cancel_subscription e stripe customer at_period_end w ≡ (ok tt, w')
      → IsMirrored active t (cancel_call e stripe at_period_end t) w w'
  unfolding cancel_subscription ◌>>=◌ pure raise lift gets on_db
  cancel_subscription-IsMirrored customer at_end active t w w' d there h =
      cancel_active-IsMirrored at_end active t w w' d
        (active_at_stripe-IsActiveRow customer w.db active t d there) (rw there at h)

  -- The same of a resumption, which asks to clear `cancel_at`.
  pub resume_subscription-IsMirrored :
      (customer : Uuid) (active : Subscription) (t : String) (w w' : World)
      → IsDistinct w.db.subscriptions
      → active_at_stripe customer w.db ≡ some (active, t)
      → resume_subscription e stripe customer w ≡ (ok tt, w')
      → IsMirrored active t (subscription_set_cancel_at t "") w w'
  unfolding resume_subscription ◌>>=◌ pure raise lift gets on_db
  resume_subscription-IsMirrored customer active t w w' d there h =
      request_and_mirror-IsMirrored active t (subscription_set_cancel_at t "") w w' d
        (active_at_stripe-IsActiveRow customer w.db active t d there) (rw there at h)
