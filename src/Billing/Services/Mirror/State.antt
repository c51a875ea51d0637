-- ===== src/Billing/Services/Mirror/State.antt =====
-- What `_mirror_cancel_state_from_stripe` writes into the row, field by field, of the answer of Stripe.
use saasmint.Base.{◌≡◌, arith, inl, inr}
use saasmint.Domain.{Subscription}
use saasmint.Json.{Value}
use saasmint.Database.Result.{ok, Result-cases}
use saasmint.Stripe.{attribute}
use saasmint.Billing.Webhooks.Payload.{ts_to_dt}
use saasmint.Billing.Services.{cancel_state_from, mirrored_status}

-- The row is the active one but for the three fields, and these are the answer's: the two times as they stand
-- there, and its status unless that is unknown.
pub record IsCancelState (active row : Subscription) (answer : Value) : Type 0 where
  pub kept : row ≡ record active {
    cancel_at = row.cancel_at;
    canceled_at = row.canceled_at;
    status = row.status;
  }
  pub ends : (v : Value) × (attribute "cancel_at" answer ≡ ok v) × (ts_to_dt v ≡ ok row.cancel_at)
  pub canceled :
      (v : Value) × (attribute "canceled_at" answer ≡ ok v) × (ts_to_dt v ≡ ok row.canceled_at)
  pub state :
      (v : Value) × (attribute "status" answer ≡ ok v)
      × (row.status ≡ mirrored_status active.status v)

pub cancel_state_from-IsCancelState :
    (active row : Subscription) (answer : Value)
    → cancel_state_from active answer ≡ ok row
    → IsCancelState active row answer
unfolding cancel_state_from
cancel_state_from-IsCancelState active row answer h =
    elim (Result-cases (attribute "cancel_at" answer)) [
      | inr (x, missing) ↦ ground arith
      | inl (a, has_end) ↦ elim (Result-cases (attribute "canceled_at" answer)) [
        | inr (x, missing) ↦ ground arith
        | inl (c, has_canceled) ↦ elim (Result-cases (attribute "status" answer)) [
          | inr (x, missing) ↦ ground arith
          | inl (s, has_status) ↦ elim (Result-cases (ts_to_dt a)) [
            | inr (x, unread) ↦ ground arith
            | inl (end_time, ends) ↦ elim (Result-cases (ts_to_dt c)) [
              | inr (x, unread) ↦ ground arith
              | inl (canceled_time, canceled) ↦ record {
                kept = ground arith;
                ends = (a, has_end, ground arith);
                canceled = (c, has_canceled, ground arith);
                state = (s, has_status, ground arith);
              }
            ]
          ]
        ]
      ]
    ]
