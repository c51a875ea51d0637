-- ===== src/Billing/Services/Cancel.antt =====
-- `cancel_subscription`, `resume_subscription` and the release of a pending schedule.
use saasmint.Base.{Bool, ◌||◌, Option, none, some, String, if◌then◌else◌, is_some}
use saasmint.Domain.{Uuid, Subscription}
use saasmint.Json.{Value}
use saasmint.Json.Access.{truthy, equals_text}
use saasmint.Database.{Db}
use saasmint.Database.Result.{Error}
use saasmint.Stripe.{
  Stripe, Service, Call, subscription_retrieve, subscription_cancel, subscription_set_cancel_at,
  schedule_retrieve, schedule_release, request, attribute, pure, raise, lift, gets, on_db, ◌>>=◌,
  ◌>>◌,
}
use saasmint.Billing.Env.{Env, to_text}
use saasmint.Billing.Repositories.{get_active_for_customer, save}
use saasmint.Billing.Services.{cancel_state_from}

-- The active subscription of a customer where it has a `stripe_id`.
unfoldable pub active_at_stripe : Uuid → Db → Option (Subscription × String)
active_at_stripe customer db = elim (get_active_for_customer customer db) [
  | none ↦ none
  | some s ↦ elim s.stripe_id [ none ↦ none | some t ↦ some (s, t) ]
]

-- `schedule.status in ("not_started", "active")`
unfoldable pub is_releasable : Value → Bool
unfolding equals_text
is_releasable status = equals_text "not_started" status || equals_text "active" status

module _ (e : Env) (stripe : Stripe) where
  unfoldable pub release_schedule : Value → Service (Unit {0})
  unfolding request attribute is_releasable to_text
  release_schedule schedule_id = do
    schedule ← request stripe (schedule_retrieve (to_text e.texts schedule_id))
    status ← lift (attribute "status" schedule)
    let release : Service (Unit {0}) = do
      released_id ← lift (attribute "id" schedule)
      _answer ← request stripe (schedule_release (to_text e.texts released_id))
      pure tt
    if is_releasable status then release else pure tt

  -- `_release_pending_schedule`
  unfoldable pub release_pending_schedule : String → Service (Unit {0})
  unfolding request attribute truthy
  release_pending_schedule stripe_id = do
    sub ← request stripe (subscription_retrieve stripe_id)
    schedule_id ← lift (attribute "schedule" sub)
    if truthy schedule_id then release_schedule schedule_id else pure tt

  -- `_mirror_cancel_state_from_stripe`
  unfoldable pub mirror_cancel_state : Subscription → Value → Service (Unit {0})
  unfolding cancel_state_from save
  mirror_cancel_state active stripe_sub = do
    row ← lift (cancel_state_from active stripe_sub)
    on_db (save e row)

  -- A request about the subscription whose answer is mirrored.
  abbrev pub request_and_mirror : Subscription → Call → Service (Unit {0})
  request_and_mirror active call = do
    stripe_sub ← request stripe call
    mirror_cancel_state active stripe_sub

  abbrev pub cancel_call : (at_period_end : Bool) → String → Call
  cancel_call at_period_end t =
      if at_period_end then subscription_set_cancel_at t "min_period_end" else subscription_cancel t

  abbrev pub cancel_active :
      (at_period_end : Bool) → Option (Subscription × String) → Service (Unit {0})
  cancel_active at_period_end none = raise Error.subscription_not_found
  cancel_active at_period_end (some (active, t)) =
      (if is_some active.scheduled_plan_id then release_pending_schedule t else pure tt)
      >> request_and_mirror active (cancel_call at_period_end t)

  -- `cancel_subscription`
  unfoldable pub cancel_subscription : Uuid → (at_period_end : Bool) → Service (Unit {0})
  cancel_subscription customer at_period_end = do
    active ← gets (active_at_stripe customer)
    cancel_active at_period_end active

  abbrev pub resume_active : Option (Subscription × String) → Service (Unit {0})
  resume_active none = raise Error.subscription_not_found
  resume_active (some (active, t)) = request_and_mirror active (subscription_set_cancel_at t "")

  -- `resume_subscription`
  unfoldable pub resume_subscription : Uuid → Service (Unit {0})
  resume_subscription customer = do active ← gets (active_at_stripe customer); resume_active active

  -- `active.scheduled_plan_id is not None or active.scheduled_change_at is not None`
  abbrev pub has_pending : Subscription → Bool
  has_pending s = is_some s.scheduled_plan_id || is_some s.scheduled_change_at

  abbrev pub clear_mirror : Subscription → Service (Unit {0})
  clear_mirror active =
      if has_pending active
      then on_db (save e (record active { scheduled_plan_id = none; scheduled_change_at = none }))
      else pure tt

  abbrev pub release_active : Option (Subscription × String) → Service (Unit {0})
  release_active none = raise Error.subscription_not_found
  release_active (some (active, t)) = release_pending_schedule t >> clear_mirror active

  -- `release_pending_schedule_for_customer`
  unfoldable pub release_pending_schedule_for_customer : Uuid → Service (Unit {0})
  release_pending_schedule_for_customer customer = do
    active ← gets (active_at_stripe customer)
    release_active active
