-- ===== src/Billing/Webhooks/Schedule.antt =====
-- The schedule handlers: `_on_subscription_schedule_upserted` and `_on_subscription_schedule_cleared`.
pub mod Pending
use saasmint.Base.{◌&&◌, not, none, some, Option, String, eq_option, if◌then◌else◌, is_some}
use saasmint.Domain.{Uuid, Time, Subscription, PlanPrice}
use saasmint.Json.{Value}
use saasmint.Json.Access.{get, truthy}
use saasmint.Database.{Db, Action, pure, lift, gets, ◌>>=◌}
use saasmint.Billing.Env.{Env, to_text}
use saasmint.Billing.Repositories.{get_price_by_stripe_id, get_by_stripe_id, save}
use saasmint.Billing.Webhooks.Payload.{parse_schedule_pending_change}

abbrev pub with_pending : Uuid → Time → Subscription → Subscription
with_pending plan at s = record s { scheduled_plan_id = some plan; scheduled_change_at = some at }

abbrev pub without_pending : Subscription → Subscription
without_pending s = record s { scheduled_plan_id = none; scheduled_change_at = none }

-- The write of a pending change, which is left out where the row has it already.
unfoldable pub mirror_pending : Env → Uuid → Time → Option Subscription → Action (Unit {0})
mirror_pending e plan at none = pure tt
mirror_pending e plan at (some s) =
    if eq_option s.scheduled_plan_id (some plan) && eq_option s.scheduled_change_at (some at)
    then pure tt
    else save e (with_pending plan at s)

unfoldable pub clear_pending : Env → Option Subscription → Action (Unit {0})
clear_pending e none = pure tt
clear_pending e (some s) =
    if not (is_some s.scheduled_plan_id) && not (is_some s.scheduled_change_at)
    then pure tt
    else save e (without_pending s)

-- What follows once the payload holds a pending change.
unfoldable pub mirror_change : Env → String → String → Time → Action (Unit {0})
unfolding mirror_pending
mirror_change e sub_id price_id change_at = do
  plan_price ← gets (get_price_by_stripe_id price_id)
  existing ← gets (get_by_stripe_id sub_id)
  elim plan_price [ none ↦ pure tt | some p ↦ mirror_pending e p.plan_id change_at existing ]

abbrev pub mirror_parsed : Env → Value → Option (String × Time) → Action (Unit {0})
mirror_parsed e sub_value none = pure tt
mirror_parsed e sub_value (some change) =
    mirror_change e (to_text e.texts sub_value) change.0 change.1

abbrev pub mirror_schedule : Env → Value → Value → Action (Unit {0})
mirror_schedule e schedule_data sub_value = do
  pending ← lift (parse_schedule_pending_change e.texts schedule_data)
  mirror_parsed e sub_value pending

-- `_on_subscription_schedule_upserted`
unfoldable pub on_subscription_schedule_upserted : Env → Value → Action (Unit {0})
unfolding get truthy mirror_change to_text
on_subscription_schedule_upserted e schedule_data = do
  sub_value ← lift (get "subscription" schedule_data)
  if truthy sub_value then mirror_schedule e schedule_data sub_value else pure tt

abbrev pub clear_schedule : Env → Value → Action (Unit {0})
clear_schedule e sub_value db = clear_pending e (get_by_stripe_id (to_text e.texts sub_value) db) db

-- `_on_subscription_schedule_cleared`
unfoldable pub on_subscription_schedule_cleared : Env → Value → Action (Unit {0})
unfolding get truthy clear_pending to_text
on_subscription_schedule_cleared e schedule_data = do
  sub_value ← lift (get "subscription" schedule_data)
  if truthy sub_value then clear_schedule e sub_value else pure tt
