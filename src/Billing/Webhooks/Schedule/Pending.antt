-- ===== src/Billing/Webhooks/Schedule/Pending.antt =====
-- What the schedule events do to the pending change of a subscription.
use saasmint.Base.{
  ℕ, ◌≡◌, refl, true, Option, none, some, String, arith, eq_of_==, eq_option, ◌&&◌, inl, inr,
  Bool-cases, not, is_some,
}
use saasmint.Domain.{Uuid, Time, Subscription, PlanPrice}
use saasmint.Json.{Value}
use saasmint.Json.Access.{get, truthy}
use saasmint.Database.{Db}
use saasmint.Database.Result.{ok}
use saasmint.Billing.Env.{Env, to_text}
use saasmint.Billing.Repositories.{get_by_stripe_id, get_price_by_stripe_id}
use saasmint.Billing.Repositories.Distinct.{IsDistinct}
use saasmint.Billing.Repositories.Update.{has_owner, Rewrites, save-Rewrites}
use saasmint.Billing.Webhooks.Payload.{parse_schedule_pending_change}
use saasmint.Billing.Webhooks.Schedule.{
  with_pending, without_pending, mirror_pending, clear_pending, mirror_change,
  on_subscription_schedule_upserted, on_subscription_schedule_cleared,
}

eq_option→eq : (a b : Option ℕ) → eq_option a b ≡ true → a ≡ b
eq_option→eq none none h = refl
eq_option→eq none (some b) h = cc
eq_option→eq (some a) none h = cc
eq_option→eq (some a) (some b) h = ground (arith, eq_of_== a b)

module _ (e : Env) (t : String) (db : Db) (s : Subscription) (d : IsDistinct db.subscriptions)
    (known : get_by_stripe_id t db ≡ some s) (owned : has_owner s ≡ true) where
  unchanged : (row : Subscription) → s ≡ row → Rewrites t row db (ok tt, db)
  unchanged row same = record {
    succeeds = refl;
    rewritten = rw (← same) known;
    others = λ t' n. refl;
  }

  mirror_pending-Rewrites :
      (plan : Uuid) (at : Time)
      → Rewrites t (with_pending plan at s) db (mirror_pending e plan at (some s) db)
  unfolding mirror_pending
  mirror_pending-Rewrites plan at =
      elim (Bool-cases
        (eq_option s.scheduled_plan_id (some plan) && eq_option s.scheduled_change_at (some at))) [
          | inl there ↦
              rw (mirror_pending, there)
                (unchanged (with_pending plan at s) (
                  ground (
                    arith,
                    eq_option→eq s.scheduled_plan_id (some plan),
                    eq_option→eq s.scheduled_change_at (some at),
                  )))
          | inr new ↦
              rw (mirror_pending, new)
                (save-Rewrites e t db s (with_pending plan at s) d known refl refl owned)
        ]

  clear_pending-Rewrites : Rewrites t (without_pending s) db (clear_pending e (some s) db)
  unfolding clear_pending
  clear_pending-Rewrites =
      elim (Bool-cases (not (is_some s.scheduled_plan_id) && not (is_some s.scheduled_change_at))) [
        | inl clear ↦ rw (clear_pending, clear) (unchanged (without_pending s) (ground arith))
        | inr set ↦
            rw (clear_pending, set)
              (save-Rewrites e t db s (without_pending s) d known refl refl owned)
      ]

-- A schedule event with a pending change to a known price, for a subscription of the table, succeeds: the
-- row then carries that plan and instant and is otherwise as before, and every other `stripe_id` finds
-- what it found.
pub on_subscription_schedule_upserted-Rewrites :
    (e : Env) (v u : Value) (price_id : String) (at : Time) (db : Db) (s : Subscription)
    (p : PlanPrice)
    → IsDistinct db.subscriptions
    → get "subscription" v ≡ ok u
    → truthy u ≡ true
    → parse_schedule_pending_change e.texts v ≡ ok (some (price_id, at))
    → get_price_by_stripe_id price_id db ≡ some p
    → get_by_stripe_id (to_text e.texts u) db ≡ some s
    → has_owner s ≡ true
    → Rewrites
        (to_text e.texts u)
        (with_pending p.plan_id at s)
        db
        (on_subscription_schedule_upserted e v db)
unfolding on_subscription_schedule_upserted mirror_change
on_subscription_schedule_upserted-Rewrites e v u price_id at db s p d attached set parsed priced
      known owned =
    rw (on_subscription_schedule_upserted, attached, set, parsed, mirror_change, priced, known)
      (mirror_pending-Rewrites e (to_text e.texts u) db s d known owned p.plan_id at)

-- A schedule event of the clearing kinds, for a subscription of the table, succeeds: the row then has no
-- pending change and is otherwise as before, and every other `stripe_id` finds what it found.
pub on_subscription_schedule_cleared-Rewrites :
    (e : Env) (v u : Value) (db : Db) (s : Subscription)
    → IsDistinct db.subscriptions
    → get "subscription" v ≡ ok u
    → truthy u ≡ true
    → get_by_stripe_id (to_text e.texts u) db ≡ some s
    → has_owner s ≡ true
    → Rewrites (to_text e.texts u) (without_pending s) db (on_subscription_schedule_cleared e v db)
unfolding on_subscription_schedule_cleared
on_subscription_schedule_cleared-Rewrites e v u db s d attached set known owned =
    rw (on_subscription_schedule_cleared, attached, set, known)
      (clear_pending-Rewrites e (to_text e.texts u) db s d known owned)
