-- ===== src/Domain/Subscriptions.antt =====
-- core/core/saasmint_core/domain/subscription.py, stripe_customer.py, stripe_event.py, product.py, and
-- the credit ledger of core/apps/billing/models.py.
use saasmint.Base.{ℕ, Bool, true, false, Option, String, is_some, not}
use saasmint.Json.{Value}

abbrev pub Uuid : Type 0
Uuid = ℕ

abbrev pub Time : Type 0
Time = ℕ

pub data SubscriptionStatus : Type 0 where
  active trialing past_due canceled incomplete incomplete_expired paused unpaid : SubscriptionStatus

-- `status in ACTIVE_SUBSCRIPTION_STATUSES`
unfoldable pub is_active_status : SubscriptionStatus → Bool
is_active_status active = true
is_active_status trialing = true
is_active_status past_due = true
is_active_status canceled = false
is_active_status incomplete = false
is_active_status incomplete_expired = false
is_active_status paused = false
is_active_status unpaid = false

pub data PlanContext : Type 0 where
  personal team : PlanContext

pub data PlanInterval : Type 0 where
  month year : PlanInterval

-- The tier is one of 1, 2 and 3.
pub record Plan : Type 0 where
  pub id : Uuid
  pub name : String
  pub description : String
  pub context : PlanContext
  pub tier : ℕ
  pub interval : PlanInterval
  pub is_active : Bool

pub record PlanPrice : Type 0 where
  pub id : Uuid
  pub plan_id : Uuid
  pub stripe_price_id : String
  pub amount : ℕ

pub record Subscription : Type 0 where
  pub id : Uuid
  pub stripe_id : Option String
  pub stripe_customer_id : Option Uuid
  pub user_id : Option Uuid
  pub status : SubscriptionStatus
  pub plan_id : Uuid
  pub seat_limit : ℕ
  pub trial_ends_at : Option Time
  pub current_period_start : Time
  pub current_period_end : Time
  pub canceled_at : Option Time
  pub cancel_at : Option Time
  pub scheduled_plan_id : Option Uuid
  pub scheduled_change_at : Option Time
  pub currency : String
  pub created_at : Time

pub record StripeCustomer : Type 0 where
  pub id : Uuid
  pub stripe_id : String
  pub user_id : Option Uuid
  pub org_id : Option Uuid
  pub livemode : Bool
  pub created_at : Time

-- The validator `exactly_one_owner`.
unfoldable pub exactly_one_owner : StripeCustomer → Bool
exactly_one_owner c = elim (is_some c.user_id) [
  | true ↦ not (is_some c.org_id)
  | false ↦ is_some c.org_id
]

-- What `mark_failed` stores: `str(exc)`, or `f"{type(exc).__name__}: {exc}"`.
pub data ErrorText : Type 0 where
  plain : String → ErrorText
  with_class : String → ErrorText

pub record StripeEvent : Type 0 where
  pub id : Uuid
  pub stripe_id : String
  pub type : String
  pub livemode : Bool
  pub payload : Value
  pub processed_at : Option Time
  pub error : Option ErrorText
  pub created_at : Time

pub record Product : Type 0 where
  pub id : Uuid
  pub name : String
  pub credits : ℕ
  pub is_active : Bool

pub record CreditTransaction : Type 0 where
  pub user_id : Option Uuid
  pub org_id : Option Uuid
  pub amount : ℕ
  pub reason : String
  pub stripe_session_id : String

pub record CreditBalance : Type 0 where
  pub user_id : Option Uuid
  pub org_id : Option Uuid
  pub balance : ℕ
