-- ===== src/Billing/Views/Checks.antt =====
-- The checks of a PATCH of a subscription in core/apps/billing/views.py, and `UpdateSubscriptionSerializer` of
-- core/apps/billing/serializers.py. The tables of prices are read only.
use text.Mathlib.Text.{◌==◌ as str_eq}
use saasmint.Base.{
  ℕ, Bool, true, not, ◌&&◌, ◌||◌, Option, none, some, String, ◌==◌, leb, ltb, if◌then◌else◌,
  is_some, any, find, pos, negsuc,
}
use saasmint.Domain.{Uuid, Plan, PlanContext, personal, team, PlanPrice, Subscription}
use saasmint.Database.{Db}
use saasmint.Database.Result as R
use saasmint.Database.Result.{Result, ok, err, Error, raise_if}
use saasmint.Json.{str}
use saasmint.Json.Access.{truthy}
use saasmint.Prices.Catalog.{PriceOwner, Catalog, LocalizedPrice, same_owner, plan_price}
use saasmint.Orgs.Seats.{member_count}

-- The body of a PATCH; `prorate` has a default.
pub record SubscriptionPatch : Type 0 where
  pub plan_price_id : Option Uuid
  pub prorate : Bool
  pub seat_limit : Option ℕ
  pub cancel_at_period_end : Option Bool

abbrev pub is_seat_limit : Option ℕ → Bool
is_seat_limit none = true
is_seat_limit (some n) = leb 1 n && leb n 10000

-- `UpdateSubscriptionSerializer.is_valid`
unfoldable pub is_valid_update : SubscriptionPatch → Bool
is_valid_update p =
    let has_plan_change = is_some p.plan_price_id || is_some p.seat_limit in
    let has_cancel_toggle = is_some p.cancel_at_period_end in
    is_seat_limit p.seat_limit
    && ((has_plan_change || has_cancel_toggle) && not (has_cancel_toggle && has_plan_change))

abbrev pub min_team_seats : ℕ
min_team_seats = 1

-- `_validate_quantity_for_context`
unfoldable pub validate_quantity_for_context : PlanContext → ℕ → Result ℕ
validate_quantity_for_context personal quantity =
    if quantity == 1 then ok 1 else err Error.validation_error
validate_quantity_for_context team quantity =
    if ltb quantity min_team_seats then err Error.validation_error else ok quantity

-- `_reject_seat_limit_below_member_count`
unfoldable pub reject_seat_limit_below_member_count : Uuid → ℕ → Db → Result (Unit {0})
unfolding member_count
reject_seat_limit_below_member_count org_id seat_limit db =
    raise_if (ltb seat_limit (member_count org_id db)) Error.seats_below_member_count

-- The plan of a foreign key.
abbrev pub plan_of : Uuid → Catalog → Option Plan
plan_of i c = find (λ (p : Plan). p.id == i) c.plans

abbrev pub is_active_plan : Uuid → Catalog → Bool
is_active_plan i c = any (λ (p : Plan). p.id == i && p.is_active) c.plans

-- `_get_active_plan_price`
unfoldable pub get_active_plan_price : Uuid → Catalog → Result PlanPrice
get_active_plan_price i c =
    elim (find (λ (p : PlanPrice). p.id == i && is_active_plan p.plan_id c) c.plan_prices) [
      | none ↦ err Error.not_found
      | some p ↦ ok p
    ]

-- `_localized_for_currency`: the row, and the price that Stripe has for it.
unfoldable pub localized_for_currency : PriceOwner → String → Catalog → Option LocalizedPrice
localized_for_currency owner currency c =
    find
      (λ (r : LocalizedPrice).
        same_owner r.key.owner owner
        && (str_eq r.key.currency currency && is_some r.stripe_price_id))
      c.localized_prices

-- `_resolve_plan_change_price`. The amount of a price that Stripe has is not negative.
unfoldable pub resolve_plan_change_price : PlanPrice → String → Catalog → Result (String × ℕ)
unfolding localized_for_currency truthy
resolve_plan_change_price p currency c =
    if str_eq currency "usd"
    then ok (p.stripe_price_id, p.amount)
    else elim (localized_for_currency (plan_price p.id) currency c) [
      | none ↦ err Error.validation_error
      | some r ↦ elim r.stripe_price_id [
        | none ↦ err Error.validation_error
        | some i ↦
            if truthy (str i)
            then ok (i, elim r.amount_minor [ pos n ↦ n | negsuc n ↦ 0 ])
            else err Error.validation_error
      ]
    ]

-- `if seat_limit is not None and org_id is not None`
unfoldable pub check_seats : (seat_limit : Option ℕ) (org_id : Option Uuid) → Db → Result (Unit {0})
unfolding reject_seat_limit_below_member_count
check_seats (some n) (some o) db = reject_seat_limit_below_member_count o n db
check_seats n o db = ok tt

-- The check of `_apply_seat_only` against the current plan.
unfoldable pub check_current_plan : Subscription → ℕ → Catalog → Result ℕ
unfolding validate_quantity_for_context
check_current_plan sub seat_limit c = elim (plan_of sub.plan_id c) [
  | none ↦ err Error.does_not_exist
  | some p ↦ validate_quantity_for_context p.context seat_limit
]

-- `_validate_quantity_for_plan`, where the request has both a plan and a seat limit.
unfoldable pub check_new_plan : PlanPrice → Option ℕ → Catalog → Result (Unit {0})
unfolding validate_quantity_for_context
check_new_plan p none c = ok tt
check_new_plan p (some n) c = elim (plan_of p.plan_id c) [
  | none ↦ err Error.does_not_exist
  | some plan ↦ R.and_then (validate_quantity_for_context plan.context n) (λ _. ok tt)
]

-- The plan of the request, checked against its seat limit.
unfoldable pub requested_plan : SubscriptionPatch → Catalog → Result (Option PlanPrice)
unfolding get_active_plan_price check_new_plan
requested_plan p c = elim p.plan_price_id [
  | none ↦ ok none
  | some i ↦
      R.and_then (get_active_plan_price i c)
        λ price. R.and_then (check_new_plan price p.seat_limit c) λ _. ok (some price)
]
