-- ===== src/Orgs/Seats.antt =====
-- The seat limit of core/apps/orgs: `lock_active_team_sub` and `accept_invitation`'s check in
-- services.py, `_validate_seat_limit` in views.py. A row lock is held to the end of the transaction, so
-- the checks are made on the tables that the writes find.
use saasmint.Base.{
  ℕ, ◌+◌, ◌&&◌, Option, none, some, List, [], ◌∷◌, ◌==◌, leb, ltb, if◌then◌else◌, is_some_of, any,
  count, keep,
}
use saasmint.Domain.{Uuid, Subscription, is_active_status, StripeCustomer, OrgMember, Invitation}
use saasmint.Database.{Db}
use saasmint.Database.Result.{Result, Error, ok, raise_if}
use saasmint.Orgs.Cascade.{points_to, is_pending}

-- `.first()` of a query without an order goes by the primary key.
unfoldable pub first_by_id : List Subscription → Option Subscription
first_by_id [] = none
first_by_id (s ∷ rows) = elim (first_by_id rows) [
  | none ↦ some s
  | some t ↦ if leb s.id t.id then some s else some t
]

unfoldable pub lock_active_team_sub : Uuid → Db → Option Subscription
unfolding first_by_id is_active_status
lock_active_team_sub org_id db = first_by_id (
    keep
      (λ (s : Subscription).
        points_to
          (λ i. any (λ (c : StripeCustomer). c.id == i && is_some_of c.org_id org_id) db.customers)
          s.stripe_customer_id
        && is_active_status s.status)
      db.subscriptions)

unfoldable pub member_count : Uuid → Db → ℕ
member_count org_id db = count (λ (m : OrgMember). m.org_id == org_id) db.members

unfoldable pub pending_count : Uuid → Db → ℕ
pending_count org_id db =
    count (λ (i : Invitation). i.org_id == org_id && is_pending i.status) db.invitations

-- `_validate_seat_limit`
unfoldable pub validate_seat_limit : Uuid → Db → Result (Unit {0})
unfolding lock_active_team_sub member_count pending_count
validate_seat_limit org_id db = elim (lock_active_team_sub org_id db) [
  | none ↦ ok tt
  | some sub ↦
      raise_if (leb sub.seat_limit (member_count org_id db + pending_count org_id db))
        Error.conflict
]

-- The check of `accept_invitation`.
unfoldable pub check_seat_at_accept : Uuid → Db → Result (Unit {0})
unfolding lock_active_team_sub member_count
check_seat_at_accept org_id db = elim (lock_active_team_sub org_id db) [
  | none ↦ ok tt
  | some sub ↦
      raise_if (ltb sub.seat_limit (member_count org_id db + 1)) Error.seat_cap_reached_at_accept
]
