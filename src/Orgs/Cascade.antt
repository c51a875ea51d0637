-- ===== src/Orgs/Cascade.antt =====
-- The deletions of core/apps/orgs/services.py, core/apps/orgs/tasks.py and of the member endpoint in
-- core/apps/orgs/views.py, with the `on_delete` rules of the models' foreign keys.
pub mod Survival
use saasmint.Base.{
  ℕ, Bool, true, false, not, ◌&&◌, ◌||◌, Option, none, some, List, [], ◌∷◌, ◌++◌, String, ◌==◌,
  if◌then◌else◌, is_some_of, find, any, keep, reject, update_where, map,
}
use saasmint.Domain.{
  Uuid, Subscription, is_active_status, StripeCustomer, CreditTransaction, CreditBalance, Org,
  OrgMember, Invitation, InvitationStatus, pending, cancelled, User, RefreshToken, OneTimeToken,
  SocialAccount,
}
use saasmint.Database.{Db, Action, enqueue, cancel_stripe_subs}
use saasmint.Database.Result.{Result, ok, err}
use saasmint.Billing.Repositories.{latest}
use saasmint.Orgs.Members.{removed_member}

-- A foreign key into rows that are deleted.
abbrev pub points_to : (Uuid → Bool) → Option Uuid → Bool
points_to gone none = false
points_to gone (some i) = gone i

-- SET_NULL
abbrev pub unless_gone : (Uuid → Bool) → Option Uuid → Option Uuid
unless_gone gone none = none
unless_gone gone (some i) = if gone i then none else some i

abbrev pub lost_customer : (users orgs : Uuid → Bool) → StripeCustomer → Bool
lost_customer users orgs c = points_to users c.user_id || points_to orgs c.org_id

abbrev pub lost_subscription :
    (users orgs : Uuid → Bool) → List StripeCustomer → Subscription → Bool
lost_subscription users orgs customers s =
    points_to users s.user_id
    || points_to
        (λ i. any (λ (c : StripeCustomer). c.id == i && lost_customer users orgs c) customers)
        s.stripe_customer_id

-- The deletion of users and orgs with all that CASCADE takes along.
unfoldable pub delete_rows : (users orgs : Uuid → Bool) → Db → Db
delete_rows users orgs db = record db {
  customers = reject (lost_customer users orgs) db.customers;
  subscriptions = reject (lost_subscription users orgs db.customers) db.subscriptions;
  credit_transactions =
      reject (λ (t : CreditTransaction). points_to users t.user_id || points_to orgs t.org_id)
        db.credit_transactions;
  credit_balances =
      reject (λ (b : CreditBalance). points_to users b.user_id || points_to orgs b.org_id)
        db.credit_balances;
  orgs =
      map (λ (o : Org). record o { created_by = unless_gone users o.created_by })
        (reject (λ (o : Org). orgs o.id) db.orgs);
  members = reject (λ (m : OrgMember). users m.user_id || orgs m.org_id) db.members;
  invitations =
      map (λ (i : Invitation). record i { invited_by = unless_gone users i.invited_by })
        (reject (λ (i : Invitation). orgs i.org_id) db.invitations);
  users = reject (λ (u : User). users u.id) db.users;
  refresh_tokens = reject (λ (t : RefreshToken). users t.user_id) db.refresh_tokens;
  one_time_tokens = reject (λ (t : OneTimeToken). users t.user_id) db.one_time_tokens;
  reset_tokens = reject (λ (t : OneTimeToken). users t.user_id) db.reset_tokens;
  social_accounts = reject (λ (a : SocialAccount). users a.user_id) db.social_accounts;
}

abbrev pub is_pending : InvitationStatus → Bool
is_pending pending = true
is_pending _ = false

-- `_personal_subs_outer_ref_qs` for one user: `Exists` of it.
unfoldable pub has_personal_sub : Uuid → Db → Bool
unfolding is_active_status
has_personal_sub u db =
    any
      (λ (s : Subscription).
        is_some_of s.user_id u
        && (points_to
              (λ i. any (λ (c : StripeCustomer). c.id == i && is_some_of c.user_id u) db.customers)
              s.stripe_customer_id
            && is_active_status s.status))
      db.subscriptions

-- `other_memberships`: the user's memberships outside the orgs that go.
unfoldable pub has_other : (orgs : Uuid → Bool) (u : Uuid) → Db → Bool
has_other orgs u db = any (λ (m : OrgMember). m.user_id == u && not (orgs m.org_id)) db.members

-- `deletable_user_ids`
unfoldable pub is_deletable : (orgs : Uuid → Bool) → Db → Uuid → Bool
unfolding has_other has_personal_sub
is_deletable orgs db u =
    any (λ (m : OrgMember). m.user_id == u && orgs m.org_id) db.members
    && (not (has_other orgs u db) && not (has_personal_sub u db))

-- The transaction that `_delete_org_db_only` runs for one org and `delete_orgs_created_by_user` for a
-- batch: cancel the pending invitations, delete the users of these orgs alone, the memberships, the orgs.
unfoldable pub delete_orgs_db : (orgs : Uuid → Bool) → Db → Db
unfolding delete_rows is_deletable
delete_orgs_db orgs db =
    let cancelled_db : Db = record db {
      invitations =
          update_where (λ (i : Invitation). orgs i.org_id && is_pending i.status)
            (λ i. record i { status = cancelled }) db.invitations;
    } in
    let without_users = delete_rows (is_deletable orgs cancelled_db) (λ o. false) cancelled_db in
    let without_members : Db = record without_users {
      members = reject (λ (m : OrgMember). orgs m.org_id) without_users.members;
    } in
    delete_rows (λ u. false) orgs without_members

-- `_delete_org_db_only`
unfoldable pub delete_org_db_only : Uuid → Db → Db
unfolding delete_orgs_db
delete_org_db_only org_id db = delete_orgs_db (λ o. o == org_id) db

abbrev pub has_stripe_id : Option String → Bool
has_stripe_id none = false
has_stripe_id (some t) = true

-- `_get_active_stripe_sub`
unfoldable pub get_active_stripe_sub : Uuid → Db → Option Subscription
unfolding latest is_active_status
get_active_stripe_sub org_id db = latest (
    keep
      (λ (s : Subscription).
        points_to
          (λ i. any (λ (c : StripeCustomer). c.id == i && is_some_of c.org_id org_id) db.customers)
          s.stripe_customer_id
        && (is_active_status s.status && has_stripe_id s.stripe_id))
      db.subscriptions)

abbrev pub stripe_id_of : Option Subscription → Option String
stripe_id_of none = none
stripe_id_of (some s) = s.stripe_id

-- `delete_org`
unfoldable pub delete_org : Uuid → Action (Unit {0})
unfolding delete_org_db_only get_active_stripe_sub enqueue
delete_org org_id db = elim (stripe_id_of (get_active_stripe_sub org_id db)) [
  | none ↦ (ok tt, delete_org_db_only org_id db)
  | some t ↦ enqueue (cancel_stripe_subs (t ∷ [])) (delete_org_db_only org_id db)
]

-- `pending_stripe_sub_ids`
unfoldable pub stripe_ids_of : List Org → Db → List String
unfolding get_active_stripe_sub
stripe_ids_of [] db = []
stripe_ids_of (o ∷ orgs) db = elim (stripe_id_of (get_active_stripe_sub o.id db)) [
  | none ↦ stripe_ids_of orgs db
  | some t ↦ t ∷ stripe_ids_of orgs db
]

abbrev pub created_by : Uuid → Org → Bool
created_by u o = is_some_of o.created_by u

-- `delete_orgs_created_by_user`
unfoldable pub delete_orgs_created_by_user : Uuid → Action (Unit {0})
unfolding delete_orgs_db stripe_ids_of enqueue
delete_orgs_created_by_user user_id db = elim (keep (created_by user_id) db.orgs) [
  | [] ↦ (ok tt, db)
  | o ∷ orgs ↦
      let batch : Uuid → Bool = λ i. any (λ (r : Org). r.id == i) (o ∷ orgs) in
      elim (stripe_ids_of (o ∷ orgs) db) [
        | [] ↦ (ok tt, delete_orgs_db batch db)
        | t ∷ ts ↦ enqueue (cancel_stripe_subs (t ∷ ts)) (delete_orgs_db batch db)
      ]
]

-- `delete_org_on_subscription_cancel_task`
unfoldable pub delete_org_on_subscription_cancel_task : Uuid → Db → Db
unfolding delete_org_db_only
delete_org_on_subscription_cancel_task org_id db =
    if any (λ (r : Org). r.id == org_id) db.orgs then delete_org_db_only org_id db else db

-- `OrgMemberDetailView.delete`: `target_user.delete()` after the guards.
unfoldable pub remove_member : (user_id org_id member_user_id : Uuid) → Action (Unit {0})
unfolding removed_member delete_rows
remove_member user_id org_id member_user_id db =
    elim (removed_member user_id org_id member_user_id db) [
      | err x ↦ (err x, db)
      | ok target ↦ (ok tt, delete_rows (λ u. u == target.user_id) (λ o. false) db)
    ]
