-- ===== src/Orgs/Invitations.antt =====
-- The invitations of core/apps/orgs/views.py, with `accept_invitation` of services.py.
pub mod Capacity
pub mod Final
use text.Mathlib.Text.{◌==◌ as str_eq}
use saasmint.Users.Accounts.{insert_user}
use saasmint.Base.{
  ℕ, ◌+◌, Bool, true, false, not, ◌&&◌, ◌||◌, Option, none, some, List, [], ◌∷◌, ◌++◌, String, ◌==◌,
  ltb, if◌then◌else◌, find, any, update_where,
}
use saasmint.Domain.{
  Uuid, Time, Org, OrgMember, OrgRole, Invitation, InvitationStatus, pending, accepted, expired,
  cancelled, declined, User, OneTimeToken,
}
use saasmint.Database.{Db, Action, atomic, enqueue, send_invitation_email, send_verification_email}
use saasmint.Database.Result as R
use saasmint.Database.Result.{Result, ok, err, Error}
use saasmint.Orgs.Roles.{is_owner, admin_or_above, is_assignable}
use saasmint.Orgs.Members.{is_membership, get_org_and_member, owns_elsewhere}
use saasmint.Orgs.Cascade.{is_pending}
use saasmint.Orgs.Seats.{validate_seat_limit, check_seat_at_accept}

-- What the handlers take from outside: the clock, new ids and tokens, the comparison `__iexact` of the
-- database, Python's `str.lower`, Django's `normalize_email`, the request fields' validation, and SHA-256.
pub record Outside : Type 0 where
  pub now : Time
  pub fresh_id : Uuid
  pub fresh_token : String
  pub iexact : String → String → Bool
  pub lower : String → String
  pub normalize_email : String → String
  pub is_valid_email : String → Bool
  pub is_valid_name : String → Bool
  pub hash_token : String → ℕ

-- `INVITATION_EXPIRY_DAYS` in seconds.
abbrev pub invitation_lifetime : ℕ
invitation_lifetime = 604800

-- `EMAIL_VERIFICATION_LIFETIME` in seconds.
abbrev pub email_verification_lifetime : ℕ
email_verification_lifetime = 86400

unfoldable pub email_is_registered : Outside → String → Db → Bool
email_is_registered e email db = any (λ (u : User). e.iexact u.email email) db.users

abbrev pub is_pending_for : Uuid → String → Invitation → Bool
is_pending_for org_id email i = (i.org_id == org_id && str_eq i.email email) && is_pending i.status

-- `Invitation.objects.create`: the token is unique, and a pending one for the org and the email.
unfoldable pub insert_invitation : Invitation → Action (Unit {0})
insert_invitation i db =
    if any (λ (r : Invitation). str_eq r.token i.token) db.invitations
      || any (is_pending_for i.org_id i.email) db.invitations
    then (err Error.integrity_error, db)
    else (ok tt, record db { invitations = db.invitations ++ i ∷ [] })

-- The checks of `InvitationListCreateView.post` before its transaction.
unfoldable pub check_invitation :
    Outside → (user_id org_id : Uuid) (email : String) (role : OrgRole) → Db → Result (Unit {0})
unfolding get_org_and_member admin_or_above is_assignable email_is_registered
check_invitation e user_id org_id email role db =
    R.and_then (get_org_and_member user_id org_id admin_or_above db) λ caller.
      R.and_then (R.raise_if (not (e.is_valid_email email && is_assignable role)) Error.value_error)
        λ _.
          R.and_then (R.raise_if (email_is_registered e email db) Error.conflict)
            λ _. R.raise_if (any (is_pending_for org_id email) db.invitations) Error.conflict

abbrev pub new_invitation :
    Outside → (user_id org_id : Uuid) (email : String) (role : OrgRole) → Invitation
new_invitation e user_id org_id email role = record {
  id = e.fresh_id;
  org_id = org_id;
  email = email;
  role = role;
  token = e.fresh_token;
  status = pending;
  invited_by = some user_id;
  expires_at = e.now + invitation_lifetime;
}

-- `InvitationListCreateView.post`; its transaction writes once, and the email goes out at its commit.
unfoldable pub create_invitation :
    Outside → (user_id org_id : Uuid) (email : String) (role : OrgRole) → Action (Unit {0})
unfolding check_invitation validate_seat_limit insert_invitation enqueue
create_invitation e user_id org_id email role db =
    elim (R.and_then (check_invitation e user_id org_id email role db)
      λ _. validate_seat_limit org_id db) [
        | err x ↦ (err x, db)
        | ok _ ↦
            let (inserted, db') =
              insert_invitation (new_invitation e user_id org_id email role) db in
            elim inserted [
              | err x ↦ (err x, db)
              | ok _ ↦ enqueue (send_invitation_email email e.fresh_token) db'
            ]
      ]

-- `get_object_or_404(Invitation, token=token, status=PENDING)`
unfoldable pub get_pending : String → Db → Option Invitation
get_pending token db =
    find (λ (i : Invitation). str_eq i.token token && is_pending i.status) db.invitations

-- `invitation.status = status; invitation.save(update_fields=["status"])`
unfoldable pub save_status : Invitation → InvitationStatus → Db → Db
save_status i s db = record db {
  invitations =
      update_where (λ (r : Invitation). r.id == i.id) (λ r. record r { status = s }) db.invitations;
}

-- `InvitationCancelView.delete`
unfoldable pub cancel_invitation : (user_id org_id invitation_id : Uuid) → Action (Unit {0})
unfolding get_org_and_member admin_or_above save_status
cancel_invitation user_id org_id invitation_id db =
    elim (get_org_and_member user_id org_id admin_or_above db) [
      | err x ↦ (err x, db)
      | ok caller ↦
          elim (find
            (λ (i : Invitation).
              i.id == invitation_id && (i.org_id == org_id && is_pending i.status))
            db.invitations) [
              | none ↦ (err Error.not_found, db)
              | some i ↦ (ok tt, save_status i cancelled db)
            ]
    ]

-- `InvitationDeclineView.post`, for the signed-in user's email.
unfoldable pub decline_invitation : Outside → (user_email token : String) → Action (Unit {0})
unfolding get_pending save_status
decline_invitation e user_email token db = elim (get_pending token db) [
  | none ↦ (err Error.not_found, db)
  | some i ↦
      if str_eq (e.lower user_email) (e.lower i.email)
      then (ok tt, save_status i declined db)
      else (err Error.permission_denied, db)
]

-- `User.objects.create_user(password=None)`; the email is unique, and unique up to case.
unfoldable pub create_user : Outside → (email full_name : String) → Action (Unit {0})
unfolding insert_user
create_user e email full_name db =
    insert_user e.lower
      (record {
        id = e.fresh_id;
        email = e.normalize_email email;
        full_name = full_name;
        is_verified = false;
        is_active = true;
        has_password = false;
        password_changed_at = none;
      })
      db

-- `OrgMember.objects.create`, with the constraints of the table.
unfoldable pub insert_member : OrgMember → Action (Unit {0})
insert_member m db =
    if any (is_membership m.org_id m.user_id) db.members
      || (is_owner m.role && (not m.is_billing || owns_elsewhere m db.members))
    then (err Error.integrity_error, db)
    else (ok tt, record db { members = db.members ++ m ∷ [] })

-- `create_email_verification_token`
unfoldable pub create_email_verification_token : Outside → Db → Db
create_email_verification_token e db = record db {
  one_time_tokens =
      db.one_time_tokens
      ++ (record {
        user_id = e.fresh_id;
        token_hash = e.hash_token e.fresh_token;
        expires_at = e.now + email_verification_lifetime;
        used_at = none;
      })
        ∷ [];
}

abbrev pub invited_member : Outside → Invitation → OrgMember
invited_member e i = record {
  org_id = i.org_id;
  user_id = e.fresh_id;
  role = i.role;
  is_billing = false;
}

-- `accept_invitation`
unfoldable pub accept_invitation : Outside → Invitation → (full_name : String) → Action (Unit {0})
unfolding check_seat_at_accept create_user insert_member save_status create_email_verification_token
    enqueue
accept_invitation e i full_name db = elim (check_seat_at_accept i.org_id db) [
  | err x ↦ (err x, db)
  | ok _ ↦
      let (created, db1) = create_user e i.email full_name db in
      let (joined, db2) = insert_member (invited_member e i) db1 in
      elim created [
        | err x ↦ (err x, db)
        | ok _ ↦ elim joined [
          | err x ↦ (err x, db)
          | ok _ ↦
              enqueue (send_verification_email (e.normalize_email i.email) e.fresh_token)
                (create_email_verification_token e (save_status i accepted db2))
        ]
      ]
]

-- The view raises its own conflict for `SeatCapReachedAtAcceptError`.
abbrev pub at_view : Error → Error
at_view Error.seat_cap_reached_at_accept = Error.conflict
at_view x = x

-- `InvitationAcceptView.post`
unfoldable pub accept : Outside → (token full_name : String) → Action (Unit {0})
unfolding get_pending email_is_registered save_status accept_invitation
accept e token full_name db = elim (get_pending token db) [
  | none ↦ (err Error.not_found, db)
  | some i ↦
      if ltb i.expires_at e.now
      then (err Error.gone, save_status i expired db)
      else if email_is_registered e i.email db
      then (err Error.conflict, db)
      else if not (e.is_valid_name full_name)
      then (err Error.value_error, db)
      else let (r, db') = accept_invitation e i full_name db in
        elim r [ err x ↦ (err (at_view x), db') | ok _ ↦ (ok tt, db') ]
]
