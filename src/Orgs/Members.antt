-- ===== src/Orgs/Members.antt =====
-- core/apps/orgs/views.py: the membership check of every org endpoint, the change of a member, and the
-- transfer of the ownership. A membership row is known by its org and user, which are unique together.

pub mod Owners
pub mod Transfer
pub mod Patch
use saasmint.Base.{
  ℕ, Bool, true, false, not, ◌&&◌, ◌||◌, Option, none, some, List, ◌==◌, if◌then◌else◌, get_or,
  is_some, find, any, update_where,
}
use saasmint.Domain.{Uuid, Org, OrgMember, OrgRole, owner, admin, member}
use saasmint.Database.{Db, Action, atomic, ◌>>◌}
use saasmint.Database.Result as R
use saasmint.Database.Result.{Result, ok, err, Error}
use saasmint.Orgs.Roles.{
  check_can_manage_member, check_can_assign_role, is_owner, is_admin, admin_or_above, owner_only,
  is_assignable,
}

abbrev pub is_membership : (org_id user_id : Uuid) → OrgMember → Bool
is_membership o u m = m.org_id == o && m.user_id == u

unfoldable pub get_member : (org_id user_id : Uuid) → Db → Option OrgMember
get_member o u db = find (is_membership o u) db.members

-- `_get_org_and_member`; a call without `allowed_roles` allows every role.
unfoldable pub get_org_and_member :
    (user_id org_id : Uuid) (allowed : OrgRole → Bool) → Db → Result OrgMember
unfolding get_member
get_org_and_member user_id org_id allowed db = elim (get_member org_id user_id db) [
  | none ↦
      if any (λ (r : Org). r.id == org_id) db.orgs
      then err Error.insufficient_permission
      else err Error.org_not_found
  | some m ↦ if allowed m.role then ok m else err Error.insufficient_permission
]

-- Whether another membership of the user is an owner's: the partial unique index
-- `uniq_org_owner_per_user` refuses a second.
abbrev pub owns_elsewhere : OrgMember → List OrgMember → Bool
owns_elsewhere m rows =
    any
      (λ (r : OrgMember). not (r.org_id == m.org_id) && (r.user_id == m.user_id && is_owner r.role))
      rows

-- `member.save(update_fields=["role", "is_billing"])`; the table also refuses an owner without billing.
unfoldable pub save_member : OrgMember → Action (Unit {0})
save_member m db =
    if is_owner m.role && (not m.is_billing || owns_elsewhere m db.members)
    then (err Error.integrity_error, db)
    else (
      ok tt,
      record db {
        members =
            update_where (is_membership m.org_id m.user_id)
              (λ r. record r { role = m.role; is_billing = m.is_billing }) db.members;
      },
    )

-- The body of a PATCH: the fields that the request gives.
pub record MemberPatch : Type 0 where
  pub role : Option OrgRole
  pub is_billing : Option Bool

-- `UpdateMemberSerializer.is_valid`
unfoldable pub is_valid_patch : MemberPatch → Bool
unfolding is_assignable
is_valid_patch p = elim p.role [ none ↦ true | some r ↦ is_assignable r ]

unfoldable pub check_new_role : (caller_role : OrgRole) → Option OrgRole → Result (Unit {0})
unfolding check_can_assign_role
check_new_role caller_role none = ok tt
check_new_role caller_role (some r) = check_can_assign_role caller_role r

-- The checks of `OrgMemberDetailView.patch`, with the row it is to save.
unfoldable pub patched_member :
    (user_id org_id member_user_id : Uuid) → MemberPatch → Db → Result OrgMember
unfolding get_org_and_member get_member admin_or_above check_can_manage_member is_valid_patch
    check_new_role
patched_member user_id org_id member_user_id p db =
    R.and_then (get_org_and_member user_id org_id admin_or_above db) λ caller.
      elim (get_member org_id member_user_id db) as (λ _. Result OrgMember) [
        | none ↦ err Error.not_found
        | some target ↦ R.and_then (check_can_manage_member caller.role target.role) λ _.
            R.and_then (R.raise_if (not (is_valid_patch p)) Error.value_error) λ _.
              R.and_then (check_new_role caller.role p.role) λ _. ok (record target {
                role = get_or p.role target.role;
                is_billing = get_or p.is_billing target.is_billing;
              })
      ]

-- `OrgMemberDetailView.patch`
unfoldable pub patch : (user_id org_id member_user_id : Uuid) → MemberPatch → Action (Unit {0})
unfolding patched_member save_member
patch user_id org_id member_user_id p db =
    elim (patched_member user_id org_id member_user_id p db) [
      | err x ↦ (err x, db)
      | ok m ↦ if is_some p.role || is_some p.is_billing then save_member m db else (ok tt, db)
    ]

-- The guards of `OrgMemberDetailView.delete`: the membership whose user it deletes.
unfoldable pub removed_member : (user_id org_id member_user_id : Uuid) → Db → Result OrgMember
unfolding get_org_and_member get_member admin_or_above check_can_manage_member
removed_member user_id org_id member_user_id db =
    R.and_then (get_org_and_member user_id org_id admin_or_above db) λ caller.
      elim (get_member org_id member_user_id db) as (λ _. Result OrgMember) [
        | none ↦ err Error.not_found
        | some target ↦
            R.and_then (R.raise_if (is_owner target.role) Error.insufficient_permission)
              λ _. R.and_then (check_can_manage_member caller.role target.role) λ _. ok target
      ]

-- The guards of `OrgOwnerView.post`: the caller's membership and the target's.
unfoldable pub transfer_parties :
    (user_id org_id target_id : Uuid) → Db → Result (OrgMember × OrgMember)
unfolding get_org_and_member get_member owner_only
transfer_parties user_id org_id target_id db =
    R.and_then (get_org_and_member user_id org_id owner_only db) λ caller.
      elim (get_member org_id target_id db) as (λ _. Result (OrgMember × OrgMember)) [
        | none ↦ err Error.not_found
        | some target ↦
            if is_admin target.role then ok (caller, target) else err Error.insufficient_permission
      ]

-- `OrgOwnerView.post`
unfoldable pub transfer_ownership : (user_id org_id target_id : Uuid) → Action (Unit {0})
unfolding transfer_parties save_member
transfer_ownership user_id org_id target_id db =
    elim (transfer_parties user_id org_id target_id db) [
      | err x ↦ (err x, db)
      | ok (caller, target) ↦
          atomic
            (save_member (record target { role = owner; is_billing = true })
              >> save_member (record caller { role = admin; is_billing = false }))
            db
    ]
