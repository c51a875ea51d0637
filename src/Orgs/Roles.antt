-- ===== src/Orgs/Roles.antt =====
-- core/core/saasmint_core/services/orgs.py: the role hierarchy and its two permission checks; and the
-- role tests of core/apps/orgs.
use saasmint.Base.{ℕ, Bool, true, false, leb}
use saasmint.Domain.{OrgRole, owner, admin, member}
use saasmint.Database.Result.{Result, Error, raise_if}

-- `ORG_ROLE_RANK`
unfoldable pub org_role_rank : OrgRole → ℕ
org_role_rank owner = 3
org_role_rank admin = 2
org_role_rank member = 1

unfoldable pub check_can_manage_member : (caller_role target_role : OrgRole) → Result (Unit {0})
unfolding org_role_rank
check_can_manage_member caller_role target_role =
    raise_if (leb (org_role_rank caller_role) (org_role_rank target_role))
      Error.insufficient_permission

unfoldable pub check_can_assign_role : (caller_role new_role : OrgRole) → Result (Unit {0})
unfolding org_role_rank
check_can_assign_role caller_role new_role =
    raise_if (leb (org_role_rank caller_role) (org_role_rank new_role))
      Error.insufficient_permission

abbrev pub is_owner : OrgRole → Bool
is_owner owner = true
is_owner admin = false
is_owner member = false

abbrev pub is_admin : OrgRole → Bool
is_admin owner = false
is_admin admin = true
is_admin member = false

-- `role in _ADMIN_OR_ABOVE`
unfoldable pub admin_or_above : OrgRole → Bool
admin_or_above owner = true
admin_or_above admin = true
admin_or_above member = false

-- `role in _OWNER_ONLY`
unfoldable pub owner_only : OrgRole → Bool
owner_only owner = true
owner_only admin = false
owner_only member = false

-- `role in _ASSIGNABLE_ROLES`, the choices of the serializers' `role` fields.
unfoldable pub is_assignable : OrgRole → Bool
is_assignable owner = false
is_assignable admin = true
is_assignable member = true
