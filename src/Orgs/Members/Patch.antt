-- ===== src/Orgs/Members/Patch.antt =====
-- `OrgMemberDetailView.patch` of core/apps/orgs/views.py: what a change of a member can reach.
use saasmint.Base.{
  ◌<◌, ◌≡◌, refl, inl, inr, false, ◌&&◌, ◌||◌, some, ◌==◌, is_some, find, update_where, arith,
  Bool-cases, Option-cases, find-eq-some,
}
use saasmint.Domain.{Uuid, OrgMember, OrgRole, owner, admin, member}
use saasmint.Database.{Db}
use saasmint.Database.Result.{ok, Result-cases}
use saasmint.Orgs.Roles.{
  is_owner, admin_or_above, org_role_rank, check_can_manage_member, check_can_assign_role,
}
use saasmint.Orgs.Members.{
  is_membership, get_member, get_org_and_member, save_member, MemberPatch, patched_member, patch,
  is_valid_patch, check_new_role,
}
use saasmint.Orgs.Members.Owners.{
  IsDistinct, owns_org, owners, count-update_member, with_role, find-with_role, with_role-other,
}
use saasmint.Orgs.Members.Transfer.{caller_of}

-- What the guards of a patch establish of the row that it saves.
pub record IsPatch (user_id org_id member_user_id : Uuid) (db : Db) (m : OrgMember) : Type 0 where
  pub caller : OrgMember
  pub target : OrgMember
  pub caller_found : find (is_membership org_id user_id) db.members ≡ some caller
  pub target_found : find (is_membership org_id member_user_id) db.members ≡ some target
  pub same_row : (m.org_id ≡ org_id) × (m.user_id ≡ member_user_id)
  pub outranked : org_role_rank target.role < org_role_rank caller.role
  pub still_outranked : org_role_rank m.role < org_role_rank caller.role

pub patched_member-found :
    (user_id org_id member_user_id : Uuid) (p : MemberPatch) (db : Db) (m : OrgMember)
    → patched_member user_id org_id member_user_id p db ≡ ok m
    → IsPatch user_id org_id member_user_id db m
unfolding patched_member get_member is_valid_patch check_new_role check_can_manage_member
    check_can_assign_role
patched_member-found user_id org_id member_user_id p db m h =
    elim (Result-cases (get_org_and_member user_id org_id admin_or_above db)) [
      | inr (x, refused) ↦ ground arith
      | inl (caller, called) ↦
          elim (Option-cases (find (is_membership org_id member_user_id) db.members)) [
            | inl missing ↦ ground arith
            | inr (target, known) ↦
                let (found, allowed) = caller_of user_id org_id admin_or_above db caller called in
                let keys =
                  find-eq-some (is_membership org_id member_user_id) db.members target known in
                elim (Option-cases p.role) [
                  | inl keep_role ↦ record {
                    caller = caller;
                    target = target;
                    caller_found = found;
                    target_found = known;
                    same_row = (ground arith, ground arith);
                    outranked = ground arith;
                    still_outranked = ground arith;
                  }
                  | inr (r, new_role) ↦ record {
                    caller = caller;
                    target = target;
                    caller_found = found;
                    target_found = known;
                    same_row = (ground arith, ground arith);
                    outranked = ground arith;
                    still_outranked = ground arith;
                  }
                ]
          ]
    ]

not_owner : (r s : OrgRole) → org_role_rank r < org_role_rank s → is_owner r ≡ false
unfolding org_role_rank
not_owner owner owner h = ground arith
not_owner owner admin h = ground arith
not_owner owner member h = ground arith
not_owner admin s h = refl
not_owner member s h = refl

save-IsPatch :
    (user_id org_id member_user_id : Uuid) (db : Db) (m : OrgMember)
    → IsPatch user_id org_id member_user_id db m
    → save_member m db ≡ (
      ok tt,
      record db {
        members =
            update_where
              (is_membership org_id member_user_id)
              (with_role m.role m.is_billing)
              db.members;
      },
    )
unfolding save_member
save-IsPatch user_id org_id member_user_id db m q =
    let (same_org, same_user) = q.same_row in
    let low : is_owner m.role ≡ false = not_owner m.role q.caller.role q.still_outranked in
    rw (low, same_org, same_user) refl

-- A patch changes no org's number of owners, whether it succeeds or not.
pub patch-owners :
    (user_id org_id member_user_id : Uuid) (p : MemberPatch) (db : Db) (o : Uuid)
    → IsDistinct db.members
    → owners o ((patch user_id org_id member_user_id p db).1).members ≡ owners o db.members
unfolding owners patch
patch-owners user_id org_id member_user_id p db o d =
    elim (Result-cases (patched_member user_id org_id member_user_id p db)) [
      | inr (x, refused) ↦ rw (patch, refused) refl
      | inl (m, found) ↦ elim (Bool-cases (is_some p.role || is_some p.is_billing)) [
        | inr empty ↦ rw (patch, found, empty) refl
        | inl given ↦
            let q = patched_member-found user_id org_id member_user_id p db m found in
            let low : is_owner m.role ≡ false = not_owner m.role q.caller.role q.still_outranked in
            let was : is_owner q.target.role ≡ false =
              not_owner q.target.role q.caller.role q.outranked in
            let counted =
              count-update_member (owns_org o) (with_role m.role m.is_billing) org_id member_user_id
                db.members q.target d q.target_found in
            rw (patch, found, given, save-IsPatch user_id org_id member_user_id db m q)
              (ground arith)
      ]
    ]

-- A patch that changes the memberships is by a caller who outranks the member's role before and after,
-- and it changes no other membership.
pub patch-ranks :
    (user_id org_id member_user_id : Uuid) (p : MemberPatch) (db db' : Db)
    → patch user_id org_id member_user_id p db ≡ (ok tt, db')
    → (caller : OrgMember) × (before : OrgMember) × (after : OrgMember) × (get_member org_id user_id
          db
        ≡ some caller)
      × (get_member org_id member_user_id db ≡ some before)
      × (get_member org_id member_user_id db' ≡ some after)
      × (org_role_rank before.role < org_role_rank caller.role)
      × (org_role_rank after.role < org_role_rank caller.role)
      × ((o u : Uuid)
          → (o == org_id && u == member_user_id) ≡ false
          → get_member o u db' ≡ get_member o u db)
unfolding get_member patch
patch-ranks user_id org_id member_user_id p db db' h =
    elim (Result-cases (patched_member user_id org_id member_user_id p db)) [
      | inr (x, refused) ↦ ground arith
      | inl (m, found) ↦
          let q = patched_member-found user_id org_id member_user_id p db m found in
          elim (Bool-cases (is_some p.role || is_some p.is_billing)) [
            | inr empty ↦
                let same : db' ≡ db = ground arith in
                (
                  q.caller,
                  q.target,
                  q.target,
                  q.caller_found,
                  q.target_found,
                  rw same q.target_found,
                  q.outranked,
                  q.outranked,
                  λ o u other. rw same refl,
                )
            | inl given ↦
                let low : is_owner m.role ≡ false =
                  not_owner m.role q.caller.role q.still_outranked in
                let save = save-IsPatch user_id org_id member_user_id db m q in
                let written : db'.members
                    ≡ update_where (is_membership org_id member_user_id)
                        (with_role m.role m.is_billing) db.members =
                  ground arith in
                let key =
                  find-eq-some (is_membership org_id member_user_id) db.members q.target
                    q.target_found in
                (
                  q.caller,
                  q.target,
                  with_role m.role m.is_billing q.target,
                  q.caller_found,
                  q.target_found,
                  rw
                      (
                        written,
                        find-with_role org_id member_user_id org_id member_user_id m.role
                            m.is_billing db.members,
                        q.target_found,
                      )
                      (ground arith),
                  q.outranked,
                  q.still_outranked,
                  λ o u other. rw written (
                      with_role-other org_id member_user_id o u m.role m.is_billing db.members
                        other),
                )
          ]
    ]
