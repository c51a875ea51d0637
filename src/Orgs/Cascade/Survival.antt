-- ===== src/Orgs/Cascade/Survival.antt =====
-- What the deletions of Orgs/Cascade leave.
use saasmint.Base.{
  ◌≡◌, refl, ap, ◌∙◌, inl, inr, Bool, true, false, not, ◌&&◌, ◌||◌, some, List, [], ◌∷◌, ◌==◌, find,
  any, reject, arith, Bool-cases, Option-cases, find-eq-some, not-any-of-find, any-of-find-and,
  find-reject, reject-reject, reject-same, update_where, any-reject-same, any-map, count-reject,
  eq_of_==,
}
use saasmint.Domain.{Uuid, Org, OrgMember, User, Invitation, cancelled}
use saasmint.Database.{Db}
use saasmint.Database.Result.{ok, Result-cases}
use saasmint.Orgs.Roles.{is_owner, admin_or_above, check_can_manage_member}
use saasmint.Orgs.Members.{is_membership, get_member, get_org_and_member, removed_member}
use saasmint.Orgs.Members.Owners.{IsDistinct, owns_org, owners}
use saasmint.Orgs.Cascade.{
  is_pending, delete_rows, has_other, has_personal_sub, is_deletable, delete_orgs_db,
  delete_org_db_only, delete_org_on_subscription_cancel_task, remove_member,
}

-- No user who is deleted with orgs has a membership outside them.
stays :
    (orgs : Uuid → Bool) (db : Db)
    → any
        (λ (m : OrgMember). (is_deletable orgs db m.user_id || false) && not (orgs m.org_id))
        db.members
      ≡ false
unfolding is_deletable has_other
stays orgs db =
    elim (Option-cases (
      find (λ (m : OrgMember). (is_deletable orgs db m.user_id || false) && not (orgs m.org_id))
        db.members)) [
          | inl none_ ↦ not-any-of-find _ db.members none_
          | inr (m, found) ↦
              let holds =
                find-eq-some
                  (λ (r : OrgMember).
                    (is_deletable orgs db r.user_id || false) && not (orgs r.org_id))
                  db.members m found in
              let elsewhere : not (orgs m.org_id) ≡ true = ground arith in
              let other : has_other orgs m.user_id db ≡ true =
                any-of-find-and
                  (λ (r : OrgMember).
                    (is_deletable orgs db r.user_id || false) && not (orgs r.org_id))
                  (λ (r : OrgMember). r.user_id == m.user_id && not (orgs r.org_id)) db.members m
                  found (rw elsewhere (ground arith)) in
              ground arith
        ]

-- The deletion of orgs removes their memberships and no others.
pub delete_orgs_db-members :
    (orgs : Uuid → Bool) (db : Db)
    → (delete_orgs_db orgs db).members ≡ reject (λ (m : OrgMember). orgs m.org_id) db.members
unfolding delete_orgs_db delete_rows
delete_orgs_db-members orgs db =
    let cancelled_db : Db = record db {
      invitations =
          update_where (λ (i : Invitation). orgs i.org_id && is_pending i.status)
            (λ i. record i { status = cancelled }) db.invitations;
    } in
    rw
      (reject-reject (λ (m : OrgMember). orgs m.org_id)
        (λ m. is_deletable orgs cancelled_db m.user_id || false) db.members
        (stays orgs cancelled_db))
      (reject-same (λ (m : OrgMember). orgs m.org_id) db.members)

-- A user with a membership outside the orgs, or with an active personal subscription, or in none of
-- them, keeps the account when the orgs are deleted.
pub delete_orgs_db-survivors :
    (orgs : Uuid → Bool) (db : Db) (u : Uuid)
    → (has_other orgs u db
        || (has_personal_sub u db
            || not (any (λ (m : OrgMember). m.user_id == u && orgs m.org_id) db.members)))
      ≡ true
    → find (λ (r : User). r.id == u) (delete_orgs_db orgs db).users
      ≡ find (λ (r : User). r.id == u) db.users
unfolding delete_orgs_db delete_rows is_deletable has_other has_personal_sub
delete_orgs_db-survivors orgs db u h =
    let cancelled_db : Db = record db {
      invitations =
          update_where (λ (i : Invitation). orgs i.org_id && is_pending i.status)
            (λ i. record i { status = cancelled }) db.invitations;
    } in
    let kept : is_deletable orgs cancelled_db u ≡ false = ground arith in
    find-reject (λ (r : User). r.id == u) (λ v. false)
      (reject (λ v. is_deletable orgs cancelled_db v.id) db.users) (λ x e. refl)
    ∙ find-reject (λ (r : User). r.id == u) (λ v. is_deletable orgs cancelled_db v.id) db.users
        (λ x e. rw (eq_of_== x.id u e) kept)

org_deleted :
    (org_id : Uuid) (db : Db)
    → any (λ (r : Org). r.id == org_id) (delete_org_db_only org_id db).orgs ≡ false
unfolding delete_org_db_only delete_orgs_db delete_rows
org_deleted org_id db =
    any-map (λ (r : Org). r.id == org_id) _ _ (λ x. refl)
    ∙ any-reject-same (λ (r : Org). r.id == org_id) _

task_without_org :
    (org_id : Uuid) (db : Db)
    → any (λ (r : Org). r.id == org_id) db.orgs ≡ false
    → delete_org_on_subscription_cancel_task org_id db ≡ db
unfolding delete_org_on_subscription_cancel_task
task_without_org org_id db gone = rw gone refl

task_with_org :
    (org_id : Uuid) (db : Db)
    → any (λ (r : Org). r.id == org_id) db.orgs ≡ true
    → delete_org_on_subscription_cancel_task org_id db ≡ delete_org_db_only org_id db
unfolding delete_org_on_subscription_cancel_task
task_with_org org_id db known = rw known refl

-- After the task for an org there is no such org, and a second run of it changes nothing.
pub delete_org_on_subscription_cancel_task-again :
    (org_id : Uuid) (db : Db)
    → (any (λ (r : Org). r.id == org_id) (delete_org_on_subscription_cancel_task org_id db).orgs
        ≡ false)
      × (delete_org_on_subscription_cancel_task org_id
            (delete_org_on_subscription_cancel_task org_id db)
          ≡ delete_org_on_subscription_cancel_task org_id db)
delete_org_on_subscription_cancel_task-again org_id db =
    elim (Bool-cases (any (λ (r : Org). r.id == org_id) db.orgs)) [
      | inr gone ↦ (
        rw (task_without_org org_id db gone) gone,
        ap (delete_org_on_subscription_cancel_task org_id) (task_without_org org_id db gone),
      )
      | inl known ↦ (
        rw (task_with_org org_id db known) (org_deleted org_id db),
        rw (task_with_org org_id db known)
            (task_without_org org_id (delete_org_db_only org_id db) (org_deleted org_id db)),
      )
    ]

owns_no_row :
    (o u : Uuid) (rows : List OrgMember)
    → any (is_membership o u) rows ≡ false
    → any (λ (x : OrgMember). (x.user_id == u || false) && owns_org o x) rows ≡ false
owns_no_row o u [] h = refl
owns_no_row o u (x ∷ rows) h = ground (arith, owns_no_row o u rows)

removed_member-found :
    (user_id org_id member_user_id : Uuid) (db : Db) (m : OrgMember)
    → removed_member user_id org_id member_user_id db ≡ ok m
    → (find (is_membership org_id member_user_id) db.members ≡ some m) × (is_owner m.role ≡ false)
unfolding removed_member get_member check_can_manage_member
removed_member-found user_id org_id member_user_id db m h =
    elim (Result-cases (get_org_and_member user_id org_id admin_or_above db)) [
      | inr (x, refused) ↦ ground arith
      | inl (caller, called) ↦ ground arith
    ]

owns_not :
    (o u : Uuid) (rows : List OrgMember) (a : OrgMember)
    → IsDistinct rows
    → find (is_membership o u) rows ≡ some a
    → is_owner a.role ≡ false
    → any (λ (x : OrgMember). (x.user_id == u || false) && owns_org o x) rows ≡ false
unfolding IsDistinct
owns_not o u [] a d e r = refl
owns_not o u (x ∷ rows) a (h, d) e r = elim (Bool-cases (is_membership o u x)) [
  | inl found ↦
      let same_org : x.org_id ≡ o = ground arith in
      let same_user : x.user_id ≡ u = ground arith in
      let alone : any (is_membership o u) rows ≡ false = rw (same_org, same_user) at h in
      let rest = owns_no_row o u rows alone in ground arith
  | inr other ↦ ground (arith, owns_not o u rows a d)
]

-- The removal of a member leaves the org with its owners.
pub remove_member-owners :
    (user_id org_id member_user_id : Uuid) (db : Db)
    → IsDistinct db.members
    → owners org_id ((remove_member user_id org_id member_user_id db).1).members
      ≡ owners org_id db.members
unfolding owners remove_member delete_rows removed_member get_member
remove_member-owners user_id org_id member_user_id db d =
    elim (Result-cases (removed_member user_id org_id member_user_id db)) [
      | inr (x, refused) ↦ rw (remove_member, refused) refl
      | inl (m, found) ↦
          let (known, low) = removed_member-found user_id org_id member_user_id db m found in
          let key = find-eq-some (is_membership org_id member_user_id) db.members m known in
          let same : m.user_id ≡ member_user_id = ground arith in
          rw (remove_member, found, same)
            (count-reject (owns_org org_id) _ db.members
              (owns_not org_id member_user_id db.members m d known low))
    ]
