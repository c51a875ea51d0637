-- ===== src/Orgs/Examples.antt =====
-- The theorems about core/apps/orgs at a small org.
use text.Mathlib.Text.{◌==◌ as str_eq}
use saasmint.Base.{
  ◌+◌, ◌≤◌, ◌<◌, ◌≡◌, refl, Bool, true, false, ◌&&◌, none, some, ◌==◌, find, reject,
}
use saasmint.Domain.{Uuid, OrgMember, User, admin, member, Subscription}
use saasmint.Database.{Db}
use saasmint.Samples.{db, invitation}
use saasmint.Orgs.Roles.{org_role_rank}
use saasmint.Orgs.Members.{get_member, transfer_ownership, MemberPatch, patch}
use saasmint.Orgs.Members.Owners as Owners
use saasmint.Orgs.Members.Owners.{owners}
use saasmint.Orgs.Members.Transfer.{transfer_ownership-owners}
use saasmint.Orgs.Members.Patch.{patch-ranks}
use saasmint.Orgs.Cascade.{delete_orgs_db, has_other}
use saasmint.Orgs.Cascade.Survival.{delete_orgs_db-members, delete_orgs_db-survivors}
use saasmint.Orgs.Seats.{lock_active_team_sub, member_count, pending_count}
use saasmint.Orgs.Invitations.{Outside, create_invitation, get_pending, decline_invitation, accept}
use saasmint.Orgs.Invitations.Capacity.{create_invitation-within_seats, accept-seats}
use saasmint.Orgs.Invitations.Capacity

members-IsDistinct : Owners.IsDistinct db.members
unfolding Owners.IsDistinct
members-IsDistinct = (refl, (refl, (refl, (refl, tt))))

invitations-IsDistinct : Capacity.IsDistinct db.invitations
unfolding Capacity.IsDistinct
invitations-IsDistinct = (refl, tt)

abbrev outside : Outside
outside = record {
  now = 100;
  fresh_id = 60;
  fresh_token = "fresh";
  iexact = λ a b. str_eq a b;
  lower = λ t. t;
  normalize_email = λ t. t;
  is_valid_email = λ t. true;
  is_valid_name = λ t. true;
  hash_token = λ t. 77;
}

abbrev transferred : Db
transferred = (transfer_ownership 11 1 12 db).1

transfer_ownership-owners_example :
    Owners.IsDistinct transferred.members
    × ((o : Uuid) → owners o transferred.members ≡ owners o db.members)
unfolding Owners.IsDistinct transfer_ownership
transfer_ownership-owners_example =
    transfer_ownership-owners 11 1 12 db transferred members-IsDistinct refl

abbrev to_admin : MemberPatch
to_admin = record { role = some admin; is_billing = none }

patch-ranks_example :
    (caller : OrgMember) × (before : OrgMember) × (after : OrgMember) × (get_member 1 11 db
      ≡ some caller)
    × (get_member 1 13 db ≡ some before)
    × (get_member 1 13 (patch 11 1 13 to_admin db).1 ≡ some after)
    × (org_role_rank before.role < org_role_rank caller.role)
    × (org_role_rank after.role < org_role_rank caller.role)
    × ((o u : Uuid)
        → (o == 1 && u == 13) ≡ false
        → get_member o u (patch 11 1 13 to_admin db).1 ≡ get_member o u db)
unfolding patch
patch-ranks_example = patch-ranks 11 1 13 to_admin db (patch 11 1 13 to_admin db).1 refl

abbrev only_first : Uuid → Bool
only_first o = o == 1

delete_orgs_db-members_example :
    (delete_orgs_db only_first db).members
    ≡ reject (λ (m : OrgMember). only_first m.org_id) db.members
delete_orgs_db-members_example = delete_orgs_db-members only_first db

delete_orgs_db-survivors_example :
    find (λ (r : User). r.id == 12) (delete_orgs_db only_first db).users
    ≡ find (λ (r : User). r.id == 12) db.users
unfolding has_other
delete_orgs_db-survivors_example = delete_orgs_db-survivors only_first db 12 refl

abbrev invited : Db
invited = (create_invitation outside 11 1 "other@example.com" member db).1

abbrev joined : Db
joined = (accept outside "invite" "New User" db).1

accept-seats_example :
    ((o : Uuid)
      → member_count o joined + pending_count o joined ≡ member_count o db + pending_count o db)
    × ((sub : Subscription)
        → lock_active_team_sub 1 db ≡ some sub
        → member_count 1 joined ≤ sub.seat_limit)
unfolding accept get_pending
accept-seats_example =
    accept-seats outside "invite" "New User" db joined invitation invitations-IsDistinct refl refl

abbrev turned_down : Db
turned_down = (decline_invitation outside "new@example.com" "invite" db).1
