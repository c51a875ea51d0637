-- ===== src/Orgs/Members/Transfer.antt =====
-- `OrgOwnerView.post` of core/apps/orgs/views.py: who owns the org afterwards.
use saasmint.Base.{
  ◌≡◌, refl, inl, inr, Bool, true, false, ◌&&◌, ◌||◌, Option, none, some, List, ◌==◌, if◌then◌else◌,
  find, update_where, arith, Bool-cases, Option-cases, find-eq-some, eq_of_==,
}
use saasmint.Domain.{Uuid, OrgMember, OrgRole, owner, admin, member}
use saasmint.Database.{Db}
use saasmint.Database.Result.{ok, Result-cases}
use saasmint.Orgs.Roles.{is_admin, owner_only}
use saasmint.Orgs.Members.{
  is_membership, get_member, get_org_and_member, owns_elsewhere, save_member, transfer_parties,
  transfer_ownership,
}
use saasmint.Orgs.Members.Owners.{
  IsDistinct, owns_org, owners, count-update_member, with_role, with_role-IsDistinct,
  find-with_role,
}

pub record IsParties (user_id org_id target_id : Uuid) (db : Db) (caller target : OrgMember)
    : Type 0 where
  pub caller_found : find (is_membership org_id user_id) db.members ≡ some caller
  pub target_found : find (is_membership org_id target_id) db.members ≡ some target
  pub caller_role : caller.role ≡ owner
  pub target_role : target.role ≡ admin

owner_only-eq : (r : OrgRole) → owner_only r ≡ true → r ≡ owner
unfolding owner_only
owner_only-eq owner h = refl
owner_only-eq admin h = cc
owner_only-eq member h = cc

is_admin-eq : (r : OrgRole) → is_admin r ≡ true → r ≡ admin
is_admin-eq owner h = cc
is_admin-eq admin h = refl
is_admin-eq member h = cc

pub caller_of :
    (user_id org_id : Uuid) (allowed : OrgRole → Bool) (db : Db) (m : OrgMember)
    → get_org_and_member user_id org_id allowed db ≡ ok m
    → (find (is_membership org_id user_id) db.members ≡ some m) × (allowed m.role ≡ true)
unfolding get_org_and_member get_member
caller_of user_id org_id allowed db m h = ground arith

-- What the guards of a transfer establish.
pub transfer_parties-found :
    (user_id org_id target_id : Uuid) (db : Db) (caller target : OrgMember)
    → transfer_parties user_id org_id target_id db ≡ ok (caller, target)
    → (get_org_and_member user_id org_id owner_only db ≡ ok caller)
      × (find (is_membership org_id target_id) db.members ≡ some target)
      × (is_admin target.role ≡ true)
unfolding transfer_parties get_member
transfer_parties-found user_id org_id target_id db caller target h =
    elim (Result-cases (get_org_and_member user_id org_id owner_only db)) [
      | inr (x, refused) ↦ ground arith
      | inl (m, found) ↦ elim (Option-cases (find (is_membership org_id target_id) db.members)) [
        | inl missing ↦ ground arith
        | inr (a, known) ↦ (ground arith, ground arith, ground arith)
      ]
    ]

pub transfer_parties-IsParties :
    (user_id org_id target_id : Uuid) (db : Db) (caller target : OrgMember)
    → transfer_parties user_id org_id target_id db ≡ ok (caller, target)
    → IsParties user_id org_id target_id db caller target
transfer_parties-IsParties user_id org_id target_id db caller target h =
    let (called, known, rank) =
      transfer_parties-found user_id org_id target_id db caller target h in
    let (found, allowed) = caller_of user_id org_id owner_only db caller called in
    record {
      caller_found = found;
      target_found = known;
      caller_role = owner_only-eq caller.role allowed;
      target_role = is_admin-eq target.role rank;
    }

-- The two writes of a transfer.
abbrev pub handed_over : OrgMember → OrgMember → List OrgMember → List OrgMember
handed_over caller target rows =
    update_where (is_membership caller.org_id caller.user_id) (with_role admin false)
      (update_where (is_membership target.org_id target.user_id) (with_role owner true) rows)

pub transfer_ownership-writes :
    (user_id org_id target_id : Uuid) (db db' : Db)
    → transfer_ownership user_id org_id target_id db ≡ (ok tt, db')
    → (caller : OrgMember) × (target : OrgMember) × IsParties user_id org_id target_id db caller
        target
      × (db'.members ≡ handed_over caller target db.members)
unfolding transfer_ownership save_member
transfer_ownership-writes user_id org_id target_id db db' h =
    elim (Result-cases (transfer_parties user_id org_id target_id db)) [
      | inr (x, refused) ↦ ground arith
      | inl ((caller, target), found) ↦ elim (Bool-cases (owns_elsewhere target db.members)) [
        | inl refused ↦ ground arith
        | inr free ↦ (
          caller,
          target,
          transfer_parties-IsParties user_id org_id target_id db caller target found,
          ground arith,
        )
      ]
    ]

find-handed_over :
    (caller target : OrgMember) (v w : Uuid) (rows : List OrgMember)
    → find (is_membership v w) (handed_over caller target rows)
      ≡ (elim (find (is_membership v w) rows) as (λ _. Option OrgMember) [
        | none ↦ none
        | some m ↦
            let half : OrgMember =
              if is_membership target.org_id target.user_id m then with_role owner true m else m in
            some (
              if is_membership caller.org_id caller.user_id m
              then with_role admin false half
              else half)
      ])
find-handed_over caller target v w rows =
    let first = find-with_role target.org_id target.user_id v w owner true rows in
    let second =
      find-with_role caller.org_id caller.user_id v w admin false
        (update_where (is_membership target.org_id target.user_id) (with_role owner true) rows) in
    elim (Option-cases (find (is_membership v w) rows)) [
      | inl missing ↦ rw (second, first, missing) refl
      | inr (m, found) ↦ rw (second, first, found) (ground arith)
    ]

module _ (user_id org_id target_id : Uuid) (db : Db) (caller target : OrgMember)
    (p : IsParties user_id org_id target_id db caller target) where
  caller_keys : (caller.org_id ≡ org_id) × (caller.user_id ≡ user_id)
  caller_keys =
      let match_ : is_membership org_id user_id caller ≡ true =
        find-eq-some (is_membership org_id user_id) db.members caller p.caller_found in
      (ground arith, ground arith)

  target_keys : (target.org_id ≡ org_id) × (target.user_id ≡ target_id)
  target_keys =
      let match_ : is_membership org_id target_id target ≡ true =
        find-eq-some (is_membership org_id target_id) db.members target p.target_found in
      (ground arith, ground arith)

  apart : (user_id == target_id) ≡ false
  apart = elim (Bool-cases (user_id == target_id)) [
    | inr other ↦ other
    | inl same ↦
        let one : user_id ≡ target_id = eq_of_== user_id target_id same in
        let found : find (is_membership org_id user_id) db.members ≡ some target =
          rw one p.target_found in
        let caller_found = p.caller_found in
        let caller_role = p.caller_role in let target_role = p.target_role in ground arith
  ]

  handed_over-other :
      (o u : Uuid)
      → (o == org_id && (u == user_id || u == target_id)) ≡ false
      → find (is_membership o u) (handed_over caller target db.members)
        ≡ find (is_membership o u) db.members
  handed_over-other o u other =
      let (co, cu) = caller_keys in
      let (to, tu) = target_keys in
      elim (Option-cases (find (is_membership o u) db.members)) [
        | inl missing ↦ rw (find-handed_over caller target o u db.members, missing) refl
        | inr (m, found) ↦
            let match_ = find-eq-some (is_membership o u) db.members m found in
            rw (find-handed_over caller target o u db.members, found) (ground arith)
      ]

  handed_over-owners :
      IsDistinct db.members
      → IsDistinct (handed_over caller target db.members)
        × ((o : Uuid) → owners o (handed_over caller target db.members) ≡ owners o db.members)
  unfolding owners
  handed_over-owners d =
      let (co, cu) = caller_keys in
      let (to, tu) = target_keys in
      let ne : (user_id == target_id) ≡ false = apart in
      let caller_role = p.caller_role in
      let target_role = p.target_role in
      let half : List OrgMember =
        update_where (is_membership target.org_id target.user_id) (with_role owner true)
          db.members in
      let halfway : IsDistinct half =
        with_role-IsDistinct target.org_id target.user_id owner true db.members d in
      let still : find (is_membership org_id user_id) half ≡ some caller =
        rw
          (
            find-with_role target.org_id target.user_id org_id user_id owner true db.members,
            p.caller_found,
          )
          (ground arith) in
      (
        with_role-IsDistinct caller.org_id caller.user_id admin false half halfway,
        λ o.
            let promoted =
              count-update_member (owns_org o) (with_role owner true) target.org_id target.user_id
                db.members target d (simp (to, tu, p.target_found)) in
            let demoted =
              count-update_member (owns_org o) (with_role admin false) caller.org_id caller.user_id
                half caller halfway (simp (co, cu, still)) in
            ground arith,
      )

-- A transfer that returns makes the target an owner with billing and the caller an admin without, and
-- changes no other membership.
pub transfer_ownership-roles :
    (user_id org_id target_id : Uuid) (db db' : Db)
    → transfer_ownership user_id org_id target_id db ≡ (ok tt, db')
    → (get_member org_id target_id db'
        ≡ some (record { org_id = org_id; user_id = target_id; role = owner; is_billing = true }))
      × (get_member org_id user_id db'
          ≡ some (record { org_id = org_id; user_id = user_id; role = admin; is_billing = false }))
      × ((o u : Uuid)
          → (o == org_id && (u == user_id || u == target_id)) ≡ false
          → get_member o u db' ≡ get_member o u db)
unfolding get_member
transfer_ownership-roles user_id org_id target_id db db' h =
    let (caller, target, p, written) =
      transfer_ownership-writes user_id org_id target_id db db' h in
    let (co, cu) = caller_keys user_id org_id target_id db caller target p in
    let (to, tu) = target_keys user_id org_id target_id db caller target p in
    let ne : (user_id == target_id) ≡ false = apart user_id org_id target_id db caller target p in
    let caller_found = p.caller_found in
    let target_found = p.target_found in
    (
      rw
          (
            get_member,
            written,
            find-handed_over caller target org_id target_id db.members,
            target_found,
          )
          (ground arith),
      rw
          (
            get_member,
            written,
            find-handed_over caller target org_id user_id db.members,
            caller_found,
          )
          (ground arith),
      λ o u other.
          rw (get_member, written)
            (handed_over-other user_id org_id target_id db caller target p o u other),
    )

-- A transfer that returns leaves every org with as many owners as it had, and the memberships distinct.
pub transfer_ownership-owners :
    (user_id org_id target_id : Uuid) (db db' : Db)
    → IsDistinct db.members
    → transfer_ownership user_id org_id target_id db ≡ (ok tt, db')
    → IsDistinct db'.members × ((o : Uuid) → owners o db'.members ≡ owners o db.members)
unfolding owners
transfer_ownership-owners user_id org_id target_id db db' d h =
    let (caller, target, p, written) =
      transfer_ownership-writes user_id org_id target_id db db' h in
    rw written (handed_over-owners user_id org_id target_id db caller target p d)
