-- ===== src/Orgs/Invitations/Capacity.antt =====
-- The seat limit under the creation and the acceptance of invitations of Orgs/Invitations.
use text.Mathlib.Text.{◌==◌ as str_eq}
use saasmint.Base.{
  ◌+◌, ◌≤◌, ◌≡◌, refl, inl, inr, Bool, true, false, ◌&&◌, ◌||◌, some, List, [], ◌∷◌, ◌++◌, String,
  ◌==◌, leb, ltb, find, any, count, update_where, one_if, arith, Bool-cases, count-append,
  any-of-find-and, update_where-not-any, eq_of_==, ==_refl,
}
use saasmint.Domain.{Uuid, Subscription, OrgMember, OrgRole, Invitation, InvitationStatus, accepted}
use saasmint.Database.{Db, enqueue}
use saasmint.Database.Result.{ok, Result-cases}
use saasmint.Orgs.Cascade.{is_pending}
use saasmint.Orgs.Seats.{
  lock_active_team_sub, member_count, pending_count, validate_seat_limit, check_seat_at_accept,
}
use saasmint.Orgs.Invitations.{
  Outside, check_invitation, new_invitation, insert_invitation, create_invitation, get_pending,
  save_status, create_user, insert_member, create_email_verification_token, invited_member,
  accept_invitation, accept,
}

-- A created invitation leaves the members and the pending invitations of the org within the seat limit
-- of its active subscription.
pub create_invitation-within_seats :
    (e : Outside) (user_id org_id : Uuid) (email : String) (role : OrgRole) (db db' : Db)
    (sub : Subscription)
    → create_invitation e user_id org_id email role db ≡ (ok tt, db')
    → lock_active_team_sub org_id db ≡ some sub
    → member_count org_id db' + pending_count org_id db' ≤ sub.seat_limit
unfolding create_invitation validate_seat_limit insert_invitation enqueue member_count pending_count
create_invitation-within_seats e user_id org_id email role db db' sub h active =
    elim (Result-cases (check_invitation e user_id org_id email role db)) [
      | inr (x, refused) ↦ ground arith
      | inl (tt, checked) ↦
          let new : Invitation = new_invitation e user_id org_id email role in
          let counted =
            count-append (λ (i : Invitation). i.org_id == org_id && is_pending i.status)
              db.invitations (new ∷ []) in
          elim (Bool-cases
            (leb sub.seat_limit (member_count org_id db + pending_count org_id db))) [
              | inl full ↦ ground arith
              | inr free ↦ ground arith
            ]
    ]

-- What a successful `accept_invitation` wrote.
pub accept_invitation-writes :
    (e : Outside) (i : Invitation) (full_name : String) (db db' : Db)
    → accept_invitation e i full_name db ≡ (ok tt, db')
    → (check_seat_at_accept i.org_id db ≡ ok tt)
      × (db'.members ≡ db.members ++ invited_member e i ∷ [])
      × (db'.invitations
          ≡ update_where
              (λ (r : Invitation). r.id == i.id)
              (λ r. record r { status = accepted })
              db.invitations)
unfolding accept_invitation create_user insert_member save_status create_email_verification_token
    enqueue
accept_invitation-writes e i full_name db db' h =
    elim (Result-cases (check_seat_at_accept i.org_id db)) [
      | inr (x, refused) ↦ ground arith
      | inl (tt, seated) ↦ (seated, ground arith, ground arith)
    ]

-- No two invitations with one id or with one token.
unfoldable pub IsDistinct : List Invitation → Type 0
IsDistinct [] = Unit
IsDistinct (i ∷ rows) =
    (any (λ (r : Invitation). r.id == i.id || str_eq r.token i.token) rows ≡ false)
    × IsDistinct rows

abbrev with_status : InvitationStatus → Invitation → Invitation
with_status s i = record i { status = s }

abbrev reserves : Uuid → Invitation → Bool
reserves o i = i.org_id == o && is_pending i.status

no_row_of_id :
    (i : Invitation) (rows : List Invitation)
    → any (λ (r : Invitation). r.id == i.id || str_eq r.token i.token) rows ≡ false
    → any (λ (r : Invitation). r.id == i.id) rows ≡ false
no_row_of_id i [] h = refl
no_row_of_id i (x ∷ rows) h = ground (arith, no_row_of_id i rows)

-- A row found by its token that stops being pending gives one reserved seat back.
count-settled :
    (o : Uuid) (t : String) (s : InvitationStatus) (rows : List Invitation) (a : Invitation)
    → IsDistinct rows
    → is_pending s ≡ false
    → find (λ (i : Invitation). str_eq i.token t && is_pending i.status) rows ≡ some a
    → count (reserves o) (update_where (λ (r : Invitation). r.id == a.id) (with_status s) rows)
        + one_if (a.org_id == o)
      ≡ count (reserves o) rows
unfolding IsDistinct
count-settled o t s [] a d n e = ground arith
count-settled o t s (x ∷ rows) a (h, d) n e =
    elim (Bool-cases (str_eq x.token t && is_pending x.status)) [
      | inl found ↦
          let here : x ≡ a = ground arith in
          let alone : update_where (λ (r : Invitation). r.id == a.id) (with_status s) rows ≡ rows =
            rw (← here) (
              update_where-not-any (λ (r : Invitation). r.id == x.id) (with_status s) rows
                (no_row_of_id x rows h)) in
          let waiting : is_pending x.status ≡ true = ground arith in
          let same_id = ==_refl x.id in rw alone (ground arith)
      | inr other ↦ elim (Bool-cases (x.id == a.id)) [
        | inr apart ↦ ground (arith, count-settled o t s rows a d n)
        | inl clash ↦
            let same : x.id ≡ a.id = eq_of_== x.id a.id clash in
            let twice : any (λ (r : Invitation). r.id == x.id) rows ≡ true =
              any-of-find-and (λ (i : Invitation). str_eq i.token t && is_pending i.status)
                (λ r. r.id == x.id) rows a (ground arith) (rw same (==_refl a.id)) in
            let never = no_row_of_id x rows h in ground arith
      ]
    ]

-- A successful acceptance is of a pending invitation, by `accept_invitation`.
pub accept-accepts :
    (e : Outside) (token full_name : String) (db db' : Db) (i : Invitation)
    → accept e token full_name db ≡ (ok tt, db')
    → get_pending token db ≡ some i
    → accept_invitation e i full_name db ≡ (ok tt, db')
unfolding accept
accept-accepts e token full_name db db' i h found = elim (Bool-cases (ltb i.expires_at e.now)) [
  | inl late ↦ ground arith
  | inr live ↦ elim (Result-cases ((accept_invitation e i full_name db).0)) [
    | inr (x, refused) ↦ ground arith
    | inl (tt, done) ↦ ground arith
  ]
]

-- Accepting an invitation turns the seat that it reserves into a membership: the sum of the members and
-- the pending invitations of every org stays, and the members of the invitation's org stay within the
-- seat limit of its active subscription.
pub accept-seats :
    (e : Outside) (token full_name : String) (db db' : Db) (i : Invitation)
    → IsDistinct db.invitations
    → accept e token full_name db ≡ (ok tt, db')
    → get_pending token db ≡ some i
    → ((o : Uuid)
        → member_count o db' + pending_count o db' ≡ member_count o db + pending_count o db)
      × ((sub : Subscription)
          → lock_active_team_sub i.org_id db ≡ some sub
          → member_count i.org_id db' ≤ sub.seat_limit)
unfolding member_count pending_count check_seat_at_accept get_pending
accept-seats e token full_name db db' i d h found =
    let (seated, members, invitations) =
      accept_invitation-writes e i full_name db db'
        (accept-accepts e token full_name db db' i h found) in
    (
      λ o.
          let joined =
            count-append (λ (m : OrgMember). m.org_id == o) db.members (invited_member e i ∷ []) in
          let settled = count-settled o token accepted db.invitations i d refl found in
          rw (members, invitations) (ground arith),
      λ sub active.
          let joined =
            count-append (λ (m : OrgMember). m.org_id == i.org_id) db.members
              (invited_member e i ∷ []) in
          rw members (ground arith),
    )
