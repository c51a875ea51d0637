-- ===== src/Orgs/Invitations/Final.antt =====
-- An invitation of Orgs/Invitations is answered once: what a token finds afterwards.
use text.Mathlib.Text.{◌==◌ as str_eq}
use saasmint.Base.{
  ◌≡◌, refl, ap, ◌⊎◌, inl, inr, false, not, ◌&&◌, ◌||◌, none, some, List, [], ◌∷◌, String, ◌==◌,
  ltb, find, any, update_where, arith, Bool-cases, Option-cases, update_where-not-any,
  find-of-not-any, ==_refl, path_of_str_eq,
}
use saasmint.Domain.{Invitation, InvitationStatus, accepted, expired, declined}
use saasmint.Database.{Db, enqueue}
use saasmint.Orgs.Seats.{check_seat_at_accept}
use saasmint.Database.Result.{ok, err, Error, Result-cases}
use saasmint.Orgs.Cascade.{is_pending}
use saasmint.Orgs.Invitations.{
  Outside, get_pending, save_status, decline_invitation, accept_invitation, accept,
  email_is_registered, create_user, insert_member, at_view,
}
use saasmint.Orgs.Invitations.Capacity.{IsDistinct, accept_invitation-writes}

other_token :
    (i : Invitation) (t : String) (rows : List Invitation)
    → any (λ (r : Invitation). r.id == i.id || str_eq r.token i.token) rows ≡ false
    → i.token ≡ t
    → any (λ (r : Invitation). str_eq r.token t && is_pending r.status) rows ≡ false
other_token i t [] h e = refl
other_token i t (x ∷ rows) h e = ground (arith, other_token i t rows, ap (str_eq x.token) e)

no_row_of_id :
    (i : Invitation) (rows : List Invitation)
    → any (λ (r : Invitation). r.id == i.id || str_eq r.token i.token) rows ≡ false
    → any (λ (r : Invitation). r.id == i.id) rows ≡ false
no_row_of_id i [] h = refl
no_row_of_id i (x ∷ rows) h = ground (arith, no_row_of_id i rows)

settled-gone :
    (t : String) (s : InvitationStatus) (rows : List Invitation) (a : Invitation)
    → IsDistinct rows
    → is_pending s ≡ false
    → find (λ (i : Invitation). str_eq i.token t && is_pending i.status) rows ≡ some a
    → any
        (λ (i : Invitation). str_eq i.token t && is_pending i.status)
        (update_where (λ (r : Invitation). r.id == a.id) (λ r. record r { status = s }) rows)
      ≡ false
unfolding IsDistinct
settled-gone t s [] a d n e = refl
settled-gone t s (x ∷ rows) a (h, d) n e =
    elim (Bool-cases (str_eq x.token t && is_pending x.status)) [
      | inl found ↦
          let here : x ≡ a = ground arith in
          let alone : update_where (λ (r : Invitation). r.id == a.id) (λ r. record r { status = s })
                rows
              ≡ rows =
            rw (← here) (
              update_where-not-any (λ (r : Invitation). r.id == x.id) (λ r. record r { status = s })
                rows (no_row_of_id x rows h)) in
          let rest = other_token x t rows h (path_of_str_eq x.token t (ground arith)) in
          let same_id = ==_refl x.id in rw alone (ground arith)
      | inr other ↦ ground (arith, settled-gone t s rows a d n)
    ]

-- A refused `accept_invitation` has written nothing.
pub accept_invitation-refused :
    (e : Outside) (i : Invitation) (full_name : String) (db : Db) (x : Error)
    → (accept_invitation e i full_name db).0 ≡ err x
    → (accept_invitation e i full_name db).1 ≡ db
unfolding accept_invitation create_user insert_member enqueue check_seat_at_accept
accept_invitation-refused e i full_name db x h =
    elim (Result-cases (check_seat_at_accept i.org_id db)) [
      | inr (y, refused) ↦ rw (accept_invitation, refused) refl
      | inl (tt, seated) ↦ ground arith
    ]

saved :
    (i : Invitation) (s : InvitationStatus) (db : Db)
    → (save_status i s db).invitations
      ≡ update_where
          (λ (r : Invitation). r.id == i.id)
          (λ r. record r { status = s })
          db.invitations
unfolding save_status
saved i s db = refl

spent :
    (token : String) (s : InvitationStatus) (db db' : Db) (i : Invitation)
    → IsDistinct db.invitations
    → is_pending s ≡ false
    → get_pending token db ≡ some i
    → db'.invitations
      ≡ update_where
          (λ (r : Invitation). r.id == i.id)
          (λ r. record r { status = s })
          db.invitations
    → get_pending token db' ≡ none
unfolding get_pending
spent token s db db' i d n found written =
    rw (get_pending, written)
      (find-of-not-any (λ (r : Invitation). str_eq r.token token && is_pending r.status)
        (update_where (λ (r : Invitation). r.id == i.id) (λ r. record r { status = s })
          db.invitations)
        (settled-gone token s db.invitations i d n found))

-- An acceptance of a pending invitation either fails and changes nothing, or it succeeds or finds the
-- invitation expired, and then the token is never pending again.
pub accept-final :
    (e : Outside) (token full_name : String) (db : Db) (i : Invitation)
    → IsDistinct db.invitations
    → get_pending token db ≡ some i
    → (((x : Error) × ((accept e token full_name db).0 ≡ err x))
        × ((accept e token full_name db).1 ≡ db))
      ⊎ ((((accept e token full_name db).0 ≡ ok tt)
            ⊎ ((accept e token full_name db).0 ≡ err Error.gone))
          × (get_pending token (accept e token full_name db).1 ≡ none))
unfolding accept
accept-final e token full_name db i d found = elim (Bool-cases (ltb i.expires_at e.now)) [
  | inl late ↦ inr (
    rw (accept, found, late) (inr refl),
    rw (accept, found, late)
        (spent token expired db (save_status i expired db) i d refl found (saved i expired db)),
  )
  | inr live ↦ elim (Bool-cases (email_is_registered e i.email db)) [
    | inl taken ↦ inl (
      (Error.conflict, rw (accept, found, live, taken) refl),
      rw (accept, found, live, taken) refl,
    )
    | inr free ↦ elim (Bool-cases (not (e.is_valid_name full_name))) [
      | inl bad ↦ inl (
        (Error.value_error, rw (accept, found, live, free, bad) refl),
        rw (accept, found, live, free, bad) refl,
      )
      | inr good ↦ elim (Result-cases ((accept_invitation e i full_name db).0)) [
        | inr (x, refused) ↦ inl (
          (at_view x, rw (accept, found, live, free, good, refused) refl),
          rw (accept, found, live, free, good, refused)
              (accept_invitation-refused e i full_name db x refused),
        )
        | inl (tt, done) ↦ inr (
          inl (rw (accept, found, live, free, good, done) refl),
          rw (accept, found, live, free, good, done)
              (spent token accepted db (accept_invitation e i full_name db).1 i d refl found
                (accept_invitation-writes e i full_name db (accept_invitation e i full_name db).1
                  (ap (λ r. (r, (accept_invitation e i full_name db).1)) done)).2),
        )
      ]
    ]
  ]
]

-- A declined invitation's token is never pending again.
pub decline_invitation-final :
    (e : Outside) (user_email token : String) (db db' : Db)
    → IsDistinct db.invitations
    → decline_invitation e user_email token db ≡ (ok tt, db')
    → (i : Invitation) × (get_pending token db ≡ some i)
      × (e.lower user_email ≡ e.lower i.email)
      × (get_pending token db' ≡ none)
unfolding decline_invitation save_status
decline_invitation-final e user_email token db db' d h =
    elim (Option-cases (get_pending token db)) [
      | inl missing ↦ ground arith
      | inr (i, found) ↦ (
        i,
        found,
        path_of_str_eq (e.lower user_email) (e.lower i.email) (ground arith),
        spent token declined db db' i d refl found (ground arith),
      )
    ]
