-- ===== src/Users/Auth/Consumed.antt =====
-- A one-time token that was presented with success is used, whatever the view does next.
use mathlib.Core.Path.{subst}
use saasmint.Base.{
  ℕ, ◌≡◌, refl, ap, ◌∙◌, Bool, true, false, Option, none, some, String, ◌==◌, is_some, leb, find,
  any, update_where, find-eq-some, find-update_where, arith, inl, inr, Bool-cases, Option-cases,
}
use saasmint.Domain.{Time, User, OneTimeToken}
use saasmint.Database.{Db}
use saasmint.Database.Result.{ok, err, Error, Result-cases}
use saasmint.Users.Accounts.{Site}
use saasmint.Users.Tokens.{
  TokenEnv, create_refresh_token, find_user, read_one_time_token, is_claimable,
  claim_one_time_token, consume_one_time_token,
}
use saasmint.Users.Auth.{AuthEnv, token_response, verify_consumed, verify_email}

abbrev has_token : ℕ → OneTimeToken → Bool
has_token h t = t.token_hash == h

-- What a read that succeeds has found: an unused token that is claimable, and its user.
read-found :
    (now : Time) (h : ℕ) (t : OneTimeToken) (user : User) (db : Db)
    → read_one_time_token now h db ≡ ok (t, user)
    → (find (has_token h) db.one_time_tokens ≡ some t)
      × (find_user t.user_id db ≡ some user)
      × (is_claimable now h t ≡ true)
unfolding read_one_time_token
read-found now h t user db e = elim (Option-cases (find (has_token h) db.one_time_tokens)) [
  | inl missing ↦ ground arith
  | inr (r, there) ↦
      let key = find-eq-some (has_token h) db.one_time_tokens r there in
      elim (Option-cases (find_user r.user_id db)) [
        | inl nobody ↦ ground arith
        | inr (v, known) ↦ elim (Bool-cases (is_some r.used_at)) [
          | inl used ↦ ground arith
          | inr unused ↦ elim (Bool-cases (leb r.expires_at now)) [
            | inl expired ↦ ground arith
            | inr live ↦
                let same : (r, v) ≡ (t, user) = ground arith in
                let found : find (has_token h) db.one_time_tokens ≡ some t =
                  there ∙ ap (λ (p : OneTimeToken × User). some p.0) same in
                let known' : find_user t.user_id db ≡ some user =
                  subst (λ (p : OneTimeToken × User). find_user p.0.user_id db ≡ some p.1) same
                    known in
                let fits : is_claimable now h t ≡ true =
                  subst (λ (p : OneTimeToken × User). is_claimable now h p.0 ≡ true) same
                    (ground arith) in
                (found, known', fits)
          ]
        ]
      ]
]

-- What a consumption that succeeds has read and written.
consumed :
    (e : TokenEnv) (raw : String) (t : OneTimeToken) (user : User) (db db' : Db)
    → consume_one_time_token e raw db ≡ (ok (t, user), db')
    → (r : OneTimeToken) × (read_one_time_token e.now (e.hash_token raw) db ≡ ok (r, user))
      × (db'.users ≡ db.users)
      × (db'.one_time_tokens
          ≡ update_where
              (is_claimable e.now (e.hash_token raw))
              (λ t. record t { used_at = some e.now })
              db.one_time_tokens)
unfolding consume_one_time_token claim_one_time_token
consumed e raw t user db db' h =
    elim (Result-cases (read_one_time_token e.now (e.hash_token raw) db)) [
      | inr (x, refused) ↦ ground arith
      | inl ((r, v), found) ↦
          elim (Bool-cases (any (is_claimable e.now (e.hash_token raw)) db.one_time_tokens)) [
            | inr lost ↦ ground arith
            | inl won ↦ elim (Bool-cases v.is_active) [
              | inr gone ↦ ground arith
              | inl active ↦
                  let same : v ≡ user = ground arith in
                  (r, found ∙ ap (λ x. ok (r, x)) same, ground arith, ground arith)
            ]
          ]
    ]

-- A used token is refused as such.
read-used :
    (now : Time) (h : ℕ) (t : OneTimeToken) (user : User) (db : Db)
    → find (has_token h) db.one_time_tokens ≡ some t
    → find_user t.user_id db ≡ some user
    → is_some t.used_at ≡ true
    → read_one_time_token now h db ≡ err Error.token_used
unfolding read_one_time_token
read-used now h t user db found known used = rw (read_one_time_token, found, known, used) refl

-- A token that was consumed is refused as used.
pub consumed-used :
    (e e' : TokenEnv) (raw : String) (t : OneTimeToken) (user : User) (db db' : Db)
    → consume_one_time_token e raw db ≡ (ok (t, user), db')
    → e'.hash_token raw ≡ e.hash_token raw
    → consume_one_time_token e' raw db' ≡ (err Error.token_used, db')
unfolding consume_one_time_token find_user
consumed-used e e' raw t user db db' h same =
    let hash = e.hash_token raw in
    let (r, reads, users, written) = consumed e raw t user db db' h in
    let (found, known, fits) = read-found e.now hash r user db reads in
    let updated =
      find-update_where (has_token hash) (is_claimable e.now hash)
        (λ t. record t { used_at = some e.now }) db.one_time_tokens (λ x. refl) in
    let there : find (has_token hash) db'.one_time_tokens
        ≡ some (record r { used_at = some e.now }) =
      rw (written, updated, found, fits) refl in
    let known' : find_user r.user_id db' ≡ some user = rw (find_user, users) known in
    let again : read_one_time_token e'.now (e'.hash_token raw) db' ≡ err Error.token_used =
      rw same
        (read-used e'.now hash (record r { used_at = some e.now }) user db' there known' refl) in
    rw (consume_one_time_token, again) refl

abbrev is_password_required : Error → Bool
is_password_required Error.password_required = true
is_password_required x = false

read-other_error :
    (now : Time) (h : ℕ) (x : Error) (db : Db)
    → read_one_time_token now h db ≡ err x
    → is_password_required x ≡ false
unfolding read_one_time_token
read-other_error now h x db e = elim (Option-cases (find (has_token h) db.one_time_tokens)) [
  | inl missing ↦ ground arith
  | inr (r, there) ↦ elim (Option-cases (find_user r.user_id db)) [
    | inl nobody ↦ ground arith
    | inr (v, known) ↦ ground arith
  ]
]

consume-other_error :
    (e : TokenEnv) (raw : String) (x : Error) (db : Db)
    → (consume_one_time_token e raw db).0 ≡ err x
    → is_password_required x ≡ false
unfolding consume_one_time_token claim_one_time_token
consume-other_error e raw x db h =
    elim (Result-cases (read_one_time_token e.now (e.hash_token raw) db)) [
      | inr (y, refused) ↦ ground (arith, read-other_error e.now (e.hash_token raw) y db refused)
      | inl ((r, v), found) ↦ ground arith
    ]

-- The error of a missing password comes from the missing password.
verify_consumed-required :
    (e : AuthEnv) (t : OneTimeToken) (user : User) (v w' : Site)
    → verify_consumed e none (ok (t, user), v) ≡ (err Error.password_required, w')
    → v ≡ w'
unfolding token_response create_refresh_token
verify_consumed-required e t user v w' h = elim (Bool-cases user.has_password) [
  | inr none_set ↦ ground arith
  | inl set ↦ ground arith
]

-- An invitee who presents a verification token without a password is refused, and the token is used then: when the
-- same token is presented again, with whatever password, it is refused as used.
pub verify_email-burnt :
    (e e' : AuthEnv) (token : String) (password : Option String) (w w' : Site)
    → verify_email e token none w ≡ (err Error.password_required, w')
    → e'.one_time.hash_token token ≡ e.one_time.hash_token token
    → verify_email e' token password w' ≡ (err Error.token_used, w')
unfolding verify_email
verify_email-burnt e e' token password w w' h same =
    let first = consume_one_time_token e.one_time token w.db in
    elim (Result-cases first.0) [
      | inr (x, refused) ↦ ground (arith, consume-other_error e.one_time token x w.db refused)
      | inl ((t, user), taken) ↦
          let v : Site = record w { db = first.1 } in
          let stays : v ≡ w' =
            verify_consumed-required e t user v w' (rw (verify_email, taken) at h) in
          let whole : first ≡ (ok (t, user), first.1) = ap (λ r. (r, first.1)) taken in
          let again = consumed-used e.one_time e'.one_time token t user w.db first.1 whole same in
          subst (λ (x : Site). verify_email e' token password x ≡ (err Error.token_used, x)) stays
            (rw (verify_email, again) refl)
    ]
