-- ===== src/Users/Tokens.antt =====
-- The server-side tokens of core/apps/users/authentication.py: refresh tokens, and the one-time tokens of
-- which the email verification, password reset and social link tokens are kinds (one table of them here).
pub mod Rotation
pub mod Redeeming
use saasmint.Base.{
  ℕ, ◌+◌, Bool, true, false, not, ◌&&◌, Option, none, some, List, [], ◌∷◌, ◌++◌, String, ◌==◌, leb,
  ltb, if◌then◌else◌, is_some, find, any, update_where,
}
use saasmint.Domain.{Uuid, Time, User, RefreshToken, OneTimeToken}
use saasmint.Database.{Db, Action}
use saasmint.Database.Result.{Result, ok, err, Error}

-- The clock, `secrets.token_urlsafe` and `_hash_token` (SHA-256).
pub record TokenEnv : Type 0 where
  pub now : Time
  pub fresh_token : String
  pub hash_token : String → ℕ

-- `REFRESH_TOKEN_LIFETIME` in seconds.
abbrev pub refresh_token_lifetime : ℕ
refresh_token_lifetime = 604800

unfoldable pub find_user : Uuid → Db → Option User
find_user u db = find (λ (r : User). r.id == u) db.users

abbrev pub has_hash : ℕ → RefreshToken → Bool
has_hash h t = t.token_hash == h

abbrev pub is_live : Uuid → RefreshToken → Bool
is_live u t = t.user_id == u && not (is_some t.revoked_at)

-- `create_refresh_token`; the column `token_hash` is unique.
unfoldable pub create_refresh_token : TokenEnv → User → Action String
create_refresh_token e user db =
    if any (has_hash (e.hash_token e.fresh_token)) db.refresh_tokens
    then (err Error.integrity_error, db)
    else (
      ok e.fresh_token,
      record db {
        refresh_tokens =
            db.refresh_tokens
            ++ (record {
              user_id = user.id;
              token_hash = e.hash_token e.fresh_token;
              expires_at = e.now + refresh_token_lifetime;
              revoked_at = none;
            })
              ∷ [];
      },
    )

-- `revoke_all_refresh_tokens`
unfoldable pub revoke_all_refresh_tokens : TokenEnv → Uuid → Db → Db
revoke_all_refresh_tokens e u db = record db {
  refresh_tokens =
      update_where (is_live u) (λ t. record t { revoked_at = some e.now }) db.refresh_tokens;
}

-- `revoke_refresh_token`
unfoldable pub revoke_refresh_token : TokenEnv → String → Db → Db
revoke_refresh_token e raw db = record db {
  refresh_tokens =
      update_where (λ t. has_hash (e.hash_token raw) t && not (is_some t.revoked_at))
        (λ t. record t { revoked_at = some e.now }) db.refresh_tokens;
}

-- `rt.revoked_at = now; rt.save(update_fields=["revoked_at"])`
unfoldable pub save_revoked : TokenEnv → RefreshToken → Db → Db
save_revoked e rt db = record db {
  refresh_tokens =
      update_where (has_hash rt.token_hash) (λ t. record t { revoked_at = some e.now })
        db.refresh_tokens;
}

-- `RefreshToken.objects.select_related("user").get(token_hash=…)`: an inner join.
unfoldable pub get_refresh_token : ℕ → Db → Option (RefreshToken × User)
unfolding find_user
get_refresh_token h db = elim (find (has_hash h) db.refresh_tokens) [
  | none ↦ none
  | some rt ↦ elim (find_user rt.user_id db) [ none ↦ none | some user ↦ some (rt, user) ]
]

abbrev with_user : User → Result String × Db → Result (User × String) × Db
with_user user (ok raw, db) = (ok (user, raw), db)
with_user user (err x, db) = (err x, db)

-- `rotate_refresh_token`
unfoldable pub rotate_refresh_token : TokenEnv → String → Action (User × String)
unfolding get_refresh_token revoke_all_refresh_tokens save_revoked create_refresh_token
rotate_refresh_token e raw db = elim (get_refresh_token (e.hash_token raw) db) [
  | none ↦ (err Error.invalid_token, db)
  | some (rt, user) ↦
      if is_some rt.revoked_at
      then (err Error.token_revoked, revoke_all_refresh_tokens e user.id db)
      else if leb rt.expires_at e.now
      then (err Error.token_expired, db)
      else if not user.is_active
      then (err Error.inactive_user, db)
      else with_user user (create_refresh_token e user (save_revoked e rt db))
]

-- `_create_one_time_token`; the column `token_hash` is unique.
unfoldable pub create_one_time_token : TokenEnv → User → (lifetime : ℕ) → Action String
create_one_time_token e user lifetime db =
    if any (λ (t : OneTimeToken). t.token_hash == e.hash_token e.fresh_token) db.one_time_tokens
    then (err Error.integrity_error, db)
    else (
      ok e.fresh_token,
      record db {
        one_time_tokens =
            db.one_time_tokens
            ++ (record {
              user_id = user.id;
              token_hash = e.hash_token e.fresh_token;
              expires_at = e.now + lifetime;
              used_at = none;
            })
              ∷ [];
      },
    )

-- The read of `_consume_one_time_token` with its three refusals, and the token's user.
unfoldable pub read_one_time_token :
    (now : Time) (token_hash : ℕ) → Db → Result (OneTimeToken × User)
unfolding find_user
read_one_time_token now h db =
    elim (find (λ (t : OneTimeToken). t.token_hash == h) db.one_time_tokens) [
      | none ↦ err Error.invalid_token
      | some t ↦ elim (find_user t.user_id db) [
        | none ↦ err Error.invalid_token
        | some user ↦
            if is_some t.used_at
            then err Error.token_used
            else if leb t.expires_at now
            then err Error.token_expired
            else ok (t, user)
      ]
    ]

abbrev pub is_claimable : (now : Time) (token_hash : ℕ) → OneTimeToken → Bool
is_claimable now h t = t.token_hash == h && (not (is_some t.used_at) && ltb now t.expires_at)

-- The conditional UPDATE of `_consume_one_time_token`, with the refusal when it updates no row.
unfoldable pub claim_one_time_token : (now : Time) (token_hash : ℕ) → Action (Unit {0})
claim_one_time_token now h db =
    if any (is_claimable now h) db.one_time_tokens
    then (
      ok tt,
      record db {
        one_time_tokens =
            update_where (is_claimable now h) (λ t. record t { used_at = some now })
              db.one_time_tokens;
      },
    )
    else (err Error.token_used, db)

-- `_consume_one_time_token`: the row is returned with its new `used_at`.
unfoldable pub consume_one_time_token : TokenEnv → String → Action (OneTimeToken × User)
unfolding read_one_time_token claim_one_time_token
consume_one_time_token e raw db = elim (read_one_time_token e.now (e.hash_token raw) db) [
  | err x ↦ (err x, db)
  | ok (t, user) ↦
      let (claimed, db') = claim_one_time_token e.now (e.hash_token raw) db in
      elim claimed [
        | err x ↦ (err x, db')
        | ok _ ↦
            if user.is_active
            then (ok (record t { used_at = some e.now }, user), db')
            else (err Error.inactive_user, db')
      ]
]
